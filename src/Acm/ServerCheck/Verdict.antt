-- ===== src/Acm/ServerCheck/Verdict.antt =====
-- What the end of the health check says of the attempts to connect, and that it comes to an end.
use ghactions_rust_test.Prelude.{
  ℕ, ◌<◌, ◌≡◌, ◌≢◌, refl, ap, List, [], ◌∷◌, ◌++◌, map, Option, none, some, Text, ok, err, length,
  arith, ◌⊎◌, inl, inr,
}
use ghactions_rust_test.Backoff.{Backoff}
use ghactions_rust_test.Acm.Errors.{not_ready, too_many_failures}
use ghactions_rust_test.Acm.ServerCheck.{
  Pause, waited, interrupted, Attempt, connected, refused, impatient, Round, Outcome, sent, killed,
  panicked, polling, give_up, on_round, check,
}

-- A round whose connection is refused.
abbrev pub refusal : Text → Round
refusal e = record { pause = waited; attempt = refused e }

-- The error of the last refusal.
abbrev pub last_error : Option Text → List Text → Option Text
last_error latest [] = latest
last_error latest (e ∷ es) = last_error (some e) es

-- The rounds begin with one that comes to this attempt.
pub record Tries (a : Attempt) (rs : List Round) : Type 0 where
  pub later : List Round
  pub first : rs ≡ record { pause = waited; attempt = a } ∷ later

-- The rounds begin with one in which the signal came.
pub record Interrupted (rs : List Round) : Type 0 where
  pub round : Round
  pub later : List Round
  pub first : rs ≡ round ∷ later
  pub signal : (round.pause ≡ Pause.interrupted) ⊎ (round.attempt ≡ Attempt.interrupted)

-- A round was begun.
pub record Begun (rs : List Round) : Type 0 where
  pub round : Round
  pub later : List Round
  pub first : rs ≡ round ∷ later

-- What an outcome says, after the refusals, of the latest error, of what the policy says next, and
-- of the rounds that are left.
abbrev pub Verdict : Text → Option Text → Option ℕ → List Round → Outcome → Type 0
Verdict uri latest next rs (sent (ok _)) = (next ≢ none) × Tries connected rs
Verdict uri latest next rs (sent (err e)) =
    ((e ≡ not_ready) × (next ≢ none) × Tries impatient rs)
    ⊎ ((x : Text) × (latest ≡ some x) × (e ≡ too_many_failures uri x) × (next ≡ none) × Begun rs)
Verdict uri latest next rs killed = (next ≢ none) × Interrupted rs
Verdict uri latest next rs panicked = (latest ≡ none) × (next ≡ none) × Begun rs
Verdict uri latest next rs polling = rs ≡ []

module _ {B : Type 0} (policy : Backoff B) where
  -- The policy after so many refusals.
  abbrev pub later_policy : B → List Text → B
  later_policy b [] = b
  later_policy b (e ∷ es) = later_policy (policy.next_backoff b).1 es

  -- The policy has let each of these rounds begin.
  abbrev pub AllBegun : B → List Text → Type 0
  AllBegun b [] = Unit
  AllBegun b (e ∷ es) = ((policy.next_backoff b).0 ≢ none) × AllBegun (policy.next_backoff b).1 es

  pub record IsVerdict (uri : Text) (b : B) (latest : Option Text) (rs : List Round) (o : Outcome)
      : Type 0 where
    pub refusals : List Text
    pub rest : List Round
    pub whole : rs ≡ map refusal refusals ++ rest
    pub begun : AllBegun b refusals
    pub verdict :
        Verdict uri
          (last_error latest refusals)
          (policy.next_backoff (later_policy b refusals)).0
          rest
          o

module _ {B : Type 0} (policy : Backoff B) (uri : Text) where
  at_once :
      (b : B) (latest : Option Text) (next : Option ℕ) (rs : List Round) (o : Outcome)
      → (policy.next_backoff b).0 ≡ next
      → Verdict uri latest next rs o
      → IsVerdict policy uri b latest rs o
  at_once b latest next rs o e v = record {
    refusals = [];
    rest = rs;
    whole = refl;
    begun = tt;
    verdict = rw e v;
  }

  after_refusal :
      (b : B) (latest : Option Text) (e : Text) (rs : List Round) (o : Outcome)
      → (policy.next_backoff b).0 ≢ none
      → IsVerdict policy uri (policy.next_backoff b).1 (some e) rs o
      → IsVerdict policy uri b latest (refusal e ∷ rs) o
  after_refusal b latest e rs o n v = record {
    refusals = e ∷ v.refusals;
    rest = v.rest;
    whole = ap (λ l. refusal e ∷ l) v.whole;
    begun = (n, v.begun);
    verdict = v.verdict;
  }

  give_up-Verdict :
      (latest : Option Text) (r : Round) (rs : List Round)
      → Verdict uri latest none (r ∷ rs) (give_up uri latest)
  unfolding give_up
  give_up-Verdict none r rs = (refl, refl, record { round = r; later = rs; first = refl })
  give_up-Verdict (some e) r rs =
      inr (e, refl, refl, refl, record { round = r; later = rs; first = refl })

  on_round-IsVerdict :
      (b : B) (latest : Option Text) (next : Option ℕ) (p : Pause) (a : Attempt) (rs : List Round)
      (again : Text → Outcome)
      → (policy.next_backoff b).0 ≡ next
      → ((e : Text) → IsVerdict policy uri (policy.next_backoff b).1 (some e) rs (again e))
      → IsVerdict policy uri b latest
          (record { pause = p; attempt = a } ∷ rs)
          (on_round uri latest next p a again)
  unfolding on_round
  on_round-IsVerdict b latest none p a rs again n ih =
      at_once b latest none _ _ n (give_up-Verdict latest _ rs)
  on_round-IsVerdict b latest (some t) interrupted a rs again n ih =
      at_once b latest (some t) _ killed n
        (λ x. cc x, record { round = _; later = rs; first = refl; signal = inl refl })
  on_round-IsVerdict b latest (some t) waited connected rs again n ih =
      at_once b latest (some t) _ (sent (ok tt)) n (λ x. cc x, record { later = rs; first = refl })
  on_round-IsVerdict b latest (some t) waited (refused e) rs again n ih =
      after_refusal b latest e rs _ (λ x. cc (n, x)) (ih e)
  on_round-IsVerdict b latest (some t) waited impatient rs again n ih =
      at_once b latest (some t) _ (sent (err not_ready)) n
        (inl (refl, λ x. cc x, record { later = rs; first = refl }))
  on_round-IsVerdict b latest (some t) waited Attempt.interrupted rs again n ih =
      at_once b latest (some t) _ killed n
        (λ x. cc x, record { round = _; later = rs; first = refl; signal = inr refl })

  -- The rounds begin with refusals, which the policy has all let begin. After them the health check
  -- ends, in one of these ways: in a round that the policy lets begin, with success where it connects,
  -- with NotReady where it takes too long, and without a result where the signal interrupts it; in a
  -- round for which the policy gives up, with TooManyFailures, which names the last refusal, and with
  -- a panic where there was no error; and it polls on only where there are no further rounds.
  pub check-IsVerdict :
      (b : B) (latest : Option Text) (rs : List Round)
      → IsVerdict policy uri b latest rs (check policy uri b latest rs)
  unfolding check
  check-IsVerdict b latest [] = at_once b latest _ [] polling refl refl
  check-IsVerdict b latest (r ∷ rs) =
      let (next, b') = policy.next_backoff b in
      on_round-IsVerdict b latest next r.pause r.attempt rs _ refl
        (λ e. check-IsVerdict b' (some e) rs)

  -- With an error at hand the check does not panic.
  not_panicked_of_error :
      (b : B) (e : Text) (rs : List Round) → check policy uri b (some e) rs ≢ panicked
  unfolding check give_up on_round
  not_panicked_of_error b e [] = cc
  not_panicked_of_error b e (r ∷ rs) =
      let (next, b') = policy.next_backoff b in
      later next r.pause r.attempt (λ x. check policy uri b' (some x) rs)
        (λ x. not_panicked_of_error b' x rs)
    where
      later :
          (next : Option ℕ) (p : Pause) (a : Attempt) (again : Text → Outcome)
          → ((x : Text) → again x ≢ panicked)
          → on_round uri (some e) next p a again ≢ panicked
      later (some _) waited (refused x) again h = h x
      later next p a again h = ground arith

  -- If the policy lets the check start, it never panics.
  pub check-not_panicked :
      (b : B) (rs : List Round)
      → (policy.next_backoff b).0 ≢ none
      → check policy uri b none rs ≢ panicked
  unfolding check on_round
  check-not_panicked b [] h = cc
  check-not_panicked b (r ∷ rs) h =
      let (next, b') = policy.next_backoff b in
      started next r.pause r.attempt (λ x. check policy uri b' (some x) rs) h
        (λ x. not_panicked_of_error b' x rs)
    where
      started :
          (next : Option ℕ) (p : Pause) (a : Attempt) (again : Text → Outcome)
          → next ≢ none
          → ((x : Text) → again x ≢ panicked)
          → on_round uri none next p a again ≢ panicked
      started (some _) waited (refused x) again n h = h x
      started next p a again n h = ground arith

-- A bound on how often the policy still says to wait.
pub record GivesUp {B : Type 0} (policy : Backoff B) (left : B → ℕ) : Type 0 where
  pub wait : (b : B) → (policy.next_backoff b).0 ≢ none → left (policy.next_backoff b).1 < left b

module _ {B : Type 0} (policy : Backoff B) (uri : Text) (left : B → ℕ)
    (gives_up : GivesUp policy left) where
  -- With a policy that gives up, the check has ended after one round more than its bound.
  pub check-ne-polling :
      (b : B) (latest : Option Text) (rs : List Round)
      → left b < length rs
      → check policy uri b latest rs ≢ polling
  unfolding check on_round give_up
  check-ne-polling b latest [] h = absurd (omega arith)
  check-ne-polling b latest (r ∷ rs) h =
      let (next, b') = policy.next_backoff b in
      ended latest next r.pause r.attempt (λ x. check policy uri b' (some x) rs)
        (λ n x. check-ne-polling b' (some x) rs (omega (arith, gives_up.wait b n)))
    where
      ended :
          (latest : Option Text) (next : Option ℕ) (p : Pause) (a : Attempt)
          (again : Text → Outcome)
          → (next ≢ none → (x : Text) → again x ≢ polling)
          → on_round uri latest next p a again ≢ polling
      ended latest none p a again h = ground arith
      ended latest (some t) waited (refused x) again h = h (λ e. cc e) x
      ended latest (some t) p a again h = ground arith
