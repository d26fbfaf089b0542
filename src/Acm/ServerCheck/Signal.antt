-- ===== src/Acm/ServerCheck/Signal.antt =====
-- What a connection and the signal to stop do to a health check.
use ghactions_rust_test.Prelude.{
  ℕ, ◌≡◌, ◌≢◌, Bool, true, false, List, [], ◌∷◌, ◌++◌, Option, some, Text, ok, any, All, arith,
  ◌||◌, if◌then◌else◌,
}
use ghactions_rust_test.Backoff.{Backoff}
use ghactions_rust_test.Acm.ServerCheck.{
  Pause, Attempt, Round, Outcome, waited, connected, refused, sent, killed, polling, check,
  on_round, give_up,
}

-- The signal ends this wait, or this attempt.
abbrev pub cuts_pause : Pause → Bool
cuts_pause waited = false
cuts_pause Pause.interrupted = true

abbrev pub cuts_attempt : Attempt → Bool
cuts_attempt Attempt.interrupted = true
cuts_attempt _ = false

abbrev pub is_interrupted : Round → Bool
is_interrupted r = cuts_pause r.pause || cuts_attempt r.attempt

abbrev connects : Attempt → Bool
connects connected = true
connects _ = false

-- A round that ends with a connection to the server.
abbrev pub is_connected : Round → Bool
is_connected r = if cuts_pause r.pause then false else connects r.attempt

module _ {B : Type 0} (policy : Backoff B) (uri : Text) where
  on_round-sent_ok :
      (latest : Option Text) (next : Option ℕ) (p : Pause) (a : Attempt) (again : Text → Outcome)
      (u : Unit {0}) (rest : Bool)
      → ((x : Text) → again x ≡ sent (ok u) → rest ≡ true)
      → on_round uri latest next p a again ≡ sent (ok u)
      → (if (if cuts_pause p then false else connects a) then true else rest) ≡ true
  unfolding on_round give_up
  on_round-sent_ok latest (some _) waited (refused x) again u rest h e = h x e
  on_round-sent_ok latest next p a again u rest h e = ground arith

  -- A check that succeeds has made a connection.
  pub check-sent_ok :
      (b : B) (latest : Option Text) (rs : List Round) (u : Unit {0})
      → check policy uri b latest rs ≡ sent (ok u)
      → any is_connected rs ≡ true
  unfolding check
  check-sent_ok b latest [] u h = absurd (cc)
  check-sent_ok b latest (r ∷ rs) u h =
      let (next, b') = policy.next_backoff b in
      on_round-sent_ok latest next r.pause r.attempt (λ x. check policy uri b' (some x) rs) u
        (any is_connected rs) (λ x. check-sent_ok b' (some x) rs u) h

  on_round-ne-killed :
      (latest : Option Text) (next : Option ℕ) (p : Pause) (a : Attempt) (again : Text → Outcome)
      → cuts_pause p || cuts_attempt a ≡ false
      → ((x : Text) → again x ≢ killed)
      → on_round uri latest next p a again ≢ killed
  unfolding on_round give_up
  on_round-ne-killed latest (some _) waited (refused x) again n h = h x
  on_round-ne-killed latest next p a again n h = ground arith

  -- Without the signal a check is not killed.
  pub check-ne-killed :
      (b : B) (latest : Option Text) (rs : List Round)
      → All (λ r. is_interrupted r ≡ false) rs
      → check policy uri b latest rs ≢ killed
  unfolding check
  check-ne-killed b latest [] h = cc
  check-ne-killed b latest (r ∷ rs) (h, hs) =
      let (next, b') = policy.next_backoff b in
      on_round-ne-killed latest next r.pause r.attempt (λ x. check policy uri b' (some x) rs) h
        (λ x. check-ne-killed b' (some x) rs hs)

  interrupted-ne-polling :
      (latest : Option Text) (next : Option ℕ) (p : Pause) (a : Attempt) (again : Text → Outcome)
      → cuts_pause p || cuts_attempt a ≡ true
      → on_round uri latest next p a again ≢ polling
  unfolding on_round give_up
  interrupted-ne-polling latest next p a again n = ground arith

  on_round-ne-polling :
      (latest : Option Text) (next : Option ℕ) (p : Pause) (a : Attempt) (again : Text → Outcome)
      → ((x : Text) → again x ≢ polling)
      → on_round uri latest next p a again ≢ polling
  unfolding on_round give_up
  on_round-ne-polling latest (some _) waited (refused x) again h = h x
  on_round-ne-polling latest next p a again h = ground arith

  -- Whatever a check has done, it does not go on after a round with the signal.
  pub check-interrupted :
      (b : B) (latest : Option Text) (rs : List Round) (r : Round)
      → is_interrupted r ≡ true
      → check policy uri b latest (rs ++ r ∷ []) ≢ polling
  unfolding check
  check-interrupted b latest [] r h =
      interrupted-ne-polling latest (policy.next_backoff b).0 r.pause r.attempt _ h
  check-interrupted b latest (q ∷ rs) r h =
      let (next, b') = policy.next_backoff b in
      on_round-ne-polling latest next q.pause q.attempt
        (λ x. check policy uri b' (some x) (rs ++ r ∷ []))
        (λ x. check-interrupted b' (some x) rs r h)
