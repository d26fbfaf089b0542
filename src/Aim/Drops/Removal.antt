-- ===== src/Aim/Drops/Removal.antt =====
-- When the task of a drop has removed what was dropped.
use ghactions_rust_test.Prelude.{
  ℕ, ◌≡◌, ◌≢◌, refl, ap, List, [], ◌∷◌, ◌++◌, map, length, zero, suc, ◌↔◌, Option, none, some, Text,
  ok, err,
}
use ghactions_rust_test.Errors.{AcmError, AcmResult}
use ghactions_rust_test.Backoff.{Backoff}
use ghactions_rust_test.Aim.Drops.{Destruction, removed, destroy_on, destroy}

module _ {B : Type 0} (policy : Backoff B) where
  -- The policy says to wait, this many times in a row.
  abbrev pub Waits : B → ℕ → Type 0
  Waits b zero = Unit
  Waits b (suc n) = ((policy.next_backoff b).0 ≢ none) × Waits (policy.next_backoff b).1 n

  -- The command failed some times, each with a pause after it, and then succeeded.
  pub record Removes (b : B) (answers : List (AcmResult Text)) : Type 0 where
    pub failures : List AcmError
    pub out : Text
    pub later : List (AcmResult Text)
    pub whole : answers ≡ map err failures ++ ok out ∷ later
    pub waits : Waits b (length failures)

  again :
      (b : B) (e : AcmError) (answers : List (AcmResult Text))
      → (policy.next_backoff b).0 ≢ none
      → Removes (policy.next_backoff b).1 answers
      → Removes b (err e ∷ answers)
  again b e answers n r = record {
    failures = e ∷ r.failures;
    out = r.out;
    later = r.later;
    whole = ap (λ l. err e ∷ l) r.whole;
    waits = (n, r.waits);
  }

  -- One answer: it was the success, or there was a pause.
  one_answer :
      (pause : Option ℕ) (e : AcmError) (pauses : List ℕ) (rest : List ℕ → Destruction)
      → destroy_on pause (err e) pauses rest ≡ removed
      → (pause ≢ none) × ((p : ℕ) × (rest (p ∷ pauses) ≡ removed))
  unfolding destroy_on
  one_answer none e pauses rest h = cc
  one_answer (some p) e pauses rest h = ((λ x. cc x), (p, h))

  Removes_of_removed :
      (b : B) (pauses : List ℕ) (answers : List (AcmResult Text))
      → destroy policy b pauses answers ≡ removed
      → Removes b answers
  unfolding destroy
  Removes_of_removed b pauses [] h = cc
  Removes_of_removed b pauses (ok out ∷ answers) h = record {
    failures = [];
    out = out;
    later = answers;
    whole = refl;
    waits = tt;
  }
  Removes_of_removed b pauses (err e ∷ answers) h =
      let (n, (p, k)) = one_answer (policy.next_backoff b).0 e pauses _ h in
      again b e answers n (Removes_of_removed (policy.next_backoff b).1 (p ∷ pauses) answers k)

  destroyed_on :
      (pause : Option ℕ) (e : AcmError) (pauses : List ℕ) (rest : List ℕ → Destruction)
      → pause ≢ none
      → ((pauses : List ℕ) → rest pauses ≡ removed)
      → destroy_on pause (err e) pauses rest ≡ removed
  unfolding destroy_on
  destroyed_on none e pauses rest n h = absurd (n refl)
  destroyed_on (some p) e pauses rest n h = h (p ∷ pauses)

  destroy-map :
      (b : B) (pauses : List ℕ) (failures : List AcmError) (out : Text)
      (later : List (AcmResult Text))
      → Waits b (length failures)
      → destroy policy b pauses (map err failures ++ ok out ∷ later) ≡ removed
  unfolding destroy destroy_on
  destroy-map b pauses [] out later w = success (policy.next_backoff b).0
    where
      success :
          (pause : Option ℕ)
          → destroy_on pause
              (ok out)
              pauses
              (λ pauses. destroy policy (policy.next_backoff b).1 pauses later)
            ≡ removed
      success none = refl
      success (some p) = refl
  destroy-map b pauses (e ∷ failures) out later w =
      destroyed_on (policy.next_backoff b).0 e pauses _ w.0
        (λ pauses. destroy-map (policy.next_backoff b).1 pauses failures out later w.1)

  -- The task of a drop has removed its image or namespace exactly when the command has succeeded
  -- after failures that the policy each let it wait for.
  pub destroy-removed_iff :
      (b : B) (pauses : List ℕ) (answers : List (AcmResult Text))
      → (destroy policy b pauses answers ≡ removed) ↔ Removes b answers
  destroy-removed_iff b pauses answers = (
    Removes_of_removed b pauses answers,
    λ r. rw r.whole (destroy-map b pauses r.failures r.out r.later r.waits),
  )
