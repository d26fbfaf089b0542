-- ===== src/Aim/Drops/Rounds.antt =====
-- A namespace is removed once its images are.
use ghactions_rust_test.Prelude.{
  ℕ, zero, suc, ◌≡◌, ◌≢◌, refl, List, [], ◌∷◌, Option, none, some, Text, text, ok, err, Run,
  returns,
}
use ghactions_rust_test.Errors.{AcmError, AcmResult}
use ghactions_rust_test.Backoff.{Backoff}
use ghactions_rust_test.Os.{Arg, Process, cmd}
use ghactions_rust_test.Aim.Containerd.{namespace}
use ghactions_rust_test.Aim.Drops.Removal.{Waits}
use ghactions_rust_test.Aim.Drops.{
  Destruction, removed, removal_args, end_round, rounds, drop_namespace,
}

module _ {B W : Type 0} (policy : Backoff B) (run : Text → List Arg → W → Process × W) where
  succeeds_at :
      (pause : Option ℕ) (out : Text) (pauses : List ℕ) (w : W)
      (again : List ℕ → W → Run Destruction × W)
      → (end_round policy run pause (returns (ok out)) pauses w again).0 ≡ returns removed
  unfolding end_round
  succeeds_at none out pauses w again = refl
  succeeds_at (some p) out pauses w again = refl

  goes_on :
      (pause : Option ℕ) (e : AcmError) (pauses : List ℕ) (w : W)
      (again : List ℕ → W → Run Destruction × W)
      → pause ≢ none
      → ((pauses : List ℕ) → (again pauses w).0 ≡ returns removed)
      → (end_round policy run pause (returns (err e)) pauses w again).0 ≡ returns removed
  unfolding end_round
  goes_on none e pauses w again n h = absurd (n refl)
  goes_on (some p) e pauses w again n h = h (p ∷ pauses)

module _ {B W : Type 0} (policy : Backoff B) (run : Text → List Arg → W → Process × W)
    (others : W → W) where
  -- What the command of a namespace's removal answers, and the world after it and after a pause.
  abbrev pub answer : Text → W → Run (AcmResult Text)
  answer ns w =
      cmd (run (text "ctr") (removal_args (namespace ns)) w).0 (text "ctr")
        (removal_args (namespace ns))

  abbrev pub next : Text → W → W
  next ns w = others (run (text "ctr") (removal_args (namespace ns)) w).1

  -- containerd refuses to remove a namespace that holds images, and removes one that holds none.
  pub record Refuses (is_empty : Text → W → Type 0) : Type 0 where
    pub full :
        (ns : Text) (w : W) → ¬ is_empty ns w → (e : AcmError) × (answer ns w ≡ returns (err e))
    pub empty :
        (ns : Text) (w : W) → is_empty ns w → (out : Text) × (answer ns w ≡ returns (ok out))

  -- In this many rounds the namespace still holds images, and then it holds none.
  abbrev pub Empties : (is_empty : Text → W → Type 0) → Text → ℕ → W → Type 0
  Empties is_empty ns zero w = is_empty ns w
  Empties is_empty ns (suc n) w = (¬ is_empty ns w) × Empties is_empty ns n (next ns w)

  module _ (is_empty : Text → W → Type 0) (containerd : Refuses is_empty) where
    rounds-removed :
        (ns : Text) (n : ℕ) (b : B) (pauses : List ℕ) (w : W)
        → Empties is_empty ns n w
        → Waits policy b n
        → (rounds policy run others (suc n) (namespace ns) b pauses w).0 ≡ returns removed
    unfolding rounds
    rounds-removed ns zero b pauses w h k =
        let (out, e) = containerd.empty ns w h in
        rw e (
          succeeds_at policy run (policy.next_backoff b).0 out pauses
            (run (text "ctr") (removal_args (namespace ns)) w).1
            (λ pauses w.
              rounds policy run others zero (namespace ns) (policy.next_backoff b).1 pauses
                (others w)))
    rounds-removed ns (suc n) b pauses w (h, hs) (k, ks) =
        let (failure, e) = containerd.full ns w h in
        rw e (
          goes_on policy run (policy.next_backoff b).0 failure pauses _ _ k
            (λ pauses. rounds-removed ns n (policy.next_backoff b).1 pauses (next ns w) hs ks))

    -- Let containerd refuse to remove a namespace exactly while it holds images. If the namespace of
    -- an import holds images in the first rounds of its task, and none after them, and the policy
    -- lets the task wait that often, then the task removes the namespace, whatever else happens
    -- between its rounds.
    pub drop_namespace-removed :
        (ns : Text) (n : ℕ) (b : B) (w : W)
        → Empties is_empty ns n w
        → Waits policy b n
        → (drop_namespace policy run others (suc n) ns b w).0 ≡ returns removed
    unfolding drop_namespace
    drop_namespace-removed ns n b w h k = rounds-removed ns n b [] w h k
