-- ===== src/Aim/Drops.antt =====
-- The tasks that k8s/service/aim/src/registry/containerd/tmp_image.rs and namespace.rs start when an
-- image or a namespace goes out of scope: each removes it by a command, again and again until it
-- succeeds or the retry policy gives up.
pub mod Removal
pub mod Rounds
use ghactions_rust_test.Prelude.{
  ℕ, zero, suc, List, [], ◌∷◌, Option, none, some, Text, text, Result, ok, err, Run, returns,
  panics,
}
use ghactions_rust_test.Errors.{AcmError, AcmResult}
use ghactions_rust_test.Backoff.{Backoff}
use ghactions_rust_test.Os.{Arg, plain, Process, cmd}
use ghactions_rust_test.Aim.Containerd.{Dropped, image, namespace}

-- The command that removes what was dropped.
unfoldable pub removal_args : Dropped → List Arg
removal_args (image i) =
    plain (text "-n")
    ∷ plain i.namespace
    ∷ plain (text "images")
    ∷ plain (text "remove")
    ∷ plain i.reference
    ∷ []
removal_args (namespace ns) = plain (text "namespace") ∷ plain (text "remove") ∷ plain ns ∷ []

-- How the task ends that a drop starts, if it has: it has removed its image or namespace, or it
-- has given up.
pub data Destruction : Type 0 where
  removed orphaned : Destruction
  retrying : (pauses : List ℕ) → Destruction

-- The loop of both `drop`s over the answers of the command, with the pauses made between them.
pub destroy_on : Option ℕ → AcmResult Text → List ℕ → (again : List ℕ → Destruction) → Destruction
destroy_on (some pause) (err e) pauses again = again (pause ∷ pauses)
destroy_on none (err e) pauses again = orphaned
destroy_on pause (ok _) pauses again = removed

module _ {B : Type 0} (policy : Backoff B) where
  unfoldable pub destroy : B → List ℕ → List (AcmResult Text) → Destruction
  unfolding destroy_on
  destroy b pauses [] = retrying pauses
  destroy b pauses (answer ∷ answers) =
      let (pause, b') = policy.next_backoff b in
      destroy_on pause answer pauses (λ pauses. destroy b' pauses answers)

module _ {B W : Type 0} (policy : Backoff B) (run : Text → List Arg → W → Process × W) where
  -- The end of a round, by the pause and the answer of its command.
  end_round :
      Option ℕ
      → Run (AcmResult Text)
      → List ℕ
      → W
      → (again : List ℕ → W → Run Destruction × W) → Run Destruction × W
  end_round pause panics pauses w again = (panics, w)
  end_round pause (returns (ok _)) pauses w again = (returns removed, w)
  end_round none (returns (err _)) pauses w again = (returns orphaned, w)
  end_round (some pause) (returns (err _)) pauses w again = again (pause ∷ pauses) w

  -- So many rounds of the loop in the world of the commands; between two rounds, while the task
  -- sleeps, others change the world.
  unfoldable pub rounds : (others : W → W) → ℕ → Dropped → B → List ℕ → W → Run Destruction × W
  unfolding removal_args end_round
  rounds others zero x b pauses w = (returns (retrying pauses), w)
  rounds others (suc n) x b pauses w =
      let (process, w') = run (text "ctr") (removal_args x) w in
      let (pause, b') = policy.next_backoff b in
      end_round pause (cmd process (text "ctr") (removal_args x)) pauses w'
        (λ pauses w. rounds others n x b' pauses (others w))

  -- `Drop for Namespace`, from the start of its task.
  unfoldable pub drop_namespace :
      (others : W → W) → ℕ → (namespace : Text) → B → W → Run Destruction × W
  unfolding rounds
  drop_namespace others n ns b w = rounds others n (namespace ns) b [] w
