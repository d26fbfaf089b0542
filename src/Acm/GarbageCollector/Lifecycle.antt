-- ===== src/Acm/GarbageCollector/Lifecycle.antt =====
-- What the garbage collector has done by the time it stands in each phase.
use ghactions_rust_test.Prelude.{
  ℕ, ◌+◌, ◌≤◌, ◌≡◌, refl, Bool, true, false, List, [], ◌∷◌, Option, none, some, Text, count, arith,
}
use ghactions_rust_test.Acm.GarbageCollector.{
  Clocks, KeepAliveTicket, Tick, Action, patch_labels, reply, delete_pod, Phase, waiting, counting,
  stopped, panicked, Daemon, pod_patch, step, gc, init,
}

abbrev pub is_delete : Action → Bool
is_delete delete_pod = true
is_delete _ = false

abbrev pub is_reply : Action → Bool
is_reply (reply _) = true
is_reply _ = false

abbrev pub is_patch : Action → Bool
is_patch (patch_labels _) = true
is_patch _ = false

-- The labels that were sent last, and the ticket that was handed out last.
abbrev pub last_patch : List Action → Option (List (Text × Text))
last_patch [] = none
last_patch (patch_labels l ∷ _) = some l
last_patch (reply _ ∷ log) = last_patch log
last_patch (delete_pod ∷ log) = last_patch log

abbrev pub last_reply : List Action → Option KeepAliveTicket
last_reply [] = none
last_reply (patch_labels _ ∷ log) = last_reply log
last_reply (reply k ∷ _) = some k
last_reply (delete_pod ∷ log) = last_reply log

-- No ticket was handed out, or this one.
abbrev pub IsReplied : KeepAliveTicket → Option KeepAliveTicket → Type 0
IsReplied k none = Unit
IsReplied k (some j) = j ≡ k

-- The ticket that counts is the one that Kubernetes has a label of, and that the client has, if
-- it has asked for one; each ticket handed out was recorded, and one more at the start.
pub record IsCounting (k : KeepAliveTicket) (log : List Action) : Type 0 where
  pub recorded : last_patch log ≡ some (pod_patch k)
  pub handed_out : IsReplied k (last_reply log)
  pub each_recorded : count is_patch log ≡ count is_reply log + 1
  pub kept : count is_delete log ≡ 0

abbrev pub Shape : Phase → List Action → Type 0
Shape waiting log = log ≡ []
Shape (counting k) log = IsCounting k log
Shape stopped log = count is_delete log ≤ 1
Shape panicked log = count is_delete log ≤ 1

abbrev pub HasShape : Daemon → Type 0
HasShape d = Shape d.phase d.log

module _ (clocks : Clocks) (pod : Text) (ttl : ℕ) where
  step-Shape :
      (phase : Phase) (log : List Action) (t : Tick)
      → Shape phase log
      → HasShape (step clocks pod ttl (record { phase = phase; log = log }) t)
  unfolding step
  step-Shape waiting log t h = ground arith
  step-Shape (counting k) log t h = ground arith
  step-Shape stopped log t h = h
  step-Shape panicked log t h = h

  gc-HasShape_from : (d : Daemon) (ts : List Tick) → HasShape d → HasShape (gc clocks pod ttl d ts)
  unfolding gc
  gc-HasShape_from d [] h = h
  gc-HasShape_from d (t ∷ ts) h =
      gc-HasShape_from (step clocks pod ttl d t) ts (step-Shape d.phase d.log t h)

  -- From its start and after any inputs: before the signal that the pod runs, the garbage
  -- collector has called nobody. While it counts, the labels that it sent last are those of the
  -- ticket that counts, the ticket that it handed out last is that ticket, it has sent labels once
  -- for each ticket handed out and once more, and it has not deleted the pod. At any time it has
  -- asked for the deletion of the pod at most once.
  pub gc-init-HasShape : (ts : List Tick) → HasShape (gc clocks pod ttl init ts)
  gc-init-HasShape ts = gc-HasShape_from init ts refl
