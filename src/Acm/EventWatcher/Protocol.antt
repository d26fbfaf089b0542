-- ===== src/Acm/EventWatcher/Protocol.antt =====
-- What the event watcher has done by the time it stands in each phase, whatever the inputs.
use ghactions_rust_test.Prelude.{
  ℕ, ◌+◌, ◌≤◌, ◌≡◌, Bool, true, false, List, Text, Result, ok, err, count, arith,
}
use ghactions_rust_test.Backoff.{Backoff}
use ghactions_rust_test.Acm.EventWatcher.{
  GcStatus, Action, gc_signal, send_result, delete_pod, spawn_check, kill_check, join_check, Phase,
  phase1, phase2, phase3, returned, panicked, Daemon, Tick, terminate, on_phase1, on_phase2,
  on_health, on_phase3, step,
}

abbrev pub is_running_signal : Action → Bool
is_running_signal (gc_signal (GcStatus.running _)) = true
is_running_signal _ = false

abbrev pub is_terminated_signal : Action → Bool
is_terminated_signal (gc_signal GcStatus.terminated) = true
is_terminated_signal _ = false

abbrev pub is_delete : Action → Bool
is_delete delete_pod = true
is_delete _ = false

abbrev pub is_ok_result : Action → Bool
is_ok_result (send_result (ok _)) = true
is_ok_result _ = false

abbrev pub is_err_result : Action → Bool
is_err_result (send_result (err _)) = true
is_err_result _ = false

abbrev pub is_spawn : Action → Bool
is_spawn (spawn_check _) = true
is_spawn _ = false

abbrev pub is_disposal : Action → Bool
is_disposal kill_check = true
is_disposal join_check = true
is_disposal _ = false

-- How often each kind of call was made.
pub record Calls : Type 0 where
  pub running_signals : ℕ
  pub terminated_signals : ℕ
  pub deletions : ℕ
  pub ok_results : ℕ
  pub err_results : ℕ
  pub spawns : ℕ
  pub disposals : ℕ

abbrev pub calls : List Action → Calls
calls log = record {
  running_signals = count is_running_signal log;
  terminated_signals = count is_terminated_signal log;
  deletions = count is_delete log;
  ok_results = count is_ok_result log;
  err_results = count is_err_result log;
  spawns = count is_spawn log;
  disposals = count is_disposal log;
}

-- Before the pod runs: no call at all but sleeps.
pub record IsQuiet (c : Calls) : Type 0 where
  pub running_signals : c.running_signals ≡ 0
  pub terminated_signals : c.terminated_signals ≡ 0
  pub deletions : c.deletions ≡ 0
  pub ok_results : c.ok_results ≡ 0
  pub err_results : c.err_results ≡ 0
  pub spawns : c.spawns ≡ 0
  pub disposals : c.disposals ≡ 0

-- While the pod runs: the garbage collector was started once and not stopped, one health check
-- was started, and it was waited for exactly if the result was sent.
pub record IsLive (results : ℕ) (c : Calls) : Type 0 where
  pub running_signals : c.running_signals ≡ 1
  pub terminated_signals : c.terminated_signals ≡ 0
  pub deletions : c.deletions ≡ 0
  pub ok_results : c.ok_results ≡ results
  pub err_results : c.err_results ≡ 0
  pub spawns : c.spawns ≡ 1
  pub disposals : c.disposals ≡ results

-- After the return: the garbage collector was told to stop once, the pod was deleted at most
-- once, at most one success and at most one error was sent, and at least one of them, and every
-- health check was killed or joined.
pub record IsDone (c : Calls) : Type 0 where
  pub running_signals : c.running_signals ≤ 1
  pub terminated_signals : c.terminated_signals ≡ 1
  pub deletions : c.deletions ≤ 1
  pub ok_results : c.ok_results ≤ 1
  pub err_results : c.err_results ≤ 1
  pub some_result : 1 ≤ c.ok_results + c.err_results
  pub told_or_gone : 1 ≤ c.deletions + c.ok_results
  pub spawns : c.spawns ≤ 1
  pub disposals : c.disposals ≡ c.spawns

-- After a panic: the pod was not deleted by the event watcher, no call was made twice, and the
-- garbage collector was told to stop only after a result was sent.
pub record IsBroken (c : Calls) : Type 0 where
  pub running_signals : c.running_signals ≤ 1
  pub terminated_signals : c.terminated_signals ≤ 1
  pub deletions : c.deletions ≡ 0
  pub ok_results : c.ok_results ≤ 1
  pub err_results : c.err_results ≤ 1
  pub told : c.terminated_signals ≤ c.ok_results + c.err_results
  pub spawns : c.spawns ≤ c.running_signals
  pub disposals : c.disposals ≤ c.spawns

abbrev pub Shape : Phase → Calls → Type 0
Shape phase1 c = IsQuiet c
Shape (phase2 _) c = IsLive 0 c
Shape phase3 c = IsLive 1 c
Shape returned c = IsDone c
Shape panicked c = IsBroken c

abbrev pub HasShape : {B : Type 0} → Daemon B → Type 0
HasShape d = Shape d.phase (calls d.log)

module _ {B : Type 0} (policy : Backoff B) (parse_uri : Text → Result Text (Unit {0}))
    (pod_id : Text) where
  step-Shape :
      (phase : Phase) (b : B) (log : List Action) (t : Tick)
      → Shape phase (calls log)
      → HasShape (step policy parse_uri pod_id (record { phase = phase; backoff = b; log = log }) t)
  unfolding step on_phase1 on_phase2 on_phase3 on_health terminate
  step-Shape phase1 b log t h = ground arith
  step-Shape (phase2 p) b log t h = ground arith
  step-Shape phase3 b log t h = ground arith
  step-Shape returned b log t h = h
  step-Shape panicked b log t h = h

  pub step-HasShape :
      (d : Daemon B) (t : Tick) → HasShape d → HasShape (step policy parse_uri pod_id d t)
  step-HasShape d t h = step-Shape d.phase d.backoff d.log t h
