-- ===== src/Acm/EventWatcher/Safety.antt =====
-- What must have happened before the event watcher reports a success, leaves a pod alone, or
-- panics.
use ghactions_rust_test.Prelude.{
  ℕ, ◌+◌, ◌≤◌, ◌≡◌, refl, Bool, true, false, List, [], ◌∷◌, some, Text, Result, ok, count, All,
  arith, ◌⊎◌, inl, inr, Bool-cases,
}
use ghactions_rust_test.Backoff.{Backoff}
use ghactions_rust_test.K8s.Pod.{running as is_running}
use ghactions_rust_test.K8s.Watcher.{deleted}
use ghactions_rust_test.Acm.EventWatcher.{
  Action, send_result, Phase, phase1, phase2, phase3, returned, panicked, Daemon, Input, k8s,
  health_check, Tick, terminate, on_phase1, on_phase2, on_health, on_phase3, step, watch, init,
}
use ghactions_rust_test.Acm.EventWatcher.Protocol.{calls}

-- The health check says that the pod answers.
abbrev pub is_passed_check : Input → Bool
is_passed_check (health_check (ok (ok _))) = true
is_passed_check _ = false

-- Kubernetes says that the pod was deleted.
abbrev pub is_deleted_event : Input → Bool
is_deleted_event (k8s (ok (some (deleted _)))) = true
is_deleted_event _ = false

abbrev pub passed : List Tick → ℕ
passed = count (λ t. is_passed_check t.input)

abbrev pub deleted_events : List Tick → ℕ
deleted_events = count (λ t. is_deleted_event t.input)

-- A success in the log is for a pod that runs.
abbrev pub ReportsRunning : Action → Type 0
ReportsRunning (send_result (ok p)) = is_running p ≡ true
ReportsRunning _ = Unit

-- The pod of phase 2 runs.
abbrev pub ChecksRunning : Phase → Type 0
ChecksRunning (phase2 p) = is_running p ≡ true
ChecksRunning _ = Unit

-- What holds of the log and phase between two inputs.
pub record IsSound {B : Type 0} (d : Daemon B) : Type 0 where
  pub reports : All ReportsRunning d.log
  pub checks : ChecksRunning d.phase

abbrev pub is_returned : Phase → Bool
is_returned returned = true
is_returned _ = false

module _ {B : Type 0} (policy : Backoff B) (parse_uri : Text → Result Text (Unit {0}))
    (pod_id : Text) where
  at : Phase → B → List Action → Tick → Daemon B
  at phase b log t =
      step policy parse_uri pod_id (record { phase = phase; backoff = b; log = log }) t

  step-IsSound :
      (phase : Phase) (b : B) (log : List Action) (t : Tick)
      → All ReportsRunning log
      → ChecksRunning phase
      → IsSound (at phase b log t)
  unfolding at step on_phase1 on_phase2 on_phase3 on_health terminate
  step-IsSound phase1 b log t h k = ground arith
  step-IsSound (phase2 p) b log t h k = ground arith
  step-IsSound phase3 b log t h k = ground arith
  step-IsSound returned b log t h k = ground arith
  step-IsSound panicked b log t h k = ground arith

  ok_results-step :
      (phase : Phase) (b : B) (log : List Action) (t : Tick)
      → (calls (at phase b log t).log).ok_results ≤ (calls log).ok_results + passed (t ∷ [])
  unfolding at step on_phase1 on_phase2 on_phase3 on_health terminate
  ok_results-step phase1 b log t = ground arith
  ok_results-step (phase2 p) b log t = ground arith
  ok_results-step phase3 b log t = ground arith
  ok_results-step returned b log t = ground arith
  ok_results-step panicked b log t = ground arith

  -- Without a passed check, a step reports no success.
  pub no_new_result :
      (d : Daemon B) (t : Tick)
      → is_passed_check t.input ≡ false
      → (calls (step policy parse_uri pod_id d t).log).ok_results ≤ (calls d.log).ok_results
  unfolding at
  no_new_result d t h =
      let none_passed : passed (t ∷ []) ≡ 0 = rw h refl in
      omega (arith, ok_results-step d.phase d.backoff d.log t)

  -- A return that leaves the pod alone needs the event that the pod was deleted.
  returned-step :
      (phase : Phase) (b : B) (log : List Action) (t : Tick)
      → is_returned (at phase b log t).phase ≡ true
      → (is_returned phase ≡ true)
        ⊎ (1 ≤ (calls (at phase b log t).log).deletions + deleted_events (t ∷ []))
  unfolding at step on_phase1 on_phase2 on_phase3 on_health terminate
  returned-step phase1 b log t h = ground arith
  returned-step (phase2 p) b log t h = ground arith
  returned-step phase3 b log t h = ground arith
  returned-step returned b log t h = ground arith
  returned-step panicked b log t h = ground arith

  watch-IsSound :
      (d : Daemon B) (ts : List Tick) → IsSound d → IsSound (watch policy parse_uri pod_id d ts)
  unfolding watch at
  watch-IsSound d [] h = h
  watch-IsSound d (t ∷ ts) h =
      watch-IsSound (step policy parse_uri pod_id d t) ts
        (step-IsSound d.phase d.backoff d.log t h.reports h.checks)

  ok_results-watch :
      (d : Daemon B) (ts : List Tick)
      → (calls (watch policy parse_uri pod_id d ts).log).ok_results
        ≤ (calls d.log).ok_results + passed ts
  unfolding watch at
  ok_results-watch d [] = omega arith
  ok_results-watch d (t ∷ ts) = omega (
    arith,
    ok_results-step d.phase d.backoff d.log t,
    ok_results-watch (step policy parse_uri pod_id d t) ts,
  )

  -- After any inputs, every success that was reported is for a pod that was running, and no more
  -- successes were reported than the health check has passed.
  pub ok_result_is_earned :
      (b : B) (ts : List Tick)
      → All ReportsRunning (watch policy parse_uri pod_id (init b) ts).log
        × ((calls (watch policy parse_uri pod_id (init b) ts).log).ok_results ≤ passed ts)
  ok_result_is_earned b ts = (
    (watch-IsSound (init b) ts (ground arith)).reports,
    omega (arith, ok_results-watch (init b) ts),
  )

  step_returned :
      (d : Daemon B) (t : Tick) → d.phase ≡ returned → step policy parse_uri pod_id d t ≡ d
  unfolding step
  step_returned d t h = ground arith

  -- A daemon that has returned makes no call any more.
  watch_returned :
      (d : Daemon B) (ts : List Tick) → d.phase ≡ returned → watch policy parse_uri pod_id d ts ≡ d
  unfolding watch
  watch_returned d [] h = refl
  watch_returned d (t ∷ ts) h = rw (step_returned d t h) (watch_returned d ts h)

  is_returned-eq : (phase : Phase) → is_returned phase ≡ true → phase ≡ returned
  is_returned-eq phase h = ground arith

  left_alone :
      (d : Daemon B) (ts : List Tick)
      → is_returned d.phase ≡ false
      → (watch policy parse_uri pod_id d ts).phase ≡ returned
      → 1 ≤ (calls (watch policy parse_uri pod_id d ts).log).deletions + deleted_events ts
  unfolding watch at
  left_alone d [] n h = absurd (ground arith)
  left_alone d (t ∷ ts) n h =
      elim (Bool-cases (is_returned (step policy parse_uri pod_id d t).phase)) [
        | inl now ↦
            let e = watch_returned (step policy parse_uri pod_id d t) ts (is_returned-eq _ now) in
            rw e (ground (arith, returned-step d.phase d.backoff d.log t now))
        | inr later ↦ omega (arith, left_alone (step policy parse_uri pod_id d t) ts later h)
      ]

  -- When the event watcher has returned, it has asked Kubernetes for the deletion of the pod, whatever
  -- the answer, or Kubernetes has told it that the pod was deleted.
  pub returned-deletions :
      (b : B) (ts : List Tick)
      → (watch policy parse_uri pod_id (init b) ts).phase ≡ returned
      → 1 ≤ (calls (watch policy parse_uri pod_id (init b) ts).log).deletions + deleted_events ts
  returned-deletions b ts h = left_alone (init b) ts refl h
