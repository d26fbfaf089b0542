-- ===== src/Acm/EventWatcher.antt =====
-- k8s/service/acm/src/podmanager/event_watcher.rs: the daemon that follows one pod from its
-- deployment to its end. Each `await` on a stream or a channel takes one input, each call that
-- others can see is an action in the log, the newest first.
pub mod Errors
pub mod Protocol
pub mod Safety
pub mod Panic
use ghactions_rust_test.Prelude.{
  ℕ, Bool, true, false, List, [], ◌∷◌, Option, none, some, Text, Result, ok, err, Run, returns,
  panics, ◌||◌, if◌then◌else◌,
}
use ghactions_rust_test.Errors.{AcmError, AcmResult}
use ghactions_rust_test.Backoff.{Backoff}
use ghactions_rust_test.K8s.Objects.{Pod}
use ghactions_rust_test.K8s.Pod.{
  running as is_running, terminated as is_terminated, crashed, was_err_image_pull, err_image_pull,
}
use ghactions_rust_test.K8s.Watcher.{Fault, Event, added, applied, deleted, restarted}
use ghactions_rust_test.Acm.ServerCheck
use Errors.{
  pod_crashed, garbage_collector_unresponsive, kubernetes_unresponsive,
  unexpected_close_of_event_stream, pod_deleted, pod_rebooted, health_check_dropped_its_channel,
}

pub data GcStatus : Type 0 where
  running : Pod → GcStatus
  terminated : GcStatus

-- The calls of the daemon. A send is recorded also if its receiver is gone.
pub data Action : Type 0 where
  gc_signal : GcStatus → Action
  send_result : AcmResult Pod → Action
  delete_pod : Action
  spawn_check : (uri : Text) → Action
  kill_check join_check : Action
  sleep : ℕ → Action

-- Where the coroutine stands: in one of the three loops of `watch`, returned, or panicked.
pub data Phase : Type 0 where
  phase1 : Phase
  phase2 : Pod → Phase
  phase3 : Phase
  returned : Phase
  panicked : Phase

pub record Daemon (B : Type 0) : Type 0 where
  pub phase : Phase
  pub backoff : B
  pub log : List Action

-- What the stream of Kubernetes yields: `Result<Option<Event>>`.
abbrev pub Next : Type 0
Next = Result Fault (Option (Event Pod))

-- `Phase2Event`; the text is that of a `RecvError`. Only the second loop listens to the second.
-- The last is an await that panics: `client::new()` at the head of `watch`, or the stream, at an
-- object without a version.
pub data Input : Type 0 where
  k8s : Next → Input
  health_check : Result Text (AcmResult (Unit {0})) → Input
  broken : Input

-- An input, whether the receivers of the garbage collector and of the client are open, and whether
-- `client::new()` of `kill_pod` comes back in this step.
pub record Tick : Type 0 where
  pub input : Input
  pub gc_open : Bool
  pub upstream_open : Bool
  pub client_ok : Bool

module _ {B : Type 0} where
  unfoldable pub emit : Action → Daemon B → Daemon B
  emit a d = record d { log = a ∷ d.log }

  unfoldable pub become : Phase → Daemon B → Daemon B
  become p d = record d { phase = p }

  -- `kill_pod`, whose `client::new()` may panic, and the return after it.
  kill_pod : (client_ok : Bool) → Daemon B → Daemon B
  kill_pod true d = become returned (emit delete_pod d)
  kill_pod false d = become panicked d

  -- `terminate`: the result for the client, the signal for the garbage collector, the deletion.
  unfoldable pub terminate : (client_ok : Bool) → AcmError → Daemon B → Daemon B
  unfolding emit become kill_pod
  terminate client e d =
      kill_pod client (emit (gc_signal GcStatus.terminated) (emit (send_result (err e)) d))

module _ {B : Type 0} (policy : Backoff B) (parse_uri : Text → Result Text (Unit {0}))
    (pod_id : Text) where
  online : Daemon B → Daemon B
  online d = record d { backoff = policy.reset d.backoff }

  -- `backoff.next_backoff()` after an error, for each phase.
  pause_or_terminate : (client_ok : Bool) → Daemon B → Option ℕ × B → Daemon B
  pause_or_terminate client d (some t, b) = record d { backoff = b; log = sleep t ∷ d.log }
  pause_or_terminate client d (none, b) =
      terminate client (kubernetes_unresponsive (policy.elapsed_text b)) (record d { backoff = b })

  retry : (client_ok : Bool) → Daemon B → Daemon B
  retry client d = pause_or_terminate client d (policy.next_backoff d.backoff)

  -- `ServerCheck::new`, at the head of phase 2.
  start_check : (client_ok : Bool) → Pod → AcmResult Text → Daemon B → Daemon B
  start_check client p (ok uri) d = become (phase2 p) (emit (spawn_check uri) d)
  start_check client p (err e) d = terminate client e d

  on_running : Pod → (gc_open client_ok : Bool) → Daemon B → Daemon B
  on_running p true client d =
      start_check client p (ServerCheck.new parse_uri p) (emit (gc_signal (GcStatus.running p)) d)
  on_running p false client d =
      terminate client (garbage_collector_unresponsive pod_id)
        (emit (gc_signal (GcStatus.running p)) d)

  -- `p.err_image_pull().expect_err(…)`
  on_pull_failure : Run (AcmResult (Unit {0})) → (client_ok : Bool) → Daemon B → Daemon B
  on_pull_failure (returns (err e)) client d = terminate client e d
  on_pull_failure (returns (ok _)) client d = become panicked d
  on_pull_failure panics client d = become panicked d

  observe : Pod → (gc_open client_ok : Bool) → Daemon B → Daemon B
  observe p gc_open client d =
      if is_running p
      then on_running p gc_open client d
      else if is_terminated p || crashed p
      then terminate client pod_crashed d
      else if was_err_image_pull p
      then on_pull_failure (err_image_pull p) client d
      else d

  unfoldable pub on_phase1 : Next → (gc_open client_ok : Bool) → Daemon B → Daemon B
  unfolding online pause_or_terminate retry start_check on_running on_pull_failure observe
  on_phase1 (err _) gc_open client d = retry client d
  on_phase1 (ok none) gc_open client d =
      terminate client unexpected_close_of_event_stream (online d)
  on_phase1 (ok (some (added _))) gc_open client d = online d
  on_phase1 (ok (some (deleted _))) gc_open client d = terminate client pod_deleted (online d)
  on_phase1 (ok (some (restarted _))) gc_open client d = online d
  on_phase1 (ok (some (applied p))) gc_open client d = observe p gc_open client (online d)

  -- The end of the retries kills the health check first.
  pause_or_kill : (client_ok : Bool) → Daemon B → Option ℕ × B → Daemon B
  pause_or_kill client d (some t, b) = record d { backoff = b; log = sleep t ∷ d.log }
  pause_or_kill client d (none, b) =
      terminate client (kubernetes_unresponsive (policy.elapsed_text b))
        (emit kill_check (record d { backoff = b }))

  unfoldable pub on_phase2 : Next → (client_ok : Bool) → Daemon B → Daemon B
  unfolding online pause_or_kill
  on_phase2 (err _) client d = pause_or_kill client d (policy.next_backoff d.backoff)
  on_phase2 (ok (some (deleted _))) client d = terminate client pod_deleted (emit kill_check d)
  on_phase2 (ok (some (restarted _))) client d = terminate client pod_rebooted (emit kill_check d)
  on_phase2 (ok none) client d =
      terminate client unexpected_close_of_event_stream (emit kill_check d)
  on_phase2 (ok (some (added _))) client d = online d
  on_phase2 (ok (some (applied _))) client d = online d

  -- The pod is ready; where nobody can be told so, it is shut down.
  report_ready : Pod → (upstream_open client_ok : Bool) → Daemon B → Daemon B
  report_ready p true client d = become phase3 (emit (send_result (ok p)) d)
  report_ready p false client d =
      kill_pod client (emit (gc_signal GcStatus.terminated) (emit (send_result (ok p)) d))

  unfoldable pub on_health :
      Pod
      → Result Text (AcmResult (Unit {0}))
      → (upstream_open client_ok : Bool) → Daemon B
      → Daemon B
  unfolding report_ready kill_pod
  on_health p (err _) upstream client d =
      terminate client health_check_dropped_its_channel (emit join_check d)
  on_health p (ok (err e)) upstream client d = terminate client e (emit join_check d)
  on_health p (ok (ok _)) upstream client d = report_ready p upstream client (emit join_check d)

  unfoldable pub on_phase3 : Next → (client_ok : Bool) → Daemon B → Daemon B
  unfolding online pause_or_terminate retry
  on_phase3 (err _) client d = retry client d
  on_phase3 (ok none) client d = terminate client unexpected_close_of_event_stream (online d)
  on_phase3 (ok (some (deleted _))) client d =
      become returned (emit (gc_signal GcStatus.terminated) (online d))
  on_phase3 (ok (some (restarted _))) client d = terminate client pod_rebooted (online d)
  on_phase3 (ok (some (added _))) client d = online d
  on_phase3 (ok (some (applied _))) client d = online d

  dispatch : Phase → Input → Tick → Daemon B → Daemon B
  dispatch phase1 (k8s next) t d = on_phase1 next t.gc_open t.client_ok d
  dispatch phase1 broken t d = become panicked d
  dispatch (phase2 p) (k8s next) t d = on_phase2 next t.client_ok d
  dispatch (phase2 p) (health_check status) t d = on_health p status t.upstream_open t.client_ok d
  dispatch (phase2 p) broken t d = become panicked d
  dispatch phase3 (k8s next) t d = on_phase3 next t.client_ok d
  dispatch phase3 broken t d = become panicked d
  dispatch _ _ t d = d

  unfoldable pub step : Daemon B → Tick → Daemon B
  unfolding dispatch
  step d t = dispatch d.phase t.input t d

  unfoldable pub watch : Daemon B → List Tick → Daemon B
  watch d [] = d
  watch d (t ∷ ts) = watch (step d t) ts

-- The daemon before its first input; the argument is `ExponentialBackoff::default()`.
abbrev pub init : {B : Type 0} → B → Daemon B
init b = record { phase = phase1; backoff = b; log = [] }
