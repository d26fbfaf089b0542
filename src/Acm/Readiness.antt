-- ===== src/Acm/Readiness.antt =====
-- The event watcher of k8s/service/acm/src/podmanager/event_watcher.rs and the health check of
-- server_check.rs that it starts, side by side.
pub mod Connection
use ghactions_rust_test.Prelude.{
  ℕ, ◌≡◌, Bool, true, false, List, [], ◌∷◌, ◌++◌, Option, none, Text, Result, ok, err, ◌⊎◌,
}
use ghactions_rust_test.Backoff.{Backoff}
use ghactions_rust_test.K8s.Objects.{Pod}
use ghactions_rust_test.Acm.ServerCheck
use ghactions_rust_test.Acm.ServerCheck.{Round, Outcome, sent, killed, panicked, polling, check}
use ghactions_rust_test.Acm.ServerCheck.Signal.{is_interrupted}
use ghactions_rust_test.Acm.EventWatcher
use ghactions_rust_test.Acm.EventWatcher.{Action, spawn_check, phase2, k8s, health_check, broken}

-- The event watcher, and the rounds that its health check has made.
pub record Pair (B : Type 0) : Type 0 where
  pub watcher : EventWatcher.Daemon B
  pub rounds : List Round

-- The URI that the health check was started with.
unfoldable pub spawned : List Action → Text
spawned [] = []
spawned (spawn_check uri ∷ log) = uri
spawned (_ ∷ log) = spawned log

-- What the receiver of the result yields: the result, or an error once its sender is dropped.
abbrev pub Tells : EventWatcher.Input → Outcome → Type 0
Tells (health_check (ok r)) o = o ≡ sent r
Tells (health_check (err _)) o = (o ≡ killed) ⊎ (o ≡ panicked)
Tells (k8s _) o = Unit
Tells broken o = Unit

module _ {B : Type 0} (policy : Backoff B) (parse_uri : Text → Result Text (Unit {0}))
    (pod_id : Text) (start : B) where
  -- How the health check stands; `start` is its own policy, with its limit of thirty seconds.
  abbrev pub outcome : Pair B → Outcome
  outcome s = check policy (spawned s.watcher.log) start none s.rounds

  -- One of the two moves. The signal to the health check is sent by `kill` only, with which the
  -- event watcher leaves its second loop.
  pub data Step (s : Pair B) : Pair B → Type 0 where
    poll :
        (r : Round) (p : Pod)
        → s.watcher.phase ≡ phase2 p
        → outcome s ≡ polling
        → is_interrupted r ≡ false
        → Step s (record s { rounds = s.rounds ++ r ∷ [] })
    watch :
        (t : EventWatcher.Tick)
        → Tells t.input (outcome s)
        → Step s (record s { watcher = EventWatcher.step policy parse_uri pod_id s.watcher t })

  abbrev pub init : B → Pair B
  init b = record { watcher = EventWatcher.init b; rounds = [] }

  pub data Reach (s : Pair B) : Pair B → Type 0 where
    here : Reach s s
    later : {t u : Pair B} → Reach s t → Step t u → Reach s u
