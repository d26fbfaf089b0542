-- ===== src/Acm/System.antt =====
-- The coroutines that k8s/service/acm/src/podmanager/mod.rs starts for one pod, side by side: the
-- event watcher, the garbage collector and the shim of the handle, with the channels between them.
-- Any of them may move next. What a coroutine has sent is read off its log; a channel is closed
-- once its sender, or its receiver, has ended.
pub mod Joint
pub mod Partners
pub mod Quiet
pub mod Ending
pub mod Unpatched
use ghactions_rust_test.Prelude.{
  ℕ, zero, suc, ◌≡◌, Bool, true, false, List, [], ◌∷◌, ◌++◌, Option, none, some, Text, Result,
}
use ghactions_rust_test.Errors.{AcmResult}
use ghactions_rust_test.Backoff.{Backoff}
use ghactions_rust_test.K8s.Objects.{Pod}
use ghactions_rust_test.Acm.EventWatcher
use ghactions_rust_test.Acm.EventWatcher.{GcStatus, gc_signal}
use ghactions_rust_test.Acm.GarbageCollector
use ghactions_rust_test.Acm.GarbageCollector.{Clocks, status, refresh, timeout}
use ghactions_rust_test.Acm.Handle.{shim}
use ghactions_rust_test.Acm.Handle.Results.{first_result}

-- Where the shim stands: it waits for a result, it waits for the client with what it received, or
-- it has ended, with what the client gets from it.
pub data Shim : Type 0 where
  receiving : Shim
  holding : (received : Option (AcmResult Pod)) → Shim
  ended : (sent : Option (AcmResult Pod)) → Shim

pub record System (B : Type 0) : Type 0 where
  pub watcher : EventWatcher.Daemon B
  pub collector : GarbageCollector.Daemon
  -- How many signals the garbage collector has taken from its channel.
  pub taken : ℕ
  pub shim : Shim

-- The signals to the garbage collector, the oldest first.
unfoldable pub signals : List EventWatcher.Action → List GcStatus
signals [] = []
signals (gc_signal s ∷ log) = signals log ++ s ∷ []
signals (_ ∷ log) = signals log

-- The first signal that is not taken yet.
abbrev pub get_elem? : List GcStatus → ℕ → Option GcStatus
get_elem? [] i = none
get_elem? (x ∷ xs) zero = some x
get_elem? (x ∷ xs) (suc i) = get_elem? xs i

abbrev pub next_signal : {B : Type 0} → System B → Option GcStatus
next_signal s = get_elem? (signals s.watcher.log) s.taken

-- The event watcher has ended, and has dropped its senders.
abbrev pub has_ended : EventWatcher.Phase → Bool
has_ended EventWatcher.returned = true
has_ended EventWatcher.panicked = true
has_ended _ = false

-- The garbage collector still reads its channel.
abbrev pub is_listening : GarbageCollector.Phase → Bool
is_listening GarbageCollector.waiting = true
is_listening (GarbageCollector.counting _) = true
is_listening _ = false

abbrev pub is_open : Shim → Bool
is_open (ended _) = false
is_open _ = true

-- What a step of the garbage collector finds: the two clocks, and whether Kubernetes answers.
pub record Moment : Type 0 where
  pub now : ℕ
  pub instant : ℕ
  pub client_ok : Bool
  pub api_ok : Bool

abbrev pub tick_of : GarbageCollector.Input → Moment → GarbageCollector.Tick
tick_of input m = record {
  input = input;
  now = m.now;
  instant = m.instant;
  client_ok = m.client_ok;
  api_ok = m.api_ok;
}

module _ {B : Type 0} (policy : Backoff B) (parse_uri : Text → Result Text (Unit {0}))
    (pod_id : Text) (clocks : Clocks) (ttl : ℕ) where
  -- The garbage collector takes an input.
  abbrev pub collect : GarbageCollector.Input → Moment → System B → System B
  collect input m s = record s {
    collector = GarbageCollector.step clocks pod_id ttl s.collector (tick_of input m);
  }

  -- One coroutine moves.
  pub data Step (s : System B) : System B → Type 0 where
    watch :
        (t : EventWatcher.Tick)
        → t.gc_open ≡ is_listening s.collector.phase
        → t.upstream_open ≡ is_open s.shim
        → Step s (record s { watcher = EventWatcher.step policy parse_uri pod_id s.watcher t })
    signal :
        (x : GcStatus) (m : Moment)
        → is_listening s.collector.phase ≡ true
        → next_signal s ≡ some x
        → Step s (record (collect (status (some x)) m s) { taken = suc s.taken })
    hang_up :
        (m : Moment)
        → has_ended s.watcher.phase ≡ true
        → next_signal s ≡ none
        → Step s (collect (status none) m s)
    ask : (m : Moment) → Step s (collect (refresh (some tt)) m s)
    timer : (m : Moment) → Step s (collect timeout m s)
    receive :
        (r : AcmResult Pod)
        → s.shim ≡ receiving
        → first_result s.watcher.log ≡ some r
        → Step s (record s { shim = holding (some r) })
    dropped :
        s.shim ≡ receiving
        → has_ended s.watcher.phase ≡ true
        → first_result s.watcher.log ≡ none
        → Step s (record s { shim = holding none })
    -- The client comes to the barrier, or the patience runs out before.
    release :
        (received : Option (AcmResult Pod)) (in_time : Bool)
        → s.shim ≡ holding received
        → Step s (record s { shim = ended (shim received in_time) })

  -- A step for which no client is needed: it asks for no ticket, and does not come for the result.
  abbrev pub IsUnaided : {s t : System B} → Step s t → Type 0
  IsUnaided (watch t g u) = Unit
  IsUnaided (signal x m o n) = Unit
  IsUnaided (hang_up m o n) = Unit
  IsUnaided (ask m) = ⊥
  IsUnaided (timer m) = Unit
  IsUnaided (receive r i n) = Unit
  IsUnaided (dropped i o n) = Unit
  IsUnaided (release received in_time e) = in_time ≡ false

  -- What `new_podmanager` starts.
  abbrev pub init : B → System B
  init b = record {
    watcher = EventWatcher.init b;
    collector = GarbageCollector.init;
    taken = 0;
    shim = receiving;
  }

  pub data Reach (s : System B) : System B → Type 0 where
    here : Reach s s
    later : {t u : System B} → Reach s t → Step t u → Reach s u

  abbrev pub AllUnaided : {s t : System B} → Reach s t → Type 0
  AllUnaided here = Unit
  AllUnaided (later r st) = AllUnaided r × IsUnaided st
