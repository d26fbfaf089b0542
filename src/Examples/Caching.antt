-- ===== src/Examples/Caching.antt =====
-- A manager from its start to its removal from the cache.
use ghactions_rust_test.Prelude.{
  ℕ, ◌≡◌, refl, true, false, [], none, some, text, ok, err, if◌then◌else◌, arith,
}
use ghactions_rust_test.Errors.{AcmResult}
use ghactions_rust_test.Examples.Fixtures.{policy, parse_uri, clocks}
use ghactions_rust_test.K8s.Objects.{Pod}
use ghactions_rust_test.Acm.Errors.{pod_manager_not_found}
use ghactions_rust_test.Acm.EventWatcher.Errors.{unexpected_close_of_event_stream}
use ghactions_rust_test.Acm.EventWatcher
use ghactions_rust_test.Acm.EventWatcher.{k8s, emit, become, terminate, on_phase1}
use ghactions_rust_test.Acm.GarbageCollector
use ghactions_rust_test.Acm.GarbageCollector.{status}
use ghactions_rust_test.Acm.Handle.{shim}
use ghactions_rust_test.Acm.Handle.Results.{first_result}
use ghactions_rust_test.Acm.PodManager.{get, insert, clean_up}
use ghactions_rust_test.Acm.System.{
  System, Moment, holding, ended, collect, watch, signal, receive, release, init, signals,
}
use ghactions_rust_test.Acm.Managers.{
  Stage, started, listed, removed, Manager, Managers, empty, put, AllEnded, new_podmanager, run,
  register, clean, Reach, here, later,
}
use ghactions_rust_test.Acm.Managers.Held.{IsUnique, Reach-get}
use ghactions_rust_test.Acm.Managers.Idle.{running-get, removed-empty}
use ghactions_rust_test.Acm.Managers.Leaving.{CanLeave, ended-CanLeave}

abbrev idle : System ℕ
idle = init policy parse_uri (text "pod") clocks 60 3

abbrev moment : Moment
moment = record { now = 0; instant = 0; client_ok = true; api_ok = true }

-- The stream of events ends before the pod runs.
abbrev closes : EventWatcher.Tick
closes = record { input = k8s (ok none); gc_open = true; upstream_open = true; client_ok = true }

abbrev closed : System ℕ
closed = record idle {
  watcher = EventWatcher.step policy parse_uri (text "pod") idle.watcher closes;
}

abbrev informed : System ℕ
informed =
    record (collect policy parse_uri (text "pod") clocks 60
      (status (some EventWatcher.GcStatus.terminated)) moment closed) { taken = 1 }

abbrev failure : AcmResult Pod
failure = err unexpected_close_of_event_stream

abbrev held : System ℕ
held = record informed { shim = holding (some failure) }

abbrev over : System ℕ
over = record informed { shim = ended none }

abbrev manager : System ℕ → Stage → Manager ℕ
manager s x = record { pod = text "pod"; ttl = 60; system = s; stage = x }

-- Started, registered, run to its end and cleaned up.
abbrev beginning : Managers ℕ
beginning = put 0 (manager idle started) [] empty

abbrev registered : Managers ℕ
registered = put 0 (manager idle listed) (insert (text "pod") 0 []) beginning

abbrev moved : System ℕ → Managers ℕ → Managers ℕ
moved s w = put 0 (manager s listed) w.cache w

abbrev through : Managers ℕ
through = moved over (moved held (moved informed (moved closed registered)))

abbrev clear : Managers ℕ
clear = put 0 (manager over removed) (clean_up (text "pod") through.cache).0 through

registered_reached : Reach policy parse_uri clocks empty registered
registered_reached =
    later (later here (new_podmanager 0 (text "pod") 60 3 refl))
      (register 0 (manager idle started) listed refl refl)

through_reached : Reach policy parse_uri clocks empty through
unfolding EventWatcher.step emit become terminate on_phase1 signals first_result shim
through_reached =
    later
      (later
        (later
          (later registered_reached
            (run 0 (manager idle listed) closed refl (watch closes refl refl)))
          (run 0 (manager closed listed) informed refl
            (signal EventWatcher.GcStatus.terminated moment refl refl)))
        (run 0 (manager informed listed) held refl (receive failure refl refl)))
      (run 0 (manager held listed) over refl (release (some failure) false refl))

clear_reached : Reach policy parse_uri clocks empty clear
unfolding EventWatcher.step emit become terminate on_phase1 GarbageCollector.step
clear_reached =
    later through_reached (clean 0 (manager over listed) removed refl (refl, refl, refl) refl)

registered-IsUnique : IsUnique registered
registered-IsUnique j k m n e f p = ground arith

Reach-get_example :
    get (text "pod") registered.cache
    ≡ (if true then ok 0 else err (pod_manager_not_found (text "pod")))
Reach-get_example =
    Reach-get policy parse_uri clocks registered 0 (manager idle listed) registered_reached
      registered-IsUnique refl

idle_runs : AllEnded idle → ⊥
idle_runs (h, _, _) = absurd (cc)

running-get_example : get (text "pod") registered.cache ≡ ok 0
running-get_example =
    running-get policy parse_uri clocks registered 0 (manager idle listed) registered_reached
      registered-IsUnique refl refl idle_runs

clear_removed : (k : ℕ) (m : Manager ℕ) → clear.managers k ≡ some m → m.stage ≡ removed
clear_removed k m e = ground arith

removed-empty_example : clear.cache ≡ []
removed-empty_example = removed-empty policy parse_uri clocks clear clear_reached clear_removed

abbrev closing : Managers ℕ
closing = moved closed registered

closing_reached : Reach policy parse_uri clocks empty closing
closing_reached =
    later registered_reached (run 0 (manager idle listed) closed refl (watch closes refl refl))

ended-CanLeave_example : CanLeave policy parse_uri clocks closing 0 (manager closed listed)
unfolding EventWatcher.step emit become terminate on_phase1
ended-CanLeave_example =
    ended-CanLeave policy parse_uri clocks closing 0 (manager closed listed) moment closing_reached
      refl refl refl
