-- ===== src/Examples/Failing.antt =====
-- Runs that end badly.
use ghactions_rust_test.Prelude.{ℕ, ◌≡◌, refl, true, [], ◌∷◌, none, some, text, eq_text, ok}
use ghactions_rust_test.Examples.Fixtures.{
  clocks, policy, parse_uri, running_pod, unpulled_pod, unpulled_state, silent_failure,
}
use ghactions_rust_test.K8s.Objects.{Pod}
use ghactions_rust_test.K8s.Pod.{
  running as is_running, terminated as is_terminated, crashed, container_statuses, find_waiting,
}
use ghactions_rust_test.K8s.Failures.{ErrorResponse}
use ghactions_rust_test.K8s.Watcher.{Api, WatchEvent, applied}
use ghactions_rust_test.Acm.EventWatcher
use ghactions_rust_test.Acm.EventWatcher.{terminated, panicked, k8s}
use ghactions_rust_test.Acm.GarbageCollector
use ghactions_rust_test.Acm.GarbageCollector.{ℤ, pos, negsuc, Clocks, status, stopped}
use ghactions_rust_test.Acm.Orphans.{pull_without_message_orphans}

abbrev gone : ErrorResponse
gone = record { code = 410; message = text "too old resource version" }

-- A server whose watch has expired, and that lists the one pod.
abbrev api : Api Pod ℕ
api = record {
  list = λ n. (ok (running_pod ∷ [], some (text "9")), n);
  watch = λ v n. (ok tt, n);
  next = λ n. (some (ok (WatchEvent.error gone)), n);
  resource_version = λ k. some (text "9");
}

pull_without_message_orphans_example :
    let d = EventWatcher.step policy parse_uri (text "pod") (EventWatcher.init 3) (record {
      input = k8s (ok (some (applied unpulled_pod)));
      gc_open = true;
      upstream_open = true;
      client_ok = true;
    }) in
    (d.phase ≡ panicked)
    × (d.log ≡ [])
    × (GarbageCollector.gc clocks (text "pod") 60 GarbageCollector.init (
          record { input = status none; now = 1; instant = 1; client_ok = true; api_ok = true }
          ∷ [])
        ≡ record { phase = stopped; log = [] })
unfolding is_running is_terminated crashed find_waiting container_statuses text eq_text
pull_without_message_orphans_example =
    pull_without_message_orphans policy parse_uri (text "pod") clocks 60 3 true true true
      unpulled_pod silent_failure 1 1 true true [] refl refl refl
      (record {
        status = record { state = some unpulled_state };
        state = unpulled_state;
        found = refl;
        has_state = refl;
        has_waiting = refl;
      })
      refl
