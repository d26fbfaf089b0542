-- ===== src/Examples/Connecting.antt =====
-- A pod that runs, whose server refuses one connection and takes the next.
use ghactions_rust_test.Prelude.{ℕ, ◌≡◌, refl, true, [], ◌∷◌, some, text, ok, any, arith}
use ghactions_rust_test.Examples.Fixtures.{policy, parse_uri, running_pod}
use ghactions_rust_test.K8s.Pod.{
  running as is_running, container_statuses, replace_dots, dns, port, address,
}
use ghactions_rust_test.K8s.Watcher.{applied}
use ghactions_rust_test.Acm.ServerCheck
use ghactions_rust_test.Acm.ServerCheck.{Round, waited, connected, refused, check}
use ghactions_rust_test.Acm.ServerCheck.Signal.{is_connected}
use ghactions_rust_test.Acm.EventWatcher
use ghactions_rust_test.Acm.EventWatcher.{k8s, health_check, emit, become, on_phase1, on_health}
use ghactions_rust_test.Acm.Readiness.{Pair, poll, watch, init, Reach, here, later}
use ghactions_rust_test.Acm.Readiness.Connection.{Reach-connected}

abbrev idle : Pair ℕ
idle = init policy parse_uri (text "pod") 3 3

abbrev runs : EventWatcher.Tick
runs = record {
  input = k8s (ok (some (applied running_pod)));
  gc_open = true;
  upstream_open = true;
  client_ok = true;
}

abbrev passes : EventWatcher.Tick
passes = record {
  input = health_check (ok (ok tt));
  gc_open = true;
  upstream_open = true;
  client_ok = true;
}

abbrev refusal : Round
refusal = record { pause = waited; attempt = refused (text "refused") }

abbrev connection : Round
connection = record { pause = waited; attempt = connected }

abbrev stepped : EventWatcher.Tick → Pair ℕ → Pair ℕ
stepped t s = record s { watcher = EventWatcher.step policy parse_uri (text "pod") s.watcher t }

abbrev checking : Pair ℕ
checking = stepped runs idle

abbrev checked : Pair ℕ
checked = record checking { rounds = refusal ∷ connection ∷ [] }

abbrev ready : Pair ℕ
ready = stepped passes checked

ready_reached : Reach policy parse_uri (text "pod") 3 idle ready
unfolding EventWatcher.step emit become on_phase1 on_health is_running container_statuses
    ServerCheck.new address dns port replace_dots text check
ready_reached =
    later
      (later (later (later here (watch runs tt)) (poll refusal running_pod refl refl refl))
        (poll connection running_pod refl refl refl))
      (watch passes refl)

Reach-connected_example : any is_connected ready.rounds ≡ true
unfolding EventWatcher.step emit become on_phase1 on_health is_running container_statuses
    ServerCheck.new address dns port replace_dots text
Reach-connected_example =
    Reach-connected policy parse_uri (text "pod") 3 3 ready ready_reached (omega arith)
