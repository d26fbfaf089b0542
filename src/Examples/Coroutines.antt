-- ===== src/Examples/Coroutines.antt =====
-- The three coroutines of a pod, one step after the other; and the pods of managers that are gone.
use ghactions_rust_test.Prelude.{
  ℕ, ◌≡◌, refl, true, false, ◌∷◌, some, Text, text, ok, count, Run, unwrap,
}
use ghactions_rust_test.Examples.Fixtures.{policy, parse_uri, running_pod, clocks}
use ghactions_rust_test.K8s.Objects.{Pod}
use ghactions_rust_test.K8s.Pod.{
  running as is_running, container_statuses, replace_dots, dns, port, address,
}
use ghactions_rust_test.K8s.Watcher.{applied}
use ghactions_rust_test.Acm.ServerCheck
use ghactions_rust_test.Acm.EventWatcher
use ghactions_rust_test.Acm.EventWatcher.{k8s, emit, become, terminate, on_phase1}
use ghactions_rust_test.Acm.EventWatcher.Protocol
use ghactions_rust_test.Acm.GarbageCollector
use ghactions_rust_test.Acm.GarbageCollector.{
  pos, KeepAliveTicket, status, refresh, new, pod_patch, patch_labels, reply,
}
use ghactions_rust_test.Acm.System.{
  System, next_signal, Moment, collect, watch, signal, init, Reach, here, later, signals,
}
use ghactions_rust_test.Acm.System.Partners.{Partners, Reach-Partners}
use ghactions_rust_test.Acm.System.Unpatched.{unpatched-not_deleted}
use ghactions_rust_test.Acm.Adoption.Deployed.{Deployment}

abbrev idle : System ℕ
idle = init policy parse_uri (text "pod") clocks 60 3

abbrev runs : EventWatcher.Tick
runs = record {
  input = k8s (ok (some (applied running_pod)));
  gc_open = true;
  upstream_open = true;
  client_ok = true;
}

-- The pod runs, and then the garbage collector takes the signal.
abbrev checking : System ℕ
checking = record idle {
  watcher = EventWatcher.step policy parse_uri (text "pod") idle.watcher runs;
}

abbrev counting_down : System ℕ
counting_down =
    record (collect policy parse_uri (text "pod") clocks 60
      (status (some (EventWatcher.running running_pod)))
      (record { now = 1000; instant = 100; client_ok = true; api_ok = true }) checking) {
        taken = 1;
      }

checking_reached : Reach policy parse_uri (text "pod") clocks 60 idle checking
checking_reached = later here (watch runs refl refl)

counting_reached : Reach policy parse_uri (text "pod") clocks 60 idle counting_down
unfolding EventWatcher.step emit become on_phase1 is_running container_statuses ServerCheck.new
    address dns port replace_dots text signals
counting_reached = later checking_reached (
    signal (EventWatcher.running running_pod)
      (record { now = 1000; instant = 100; client_ok = true; api_ok = true }) refl refl)

Reach-Partners_example :
    Partners checking.watcher.phase checking.collector.phase (next_signal checking) checking.shim
Reach-Partners_example =
    Reach-Partners policy parse_uri (text "pod") clocks 60 3 checking checking_reached

-- A minute and a half later Kubernetes does not answer.
abbrev refused : Moment
refused = record { now = 1050; instant = 150; client_ok = true; api_ok = false }

abbrev first : KeepAliveTicket
first = record {
  ticket = text "pod";
  execution_date = pos 1060;
  now = 1000;
  then_ = pos 1060;
  execution_instant = 160;
}

abbrev second : KeepAliveTicket
second = record {
  ticket = text "pod";
  execution_date = pos 1110;
  now = 1050;
  then_ = pos 1110;
  execution_instant = 210;
}

abbrev unpatched : System ℕ
unpatched =
    collect policy parse_uri (text "pod") clocks 60 (refresh (some tt)) refused counting_down

unpatched-not_deleted_example :
    (unpatched.collector ≡ record {
      phase = GarbageCollector.panicked;
      log = patch_labels (pod_patch second) ∷ reply second ∷ counting_down.collector.log;
    })
    × (count Protocol.is_delete unpatched.watcher.log ≡ 0)
unfolding EventWatcher.step emit become on_phase1 is_running container_statuses ServerCheck.new
    address dns port replace_dots text GarbageCollector.step new
unpatched-not_deleted_example =
    unpatched-not_deleted policy parse_uri (text "pod") clocks 60 3 counting_down unpatched first
      second refused counting_reached refl refl refl here refl

abbrev name_of : Pod → Run Text
name_of p = unwrap p.metadata.name

abbrev deployment : Deployment
deployment = record {
  manifest = running_pod;
  name = text "pod";
  servicer = text "acm-1";
  host = text "10-0-0-7.ocf.pod";
  port = 8980;
  ttl = 60;
}
