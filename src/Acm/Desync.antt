-- ===== src/Acm/Desync.antt =====
-- How the watcher of k8s/library/k8s/src/watcher.rs and the event watcher of
-- k8s/service/acm/src/podmanager/event_watcher.rs understand an expired watch.
use ghactions_rust_test.Prelude.{true, some, Result, ok, err}
use ghactions_rust_test.Backoff.{Backoff}
use ghactions_rust_test.K8s.Objects.{Pod}
use ghactions_rust_test.K8s.Watcher.{Fault, Event, State, empty, init_listed}
use ghactions_rust_test.K8s.Watcher
use ghactions_rust_test.Acm.EventWatcher.{k8s, Next, Tick}

-- `try_next` of an item of the stream.
abbrev pub next_of : Result Fault (Event Pod) → Next
next_of (ok e) = ok (some e)
next_of (err f) = err f

-- An input with all receivers open.
abbrev pub tick_of : Result Fault (Event Pod) → Tick
tick_of r = record {
  input = k8s (next_of r);
  gc_open = true;
  upstream_open = true;
  client_ok = true;
}
