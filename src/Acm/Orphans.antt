-- ===== src/Acm/Orphans.antt =====
-- What is left of a pod when its event watcher panics: the sender to the garbage collector is
-- dropped with it (k8s/service/acm/src/podmanager/event_watcher.rs and garbage_collector.rs).
use ghactions_rust_test.Prelude.{ℕ, ◌≡◌, Bool, false, List, [], ◌∷◌, none, some, Text, Result, ok}
use ghactions_rust_test.Backoff.{Backoff}
use ghactions_rust_test.K8s.Objects.{Pod, ContainerStateWaiting}
use ghactions_rust_test.K8s.Pod.{running as is_running, terminated as is_terminated, crashed}
use ghactions_rust_test.K8s.Pod.ImagePull.{PullFailed}
use ghactions_rust_test.K8s.Watcher.{applied}
use ghactions_rust_test.Acm.EventWatcher
use ghactions_rust_test.Acm.EventWatcher.{k8s, panicked, phase1}
use ghactions_rust_test.Acm.EventWatcher.Panic.{pull_without_message_panics}
use ghactions_rust_test.Acm.GarbageCollector
use ghactions_rust_test.Acm.GarbageCollector.{Clocks, status, stopped}
use ghactions_rust_test.Acm.GarbageCollector.Lease.{gc_stopped}

module _ {B : Type 0} (policy : Backoff B) (parse_uri : Text → Result Text (Unit {0}))
    (pod_id : Text) (clocks : Clocks) (ttl : ℕ) where
  gc-hang_up :
      (now instant : ℕ) (gc_client_ok api_ok : Bool) (ts : List GarbageCollector.Tick)
      → GarbageCollector.gc clocks pod_id ttl GarbageCollector.init (
          record {
            input = status none;
            now = now;
            instant = instant;
            client_ok = gc_client_ok;
            api_ok = api_ok;
          }
          ∷ ts)
        ≡ record { phase = stopped; log = [] }
  unfolding GarbageCollector.gc GarbageCollector.step
  gc-hang_up now instant gc_client_ok api_ok ts = gc_stopped clocks pod_id ttl [] ts

  -- A pod that neither runs nor ended nor crashed waits with the reason ErrImagePull, but without a
  -- message. On this event the event watcher, in phase 1 with nothing done, panics with nothing
  -- done. Its garbage collector, which has had no signal, then sees the channel closed, and stops,
  -- whatever else it would get, having called nobody: the pod is deleted by neither.
  pub pull_without_message_orphans :
      (b : B) (gc_open upstream_open client_ok : Bool) (p : Pod) (w : ContainerStateWaiting)
      (now instant : ℕ) (gc_client_ok api_ok : Bool) (ts : List GarbageCollector.Tick)
      → is_running p ≡ false
      → is_terminated p ≡ false
      → crashed p ≡ false
      → PullFailed p w
      → w.message ≡ none
      → let d = EventWatcher.step policy parse_uri pod_id (EventWatcher.init b) (record {
        input = k8s (ok (some (applied p)));
        gc_open = gc_open;
        upstream_open = upstream_open;
        client_ok = client_ok;
      }) in
        (d.phase ≡ panicked)
        × (d.log ≡ [])
        × (GarbageCollector.gc clocks pod_id ttl GarbageCollector.init (
              record {
                input = status none;
                now = now;
                instant = instant;
                client_ok = gc_client_ok;
                api_ok = api_ok;
              }
              ∷ ts)
            ≡ record { phase = stopped; log = [] })
  pull_without_message_orphans b g u k p w now instant gc_client_ok api_ok ts r t c f n =
      let (panic, quiet) =
        pull_without_message_panics policy parse_uri pod_id b [] g u k p w r t c f n in
      (panic, quiet, gc-hang_up now instant gc_client_ok api_ok ts)
