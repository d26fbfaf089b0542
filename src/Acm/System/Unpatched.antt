-- ===== src/Acm/System/Unpatched.antt =====
-- What becomes of a pod whose garbage collector panics: `client.patch(…).await.unwrap()` of
-- k8s/service/acm/src/podmanager/garbage_collector.rs, when Kubernetes refuses the new label.
use ghactions_rust_test.Prelude.{
  ℕ, ◌≡◌, refl, ◌∙◌, ap, false, List, ◌∷◌, some, Text, Result, returns, count, arith,
}
use ghactions_rust_test.Backoff.{Backoff}
use ghactions_rust_test.Acm.EventWatcher
use ghactions_rust_test.Acm.EventWatcher.{phase1, phase2, phase3, returned, panicked}
use ghactions_rust_test.Acm.EventWatcher.Protocol
use ghactions_rust_test.Acm.EventWatcher.Protocol.{HasShape, Shape, calls, step-HasShape}
use ghactions_rust_test.Acm.GarbageCollector
use ghactions_rust_test.Acm.GarbageCollector.{
  Clocks, KeepAliveTicket, status, refresh, timeout, counting, pod_patch, patch_labels, reply, new,
}
use ghactions_rust_test.Acm.System.{
  System, has_ended, Moment, tick_of, collect, Step, watch, signal, hang_up, ask, timer, receive,
  dropped, release, init, Reach, here, later,
}

module _ {B : Type 0} (policy : Backoff B) (parse_uri : Text → Result Text (Unit {0}))
    (pod_id : Text) (clocks : Clocks) (ttl : ℕ) where
  deaf :
      (d : GarbageCollector.Daemon) (input : GarbageCollector.Input) (m : Moment)
      → d.phase ≡ GarbageCollector.panicked
      → GarbageCollector.step clocks pod_id ttl d (tick_of input m) ≡ d
  unfolding GarbageCollector.step
  deaf d input m e = ground arith

  Step-deaf :
      {s t : System B}
      → Step policy parse_uri pod_id clocks ttl s t
      → s.collector.phase ≡ GarbageCollector.panicked
      → t.collector ≡ s.collector
  Step-deaf (watch t g u) e = refl
  Step-deaf {s} (signal x m o n) e = deaf s.collector _ m e
  Step-deaf {s} (hang_up m o n) e = deaf s.collector _ m e
  Step-deaf {s} (ask m) e = deaf s.collector _ m e
  Step-deaf {s} (timer m) e = deaf s.collector _ m e
  Step-deaf (receive r i n) e = refl
  Step-deaf (dropped i o n) e = refl
  Step-deaf (release r i n) e = refl

  Reach-deaf :
      {s t : System B}
      → Reach policy parse_uri pod_id clocks ttl s t
      → s.collector.phase ≡ GarbageCollector.panicked
      → t.collector ≡ s.collector
  Reach-deaf here e = refl
  Reach-deaf (later r st) e =
      let same = Reach-deaf r e in
      Step-deaf st (ap (λ (d : GarbageCollector.Daemon). d.phase) same ∙ e) ∙ same

  Step-HasShape :
      {s t : System B}
      → Step policy parse_uri pod_id clocks ttl s t
      → HasShape s.watcher
      → HasShape t.watcher
  Step-HasShape {s} (watch t g u) h = step-HasShape policy parse_uri pod_id s.watcher t h
  Step-HasShape (signal x m o n) h = h
  Step-HasShape (hang_up m o n) h = h
  Step-HasShape (ask m) h = h
  Step-HasShape (timer m) h = h
  Step-HasShape (receive r i n) h = h
  Step-HasShape (dropped i o n) h = h
  Step-HasShape (release r i n) h = h

  Reach-HasShape :
      {s t : System B}
      → Reach policy parse_uri pod_id clocks ttl s t
      → HasShape s.watcher
      → HasShape t.watcher
  Reach-HasShape here h = h
  Reach-HasShape (later r st) h = Step-HasShape st (Reach-HasShape r h)

  not_deleted :
      (phase : EventWatcher.Phase) (log : List EventWatcher.Action)
      → has_ended phase ≡ false
      → Shape phase (calls log)
      → count Protocol.is_delete log ≡ 0
  not_deleted phase1 log e h = h.deletions
  not_deleted (phase2 p) log e h = h.deletions
  not_deleted phase3 log e h = h.deletions
  not_deleted returned log e h = cc
  not_deleted panicked log e h = cc

  refused :
      (k k' : KeepAliveTicket) (log : List GarbageCollector.Action) (m : Moment)
      (c : GarbageCollector.Phase)
      → c ≡ counting k
      → m.api_ok ≡ false
      → new clocks pod_id ttl m.now m.instant ≡ returns k'
      → GarbageCollector.step clocks pod_id ttl
          (record { phase = c; log = log })
          (tick_of (refresh (some tt)) m)
        ≡ record {
          phase = GarbageCollector.panicked;
          log = patch_labels (pod_patch k') ∷ reply k' ∷ log;
        }
  unfolding GarbageCollector.step
  refused k k' log m c e a n = rw (e, n, a) refl

  -- A client refreshes the ticket of a pod, and Kubernetes refuses the new label. The client has got
  -- its new ticket by then, but the garbage collector panics, and from then on, in any order of
  -- steps, however late, it calls nobody any more, and as long as the event watcher has not ended,
  -- that has not asked for the deletion of the pod either: the pod outlives its ticket.
  pub unpatched-not_deleted :
      (b : B) (s u : System B) (k k' : KeepAliveTicket) (m : Moment)
      → Reach policy parse_uri pod_id clocks ttl (init policy parse_uri pod_id clocks ttl b) s
      → s.collector.phase ≡ counting k
      → m.api_ok ≡ false
      → new clocks pod_id ttl m.now m.instant ≡ returns k'
      → Reach policy parse_uri pod_id clocks ttl
          (collect policy parse_uri pod_id clocks ttl (refresh (some tt)) m s)
          u
      → has_ended u.watcher.phase ≡ false
      → (u.collector ≡ record {
        phase = GarbageCollector.panicked;
        log = patch_labels (pod_patch k') ∷ reply k' ∷ s.collector.log;
      })
        × (count Protocol.is_delete u.watcher.log ≡ 0)
  unpatched-not_deleted b s u k k' m r c a n after running =
      let e = refused k k' s.collector.log m s.collector.phase c a n in
      let start : HasShape s.watcher = Reach-HasShape r (ground arith) in
      (
        Reach-deaf after (ap (λ (d : GarbageCollector.Daemon). d.phase) e) ∙ e,
        not_deleted u.watcher.phase u.watcher.log running (Reach-HasShape after start),
      )
