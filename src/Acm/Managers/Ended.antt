-- ===== src/Acm/Managers/Ended.antt =====
-- Coroutines of a manager that have ended stay so.
use ghactions_rust_test.Prelude.{ℕ, ◌≡◌, refl, true, false, Text, Result}
use ghactions_rust_test.Backoff.{Backoff}
use ghactions_rust_test.Acm.EventWatcher
use ghactions_rust_test.Acm.GarbageCollector
use ghactions_rust_test.Acm.GarbageCollector.{Clocks, status, refresh, timeout}
use ghactions_rust_test.Acm.System
use ghactions_rust_test.Acm.System.{
  System, has_ended, is_listening, is_open, Moment, tick_of, watch, signal, hang_up, ask, timer,
  receive, dropped, release,
}
use ghactions_rust_test.Acm.Managers.{AllEnded}

module _ {B : Type 0} (policy : Backoff B) (parse_uri : Text → Result Text (Unit {0}))
    (pod_id : Text) (clocks : Clocks) (ttl : ℕ) where
  step-has_ended :
      (p : EventWatcher.Phase) (d : EventWatcher.Daemon B) (t : EventWatcher.Tick)
      → d.phase ≡ p
      → has_ended p ≡ true
      → has_ended (EventWatcher.step policy parse_uri pod_id d t).phase ≡ true
  unfolding EventWatcher.step
  step-has_ended EventWatcher.returned d t e h = rw e refl
  step-has_ended EventWatcher.panicked d t e h = rw e refl
  step-has_ended EventWatcher.phase1 d t e h = absurd (cc)
  step-has_ended (EventWatcher.phase2 _) d t e h = absurd (cc)
  step-has_ended EventWatcher.phase3 d t e h = absurd (cc)

  step-is_listening :
      (p : GarbageCollector.Phase) (d : GarbageCollector.Daemon) (t : GarbageCollector.Tick)
      → d.phase ≡ p
      → is_listening p ≡ false
      → is_listening (GarbageCollector.step clocks pod_id ttl d t).phase ≡ false
  unfolding GarbageCollector.step
  step-is_listening GarbageCollector.stopped d t e h = rw e refl
  step-is_listening GarbageCollector.panicked d t e h = rw e refl
  step-is_listening GarbageCollector.waiting d t e h = absurd (cc)
  step-is_listening (GarbageCollector.counting _) d t e h = absurd (cc)

  pub Step-AllEnded :
      {s t : System B}
      → System.Step policy parse_uri pod_id clocks ttl s t
      → AllEnded s
      → AllEnded t
  Step-AllEnded {s} (watch t _ _) (w, c, i) =
      (step-has_ended s.watcher.phase s.watcher t refl w, c, i)
  Step-AllEnded {s} (signal x m _ _) (w, c, i) =
      (w, step-is_listening s.collector.phase s.collector _ refl c, i)
  Step-AllEnded {s} (hang_up m _ _) (w, c, i) =
      (w, step-is_listening s.collector.phase s.collector _ refl c, i)
  Step-AllEnded {s} (ask m) (w, c, i) =
      (w, step-is_listening s.collector.phase s.collector _ refl c, i)
  Step-AllEnded {s} (timer m) (w, c, i) =
      (w, step-is_listening s.collector.phase s.collector _ refl c, i)
  Step-AllEnded {s} (receive r e _) (w, c, i) =
      let o : is_open s.shim ≡ true = rw e refl in absurd (cc)
  Step-AllEnded {s} (dropped e _ _) (w, c, i) =
      let o : is_open s.shim ≡ true = rw e refl in absurd (cc)
  Step-AllEnded {s} (release r b e) (w, c, i) = (w, c, refl)
