-- ===== src/Acm/System/Quiet.antt =====
-- How the garbage collector ends once the event watcher has.
use ghactions_rust_test.Prelude.{
  ℕ, suc, ◌≡◌, refl, true, false, List, Option, none, some, Text, Result, arith, ◌∙◌, inl, inr, ◌⊎◌,
  ◌≢◌,
}
use ghactions_rust_test.Backoff.{Backoff}
use ghactions_rust_test.K8s.Objects.{Pod}
use ghactions_rust_test.Acm.EventWatcher.{GcStatus}
use ghactions_rust_test.Acm.GarbageCollector
use ghactions_rust_test.Acm.GarbageCollector.{
  Clocks, status, refresh, timeout, waiting, counting, stopped,
}
use ghactions_rust_test.Acm.System.{
  System, next_signal, has_ended, is_listening, Moment, tick_of, collect, Step, signal, hang_up,
  Reach, here, later, AllUnaided, IsUnaided,
}
use ghactions_rust_test.Acm.System.Partners.{counting-last_next}
use ghactions_rust_test.Acm.System.Joint.{IsJoint, Step-IsJoint}

module _ {B : Type 0} (policy : Backoff B) (parse_uri : Text → Result Text (Unit {0}))
    (pod_id : Text) (clocks : Clocks) (ttl : ℕ) where
  terminated-stops :
      (c : GarbageCollector.Phase) (log : List GarbageCollector.Action) (m : Moment)
      → is_listening c ≡ true
      → (GarbageCollector.step clocks pod_id ttl
          (record { phase = c; log = log })
          (tick_of (status (some GcStatus.terminated)) m)).phase
        ≡ stopped
  unfolding GarbageCollector.step
  terminated-stops c log m h = ground arith

  hang_up-stops :
      (c : GarbageCollector.Phase) (log : List GarbageCollector.Action) (m : Moment)
      → c ≡ waiting
      → (GarbageCollector.step clocks pod_id ttl
          (record { phase = c; log = log })
          (tick_of (status none) m)).phase
        ≡ stopped
  unfolding GarbageCollector.step
  hang_up-stops c log m h = ground arith

  hang_up-ends :
      (c : GarbageCollector.Phase) (log : List GarbageCollector.Action) (m : Moment)
      (k : GarbageCollector.KeepAliveTicket)
      → c ≡ counting k
      → is_listening
          (GarbageCollector.step clocks pod_id ttl
            (record { phase = c; log = log })
            (tick_of (status none) m)).phase
        ≡ false
  unfolding GarbageCollector.step
  hang_up-ends c log m k h = ground arith

  -- The same event watcher, with a garbage collector that has ended.
  pub record Quiet (s : System B) : Type 0 where
    pub last : System B
    pub reach : Reach policy parse_uri pod_id clocks ttl s last
    pub unaided : AllUnaided policy parse_uri pod_id clocks ttl reach
    pub watcher : last.watcher ≡ s.watcher
    pub shim : last.shim ≡ s.shim
    pub quiet : is_listening last.collector.phase ≡ false

  terminated_next-Quiet :
      (s : System B) (m : Moment)
      → is_listening s.collector.phase ≡ true
      → next_signal s ≡ some GcStatus.terminated
      → Quiet s
  terminated_next-Quiet s m o n = record {
    last = _;
    reach = later here (signal GcStatus.terminated m o n);
    unaided = (tt, tt);
    watcher = refl;
    shim = refl;
    quiet = rw (terminated-stops s.collector.phase s.collector.log m o) refl;
  }

  counting-Quiet :
      (s : System B) (m : Moment) (k : GarbageCollector.KeepAliveTicket)
      → has_ended s.watcher.phase ≡ true
      → s.collector.phase ≡ counting k
      → IsJoint s
      → Quiet s
  counting-Quiet s m k o c h =
      elim (counting-last_next policy parse_uri pod_id clocks ttl s s.watcher.phase k o c h) [
        | inl order ↦ terminated_next-Quiet s m (rw c refl) order
        | inr closed ↦ record {
          last = _;
          reach = later here (hang_up m o closed);
          unaided = (tt, tt);
          watcher = refl;
          shim = refl;
          quiet = rw (hang_up-ends s.collector.phase s.collector.log m k c) refl;
        }
      ]

  listening_cases :
      (c : GarbageCollector.Phase)
      → (is_listening c ≡ false)
        ⊎ ((c ≡ waiting) ⊎ ((k : GarbageCollector.KeepAliveTicket) × (c ≡ counting k)))
  listening_cases waiting = inr (inl refl)
  listening_cases (counting k) = inr (inr (k, refl))
  listening_cases stopped = inl refl
  listening_cases GarbageCollector.panicked = inl refl

  not_waiting :
      (c : GarbageCollector.Phase) (log : List GarbageCollector.Action) (m : Moment) (p : Pod)
      → c ≡ waiting
      → (GarbageCollector.step clocks pod_id ttl
          (record { phase = c; log = log })
          (tick_of (status (some (GcStatus.running p))) m)).phase
        ≢ waiting
  unfolding GarbageCollector.step
  not_waiting c log m p e h = ground arith

  pub Reach-trans :
      {s t u : System B}
      → Reach policy parse_uri pod_id clocks ttl s t
      → Reach policy parse_uri pod_id clocks ttl t u
      → Reach policy parse_uri pod_id clocks ttl s u
  Reach-trans r here = r
  Reach-trans r (later q st) = later (Reach-trans r q) st

  pub Reach-trans-AllUnaided :
      {s t u : System B} (r : Reach policy parse_uri pod_id clocks ttl s t)
      (q : Reach policy parse_uri pod_id clocks ttl t u)
      → AllUnaided policy parse_uri pod_id clocks ttl r
      → AllUnaided policy parse_uri pod_id clocks ttl q
      → AllUnaided policy parse_uri pod_id clocks ttl (Reach-trans r q)
  unfolding Reach-trans
  Reach-trans-AllUnaided r here h k = h
  Reach-trans-AllUnaided r (later q st) h (k, i) = (Reach-trans-AllUnaided r q h k, i)

  Quiet-later :
      {s t : System B} (st : Step policy parse_uri pod_id clocks ttl s t)
      → IsUnaided policy parse_uri pod_id clocks ttl st
      → t.watcher ≡ s.watcher
      → t.shim ≡ s.shim
      → Quiet t
      → Quiet s
  Quiet-later st a w i q = record {
    last = q.last;
    reach = Reach-trans (later here st) q.reach;
    unaided = Reach-trans-AllUnaided (later here st) q.reach (tt, a) q.unaided;
    watcher = q.watcher ∙ w;
    shim = q.shim ∙ i;
    quiet = q.quiet;
  }

  running-Quiet :
      (s : System B) (m : Moment) (p : Pod)
      → has_ended s.watcher.phase ≡ true
      → s.collector.phase ≡ waiting
      → next_signal s ≡ some (GcStatus.running p)
      → IsJoint s
      → Quiet s
  running-Quiet s m p o c n h =
      let move = signal (GcStatus.running p) m (rw c refl) n in
      let t : System B =
        record (collect policy parse_uri pod_id clocks ttl (status (some (GcStatus.running p))) m
          s) { taken = suc s.taken } in
      Quiet-later move tt refl refl (elim (listening_cases t.collector.phase) [
        | inl quiet ↦ record {
          last = t;
          reach = here;
          unaided = tt;
          watcher = refl;
          shim = refl;
          quiet = quiet;
        }
        | inr (inl w) ↦ absurd (not_waiting s.collector.phase s.collector.log m p c w)
        | inr (inr (k, e)) ↦
            counting-Quiet t m k o e (Step-IsJoint policy parse_uri pod_id clocks ttl move h)
      ])

  waiting-Quiet :
      (s : System B) (m : Moment) (next : Option GcStatus)
      → has_ended s.watcher.phase ≡ true
      → s.collector.phase ≡ waiting
      → next_signal s ≡ next
      → IsJoint s
      → Quiet s
  waiting-Quiet s m none o c n h = record {
    last = _;
    reach = later here (hang_up m o n);
    unaided = (tt, tt);
    watcher = refl;
    shim = refl;
    quiet = rw (hang_up-stops s.collector.phase s.collector.log m c) refl;
  }
  waiting-Quiet s m (some GcStatus.terminated) o c n h = terminated_next-Quiet s m (rw c refl) n
  waiting-Quiet s m (some (GcStatus.running p)) o c n h = running-Quiet s m p o c n h

  pub ended-Quiet :
      (s : System B) (m : Moment) → has_ended s.watcher.phase ≡ true → IsJoint s → Quiet s
  ended-Quiet s m o h = elim (listening_cases s.collector.phase) [
    | inl quiet ↦ record {
      last = s;
      reach = here;
      unaided = tt;
      watcher = refl;
      shim = refl;
      quiet = quiet;
    }
    | inr (inl w) ↦ waiting-Quiet s m (next_signal s) o w refl h
    | inr (inr (k, e)) ↦ counting-Quiet s m k o e h
  ]
