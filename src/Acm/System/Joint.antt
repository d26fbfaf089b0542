-- ===== src/Acm/System/Joint.antt =====
-- How the event watcher and the garbage collector stand to each other, in any order of steps.
use ghactions_rust_test.Prelude.{
  ℕ, zero, suc, ◌≡◌, refl, Bool, true, false, List, [], ◌∷◌, ◌++◌, Option, none, some, Text, Result,
  arith, map, ap, map-append,
}
use ghactions_rust_test.Backoff.{Backoff}
use ghactions_rust_test.Acm.EventWatcher
use ghactions_rust_test.Acm.EventWatcher.{
  GcStatus, gc_signal, phase1, phase2, phase3, returned, panicked, terminate, on_phase1, on_phase2,
  on_phase3, on_health,
}
use ghactions_rust_test.Acm.GarbageCollector
use ghactions_rust_test.Acm.GarbageCollector.{
  Clocks, status, refresh, timeout, waiting, counting, stopped,
}
use ghactions_rust_test.Acm.System.{
  System, signals, get_elem?, has_ended, is_listening, Moment, tick_of, Step, watch, signal,
  hang_up, ask, timer, receive, dropped, release, init, Reach, here, later,
}

-- Whether a signal says that the pod runs.
abbrev pub says_running : GcStatus → Bool
says_running (GcStatus.running _) = true
says_running GcStatus.terminated = false

-- What the signals say, the oldest first.
unfoldable pub said : List EventWatcher.Action → List Bool
said [] = []
said (gc_signal s ∷ log) = said log ++ says_running s ∷ []
said (_ ∷ log) = said log

abbrev pub kind_at : List Bool → ℕ → Option Bool
kind_at [] i = none
kind_at (x ∷ l) zero = some x
kind_at (x ∷ l) (suc i) = kind_at l i

kind_at-map :
    (l : List GcStatus) (n : ℕ) (x : GcStatus)
    → get_elem? l n ≡ some x
    → kind_at (map says_running l) n ≡ some (says_running x)
kind_at-map [] n x h = cc
kind_at-map (y ∷ l) zero x h = let e : y ≡ x = cc in ap (λ z. some (says_running z)) e
kind_at-map (y ∷ l) (suc n) x h = kind_at-map l n x h

kind_at-map-none :
    (l : List GcStatus) (n : ℕ) → get_elem? l n ≡ none → kind_at (map says_running l) n ≡ none
kind_at-map-none [] n h = refl
kind_at-map-none (y ∷ l) zero h = cc
kind_at-map-none (y ∷ l) (suc n) h = kind_at-map-none l n h

pub said-map : (log : List EventWatcher.Action) → said log ≡ map says_running (signals log)
unfolding said signals
said-map [] = refl
said-map (gc_signal s ∷ log) = rw (said-map log, map-append) refl
said-map (EventWatcher.send_result _ ∷ log) = said-map log
said-map (EventWatcher.delete_pod ∷ log) = said-map log
said-map (EventWatcher.spawn_check _ ∷ log) = said-map log
said-map (EventWatcher.kill_check ∷ log) = said-map log
said-map (EventWatcher.join_check ∷ log) = said-map log
said-map (EventWatcher.sleep _ ∷ log) = said-map log

-- The garbage collector has taken the signals that it stands for, of which the first says that the
-- pod runs.
abbrev pub Follows : GarbageCollector.Phase → ℕ → Type 0
Follows waiting taken = taken ≡ 0
Follows (counting _) taken = taken ≡ 1
Follows _ _ = Unit

-- The same, when the event watcher has returned.
abbrev pub Over : List Bool → GarbageCollector.Phase → ℕ → Type 0
Over (false ∷ []) waiting taken = taken ≡ 0
Over (false ∷ []) (counting _) _ = ⊥
Over (false ∷ []) _ _ = Unit
Over (true ∷ false ∷ []) c taken = Follows c taken
Over _ _ _ = ⊥

abbrev pub IsWaiting : GarbageCollector.Phase → Type 0
IsWaiting waiting = Unit
IsWaiting _ = ⊥

abbrev pub IsNotCounting : GarbageCollector.Phase → Type 0
IsNotCounting (counting _) = ⊥
IsNotCounting _ = Unit

-- The same, when the event watcher has panicked.
abbrev pub Broken : List Bool → GarbageCollector.Phase → ℕ → Type 0
Broken [] c taken = IsNotCounting c × (taken ≡ 0)
Broken (true ∷ []) c taken = Follows c taken
Broken l c taken = Over l c taken

abbrev pub Joint : EventWatcher.Phase → List Bool → GarbageCollector.Phase → ℕ → Type 0
Joint phase1 l c taken = (l ≡ []) × IsWaiting c × (taken ≡ 0)
Joint (phase2 _) l c taken = (l ≡ true ∷ []) × Follows c taken
Joint phase3 l c taken = (l ≡ true ∷ []) × Follows c taken
Joint returned l c taken = Over l c taken
Joint panicked l c taken = Broken l c taken

abbrev pub IsJoint : {B : Type 0} → System B → Type 0
IsJoint s = Joint s.watcher.phase (said s.watcher.log) s.collector.phase s.taken

module _ {B : Type 0} (policy : Backoff B) (parse_uri : Text → Result Text (Unit {0}))
    (pod_id : Text) (clocks : Clocks) (ttl : ℕ) where
  watch-Joint :
      (phase : EventWatcher.Phase) (b : B) (log : List EventWatcher.Action) (t : EventWatcher.Tick)
      (c : GarbageCollector.Phase) (n : ℕ)
      → Joint phase (said log) c n
      → let d =
          EventWatcher.step policy parse_uri pod_id
            (record { phase = phase; backoff = b; log = log })
            t in
        Joint d.phase (said d.log) c n
  unfolding EventWatcher.step on_phase1 on_phase2 on_phase3 on_health terminate said
  watch-Joint phase1 b log t c n h = ground arith
  watch-Joint (phase2 p) b log t c n h = ground arith
  watch-Joint phase3 b log t c n h = ground arith
  watch-Joint returned b log t c n h = h
  watch-Joint panicked b log t c n h = h

  signal-Joint :
      (phase : EventWatcher.Phase) (l : List Bool) (c : GarbageCollector.Phase)
      (log : List GarbageCollector.Action) (n : ℕ) (x : GcStatus) (m : Moment)
      → is_listening c ≡ true
      → kind_at l n ≡ some (says_running x)
      → Joint phase l c n
      → let d =
          GarbageCollector.step clocks pod_id ttl
            (record { phase = c; log = log })
            (tick_of (status (some x)) m) in
        Joint phase l d.phase (suc n)
  unfolding GarbageCollector.step
  signal-Joint phase1 l waiting log n x m o k h = ground arith
  signal-Joint phase1 l (counting _) log n x m o k h = absurd h.1
  signal-Joint phase1 l stopped log n x m o k h = absurd h.1
  signal-Joint phase1 l GarbageCollector.panicked log n x m o k h = absurd h.1
  signal-Joint (phase2 p) l c log n x m o k h = ground arith
  signal-Joint phase3 l c log n x m o k h = ground arith
  signal-Joint returned l c log n x m o k h = ground arith
  signal-Joint panicked l c log n x m o k h = ground arith

  hang_up-Joint :
      (phase : EventWatcher.Phase) (l : List Bool) (c : GarbageCollector.Phase)
      (log : List GarbageCollector.Action) (n : ℕ) (m : Moment)
      → has_ended phase ≡ true
      → kind_at l n ≡ none
      → Joint phase l c n
      → let d =
          GarbageCollector.step clocks pod_id ttl
            (record { phase = c; log = log })
            (tick_of (status none) m) in
        Joint phase l d.phase n
  unfolding GarbageCollector.step
  hang_up-Joint phase1 l c log n m o k h = cc
  hang_up-Joint (phase2 p) l c log n m o k h = cc
  hang_up-Joint phase3 l c log n m o k h = cc
  hang_up-Joint returned l c log n m o k h = ground arith
  hang_up-Joint panicked l c log n m o k h = ground arith

  ask-Joint :
      (phase : EventWatcher.Phase) (l : List Bool) (c : GarbageCollector.Phase)
      (log : List GarbageCollector.Action) (n : ℕ) (m : Moment)
      → Joint phase l c n
      → let d =
          GarbageCollector.step clocks pod_id ttl
            (record { phase = c; log = log })
            (tick_of (refresh (some tt)) m) in
        Joint phase l d.phase n
  unfolding GarbageCollector.step
  ask-Joint phase l c log n m h = ground arith

  timer-Joint :
      (phase : EventWatcher.Phase) (l : List Bool) (c : GarbageCollector.Phase)
      (log : List GarbageCollector.Action) (n : ℕ) (m : Moment)
      → Joint phase l c n
      → let d =
          GarbageCollector.step clocks pod_id ttl
            (record { phase = c; log = log })
            (tick_of timeout m) in
        Joint phase l d.phase n
  unfolding GarbageCollector.step
  timer-Joint phase l c log n m h = ground arith

  -- One step of the whole.
  pub Step-IsJoint :
      {s t : System B} → Step policy parse_uri pod_id clocks ttl s t → IsJoint s → IsJoint t
  Step-IsJoint {s} (watch t g u) h =
      watch-Joint s.watcher.phase s.watcher.backoff s.watcher.log t s.collector.phase s.taken h
  Step-IsJoint {s} (signal x m o n) h =
      signal-Joint s.watcher.phase (said s.watcher.log) s.collector.phase s.collector.log s.taken x
        m o (rw (said-map s.watcher.log) (kind_at-map (signals s.watcher.log) s.taken x n)) h
  Step-IsJoint {s} (hang_up m o n) h =
      hang_up-Joint s.watcher.phase (said s.watcher.log) s.collector.phase s.collector.log s.taken m
        o (rw (said-map s.watcher.log) (kind_at-map-none (signals s.watcher.log) s.taken n)) h
  Step-IsJoint {s} (ask m) h =
      ask-Joint s.watcher.phase (said s.watcher.log) s.collector.phase s.collector.log s.taken m h
  Step-IsJoint {s} (timer m) h =
      timer-Joint s.watcher.phase (said s.watcher.log) s.collector.phase s.collector.log s.taken m h
  Step-IsJoint (receive r i n) h = h
  Step-IsJoint (dropped i o n) h = h
  Step-IsJoint (release r i e) h = h

  pub Reach-IsJoint :
      {s t : System B} → IsJoint s → Reach policy parse_uri pod_id clocks ttl s t → IsJoint t
  Reach-IsJoint h here = h
  Reach-IsJoint h (later r st) = Step-IsJoint st (Reach-IsJoint h r)

  pub Reach-init-IsJoint :
      {b : B} {s : System B}
      → Reach policy parse_uri pod_id clocks ttl (init policy parse_uri pod_id clocks ttl b) s
      → IsJoint s
  unfolding said
  Reach-init-IsJoint r = Reach-IsJoint (refl, tt, refl) r
