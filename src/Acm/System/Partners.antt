-- ===== src/Acm/System/Partners.antt =====
-- What the coroutines of one pod can rely on: which of their partners are still there.
use ghactions_rust_test.Prelude.{
  ℕ, ◌≡◌, refl, true, List, [], ◌∷◌, Option, none, some, Text, Result, arith, map, ◌⊎◌, inl, inr,
}
use ghactions_rust_test.Errors.{AcmResult}
use ghactions_rust_test.Backoff.{Backoff}
use ghactions_rust_test.K8s.Objects.{Pod}
use ghactions_rust_test.Acm.EventWatcher
use ghactions_rust_test.Acm.EventWatcher.{
  GcStatus, gc_signal, phase1, phase2, phase3, returned, panicked, terminate, on_phase1, on_phase2,
  on_phase3, on_health,
}
use ghactions_rust_test.Acm.GarbageCollector
use ghactions_rust_test.Acm.GarbageCollector.{
  Clocks, status, refresh, timeout, waiting, counting, stopped,
}
use ghactions_rust_test.Acm.Handle.Results.{first_result}
use ghactions_rust_test.Acm.System.{
  System, Shim, receiving, holding, signals, get_elem?, next_signal, has_ended, is_listening,
  is_open, Step, watch, signal, hang_up, ask, timer, receive, dropped, release, init, Reach, here,
  later,
}
use ghactions_rust_test.Acm.System.Joint.{says_running, said, said-map, Joint, Reach-init-IsJoint}

-- A result was sent, or the shim still waits for it.
abbrev pub Awaited : EventWatcher.Phase → Option (AcmResult Pod) → Shim → Type 0
Awaited phase1 first shim = (first ≡ none) × (shim ≡ receiving)
Awaited (phase2 _) first shim = (first ≡ none) × (shim ≡ receiving)
Awaited _ _ _ = Unit

-- A garbage collector that counts finds the order to stop.
abbrev pub Hears : GarbageCollector.Phase → Option GcStatus → Type 0
Hears (counting _) next = next ≡ some GcStatus.terminated
Hears _ _ = Unit

-- It finds the order to stop, or the closed channel.
abbrev pub HearsEnd : GarbageCollector.Phase → Option GcStatus → Type 0
HearsEnd (counting _) next = (next ≡ some GcStatus.terminated) ⊎ (next ≡ none)
HearsEnd _ _ = Unit

-- What the event watcher can rely on in each phase, and the garbage collector after it.
abbrev pub Partners : EventWatcher.Phase → GarbageCollector.Phase → Option GcStatus → Shim → Type 0
Partners phase1 c next shim = (is_listening c ≡ true) × (is_open shim ≡ true)
Partners (phase2 _) c next shim = is_open shim ≡ true
Partners phase3 c next shim = Unit
Partners returned c next shim = Hears c next
Partners panicked c next shim = HearsEnd c next

abbrev pub IsAwaited : {B : Type 0} → System B → Type 0
IsAwaited s = Awaited s.watcher.phase (first_result s.watcher.log) s.shim

terminated_next :
    (l : List GcStatus) (n : ℕ) (c : GarbageCollector.Phase) (k : GarbageCollector.KeepAliveTicket)
    → c ≡ counting k
    → Joint returned (map says_running l) c n
    → get_elem? l n ≡ some GcStatus.terminated
terminated_next [] n c k e h = absurd h
terminated_next (GcStatus.terminated ∷ []) n c k e h = ground arith
terminated_next (GcStatus.running p ∷ GcStatus.terminated ∷ []) n c k e h = ground arith
terminated_next (GcStatus.running p ∷ []) n c k e h = absurd h
terminated_next (GcStatus.running p ∷ GcStatus.running q ∷ l) n c k e h = absurd h
terminated_next (GcStatus.running p ∷ GcStatus.terminated ∷ x ∷ l) n c k e h = absurd h
terminated_next (GcStatus.terminated ∷ x ∷ l) n c k e h = absurd h

last_next :
    (l : List GcStatus) (n : ℕ) (c : GarbageCollector.Phase) (k : GarbageCollector.KeepAliveTicket)
    → c ≡ counting k
    → Joint panicked (map says_running l) c n
    → (get_elem? l n ≡ some GcStatus.terminated) ⊎ (get_elem? l n ≡ none)
last_next [] n c k e h = inr refl
last_next (GcStatus.running p ∷ []) n c k e h = ground arith
last_next (GcStatus.terminated ∷ l) n c k e h =
    inl (terminated_next (GcStatus.terminated ∷ l) n c k e h)
last_next (GcStatus.running p ∷ q ∷ l) n c k e h =
    inl (terminated_next (GcStatus.running p ∷ q ∷ l) n c k e h)

received-Awaited :
    (phase : EventWatcher.Phase) (first : Option (AcmResult Pod)) (shim after : Shim)
    (r : AcmResult Pod)
    → first ≡ some r
    → Awaited phase first shim
    → Awaited phase first after
received-Awaited phase first shim after r e h = ground arith

ended-Awaited :
    (phase : EventWatcher.Phase) (first : Option (AcmResult Pod)) (after : Shim)
    → has_ended phase ≡ true
    → Awaited phase first after
ended-Awaited phase first after e = ground arith

held-Awaited :
    (phase : EventWatcher.Phase) (first : Option (AcmResult Pod)) (shim after : Shim)
    (r : Option (AcmResult Pod))
    → shim ≡ holding r
    → Awaited phase first shim
    → Awaited phase first after
held-Awaited phase first shim after r e h = ground arith

module _ {B : Type 0} (policy : Backoff B) (parse_uri : Text → Result Text (Unit {0}))
    (pod_id : Text) (clocks : Clocks) (ttl : ℕ) where
  watch-Awaited :
      (phase : EventWatcher.Phase) (b : B) (log : List EventWatcher.Action) (t : EventWatcher.Tick)
      (shim : Shim)
      → Awaited phase (first_result log) shim
      → let d =
          EventWatcher.step policy parse_uri pod_id
            (record { phase = phase; backoff = b; log = log })
            t in
        Awaited d.phase (first_result d.log) shim
  unfolding EventWatcher.step on_phase1 on_phase2 on_phase3 on_health terminate first_result
  watch-Awaited phase1 b log t shim h = ground arith
  watch-Awaited (phase2 p) b log t shim h = ground arith
  watch-Awaited phase3 b log t shim h = ground arith
  watch-Awaited returned b log t shim h = h
  watch-Awaited panicked b log t shim h = h

  Step-IsAwaited :
      {s t : System B} → Step policy parse_uri pod_id clocks ttl s t → IsAwaited s → IsAwaited t
  Step-IsAwaited {s} (watch t g u) h =
      watch-Awaited s.watcher.phase s.watcher.backoff s.watcher.log t s.shim h
  Step-IsAwaited (signal x m o n) h = h
  Step-IsAwaited (hang_up m o n) h = h
  Step-IsAwaited (ask m) h = h
  Step-IsAwaited (timer m) h = h
  Step-IsAwaited {s} (receive r i n) h = received-Awaited s.watcher.phase _ s.shim _ r n h
  Step-IsAwaited {s} (dropped i o n) h = ended-Awaited s.watcher.phase _ _ o
  Step-IsAwaited {s} (release r i e) h = held-Awaited s.watcher.phase _ s.shim _ r e h

  counting-terminated_next :
      (s : System B) (k : GarbageCollector.KeepAliveTicket)
      → s.collector.phase ≡ counting k
      → Joint returned (said s.watcher.log) s.collector.phase s.taken
      → next_signal s ≡ some GcStatus.terminated
  counting-terminated_next s k c h =
      terminated_next (signals s.watcher.log) s.taken s.collector.phase k c
        (rw (← said-map s.watcher.log) h)

  -- A garbage collector that counts after the end of the event watcher.
  pub counting-last_next :
      (s : System B) (phase : EventWatcher.Phase) (k : GarbageCollector.KeepAliveTicket)
      → has_ended phase ≡ true
      → s.collector.phase ≡ counting k
      → Joint phase (said s.watcher.log) s.collector.phase s.taken
      → (next_signal s ≡ some GcStatus.terminated) ⊎ (next_signal s ≡ none)
  counting-last_next s phase1 k o c h = cc
  counting-last_next s (phase2 _) k o c h = cc
  counting-last_next s phase3 k o c h = cc
  counting-last_next s returned k o c h = inl (counting-terminated_next s k c h)
  counting-last_next s panicked k o c h =
      last_next (signals s.watcher.log) s.taken s.collector.phase k c
        (rw (← said-map s.watcher.log) h)

  pub Reach-IsAwaited :
      {s t : System B} → IsAwaited s → Reach policy parse_uri pod_id clocks ttl s t → IsAwaited t
  Reach-IsAwaited h here = h
  Reach-IsAwaited h (later r st) = Step-IsAwaited st (Reach-IsAwaited h r)

  hears :
      (s : System B) (c : GarbageCollector.Phase)
      → s.collector.phase ≡ c
      → Joint returned (said s.watcher.log) s.collector.phase s.taken
      → Hears c (next_signal s)
  hears s waiting e h = tt
  hears s (counting k) e h = counting-terminated_next s k e h
  hears s stopped e h = tt
  hears s GarbageCollector.panicked e h = tt

  hears_end :
      (s : System B) (c : GarbageCollector.Phase)
      → s.collector.phase ≡ c
      → Joint panicked (said s.watcher.log) s.collector.phase s.taken
      → HearsEnd c (next_signal s)
  hears_end s waiting e h = tt
  hears_end s (counting k) e h = counting-last_next s panicked k refl e h
  hears_end s stopped e h = tt
  hears_end s GarbageCollector.panicked e h = tt

  open-Partners :
      (s : System B) (phase : EventWatcher.Phase)
      → Joint phase (said s.watcher.log) s.collector.phase s.taken
      → Awaited phase (first_result s.watcher.log) s.shim
      → Partners phase s.collector.phase (next_signal s) s.shim
  open-Partners s phase1 h k = ground arith
  open-Partners s (phase2 p) h k = ground arith
  open-Partners s phase3 h k = tt
  open-Partners s returned h k = hears s s.collector.phase refl h
  open-Partners s panicked h k = hears_end s s.collector.phase refl h

  -- Whatever the order of steps has been: while the event watcher stands in phase 1, the garbage
  -- collector still reads its channel and the shim waits for the result, and while it stands in
  -- phase 2, the shim still waits, so that the branches for a partner that is gone are never taken.
  -- Once the event watcher has returned, a garbage collector that counts finds next the order to stop,
  -- and not a closed channel; once it has panicked, it finds one of the two.
  pub Reach-Partners :
      (b : B) (s : System B)
      → Reach policy parse_uri pod_id clocks ttl (init policy parse_uri pod_id clocks ttl b) s
      → Partners s.watcher.phase s.collector.phase (next_signal s) s.shim
  Reach-Partners b s r =
      open-Partners s s.watcher.phase (Reach-init-IsJoint policy parse_uri pod_id clocks ttl r) (
        Reach-IsAwaited {s = init policy parse_uri pod_id clocks ttl b}
          (unfold first_result in (refl, refl)) r)
