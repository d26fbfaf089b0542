-- ===== src/Acm/GarbageCollector/Lease.antt =====
-- How long the garbage collector keeps a pod. The event watcher may delete a pod at any time.
use ghactions_rust_test.Prelude.{
  ℕ, ◌+◌, ◌≤◌, ◌<◌, ◌^◌, ◌≡◌, refl, Bool, true, false, List, [], ◌∷◌, none, some, Text, returns,
  count, arith, leb, any, All, Bool-cases, if◌then◌else◌, ◌⊎◌, inl, inr,
}
use ghactions_rust_test.Acm.EventWatcher.{GcStatus}
use ghactions_rust_test.Acm.GarbageCollector.{
  Clocks, pos, as_i64, KeepAliveTicket, Input, status, refresh, timeout, Tick, Action, delete_pod,
  counting, stopped, Daemon, new, dispatch, on_refresh, on_timeout, patch, step, gc,
}
use ghactions_rust_test.Acm.GarbageCollector.Lifecycle.{is_delete}

-- Up to a limit, the clocks add; beyond it nothing is assumed.
pub record KeepsTime (clocks : Clocks) (limit : ℕ) : Type 0 where
  pub utc : (now s : ℕ) → now + s ≤ limit → clocks.utc_add now (pos s) ≡ returns (pos (now + s))
  pub instants : (i s : ℕ) → i + s ≤ limit → clocks.instant_add i s ≡ returns (i + s)

-- The deadline after an input: a refresh moves it.
abbrev pub next_deadline : ℕ → ℕ → Tick → Input → ℕ
next_deadline ttl deadline t (refresh (some _)) = t.instant + ttl
next_deadline ttl deadline t _ = deadline

-- The watcher is alive: it gives signals, and does not hang up.
abbrev pub IsHangUp : Input → Type 0
IsHangUp (status none) = Unit
IsHangUp _ = ⊥

-- Each input comes before the deadline that the refreshes so far have set, every call of the
-- Kubernetes API succeeds, the event watcher does not hang up, and the times are below the limit.
abbrev pub InTime : (limit ttl deadline : ℕ) → List Tick → Type 0
InTime limit ttl deadline [] = Unit
InTime limit ttl deadline (t ∷ ts) =
    (t.instant < deadline)
    × (t.api_ok ≡ true)
    × (¬ IsHangUp t.input)
    × (t.now + ttl ≤ limit)
    × (t.instant + ttl ≤ limit)
    × InTime limit ttl (next_deadline ttl deadline t t.input) ts

-- The pod has not been deleted: the daemon counts towards the deadline, or it was told to stop.
abbrev pub IsKept : ℕ → Daemon → Type 0
IsKept deadline d =
    (count is_delete d.log ≡ 0)
    × (((k : KeepAliveTicket) × (d.phase ≡ counting k) × (k.execution_instant ≡ deadline))
        ⊎ (d.phase ≡ stopped))

module _ (clocks : Clocks) (pod : Text) (ttl : ℕ) (limit : ℕ) (time : KeepsTime clocks limit)
    (small : ttl < 2 ^ 63) where
  -- Within the limit a ticket runs `ttl` seconds from now, on both clocks.
  pub new-eq :
      (now instant : ℕ)
      → now + ttl ≤ limit
      → instant + ttl ≤ limit
      → new clocks pod ttl now instant
        ≡ returns (record {
          ticket = pod;
          execution_date = pos (now + ttl);
          now = now;
          then_ = pos (now + ttl);
          execution_instant = instant + ttl;
        })
  unfolding new
  new-eq now instant h k =
      let e : as_i64 ttl ≡ pos ttl = ground arith in
      rw (e, time.utc now ttl h, time.instants instant ttl k)

  -- The ticket of a refresh.
  ticket_at : Tick → KeepAliveTicket
  ticket_at t = record {
    ticket = pod;
    execution_date = pos (t.now + ttl);
    now = t.now;
    then_ = pos (t.now + ttl);
    execution_instant = t.instant + ttl;
  }

  IsKept-dispatch :
      (k : KeepAliveTicket) (log : List Action) (t : Tick) (input : Input)
      → t.instant < k.execution_instant
      → t.api_ok ≡ true
      → ¬ IsHangUp input
      → t.now + ttl ≤ limit
      → t.instant + ttl ≤ limit
      → count is_delete log ≡ 0
      → IsKept
          (next_deadline ttl k.execution_instant t input)
          (dispatch clocks pod ttl (counting k) input t (record { phase = counting k; log = log }))
  unfolding dispatch on_refresh on_timeout patch ticket_at
  IsKept-dispatch k log t (status none) b a n l m h = absurd (n tt)
  IsKept-dispatch k log t (status (some GcStatus.terminated)) b a n l m h = (h, inr refl)
  IsKept-dispatch k log t (status (some (GcStatus.running _))) b a n l m h =
      (h, inl (k, refl, refl))
  IsKept-dispatch k log t (refresh none) b a n l m h = (h, inl (k, refl, refl))
  IsKept-dispatch k log t (refresh (some _)) b a n l m h =
      rw (new-eq t.now t.instant l m, a) (omega arith, inl (ticket_at t, refl, refl))
  IsKept-dispatch k log t timeout b a n l m h =
      let e : leb k.execution_instant t.instant ≡ false = ground arith in
      rw e (h, inl (k, refl, refl))

  step_stopped : (d : Daemon) (t : Tick) → d.phase ≡ stopped → step clocks pod ttl d t ≡ d
  unfolding step
  step_stopped d t h = ground arith

  kept-gc :
      (ts : List Tick) (deadline : ℕ) (d : Daemon)
      → IsKept deadline d
      → InTime limit ttl deadline ts
      → count is_delete (gc clocks pod ttl d ts).log ≡ 0
  unfolding gc
  kept-gc [] deadline d h w = h.0
  kept-gc (t ∷ ts) deadline d (none_yet, inl (k, e, x)) (b, a, n, l, m, w) =
      kept-gc ts (next_deadline ttl deadline t t.input) (step clocks pod ttl d t)
        (unfold step in
          rw e (rw (← x) (IsKept-dispatch k d.log t t.input (rw x b) a n l m none_yet)))
        w
  kept-gc (t ∷ ts) deadline d (none_yet, inr e) (b, a, n, l, m, w) =
      kept-gc ts (next_deadline ttl deadline t t.input) (step clocks pod ttl d t)
        (rw (step_stopped d t e) (none_yet, inr e)) w

  -- Let the clocks add up to a limit, and let the time to live fit an i64. From a ticket that
  -- counts, and as long as each input comes before the deadline, which a refresh moves to the
  -- time to live after it, the calls of the Kubernetes API succeed and the event watcher does not
  -- hang up, the garbage collector does not delete the pod.
  pub refreshed-InTime-not_deleted :
      (k : KeepAliveTicket) (log : List Action) (ts : List Tick)
      → count is_delete log ≡ 0
      → InTime limit ttl k.execution_instant ts
      → count is_delete (gc clocks pod ttl (record { phase = counting k; log = log }) ts).log ≡ 0
  refreshed-InTime-not_deleted k log ts h w =
      kept-gc ts k.execution_instant (record { phase = counting k; log = log })
        (h, inl (k, refl, refl)) w

-- An input that neither refreshes nor stops.
abbrev pub is_idle : Input → Bool
is_idle (refresh none) = true
is_idle (status (some (GcStatus.running _))) = true
is_idle timeout = true
is_idle _ = false

-- The timer fires at or after the deadline.
abbrev pub is_due_input : ℕ → ℕ → Input → Bool
is_due_input deadline instant timeout = leb deadline instant
is_due_input deadline instant _ = false

abbrev pub is_due : ℕ → Tick → Bool
is_due deadline t = is_due_input deadline t.instant t.input

module _ (clocks : Clocks) (pod : Text) (ttl : ℕ) where
  idle-step :
      (k : KeepAliveTicket) (log : List Action) (t : Tick)
      → is_idle t.input ≡ true
      → t.api_ok ≡ true
      → step clocks pod ttl (record { phase = counting k; log = log }) t ≡ (
          if is_due k.execution_instant t
          then record { phase = stopped; log = delete_pod ∷ log }
          else record { phase = counting k; log = log })
  unfolding step
  idle-step k log t i a = ground arith

  pub gc_stopped :
      (log : List Action) (ts : List Tick)
      → gc clocks pod ttl (record { phase = stopped; log = log }) ts
        ≡ record { phase = stopped; log = log }
  unfolding gc step
  gc_stopped log [] = refl
  gc_stopped log (t ∷ ts) = gc_stopped log ts

  -- From a ticket that counts, if no refresh and no order to stop comes, the calls of the
  -- Kubernetes API succeed, and the timer fires at or after the deadline, the garbage collector
  -- deletes the pod, once, and stops.
  pub not_refreshed-deleted :
      (k : KeepAliveTicket) (log : List Action) (ts : List Tick)
      → All (λ t. (is_idle t.input ≡ true) × (t.api_ok ≡ true)) ts
      → any (is_due k.execution_instant) ts ≡ true
      → gc clocks pod ttl (record { phase = counting k; log = log }) ts
        ≡ record { phase = stopped; log = delete_pod ∷ log }
  unfolding gc
  not_refreshed-deleted k log [] i h = cc
  not_refreshed-deleted k log (t ∷ ts) ((i, a), is) h =
      elim (Bool-cases (is_due k.execution_instant t)) [
        | inl due ↦ rw (idle-step k log t i a, due) (gc_stopped (delete_pod ∷ log) ts)
        | inr not_due ↦
            rw (idle-step k log t i a, not_due) (not_refreshed-deleted k log ts is (ground arith))
      ]
