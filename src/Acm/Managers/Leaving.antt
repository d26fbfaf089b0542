-- ===== src/Acm/Managers/Leaving.antt =====
-- How a manager leaves the cache.
use ghactions_rust_test.Prelude.{
  ℕ, ◌≡◌, ◌∙◌, sym, ap, refl, true, false, List, some, Text, Result, eq_text, eq_text_refl, err,
  Bool-cases, inl, inr, ◌==◌,
}
use ghactions_rust_test.Backoff.{Backoff}
use ghactions_rust_test.Acm.GarbageCollector.{Clocks}
use ghactions_rust_test.Acm.Errors.{pod_manager_not_found}
use ghactions_rust_test.Acm.PodManager.{lookup, insert, clean_up, get}
use ghactions_rust_test.Acm.PodManager.Cache.{lookup-remove}
use ghactions_rust_test.Acm.System
use ghactions_rust_test.Acm.System.{System, has_ended, Moment, init, IsUnaided, AllUnaided}
use ghactions_rust_test.Acm.System.Ending.{Reach-WoundDown}
use ghactions_rust_test.Acm.Managers.{
  listed, removed, Manager, Managers, empty, put, Step, new_podmanager, run, register, clean, Reach,
  here, later,
}
use ghactions_rust_test.Acm.Managers.Owners.{same_address, put_same, put_other, same_manager}

module _ {B : Type 0} (policy : Backoff B) (parse_uri : Text → Result Text (Unit {0}))
    (clocks : Clocks) where
  -- The coroutines of a manager came to where they are from their start.
  record Started (m : Manager B) : Type 0 where
    pub start : B
    pub reach :
        System.Reach policy parse_uri m.pod clocks m.ttl
          (init policy parse_uri m.pod clocks m.ttl start)
          m.system

  abbrev IsStarted : Managers B → Type 0
  IsStarted w = (k : ℕ) (m : Manager B) → w.managers k ≡ some m → Started m

  put-IsStarted :
      (w : Managers B) (k : ℕ) (m : Manager B) (cache : List (Text × ℕ))
      → Started m
      → IsStarted w
      → IsStarted (put k m cache w)
  put-IsStarted w k m cache own f j n e = elim (Bool-cases (j == k)) [
    | inr other ↦ f j n (sym (put_other j k m cache w other) ∙ e)
    | inl same ↦
        let s : m ≡ n =
          same_manager (put k m cache w) k j m n (put_same k m cache w) e
            (sym (same_address j k same)) in
        rw (← s) own
  ]

  Step-IsStarted : {w v : Managers B} → Step policy parse_uri clocks w v → IsStarted w → IsStarted v
  Step-IsStarted {w} (new_podmanager k pod ttl b e) f =
      put-IsStarted w k _ w.cache (record { start = b; reach = System.here }) f
  Step-IsStarted {w} (run k m t e st) f =
      put-IsStarted w k _ w.cache
        (record { start = (f k m e).start; reach = System.later (f k m e).reach st }) f
  Step-IsStarted {w} (register k m x e h) f =
      put-IsStarted w k _ (insert m.pod k w.cache)
        (record { start = (f k m e).start; reach = (f k m e).reach }) f
  Step-IsStarted {w} (clean k m x e ended h) f =
      put-IsStarted w k _ (clean_up m.pod w.cache).0
        (record { start = (f k m e).start; reach = (f k m e).reach }) f

  Reach-IsStarted : (w : Managers B) → Reach policy parse_uri clocks empty w → IsStarted w
  Reach-IsStarted _ here k m e = absurd (cc)
  Reach-IsStarted _ (later {v} r st) k m e = Step-IsStarted st (Reach-IsStarted v r) k m e

  -- A step of a task of this manager, for which no client is needed.
  abbrev pub IsOwn : (k : ℕ) {w v : Managers B} → Step policy parse_uri clocks w v → Type 0
  IsOwn k (new_podmanager j pod ttl b e) = ⊥
  IsOwn k (run j m t e st) = (j ≡ k) × IsUnaided policy parse_uri m.pod clocks m.ttl st
  IsOwn k (register j m x e h) = ⊥
  IsOwn k (clean j m x e ended h) = j ≡ k

  abbrev pub AllOwn : (k : ℕ) {w v : Managers B} → Reach policy parse_uri clocks w v → Type 0
  AllOwn k here = Unit
  AllOwn k (later r st) = AllOwn k r × IsOwn k st

  -- The coroutines of one manager have moved, and nothing else.
  record Led (w : Managers B) (k : ℕ) (m : Manager B) (t : System B) : Type 0 where
    pub last : Managers B
    pub reach : Reach policy parse_uri clocks w last
    pub own : AllOwn k reach
    pub there : last.managers k ≡ some (record m { system = t })
    pub cache : last.cache ≡ w.cache

  Reach-Led :
      (w : Managers B) (k : ℕ) (m : Manager B) (t : System B)
      → w.managers k ≡ some m
      → (r : System.Reach policy parse_uri m.pod clocks m.ttl m.system t)
      → AllUnaided policy parse_uri m.pod clocks m.ttl r
      → Led w k m t
  Reach-Led w k m _ e System.here a = record {
    last = w;
    reach = here;
    own = tt;
    there = e;
    cache = refl;
  }
  Reach-Led w k m t e (System.later {t = u} r st) (a, i) =
      let q = Reach-Led w k m u e r a in
      let n : Manager B = record m { system = t } in
      record {
        last = put k n q.last.cache q.last;
        reach = later q.reach (run k (record m { system = u }) t q.there st);
        own = (q.own, (refl, i));
        there = put_same k n q.last.cache q.last;
        cache = q.cache;
      }

  -- A manager can leave the cache by steps of its own tasks; the cache then holds the same managers of other names.
  pub record CanLeave (w : Managers B) (k : ℕ) (m : Manager B) : Type 0 where
    pub last : Managers B
    pub reach : Reach policy parse_uri clocks w last
    pub own : AllOwn k reach
    pub manager : Manager B
    pub there : last.managers k ≡ some manager
    pub stage : manager.stage ≡ removed
    pub gone : get m.pod last.cache ≡ err (pod_manager_not_found m.pod)
    pub others : (id : Text) → eq_text m.pod id ≡ false → lookup id last.cache ≡ lookup id w.cache

  -- Whatever the order in which the tasks of all managers have moved: once the event watcher of a
  -- registered manager has returned or panicked, the tasks of this manager alone can go on, without
  -- a client that asks for a ticket or comes for the result, until the manager is out of the cache, so that `get` fails with PodManagerNotFound,
  -- while the entries of other pods stay.
  pub ended-CanLeave :
      (w : Managers B) (k : ℕ) (m : Manager B) (moment : Moment)
      → Reach policy parse_uri clocks empty w
      → w.managers k ≡ some m
      → m.stage ≡ listed
      → has_ended m.system.watcher.phase ≡ true
      → CanLeave w k m
  unfolding get clean_up
  ended-CanLeave w k m moment r e l ended =
      let s = Reach-IsStarted w r k m e in
      let d =
        Reach-WoundDown policy parse_uri m.pod clocks m.ttl s.start m.system moment s.reach ended in
      let q = Reach-Led w k m d.last e d.reach d.unaided in
      let n : Manager B = record m { system = d.last; stage = removed } in
      record {
        last = put k n (clean_up m.pod q.last.cache).0 q.last;
        reach = later q.reach (
            clean k (record m { system = d.last }) removed q.there
              (ap (λ x. has_ended x.phase) d.watcher ∙ ended, d.collector, d.shim) (rw l refl));
        own = (q.own, refl);
        manager = n;
        there = put_same k n (clean_up m.pod q.last.cache).0 q.last;
        stage = refl;
        gone = rw (lookup-remove m.pod m.pod q.last.cache, eq_text_refl m.pod) refl;
        others = λ id h. rw (lookup-remove m.pod id q.last.cache, h, q.cache) refl;
      }
