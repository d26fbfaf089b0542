-- ===== src/Acm/Managers.antt =====
-- k8s/service/acm/src/podmanager/mod.rs: all managers with the cache, and the two tasks that a call
-- of `new_podmanager` comes to: its own, which puts the manager into the cache, and the one that
-- waits for the three coroutines, and takes the manager out. All tasks of all managers interleave.
pub mod Ended
pub mod Owners
pub mod Held
pub mod Idle
pub mod Leaving
use ghactions_rust_test.Prelude.{
  ℕ, ◌≡◌, true, false, List, [], Option, none, some, Text, Result, if◌then◌else◌, ◌==◌,
}
use ghactions_rust_test.Backoff.{Backoff}
use ghactions_rust_test.Acm.GarbageCollector.{Clocks}
use ghactions_rust_test.Acm.PodManager.{insert, clean_up}
use ghactions_rust_test.Acm.System
use ghactions_rust_test.Acm.System.{System, has_ended, is_listening, is_open, init}

-- What the two tasks of a manager have done to the cache: nothing, only inserted the manager, only
-- removed it, or both, in this order or the other.
pub data Stage : Type 0 where
  started : Stage
  listed : Stage
  withdrawn : Stage
  removed : Stage
  stale : Stage

abbrev pub on_register : Stage → Option Stage
on_register started = some listed
on_register withdrawn = some stale
on_register _ = none

abbrev pub on_clean_up : Stage → Option Stage
on_clean_up started = some withdrawn
on_clean_up listed = some removed
on_clean_up _ = none

pub record Manager (B : Type 0) : Type 0 where
  pub pod : Text
  pub ttl : ℕ
  pub system : System B
  pub stage : Stage

-- The managers by their addresses, and the cache with the addresses of those that it holds.
pub record Managers (B : Type 0) : Type 0 where
  pub managers : ℕ → Option (Manager B)
  pub cache : List (Text × ℕ)

abbrev pub empty : {B : Type 0} → Managers B
empty = record { managers = λ _. none; cache = [] }

abbrev pub put : {B : Type 0} → ℕ → Manager B → List (Text × ℕ) → Managers B → Managers B
put k m cache w = record { managers = λ j. if j == k then some m else w.managers j; cache = cache }

-- `join!` of the three coroutines goes on.
abbrev pub AllEnded : {B : Type 0} → System B → Type 0
AllEnded s =
    (has_ended s.watcher.phase ≡ true)
    × (is_listening s.collector.phase ≡ false)
    × (is_open s.shim ≡ false)

module _ {B : Type 0} (policy : Backoff B) (parse_uri : Text → Result Text (Unit {0}))
    (clocks : Clocks) where
  -- One task moves.
  pub data Step (w : Managers B) : Managers B → Type 0 where
    new_podmanager :
        (k : ℕ) (pod : Text) (ttl : ℕ) (b : B)
        → w.managers k ≡ none
        → Step w (
            put k
              (record {
                pod = pod;
                ttl = ttl;
                system = init policy parse_uri pod clocks ttl b;
                stage = started;
              })
              w.cache
              w)
    run :
        (k : ℕ) (m : Manager B) (t : System B)
        → w.managers k ≡ some m
        → System.Step policy parse_uri m.pod clocks m.ttl m.system t
        → Step w (put k (record m { system = t }) w.cache w)
    register :
        (k : ℕ) (m : Manager B) (x : Stage)
        → w.managers k ≡ some m
        → on_register m.stage ≡ some x
        → Step w (put k (record m { stage = x }) (insert m.pod k w.cache) w)
    clean :
        (k : ℕ) (m : Manager B) (x : Stage)
        → w.managers k ≡ some m
        → AllEnded m.system
        → on_clean_up m.stage ≡ some x
        → Step w (put k (record m { stage = x }) (clean_up m.pod w.cache).0 w)

  pub data Reach (w : Managers B) : Managers B → Type 0 where
    here : Reach w w
    later : {v u : Managers B} → Reach w v → Step v u → Reach w u
