-- ===== src/Acm/Managers/Idle.antt =====
-- The cache holds a manager while one of its coroutines runs, and nothing once all are through.
use ghactions_rust_test.Prelude.{
  ℕ, ◌≡◌, ◌∙◌, sym, ap, refl, Bool, true, false, List, [], ◌∷◌, some, Text, Result, eq_text_refl,
  ok, err, if◌then◌else◌, arith, Bool-cases, inl, inr, ◌==◌,
}
use ghactions_rust_test.Backoff.{Backoff}
use ghactions_rust_test.Acm.GarbageCollector.{Clocks}
use ghactions_rust_test.Acm.Errors.{pod_manager_not_found}
use ghactions_rust_test.Acm.PodManager.{lookup, insert, clean_up, get}
use ghactions_rust_test.Acm.System.{has_ended, is_listening, is_open}
use ghactions_rust_test.Acm.Managers.{
  Stage, started, listed, withdrawn, removed, on_register, Manager, Managers, empty, put, AllEnded,
  Step, new_podmanager, run, register, clean, Reach, here, later,
}
use ghactions_rust_test.Acm.Managers.Ended.{Step-AllEnded}
use ghactions_rust_test.Acm.Managers.Owners.{
  is_held, same_address, put_same, put_other, same_manager, IsOwned, Reach-IsOwned,
}
use ghactions_rust_test.Acm.Managers.Held.{IsUnique, Reach-get}

-- The task that waits for the coroutines has gone on.
abbrev is_cleaned : Stage → Bool
is_cleaned started = false
is_cleaned listed = false
is_cleaned _ = true

-- `new_podmanager` has returned.
abbrev pub is_registered : Stage → Bool
is_registered started = false
is_registered withdrawn = false
is_registered _ = true

on_register-is_cleaned :
    (x y : Stage) → on_register x ≡ some y → is_cleaned y ≡ true → is_cleaned x ≡ true
on_register-is_cleaned x y e h = ground arith

registered_stays : (x : Stage) → is_registered x ≡ true → is_cleaned x ≡ false → is_held x ≡ true
registered_stays x r c = ground arith

module _ {B : Type 0} where
  abbrev IsJoined : Managers B → Type 0
  IsJoined w =
      (k : ℕ) (m : Manager B)
      → w.managers k ≡ some m
      → is_cleaned m.stage ≡ true
      → AllEnded m.system

  put-IsJoined :
      (w : Managers B) (k : ℕ) (m : Manager B) (cache : List (Text × ℕ))
      → (is_cleaned m.stage ≡ true → AllEnded m.system)
      → IsJoined w
      → IsJoined (put k m cache w)
  put-IsJoined w k m cache own f j n e h = elim (Bool-cases (j == k)) [
    | inr other ↦ f j n (sym (put_other j k m cache w other) ∙ e) h
    | inl same ↦
        let s : m ≡ n =
          same_manager (put k m cache w) k j m n (put_same k m cache w) e
            (sym (same_address j k same)) in
        let (a, b, c) = own (ap (λ (x : Manager B). is_cleaned x.stage) s ∙ h) in
        (
          ap (λ (x : Manager B). has_ended x.system.watcher.phase) (sym s) ∙ a,
          ap (λ (x : Manager B). is_listening x.system.collector.phase) (sym s) ∙ b,
          ap (λ (x : Manager B). is_open x.system.shim) (sym s) ∙ c,
        )
  ]

  without_owner :
      (w : Managers B) (cache : List (Text × ℕ))
      → w.cache ≡ cache
      → IsOwned w
      → ((k : ℕ) (m : Manager B) → w.managers k ≡ some m → m.stage ≡ removed)
      → cache ≡ []
  unfolding lookup
  without_owner w [] c o h = refl
  without_owner w ((id, k) ∷ rest) c o h =
      let a = o id k (rw (c, eq_text_refl id) refl) in
      let s = h k a.manager a.there in
      let t : is_held removed ≡ true = ap is_held (sym s) ∙ a.held in absurd (cc)

module _ {B : Type 0} (policy : Backoff B) (parse_uri : Text → Result Text (Unit {0}))
    (clocks : Clocks) where
  Step-IsJoined : {w v : Managers B} → Step policy parse_uri clocks w v → IsJoined w → IsJoined v
  Step-IsJoined {w} (new_podmanager k pod ttl b e) f =
      put-IsJoined w k _ w.cache (λ h. absurd (cc)) f
  Step-IsJoined {w} (run k m t e st) f =
      put-IsJoined w k _ w.cache
        (λ h. Step-AllEnded policy parse_uri m.pod clocks m.ttl st (f k m e h)) f
  Step-IsJoined {w} (register k m x e h) f =
      put-IsJoined w k _ (insert m.pod k w.cache)
        (λ i. f k m e (on_register-is_cleaned m.stage x h i)) f
  Step-IsJoined {w} (clean k m x e ended h) f =
      put-IsJoined w k _ (clean_up m.pod w.cache).0 (λ _. ended) f

  Reach-IsJoined : (w : Managers B) → Reach policy parse_uri clocks empty w → IsJoined w
  Reach-IsJoined _ here k m e = absurd (cc)
  Reach-IsJoined _ (later {v} r st) k m e = Step-IsJoined st (Reach-IsJoined v r) k m e

  -- Let no two managers have the same pod. Whatever the order in which the tasks of all managers
  -- have moved, `get` finds a manager that `new_podmanager` has registered, as long as one of its
  -- three coroutines runs.
  pub running-get :
      (w : Managers B) (k : ℕ) (m : Manager B)
      → Reach policy parse_uri clocks empty w
      → IsUnique w
      → w.managers k ≡ some m
      → is_registered m.stage ≡ true
      → (AllEnded m.system → ⊥)
      → get m.pod w.cache ≡ ok k
  running-get w k m r u e reg running = elim (Bool-cases (is_cleaned m.stage)) [
    | inl cleaned ↦ absurd (running (Reach-IsJoined w r k m e cleaned))
    | inr in_use ↦
        let h = registered_stays m.stage reg in_use in
        Reach-get policy parse_uri clocks w k m r u e
        ∙ ap (λ b. if b then ok k else err (pod_manager_not_found m.pod)) h
  ]

  -- Whatever the order in which the tasks of all managers have moved: once each manager has been
  -- registered and then cleaned up, the cache is empty, also where managers share their pod.
  pub removed-empty :
      (w : Managers B)
      → Reach policy parse_uri clocks empty w
      → ((k : ℕ) (m : Manager B) → w.managers k ≡ some m → m.stage ≡ removed)
      → w.cache ≡ []
  removed-empty w r h = without_owner w w.cache refl (Reach-IsOwned policy parse_uri clocks w r) h
