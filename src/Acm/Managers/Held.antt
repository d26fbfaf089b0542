-- ===== src/Acm/Managers/Held.antt =====
-- Which managers the cache holds while their tasks run.
use ghactions_rust_test.Prelude.{
  ℕ, ◌≡◌, ◌∙◌, sym, ap, refl, true, false, List, Option, none, some, Text, Result, eq_text,
  eq_text_iff, eq_text_refl, ok, err, if◌then◌else◌, ◌==◌, arith, Bool-cases, inl, inr,
}
use ghactions_rust_test.Backoff.{Backoff}
use ghactions_rust_test.Acm.GarbageCollector.{Clocks}
use ghactions_rust_test.Acm.Errors.{pod_manager_not_found}
use ghactions_rust_test.Acm.PodManager.{lookup, remove, insert, get, clean_up}
use ghactions_rust_test.Acm.PodManager.Cache.{lookup-remove, lookup-insert}
use ghactions_rust_test.Acm.Managers.{
  Manager, Managers, empty, put, Step, new_podmanager, run, register, clean, Reach, here, later,
}
use ghactions_rust_test.Acm.Managers.Owners.{
  is_held, on_clean_up-is_held, same_address, put_same, put_other, same_manager, IsOwned,
  Reach-IsOwned,
}

module _ {B : Type 0} where
  -- No two managers have the same pod.
  abbrev pub IsUnique : Managers B → Type 0
  IsUnique w =
      (j k : ℕ) (m n : Manager B)
      → w.managers j ≡ some m
      → w.managers k ≡ some n
      → m.pod ≡ n.pod
      → j ≡ k

  -- A manager after a step.
  record Kept (v : Managers B) (j : ℕ) (m : Manager B) : Type 0 where
    pub manager : Manager B
    pub there : v.managers j ≡ some manager
    pub pod : manager.pod ≡ m.pod

  put-Kept :
      (w : Managers B) (k : ℕ) (m : Manager B) (cache : List (Text × ℕ)) (j : ℕ) (n : Manager B)
      → ((x : Manager B) → w.managers k ≡ some x → m.pod ≡ x.pod)
      → w.managers j ≡ some n
      → Kept (put k m cache w) j n
  put-Kept w k m cache j n p e = elim (Bool-cases (j == k)) [
    | inr other ↦ record { manager = n; there = put_other j k m cache w other ∙ e; pod = refl }
    | inl same ↦
        let jk = same_address j k same in
        record {
          manager = m;
          there = ap (put k m cache w).managers jk ∙ put_same k m cache w;
          pod = p n (ap w.managers (sym jk) ∙ e);
        }
  ]

  -- All managers that should be held are.
  abbrev IsFound : Managers B → Type 0
  IsFound w =
      (k : ℕ) (m : Manager B)
      → w.managers k ≡ some m
      → is_held m.stage ≡ true
      → lookup m.pod w.cache ≡ some k

  put-IsFound :
      (w : Managers B) (k : ℕ) (m : Manager B) (cache : List (Text × ℕ))
      → (is_held m.stage ≡ true → lookup m.pod cache ≡ some k)
      → ((j : ℕ) (n : Manager B)
          → (j == k) ≡ false
          → w.managers j ≡ some n
          → is_held n.stage ≡ true
          → lookup n.pod cache ≡ some j)
      → IsFound (put k m cache w)
  put-IsFound w k m cache own others j n e h = elim (Bool-cases (j == k)) [
    | inr other ↦ others j n other (sym (put_other j k m cache w other) ∙ e) h
    | inl same ↦
        let jk = same_address j k same in
        let v = put k m cache w in
        let s : m ≡ n = same_manager v k j m n (put_same k m cache w) e (sym jk) in
        ap (λ (x : Manager B). lookup x.pod cache) (sym s)
        ∙ own (ap (λ (x : Manager B). is_held x.stage) s ∙ h)
        ∙ ap some (sym jk)
  ]

  apart :
      (w : Managers B) (k : ℕ) (m : Manager B) (cache : List (Text × ℕ)) (j : ℕ) (n : Manager B)
      → IsUnique (put k m cache w)
      → (j == k) ≡ false
      → w.managers j ≡ some n
      → eq_text m.pod n.pod ≡ false
  apart w k m cache j n u other e = elim (Bool-cases (eq_text m.pod n.pod)) [
    | inr differ ↦ differ
    | inl alike ↦
        let p = (eq_text_iff m.pod n.pod).0 alike in
        let jk : k ≡ j = u k j m n (put_same k m cache w) (put_other j k m cache w other ∙ e) p in
        ground arith
  ]

module _ {B : Type 0} (policy : Backoff B) (parse_uri : Text → Result Text (Unit {0}))
    (clocks : Clocks) where
  Step-Kept :
      {w v : Managers B}
      → Step policy parse_uri clocks w v
      → (j : ℕ) (n : Manager B) → w.managers j ≡ some n
      → Kept v j n
  Step-Kept {w} (new_podmanager k pod ttl b e) j n f =
      put-Kept w k _ w.cache j n (λ x g. let h : none ≡ some x = sym e ∙ g in absurd (cc)) f
  Step-Kept {w} (run k m t e st) j n f =
      put-Kept w k _ w.cache j n
        (λ x g. ap (λ (y : Manager B). y.pod) (same_manager w k k m x e g refl)) f
  Step-Kept {w} (register k m x e h) j n f =
      put-Kept w k _ _ j n (λ x g. ap (λ (y : Manager B). y.pod) (same_manager w k k m x e g refl))
        f
  Step-Kept {w} (clean k m x e ended h) j n f =
      put-Kept w k _ _ j n (λ x g. ap (λ (y : Manager B). y.pod) (same_manager w k k m x e g refl))
        f

  Step-IsUnique : {w v : Managers B} → Step policy parse_uri clocks w v → IsUnique v → IsUnique w
  Step-IsUnique {w} {v} st u j k m n e f p =
      let a = Step-Kept st j m e in
      let b = Step-Kept st k n f in
      u j k a.manager b.manager a.there b.there (a.pod ∙ p ∙ sym b.pod)

  Step-IsFound :
      {w v : Managers B} → Step policy parse_uri clocks w v → IsUnique v → IsFound w → IsFound v
  unfolding clean_up
  Step-IsFound {w} (new_podmanager k pod ttl b e) u f =
      put-IsFound w k _ w.cache (λ h. absurd (cc)) (λ j n _. f j n)
  Step-IsFound {w} (run k m t e st) u f =
      put-IsFound w k (record m { system = t }) w.cache (f k m e) (λ j n _. f j n)
  Step-IsFound {w} (register k m x e h) u f =
      put-IsFound w k (record m { stage = x }) (insert m.pod k w.cache)
        (λ _. rw (lookup-insert m.pod m.pod k w.cache, eq_text_refl m.pod) refl)
        (λ j n other g i.
          rw
            (
              lookup-insert m.pod n.pod k w.cache,
              apart w k (record m { stage = x }) (insert m.pod k w.cache) j n u other g,
            )
            (f j n g i))
  Step-IsFound {w} (clean k m x e ended h) u f =
      put-IsFound w k (record m { stage = x }) (remove m.pod w.cache)
        (λ i. let d = on_clean_up-is_held m.stage x h in absurd (cc))
        (λ j n other g i.
          rw
            (
              lookup-remove m.pod n.pod w.cache,
              apart w k (record m { stage = x }) (remove m.pod w.cache) j n u other g,
            )
            (f j n g i))

  Reach-IsFound : (w : Managers B) → Reach policy parse_uri clocks empty w → IsUnique w → IsFound w
  Reach-IsFound _ here u k m e = absurd (cc)
  Reach-IsFound _ (later {v} r st) u k m e =
      Step-IsFound st u (Reach-IsFound v r (Step-IsUnique st u)) k m e

  not_held :
      (w : Managers B) (k : ℕ) (m : Manager B) (o : Option ℕ)
      → IsOwned w
      → IsUnique w
      → w.managers k ≡ some m
      → is_held m.stage ≡ false
      → lookup m.pod w.cache ≡ o
      → o ≡ none
  not_held w k m none o u e h l = refl
  not_held w k m (some j) o u e h l =
      let a = o m.pod j l in
      let s = same_manager w j k a.manager m a.there e (u j k a.manager m a.there e a.pod) in
      let t : is_held m.stage ≡ true = ap (λ (x : Manager B). is_held x.stage) (sym s) ∙ a.held in
      absurd (cc)

  -- Let no two managers have the same pod. Whatever the order in which the tasks of all managers
  -- have moved, `get` of the pod of a manager gives the manager itself, if its registration has
  -- come and its clean-up has not, or if the clean-up came before the registration; else it fails
  -- with PodManagerNotFound.
  pub Reach-get :
      (w : Managers B) (k : ℕ) (m : Manager B)
      → Reach policy parse_uri clocks empty w
      → IsUnique w
      → w.managers k ≡ some m
      → get m.pod w.cache ≡ (if is_held m.stage then ok k else err (pod_manager_not_found m.pod))
  unfolding get
  Reach-get w k m r u e = elim (Bool-cases (is_held m.stage)) [
    | inl held ↦ rw (Reach-IsFound w r u k m e held, held) refl
    | inr out ↦
        rw
          (
            not_held w k m (lookup m.pod w.cache) (Reach-IsOwned policy parse_uri clocks w r) u e
                out refl,
            out,
          )
          refl
  ]
