-- ===== src/Acm/Managers/Owners.antt =====
-- The entries of the cache are of managers that it should hold.
use ghactions_rust_test.Prelude.{
  ℕ, ◌≡◌, ◌∙◌, sym, ap, refl, Bool, true, false, List, none, some, Text, Result, eq_text,
  eq_text_iff, if◌then◌else◌, ◌==◌, arith, Bool-cases, inl, inr,
}
use ghactions_rust_test.Backoff.{Backoff}
use ghactions_rust_test.Acm.GarbageCollector.{Clocks}
use ghactions_rust_test.Acm.PodManager.{lookup, remove, insert, clean_up}
use ghactions_rust_test.Acm.PodManager.Cache.{lookup-remove, lookup-insert}
use ghactions_rust_test.Acm.Managers.{
  Stage, listed, stale, on_register, on_clean_up, Manager, Managers, empty, put, Step,
  new_podmanager, run, register, clean, Reach, here, later,
}

-- The cache should hold a manager of this stage.
abbrev pub is_held : Stage → Bool
is_held listed = true
is_held stale = true
is_held _ = false

on_register-is_held : (x y : Stage) → on_register x ≡ some y → is_held y ≡ true
on_register-is_held x y e = ground arith

pub on_clean_up-is_held : (x y : Stage) → on_clean_up x ≡ some y → is_held y ≡ false
on_clean_up-is_held x y e = ground arith

pub same_address : (j k : ℕ) → (j == k) ≡ true → j ≡ k
same_address j k e = ground arith

module _ {B : Type 0} where
  -- An entry of the cache, with the manager that it leads to.
  pub record Owner (w : Managers B) (id : Text) (k : ℕ) : Type 0 where
    pub manager : Manager B
    pub there : w.managers k ≡ some manager
    pub pod : manager.pod ≡ id
    pub held : is_held manager.stage ≡ true

  -- Each entry of the cache is of a manager that is to be held.
  abbrev pub IsOwned : Managers B → Type 0
  IsOwned w = (id : Text) (k : ℕ) → lookup id w.cache ≡ some k → Owner w id k

  pub put_same :
      (k : ℕ) (m : Manager B) (cache : List (Text × ℕ)) (w : Managers B)
      → (put k m cache w).managers k ≡ some m
  put_same k m cache w = ground arith

  pub put_other :
      (j k : ℕ) (m : Manager B) (cache : List (Text × ℕ)) (w : Managers B)
      → (j == k) ≡ false
      → (put k m cache w).managers j ≡ w.managers j
  put_other j k m cache w e = rw e refl

  pub same_manager :
      (w : Managers B) (j k : ℕ) (m n : Manager B)
      → w.managers j ≡ some m
      → w.managers k ≡ some n
      → j ≡ k
      → m ≡ n
  same_manager w j k m n e f h =
      let g : w.managers j ≡ w.managers k = ap w.managers h in
      let a : some m ≡ some n = sym e ∙ g ∙ f in cc

  other-Owner :
      (id : Text) (j k : ℕ) (m : Manager B) (cache : List (Text × ℕ)) (w : Managers B)
      → (j == k) ≡ false
      → Owner w id j
      → Owner (put k m cache w) id j
  other-Owner id j k m cache w e o = record {
    manager = o.manager;
    there = put_other j k m cache w e ∙ o.there;
    pod = o.pod;
    held = o.held;
  }

  -- A manager that is still of its name, and held if it was before.
  put-Owner :
      (id : Text) (j k : ℕ) (m n : Manager B) (cache : List (Text × ℕ)) (w : Managers B)
      → w.managers k ≡ some m
      → n.pod ≡ m.pod
      → (is_held m.stage ≡ true → is_held n.stage ≡ true)
      → Owner w id j
      → Owner (put k n cache w) id j
  put-Owner id j k m n cache w e p h o = elim (Bool-cases (j == k)) [
    | inr other ↦ other-Owner id j k n cache w other o
    | inl same ↦
        let jk = same_address j k same in
        let s = same_manager w j k o.manager m o.there e jk in
        record {
          manager = n;
          there = ap (put k n cache w).managers jk ∙ put_same k n cache w;
          pod = p ∙ ap (λ (x : Manager B). x.pod) (sym s) ∙ o.pod;
          held = h (ap (λ (x : Manager B). is_held x.stage) (sym s) ∙ o.held);
        }
  ]

module _ {B : Type 0} (policy : Backoff B) (parse_uri : Text → Result Text (Unit {0}))
    (clocks : Clocks) where
  inserted-Owner :
      (w : Managers B) (k : ℕ) (m : Manager B) (x : Stage) (id : Text) (j : ℕ) (b : Bool)
      → w.managers k ≡ some m
      → is_held x ≡ true
      → IsOwned w
      → eq_text m.pod id ≡ b
      → (if b then some k else lookup id w.cache) ≡ some j
      → Owner (put k (record m { stage = x }) (insert m.pod k w.cache) w) id j
  inserted-Owner w k m x id j true e h o p l =
      let c = insert m.pod k w.cache in
      let n : Manager B = record m { stage = x } in
      let jk : j ≡ k = cc in
      record {
        manager = n;
        there = ap (put k n c w).managers jk ∙ put_same k n c w;
        pod = (eq_text_iff m.pod id).0 p;
        held = h;
      }
  inserted-Owner w k m x id j false e h o p l =
      put-Owner id j k m (record m { stage = x }) (insert m.pod k w.cache) w e refl (λ _. h)
        (o id j l)

  left-Owner :
      (w : Managers B) (k : ℕ) (m n : Manager B) (cache : List (Text × ℕ)) (id : Text) (j : ℕ)
      (b : Bool)
      → w.managers k ≡ some m
      → IsOwned w
      → eq_text m.pod id ≡ b
      → (if b then none else lookup id w.cache) ≡ some j
      → Owner (put k n cache w) id j
  left-Owner w k m n cache id j true e o p l = absurd (cc)
  left-Owner w k m n cache id j false e o p l =
      let a = o id j l in
      elim (Bool-cases (j == k)) [
        | inr other ↦ other-Owner id j k n cache w other a
        | inl same ↦
            let s = same_manager w j k a.manager m a.there e (same_address j k same) in
            let q : m.pod ≡ id = ap (λ (x : Manager B). x.pod) (sym s) ∙ a.pod in
            let t = (eq_text_iff m.pod id).1 q in absurd (cc)
      ]

  new-Owner :
      (w : Managers B) (k : ℕ) (m : Manager B) (id : Text) (j : ℕ)
      → w.managers k ≡ none
      → IsOwned w
      → lookup id w.cache ≡ some j
      → Owner (put k m w.cache w) id j
  new-Owner w k m id j e o l =
      let a = o id j l in
      elim (Bool-cases (j == k)) [
        | inr other ↦ other-Owner id j k m w.cache w other a
        | inl same ↦
            let f = ap w.managers (same_address j k same) in
            let g : some a.manager ≡ none = sym a.there ∙ f ∙ e in absurd (cc)
      ]

  Step-IsOwned : {w v : Managers B} → Step policy parse_uri clocks w v → IsOwned w → IsOwned v
  unfolding clean_up
  Step-IsOwned {w} (new_podmanager k pod ttl b e) o id j l = new-Owner w k _ id j e o l
  Step-IsOwned {w} (run k m t e st) o id j l =
      put-Owner id j k m (record m { system = t }) w.cache w e refl (λ h. h) (o id j l)
  Step-IsOwned {w} (register k m x e h) o id j l =
      inserted-Owner w k m x id j (eq_text m.pod id) e (on_register-is_held m.stage x h) o refl
        (sym (lookup-insert m.pod id k w.cache) ∙ l)
  Step-IsOwned {w} (clean k m x e ended h) o id j l =
      left-Owner w k m (record m { stage = x }) (remove m.pod w.cache) id j (eq_text m.pod id) e o
        refl (sym (lookup-remove m.pod id w.cache) ∙ l)

  pub Reach-IsOwned : (w : Managers B) → Reach policy parse_uri clocks empty w → IsOwned w
  unfolding lookup
  Reach-IsOwned _ here id k l = absurd (cc)
  Reach-IsOwned _ (later {v} r st) id k l = Step-IsOwned st (Reach-IsOwned v r) id k l
