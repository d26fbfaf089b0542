-- ===== src/Acm/PodManager.antt =====
-- k8s/service/acm/src/podmanager/mod.rs: the cache of pod managers. A manager stands for the
-- shared pointer that the cache holds; the two writes to the cache that the start of a manager
-- leads to are steps of their own, since they run in different tasks.
pub mod Cache
use ghactions_rust_test.Prelude.{
  ℕ, Bool, List, [], ◌∷◌, Option, none, some, Text, eq_text, Result, ok, err, ok_or, length,
  if◌then◌else◌,
}
use ghactions_rust_test.Errors.{AcmResult}
use ghactions_rust_test.Acm.Errors.{pod_manager_not_found}

-- The two writes to the cache that `new_podmanager` leads to.
pub data Write (M : Type 0) : Type 0 where
  register : Text → M → Write M
  clean : Text → Write M

module _ {M : Type 0} where
  -- `HashMap::get`
  unfoldable pub lookup : Text → List (Text × M) → Option M
  lookup id [] = none
  lookup id ((key, m) ∷ rest) = if eq_text key id then some m else lookup id rest

  -- `HashMap::remove`
  unfoldable pub remove : Text → List (Text × M) → List (Text × M)
  remove id [] = []
  remove id ((key, m) ∷ rest) =
      let others = remove id rest in if eq_text key id then others else (key, m) ∷ others

  -- `HashMap::insert`
  unfoldable pub insert : Text → M → List (Text × M) → List (Text × M)
  insert id m cache = (id, m) ∷ remove id cache

  -- `PodManager::get`
  unfoldable pub get : Text → List (Text × M) → AcmResult M
  get id cache = ok_or (lookup id cache) (pod_manager_not_found id)

  -- The task that waits for the three coroutines of a manager, and then removes it: the cache
  -- after it, and the number of managers that it reports.
  unfoldable pub clean_up : Text → List (Text × M) → List (Text × M) × ℕ
  clean_up id cache = let left = remove id cache in (left, length left)

  unfoldable pub apply : List (Text × M) → Write M → List (Text × M)
  apply cache (register id m) = insert id m cache
  apply cache (clean id) = (clean_up id cache).0

  unfoldable pub apply_all : List (Text × M) → List (Write M) → List (Text × M)
  apply_all cache [] = cache
  apply_all cache (w ∷ ws) = apply_all (apply cache w) ws
