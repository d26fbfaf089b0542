-- ===== src/Acm/PodManager/Cache.antt =====
-- Which managers the cache holds after any order of the writes.
use ghactions_rust_test.Prelude.{
  ◌≡◌, refl, false, List, [], ◌∷◌, Option, none, some, Text, eq_text, eq_text_iff, eq_text_refl, ok,
  err, ◌++◌, All, ok_or, arith, if◌then◌else◌,
}
use ghactions_rust_test.Acm.Errors.{pod_manager_not_found}
use ghactions_rust_test.Acm.PodManager.{
  lookup, remove, insert, get, clean_up, Write, register, clean, apply, apply_all,
}

module _ {M : Type 0} where
  pub lookup-remove :
      (id key : Text) (cache : List (Text × M))
      → lookup key (remove id cache) ≡ (if eq_text id key then none else lookup key cache)
  unfolding lookup remove
  lookup-remove id key [] = ground arith
  lookup-remove id key ((k, m) ∷ rest) =
      ground
        (arith, lookup-remove id key rest, eq_text_iff k id, eq_text_iff k key, eq_text_iff id key)

  pub lookup-insert :
      (id key : Text) (m : M) (cache : List (Text × M))
      → lookup key (insert id m cache) ≡ (if eq_text id key then some m else lookup key cache)
  unfolding lookup insert
  lookup-insert id key m cache = ground (arith, lookup-remove id key cache)

  -- The manager of a name by the order of the writes: that of the last registration, unless a
  -- clean-up of the name came after it.
  abbrev pub held : Text → Option M → List (Write M) → Option M
  held key o [] = o
  held key o (register id m ∷ ws) = held key (if eq_text id key then some m else o) ws
  held key o (clean id ∷ ws) = held key (if eq_text id key then none else o) ws

  lookup-apply_all :
      (key : Text) (cache : List (Text × M)) (ws : List (Write M))
      → lookup key (apply_all cache ws) ≡ held key (lookup key cache) ws
  unfolding apply_all apply clean_up
  lookup-apply_all key cache [] = refl
  lookup-apply_all key cache (register id m ∷ ws) =
      rw (← lookup-insert id key m cache) (lookup-apply_all key (insert id m cache) ws)
  lookup-apply_all key cache (clean id ∷ ws) =
      rw (← lookup-remove id key cache) (lookup-apply_all key (remove id cache) ws)

  -- The write is about another name.
  abbrev pub Spares : Text → Write M → Type 0
  Spares key (register id m) = eq_text id key ≡ false
  Spares key (clean id) = eq_text id key ≡ false

  held_spared :
      (key : Text) (o : Option M) (ws : List (Write M)) → All (Spares key) ws → held key o ws ≡ o
  held_spared key o [] h = refl
  held_spared key o (register id m ∷ ws) (h, hs) = rw h (held_spared key o ws hs)
  held_spared key o (clean id ∷ ws) (h, hs) = rw h (held_spared key o ws hs)

  held-append :
      (key : Text) (ws vs : List (Write M)) (o : Option M)
      → held key o (ws ++ vs) ≡ held key (held key o ws) vs
  held-append key [] vs o = refl
  held-append key (register id m ∷ ws) vs o =
      held-append key ws vs (if eq_text id key then some m else o)
  held-append key (clean id ∷ ws) vs o = held-append key ws vs (if eq_text id key then none else o)

  -- Writes about other names change nothing for a name.
  held_around :
      (key : Text) (o : Option M) (w : Write M) (before after : List (Write M))
      → All (Spares key) before
      → All (Spares key) after
      → held key o (before ++ w ∷ after) ≡ held key o (w ∷ [])
  held_around key o (register id m) before after h k =
      rw (held-append key before (register id m ∷ after) o, held_spared key o before h)
        (held_spared key (if eq_text id key then some m else o) after k)
  held_around key o (clean id) before after h k =
      rw (held-append key before (clean id ∷ after) o, held_spared key o before h)
        (held_spared key (if eq_text id key then none else o) after k)

  module _ (cache : List (Text × M)) (id : Text) (m : M) (between after : List (Write M))
      (spared : All (Spares id) between) (spared_after : All (Spares id) after) where
    -- From any cache, with writes about other names between and after: a manager that is
    -- registered and then cleaned up is gone in the end, so that `get` fails. If its clean-up comes
    -- before its registration, the manager stays in the cache.
    pub order_of_writes :
        (get id (apply_all cache (register id m ∷ (between ++ (clean id ∷ after))))
          ≡ err (pod_manager_not_found id))
        × (get id (apply_all cache (clean id ∷ (between ++ (register id m ∷ after)))) ≡ ok m)
    unfolding get
    order_of_writes = (
      rw (
        lookup-apply_all id cache (register id m ∷ (between ++ (clean id ∷ after))),
        held_around id (if eq_text id id then some m else lookup id cache) (clean id) between after
            spared spared_after,
        eq_text_refl id,
      ),
      rw (
        lookup-apply_all id cache (clean id ∷ (between ++ (register id m ∷ after))),
        held_around id (if eq_text id id then none else lookup id cache) (register id m) between
            after spared spared_after,
        eq_text_refl id,
      ),
    )

  -- After any writes, `get` of a name gives the manager that was registered last, unless a
  -- clean-up of the name came later; if there is none, it fails with PodManagerNotFound.
  pub get-apply_all :
      (cache : List (Text × M)) (id : Text) (ws : List (Write M))
      → get id (apply_all cache ws)
        ≡ ok_or (held id (lookup id cache) ws) (pod_manager_not_found id)
  unfolding get
  get-apply_all cache id ws = rw (lookup-apply_all id cache ws)
