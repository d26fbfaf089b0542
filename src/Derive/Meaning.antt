-- ===== src/Derive/Meaning.antt =====
-- What the written implementations do when they are called.
use ghactions_rust_test.Prelude.{
  ◌≡◌, refl, Bool, true, false, List, [], ◌∷◌, ◌++◌, map, Option, none, some, Text, text, eq_text,
  eq_text_refl, eq_text_iff, Run, returns, panics, run_bind-eq-returns, All, any, Bool-cases, inl,
  inr, arith, ◌&&◌, if◌then◌else◌,
}
use ghactions_rust_test.Derive.{
  Attribute, FieldsKind, unnamed, named, unit, Variant, Shape, struct, enum, union, DeriveInput,
  Pattern, tuple_pattern, brace_pattern, path_pattern, Arm, Method, constant, match_self, Impl,
  pattern_of, kind_arm, derive_kind, code_of, code_arms, derive_http_code,
}

-- A value of a type: its variant, if it has any, with the kind of its fields.
pub data Value : Type 0 where
  of_struct : Value
  of_variant : (variant : Text) → FieldsKind → Value

-- Whether a pattern of the type of this name takes a variant. A pattern with braces takes any kind of
-- fields.
abbrev pub takes : Pattern → (variant : Text) → FieldsKind → Bool
takes (tuple_pattern _ v) w unnamed = eq_text v w
takes (tuple_pattern _ v) w _ = false
takes (brace_pattern _ v) w _ = eq_text v w
takes (path_pattern _ v) w unit = eq_text v w
takes (path_pattern _ v) w _ = false

module _ {R : Type 0} where
  -- The arms in their order; `none` if none of them takes the variant.
  unfoldable pub select : List (Arm R) → (variant : Text) → FieldsKind → Option R
  select [] v f = none
  select (a ∷ arms) v f = if takes a.head v f then some a.result else select arms v f

  abbrev pub run_method : Method R → Value → Option R
  run_method (constant r) value = some r
  run_method (match_self arms) of_struct = none
  run_method (match_self arms) (of_variant v f) = select arms v f

  -- The call of the method on a value. A type without an implementation has no answer.
  abbrev pub call : Run (Impl R) → Value → Option R
  call (returns i) value = run_method i.method value
  call panics value = none

abbrev pub same_fields : FieldsKind → FieldsKind → Bool
same_fields unnamed unnamed = true
same_fields named named = true
same_fields unit unit = true
same_fields _ _ = false

takes_own :
    (f g : FieldsKind) (name v w : Text)
    → (eq_text v w && same_fields f g) ≡ true
    → takes (pattern_of f name v) w g ≡ true
takes_own f g name v w h = ground arith

-- A pattern takes no variant of another name.
takes-eq :
    (f g : FieldsKind) (name v w : Text)
    → takes (pattern_of f name v) w g ≡ true
    → eq_text v w ≡ true
takes-eq f g name v w h = ground arith

takes_other :
    (f g : FieldsKind) (name v w : Text)
    → eq_text v w ≡ false
    → takes (pattern_of f name v) w g ≡ false
takes_other f g name v w h = ground arith

takes_self : (f : FieldsKind) (name v : Text) → takes (pattern_of f name v) v f ≡ true
takes_self unnamed name v = eq_text_refl v
takes_self named name v = eq_text_refl v
takes_self unit name v = eq_text_refl v

-- The name that a reader of the documentation expects: the type, or the type and the variant.
abbrev pub full_name : (name : Text) → Value → Text
full_name name of_struct = name
full_name name (of_variant v _) = name ++ text "::" ++ v

module _ {E : Type 0} where
  -- One of the variants has this name and fields of this kind.
  abbrev pub declares : List (Variant E) → Text → FieldsKind → Bool
  declares variants v f = any (λ u. eq_text u.ident v && same_fields u.fields f) variants

  -- The value is one of the type.
  abbrev pub IsOf : Shape E → Value → Type 0
  IsOf struct of_struct = Unit
  IsOf (enum variants) (of_variant v f) = declares variants v f ≡ true
  IsOf _ _ = ⊥

  select-kind_arm :
      (name : Text) (variants : List (Variant E)) (v : Text) (f : FieldsKind)
      → declares variants v f ≡ true
      → select (map (kind_arm name) variants) v f ≡ some (name ++ text "::" ++ v)
  unfolding select kind_arm
  select-kind_arm name [] v f h = cc
  select-kind_arm name (u ∷ variants) v f h =
      elim (Bool-cases (takes (pattern_of u.fields name u.ident) v f)) [
        | inl yes_ ↦
            rw (yes_, (eq_text_iff u.ident v).0 (takes-eq u.fields f name u.ident v yes_)) refl
        | inr no_ ↦ rw no_ (
            select-kind_arm name variants v f (ground (arith, takes_own u.fields f name u.ident v)))
      ]

  kind_call :
      (name : Text) (attrs : List (Attribute E)) (shape : Shape E) (value : Value)
      → IsOf shape value
      → call (derive_kind (record { ident = name; attrs = attrs; shape = shape })) value
        ≡ some (full_name name value)
  unfolding derive_kind
  kind_call name attrs struct of_struct h = refl
  kind_call name attrs struct (of_variant v f) h = elim h [ ]
  kind_call name attrs (enum variants) of_struct h = elim h [ ]
  kind_call name attrs union value h = elim h [ ]
  kind_call name attrs (enum variants) (of_variant v f) h = select-kind_arm name variants v f h

  -- The derived `kind` of any value of a struct or an enum is the name of the type, or the name of
  -- the type and that of the value's variant with `::` between them; some arm of the `match` takes
  -- it, whatever the kinds of the fields.
  pub derive_kind-full_name :
      (input : DeriveInput E) (value : Value)
      → IsOf input.shape value
      → call (derive_kind input) value ≡ some (full_name input.ident value)
  derive_kind-full_name input value h = kind_call input.ident input.attrs input.shape value h

  -- The arms of a macro that did not panic, one after the other.
  record Arms (name : Text) (u : Variant E) (variants : List (Variant E)) (arms : List (Arm E))
      : Type 0 where
    code : E
    rest : List (Arm E)
    coded : code_of u.attrs ≡ returns code
    later : code_arms name variants ≡ returns rest
    whole : arms ≡ record { head = pattern_of u.fields name u.ident; result = code } ∷ rest

  returns-Arms :
      (name : Text) (u : Variant E) (variants : List (Variant E)) (arms : List (Arm E))
      → code_arms name (u ∷ variants) ≡ returns arms
      → Arms name u variants arms
  unfolding code_arms
  returns-Arms name u variants arms h =
      let (code, coded, h0) = run_bind-eq-returns (code_of u.attrs) _ h in
      let (rest, later, h1) = run_bind-eq-returns (code_arms name variants) _ h0 in
      record { code = code; rest = rest; coded = coded; later = later; whole = cc }

  select-code_arms :
      (name : Text) (before : List (Variant E)) (w : Variant E) (after : List (Variant E))
      (arms : List (Arm E))
      → code_arms name (before ++ w ∷ after) ≡ returns arms
      → All (λ u. eq_text u.ident w.ident ≡ false) before
      → (code : E) × (code_of w.attrs ≡ returns code) × (select arms w.ident w.fields ≡ some code)
  unfolding select
  select-code_arms name [] w after arms h d =
      let a = returns-Arms name w after arms h in
      (a.code, a.coded, rw (a.whole, takes_self w.fields name w.ident) refl)
  select-code_arms name (u ∷ before) w after arms h (d, ds) =
      let a = returns-Arms name u (before ++ w ∷ after) arms h in
      let (code, coded, found) = select-code_arms name before w after a.rest a.later ds in
      (code, coded, rw (a.whole, takes_other u.fields w.fields name u.ident w.ident d) found)

  code_call :
      (name : Text) (attrs : List (Attribute E)) (before : List (Variant E)) (w : Variant E)
      (after : List (Variant E)) (i : Impl E)
      → derive_http_code
          (record { ident = name; attrs = attrs; shape = enum (before ++ w ∷ after) })
        ≡ returns i
      → All (λ u. eq_text u.ident w.ident ≡ false) before
      → (code : E) × (code_of w.attrs ≡ returns code)
        × (run_method i.method (of_variant w.ident w.fields) ≡ some code)
  unfolding derive_http_code
  code_call name attrs before w after i h d =
      let (arms, k, e) = run_bind-eq-returns (code_arms name (before ++ w ∷ after)) _ h in
      let same : i ≡ record { type = name; method = match_self arms } = cc in
      let (code, coded, found) = select-code_arms name before w after arms k d in
      (code, coded, rw same found)

  -- If the macro for HttpCode does not panic on an enum whose variants have different names, then
  -- the derived `http_code` of a value of each variant is the code in the attribute of that very
  -- variant.
  pub derive_http_code-own :
      (input : DeriveInput E) (before : List (Variant E)) (w : Variant E) (after : List (Variant E))
      (i : Impl E)
      → input.shape ≡ enum (before ++ w ∷ after)
      → derive_http_code input ≡ returns i
      → All (λ u. eq_text u.ident w.ident ≡ false) before
      → (code : E) × (code_of w.attrs ≡ returns code)
        × (run_method i.method (of_variant w.ident w.fields) ≡ some code)
  derive_http_code-own input before w after i e h d =
      code_call input.ident input.attrs before w after i (rw (← e) h) d
