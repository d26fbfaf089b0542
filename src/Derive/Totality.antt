-- ===== src/Derive/Totality.antt =====
-- When the macro for HttpCode panics, which fails the build.
use ghactions_rust_test.Prelude.{
  ◌≡◌, refl, ap, false, List, [], ◌∷◌, ◌++◌, Option, none, some, Text, text, eq_text, eq_text_iff,
  returns, run_bind-eq-returns, unwrap, All, Bool-cases, inl, inr, ◌↔◌,
}
use ghactions_rust_test.Derive.{
  Attribute, Variant, Shape, struct, enum, union, DeriveInput, Impl, Arm, constant, match_self,
  pattern_of, code_attribute, code_of, code_arms, derive_http_code,
}

unwrap-eq : {A : Type 0} (o : Option A) (a : A) → unwrap o ≡ returns a → o ≡ some a
unwrap-eq none a h = cc
unwrap-eq (some b) a h = let same : b ≡ a = cc in ap (λ x. some x) same

module _ {E : Type 0} where
  -- Of the attributes named `code`, the first has this expression.
  pub record Coded (attrs : List (Attribute E)) (code : E) : Type 0 where
    pub before : List (Attribute E)
    pub attribute : Attribute E
    pub after : List (Attribute E)
    pub whole : attrs ≡ before ++ attribute ∷ after
    pub others : All (λ a. eq_text a.path (text "code") ≡ false) before
    pub path : attribute.path ≡ text "code"
    pub args : attribute.args ≡ some code

  -- The struct, or each variant of the enum, has a code. A union has none.
  abbrev pub IsCoded : List (Attribute E) → Shape E → Type 0
  IsCoded attrs struct = (code : E) × Coded attrs code
  IsCoded attrs (enum variants) = All (λ v. (code : E) × Coded v.attrs code) variants
  IsCoded attrs union = ⊥

  Coded-later :
      (a : Attribute E) (attrs : List (Attribute E)) (code : E)
      → eq_text a.path (text "code") ≡ false
      → Coded attrs code
      → Coded (a ∷ attrs) code
  Coded-later a attrs code n c = record {
    before = a ∷ c.before;
    attribute = c.attribute;
    after = c.after;
    whole = ap (λ l. a ∷ l) c.whole;
    others = (n, c.others);
    path = c.path;
    args = c.args;
  }

  returns-Coded :
      (attrs : List (Attribute E)) (code : E) → code_of attrs ≡ returns code → Coded attrs code
  unfolding code_of code_attribute
  returns-Coded [] code h = cc
  returns-Coded (a ∷ attrs) code h = elim (Bool-cases (eq_text a.path (text "code"))) [
    | inl named ↦ record {
      before = [];
      attribute = a;
      after = attrs;
      whole = refl;
      others = tt;
      path = (eq_text_iff a.path (text "code")).0 named;
      args = unwrap-eq a.args code (rw named at h);
    }
    | inr other ↦ Coded-later a attrs code other (returns-Coded attrs code (rw other at h))
  ]

  code_of-append :
      (before : List (Attribute E)) (a : Attribute E) (after : List (Attribute E)) (code : E)
      → All (λ a. eq_text a.path (text "code") ≡ false) before
      → a.path ≡ text "code"
      → a.args ≡ some code
      → code_of (before ++ a ∷ after) ≡ returns code
  unfolding code_of code_attribute
  code_of-append [] a after code d p e = rw ((eq_text_iff a.path (text "code")).1 p, e) refl
  code_of-append (b ∷ before) a after code (d, ds) p e =
      rw d (code_of-append before a after code ds p e)

  code_of-Coded :
      (attrs : List (Attribute E)) (code : E) → Coded attrs code → code_of attrs ≡ returns code
  code_of-Coded attrs code c =
      rw c.whole (code_of-append c.before c.attribute c.after code c.others c.path c.args)

  All-Coded :
      (name : Text) (variants : List (Variant E)) {i : List (Arm E)}
      → code_arms name variants ≡ returns i
      → All (λ v. (code : E) × Coded v.attrs code) variants
  unfolding code_arms
  All-Coded name [] h = tt
  All-Coded name (v ∷ variants) h =
      let (code, coded, h0) = run_bind-eq-returns (code_of v.attrs) _ h in
      let (rest, later, _) = run_bind-eq-returns (code_arms name variants) _ h0 in
      ((code, returns-Coded v.attrs code coded), All-Coded name variants later)

  code_arms-returns :
      (name : Text) (variants : List (Variant E))
      → All (λ v. (code : E) × Coded v.attrs code) variants
      → (arms : List (Arm E)) × (code_arms name variants ≡ returns arms)
  unfolding code_arms
  code_arms-returns name [] h = ([], refl)
  code_arms-returns name (v ∷ variants) ((code, c), h) =
      let (rest, e) = code_arms-returns name variants h in
      (
        record { head = pattern_of v.fields name v.ident; result = code } ∷ rest,
        rw (code_of-Coded v.attrs code c, e) refl,
      )

  derived-IsCoded :
      (name : Text) (attrs : List (Attribute E)) (shape : Shape E) (i : Impl E)
      → derive_http_code (record { ident = name; attrs = attrs; shape = shape }) ≡ returns i
      → IsCoded attrs shape
  unfolding derive_http_code
  derived-IsCoded name attrs struct i h =
      let (code, coded, _) = run_bind-eq-returns (code_of attrs) _ h in
      (code, returns-Coded attrs code coded)
  derived-IsCoded name attrs (enum variants) i h =
      let (arms, k, _) = run_bind-eq-returns (code_arms name variants) _ h in
      All-Coded name variants k
  derived-IsCoded name attrs union i h = cc

  derive-returns :
      (name : Text) (attrs : List (Attribute E)) (shape : Shape E)
      → IsCoded attrs shape
      → (i : Impl E) × (derive_http_code (record { ident = name; attrs = attrs; shape = shape })
          ≡ returns i)
  unfolding derive_http_code
  derive-returns name attrs struct (code, c) =
      (record { type = name; method = constant code }, rw (code_of-Coded attrs code c) refl)
  derive-returns name attrs (enum variants) h =
      let (arms, e) = code_arms-returns name variants h in
      (record { type = name; method = match_self arms }, rw e refl)
  derive-returns name attrs union h = absurd h

  -- The macro for HttpCode writes an implementation exactly when the struct has, or each variant of
  -- the enum has, an attribute named `code` of which the first has an expression; it panics on all
  -- other items, among them every union.
  pub derive_http_code-returns_iff :
      (input : DeriveInput E)
      → ((i : Impl E) × (derive_http_code input ≡ returns i)) ↔ IsCoded input.attrs input.shape
  derive_http_code-returns_iff input = (
    λ (i, h). derived-IsCoded input.ident input.attrs input.shape i h,
    λ c. derive-returns input.ident input.attrs input.shape c,
  )
