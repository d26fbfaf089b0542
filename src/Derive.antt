-- ===== src/Derive.antt =====
-- k8s/library/kind-derive, k8s/library/httpcode-derive and k8s/library/error-derive: the macros that
-- write the implementations of Kind, HttpCode and AcmError for a type, and k8s/library/kind, which
-- names the types of the language. A macro is a function from the item that it derives for, as syn
-- parses it, to the implementation that it writes. `E` is the type of expressions in attributes.
pub mod Meaning
pub mod Totality
use ghactions_rust_test.Prelude.{
  List, [], ◌∷◌, ◌++◌, map, Option, none, some, Text, text, eq_text, Bool, find, Run, returns,
  panics, unwrap, run_bind,
}

-- `syn::Attribute`: its path, and its arguments if they are an expression.
pub record Attribute (E : Type 0) : Type 0 where
  pub path : Text
  pub args : Option E

-- `syn::Fields`, of which only the kind is asked.
pub data FieldsKind : Type 0 where
  unnamed named unit : FieldsKind

pub record Variant (E : Type 0) : Type 0 where
  pub ident : Text
  pub attrs : List (Attribute E)
  pub fields : FieldsKind

-- `syn::Data`
pub data Shape (E : Type 0) : Type 0 where
  struct : Shape E
  enum : List (Variant E) → Shape E
  union : Shape E

-- `syn::DeriveInput`
pub record DeriveInput (E : Type 0) : Type 0 where
  pub ident : Text
  pub attrs : List (Attribute E)
  pub shape : Shape E

-- `Type::Variant(..)`, `Type::Variant{ .. }` and `Type::Variant`.
pub data Pattern : Type 0 where
  tuple_pattern brace_pattern path_pattern : (type variant : Text) → Pattern

-- An arm of a `match` that is written: its pattern and its result.
pub record Arm (R : Type 0) : Type 0 where
  pub head : Pattern
  pub result : R

-- What is written for the one method: its result, or a `match` on `self`.
pub data Method (R : Type 0) : Type 0 where
  constant : R → Method R
  match_self : List (Arm R) → Method R

-- `impl <Trait> for <Type>`
pub record Impl (R : Type 0) : Type 0 where
  pub type : Text
  pub method : Method R

abbrev pub pattern_of : FieldsKind → (type variant : Text) → Pattern
pattern_of unnamed type variant = tuple_pattern type variant
pattern_of named type variant = brace_pattern type variant
pattern_of unit type variant = path_pattern type variant

module _ {E : Type 0} where
  -- The arm for one variant: `concat!(stringify!(…), stringify!(::), stringify!(…)).to_string()`
  unfoldable pub kind_arm : (name : Text) → Variant E → Arm Text
  kind_arm name v = record {
    head = pattern_of v.fields name v.ident;
    result = name ++ text "::" ++ v.ident;
  }

  kind_of_shape : (name : Text) → Shape E → Run (Impl Text)
  unfolding kind_arm
  kind_of_shape name struct = returns (record { type = name; method = constant name })
  kind_of_shape name (enum variants) =
      returns (record { type = name; method = match_self (map (kind_arm name) variants) })
  kind_of_shape name union = panics

  -- `#[derive(Kind)]`
  unfoldable pub derive_kind : DeriveInput E → Run (Impl Text)
  unfolding kind_of_shape
  derive_kind input = kind_of_shape input.ident input.shape

  -- `attrs.iter().find(|attr| attr.path.is_ident("code"))`
  unfoldable pub code_attribute : List (Attribute E) → Option (Attribute E)
  code_attribute attrs = find (λ a. eq_text a.path (text "code")) attrs

  -- The expression of the attribute; where there is none, or no expression in it, the macro panics.
  unfoldable pub code_of : List (Attribute E) → Run E
  unfolding code_attribute
  code_of attrs = run_bind (unwrap (code_attribute attrs)) (λ a. unwrap a.args)

  unfoldable pub code_arms : (name : Text) → List (Variant E) → Run (List (Arm E))
  unfolding code_of
  code_arms name [] = returns []
  code_arms name (v ∷ variants) = run_bind (code_of v.attrs) (λ code.
      run_bind (code_arms name variants) (λ arms.
        returns (record { head = pattern_of v.fields name v.ident; result = code } ∷ arms)))

  code_of_shape : (name : Text) → List (Attribute E) → Shape E → Run (Impl E)
  unfolding code_of code_arms
  code_of_shape name attrs struct =
      run_bind (code_of attrs) (λ code. returns (record { type = name; method = constant code }))
  code_of_shape name attrs (enum variants) =
      run_bind (code_arms name variants)
        (λ arms. returns (record { type = name; method = match_self arms }))
  code_of_shape name attrs union = panics

  -- `#[derive(HttpCode)]`
  unfoldable pub derive_http_code : DeriveInput E → Run (Impl E)
  unfolding code_of_shape
  derive_http_code input = code_of_shape input.ident input.attrs input.shape

  -- `#[derive(AcmError)]`: an implementation with no method, for the type of this name.
  unfoldable pub derive_acm_error : DeriveInput E → Run Text
  derive_acm_error input = returns input.ident

-- The types of the language and of the libraries that have a kind, which is their name.
pub data Builtin : Type 0 where
  unit_type string pod u8 u16 u32 u64 u128 i8 i16 i32 i64 i128 f32 f64 : Builtin

-- `impl_kind!`
unfoldable pub builtin_kind : Builtin → Text
builtin_kind unit_type = text "()"
builtin_kind string = text "String"
builtin_kind pod = text "Pod"
builtin_kind u8 = text "u8"
builtin_kind u16 = text "u16"
builtin_kind u32 = text "u32"
builtin_kind u64 = text "u64"
builtin_kind u128 = text "u128"
builtin_kind i8 = text "i8"
builtin_kind i16 = text "i16"
builtin_kind i32 = text "i32"
builtin_kind i64 = text "i64"
builtin_kind i128 = text "i128"
builtin_kind f32 = text "f32"
builtin_kind f64 = text "f64"
