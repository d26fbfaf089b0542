-- ===== src/Examples/Deriving.antt =====
-- What the derive macros write for an error of two variants.
use ghactions_rust_test.Prelude.{
  ℕ, ◌≡◌, ◌↔◌, refl, [], ◌∷◌, List, some, none, text, eq_text, returns,
}
use ghactions_rust_test.Derive.{
  Attribute, unnamed, unit, Variant, enum, DeriveInput, Impl, tuple_pattern, path_pattern,
  match_self, derive_kind, derive_http_code, code_of,
}
use ghactions_rust_test.Derive.Meaning.{
  of_variant, call, run_method, full_name, derive_kind-full_name, derive_http_code-own,
}
use ghactions_rust_test.Derive.Totality.{IsCoded, derive_http_code-returns_iff}

abbrev code : ℕ → List (Attribute ℕ)
code status =
    record { path = text "error"; args = none }
    ∷ record { path = text "code"; args = some status }
    ∷ []

abbrev busy : Variant ℕ
busy = record { ident = text "Busy"; attrs = code 503; fields = unit }

abbrev missing : Variant ℕ
missing = record { ident = text "Missing"; attrs = code 404; fields = unnamed }

abbrev failure : DeriveInput ℕ
failure = record { ident = text "Failure"; attrs = []; shape = enum (busy ∷ missing ∷ []) }

abbrev written : Impl ℕ
written = record {
  type = text "Failure";
  method = match_self (
      record { head = path_pattern (text "Failure") (text "Busy"); result = 503 }
      ∷ record { head = tuple_pattern (text "Failure") (text "Missing"); result = 404 }
      ∷ []);
}

derive_kind-full_name_example :
    call (derive_kind failure) (of_variant (text "Missing") unnamed)
    ≡ some (full_name (text "Failure") (of_variant (text "Missing") unnamed))
unfolding text eq_text
derive_kind-full_name_example =
    derive_kind-full_name failure (of_variant (text "Missing") unnamed) refl

derive_http_code-own_example :
    (status : ℕ) × (code_of (code 404) ≡ returns status)
    × (run_method written.method (of_variant (text "Missing") unnamed) ≡ some status)
unfolding text eq_text derive_http_code
derive_http_code-own_example =
    derive_http_code-own failure (busy ∷ []) missing [] written refl refl (refl, tt)

derive_http_code-returns_iff_example :
    ((i : Impl ℕ) × (derive_http_code failure ≡ returns i))
    ↔ IsCoded [] (enum (busy ∷ missing ∷ []))
derive_http_code-returns_iff_example = derive_http_code-returns_iff failure
