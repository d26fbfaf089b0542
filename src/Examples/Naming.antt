-- ===== src/Examples/Naming.antt =====
-- Names made of a UUID.
use ghactions_rust_test.Prelude.{
  ℕ, ◌≡◌, inl, refl, Bool, true, Text, text, len, returns, panics, arith,
}
use ghactions_rust_test.Examples.Fixtures.{uuid}
use ghactions_rust_test.Names.{truncate, normalize, rfc1123_subdomain}
use ghactions_rust_test.Names.Label.{IsSimpleUuid}
use ghactions_rust_test.Names.Subdomain.{
  IsBoundary, IsFitted, truncate-IsBoundary, rfc1123_subdomain-IsFitted, rfc1123_subdomain-panics,
}

uuid-IsSimpleUuid : IsSimpleUuid uuid
unfolding text
uuid-IsSimpleUuid = record { digits = refl; size = refl }

abbrev every : ℕ → Bool
every _ = true

abbrev same : Text → Text
same s = s

rfc1123_subdomain-IsFitted_example :
    (s : Text) × (rfc1123_subdomain every same uuid (text "mysql") ≡ returns s)
    × IsFitted uuid (normalize every same (text "mysql")) s
unfolding normalize text len
rfc1123_subdomain-IsFitted_example =
    rfc1123_subdomain-IsFitted every same uuid (text "mysql") uuid-IsSimpleUuid (inl (omega arith))

-- Twenty-eight letters of two bytes after one of one byte.
abbrev accented : Text
accented = text "xéééééééééééééééééééééééééééé"

no-IsBoundary : ¬ IsBoundary 54 (normalize every same accented)
unfolding normalize text truncate
no-IsBoundary b =
    let e = truncate-IsBoundary 54 (normalize every same accented) b in
    let p : truncate 54 (normalize every same accented) ≡ panics = refl in cc (e, p)

rfc1123_subdomain-panics_example : rfc1123_subdomain every same uuid accented ≡ panics
unfolding normalize text len
rfc1123_subdomain-panics_example =
    rfc1123_subdomain-panics every same uuid accented uuid-IsSimpleUuid (omega arith) no-IsBoundary
