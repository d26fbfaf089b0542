-- ===== src/Names.antt =====
-- k8s/library/names/src/lib.rs: the labels and subdomain names given to images and pods.
-- The `uuid` crate, the random generator, `convert_case` and the Unicode tables of
-- `char::is_alphanumeric` and `char::is_alphabetic` are parameters.
pub mod Label
pub mod Subdomain
use ghactions_rust_test.Prelude.{
  ℕ, ◌+◌, ◌-◌, Bool, ◌&&◌, ◌||◌, List, [], ◌∷◌, ◌++◌, map, Text, text, utf8_len, len, Run, returns,
  panics, run_bind, ltb, leb, ◌==◌, if◌then◌else◌,
}

-- `String::truncate`: nothing happens past the end, and a cut inside a character panics.
unfoldable pub truncate : ℕ → Text → Run Text
truncate n [] = returns []
truncate n (c ∷ s) =
    let rest = truncate (n - utf8_len c) s in
    if n == 0
    then returns []
    else if ltb n (utf8_len c)
    then panics
    else run_bind rest (λ t. returns (c ∷ t))

-- The length in bytes from which a name is too long.
abbrev pub max_name : ℕ
max_name = 63

abbrev pub default_if_invalid_subdomain : Text
default_if_invalid_subdomain = text "invalid-rfc1123-connector-name"

-- The tests that both functions and their specifications share, on ASCII.
abbrev pub is_lower : ℕ → Bool
is_lower c = leb b'a' c && leb c b'z'

abbrev pub is_digit : ℕ → Bool
is_digit c = leb b'0' c && leb c b'9'

-- `name.remove(0)`, which panics on an empty string, then `name.insert(0, letter)`.
pub replace_first : ℕ → Text → Run Text
replace_first letter [] = panics
replace_first letter (_ ∷ s) = returns (letter ∷ s)

-- `name.starts_with(char::is_alphabetic)`
pub starts_with : (ℕ → Bool) → Text → Bool
starts_with p [] = Bool.false
starts_with p (c ∷ _) = p c

-- The `letter` is what `gen_range('a'..='z')` draws.
unfoldable pub rfc1035_label : (ℕ → Bool) → Text → ℕ → Run Text
unfolding replace_first starts_with
rfc1035_label is_alphabetic uuid letter =
    if starts_with is_alphabetic uuid then returns uuid else replace_first letter uuid

-- The prefix of a name for which nothing is left after normalisation.
pub or_default : Text → Text
or_default [] = default_if_invalid_subdomain
or_default (c ∷ s) = c ∷ s

-- The prefix after normalisation: other characters become spaces, then kebab case, then the
-- default for an empty result.
unfoldable pub normalize : (ℕ → Bool) → (Text → Text) → Text → Text
unfolding or_default
normalize is_alphanumeric to_kebab prefix =
    or_default (to_kebab (map (λ c. if is_alphanumeric c then c else b' ') prefix))

-- The cut of prefix and UUID, and `format!("{}-{}", prefix, uuid)`.
pub fit : Text → Text → Run Text
unfolding truncate
fit uuid prefix =
    if ltb (len uuid + len prefix) max_name
    then returns (prefix ++ b'-' ∷ uuid)
    else if ltb max_name (len prefix + 9)
    then run_bind (truncate (max_name - 9) prefix)
        (λ p. run_bind (truncate 8 uuid) (λ u. returns (p ++ b'-' ∷ u)))
    else run_bind (truncate (max_name - 1 - len prefix) uuid) (λ u. returns (prefix ++ b'-' ∷ u))

unfoldable pub rfc1123_subdomain : (ℕ → Bool) → (Text → Text) → Text → Text → Run Text
unfolding fit
rfc1123_subdomain is_alphanumeric to_kebab uuid prefix =
    fit uuid (normalize is_alphanumeric to_kebab prefix)
