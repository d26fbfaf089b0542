-- ===== src/Names/Label.antt =====
-- What `names::rfc1035_label` returns.
use ghactions_rust_test.Prelude.{
  ℕ, ◌≡◌, refl, Bool, true, false, ◌&&◌, ◌||◌, [], ◌∷◌, Text, returns, all, length, arith, ◌==◌,
  leb, Bool-cases, inl, inr,
}
use ghactions_rust_test.Names.{is_lower, is_digit, starts_with, rfc1035_label}

-- The characters of a simple UUID, lowercase hexadecimal digits.
abbrev pub is_hex : ℕ → Bool
is_hex c = is_digit c || (leb b'a' c && leb c b'f')

-- What the `uuid` crate documents of the simple form.
pub record IsSimpleUuid (u : Text) : Type 0 where
  pub digits : all is_hex u ≡ true
  pub size : length u ≡ 32

abbrev pub is_label_char : ℕ → Bool
is_label_char c = is_lower c || is_digit c || c == b'-'

-- The last character is no hyphen.
abbrev pub ends_alphanumeric : Text → Bool
ends_alphanumeric [] = false
ends_alphanumeric (c ∷ []) = is_lower c || is_digit c
ends_alphanumeric (_ ∷ d ∷ s) = ends_alphanumeric (d ∷ s)

-- The pattern [a-z]([-a-z0-9]*[a-z0-9])? of a label, whose length is stated apart.
pub record IsRfc1035Label (s : Text) : Type 0 where
  pub first : starts_with is_lower s ≡ true
  pub rest : all is_label_char s ≡ true
  pub last : ends_alphanumeric s ≡ true

is_hex-label : (c : ℕ) → is_hex c ≡ true → is_label_char c ≡ true
is_hex-label c h = ground arith

is_hex-alnum : (c : ℕ) → is_hex c ≡ true → (is_lower c || is_digit c) ≡ true
is_hex-alnum c h = ground arith

all-label : (s : Text) → all is_hex s ≡ true → all is_label_char s ≡ true
all-label [] h = refl
all-label (c ∷ s) h = ground (arith, is_hex-label c, all-label s)

ends_of_hex : (c : ℕ) (s : Text) → all is_hex (c ∷ s) ≡ true → ends_alphanumeric (c ∷ s) ≡ true
ends_of_hex c [] h = ground (arith, is_hex-alnum c)
ends_of_hex c (d ∷ s) h = ends_of_hex d s (ground arith)

-- The characters after the first, and the end, do not depend on how the first was chosen.
hex-IsRfc1035Label :
    (a c d : ℕ) (s : Text)
    → is_lower a ≡ true
    → all is_hex (c ∷ d ∷ s) ≡ true
    → IsRfc1035Label (a ∷ d ∷ s)
unfolding starts_with
hex-IsRfc1035Label a c d s l h = record {
  first = l;
  rest = ground (arith, all-label (d ∷ s));
  last = ends_of_hex d s (ground arith);
}

-- What `char::is_alphabetic` says of the characters of a UUID: a letter is alphabetic, a digit is
-- not. Of all others nothing is assumed.
abbrev pub KnowsAscii : (ℕ → Bool) → Type 0
KnowsAscii p =
    ((c : ℕ) → is_lower c ≡ true → p c ≡ true) × ((c : ℕ) → is_digit c ≡ true → p c ≡ false)

lower_of_hex :
    (p : ℕ → Bool) (c : ℕ) → KnowsAscii p → is_hex c ≡ true → p c ≡ true → is_lower c ≡ true
lower_of_hex p c k h a = elim (Bool-cases (is_digit c)) [
  | inl d ↦ ground (arith, k.1 c d)
  | inr n ↦ ground arith
]

-- Given a simple UUID, a drawn letter in a..z, and a test of letters that is right on ASCII,
-- the function returns without a panic, and what it returns is an RFC 1035 label of 32 characters.
pub rfc1035_label-IsRfc1035Label :
    (is_alphabetic : ℕ → Bool) (uuid : Text) (letter : ℕ)
    → KnowsAscii is_alphabetic
    → IsSimpleUuid uuid
    → is_lower letter ≡ true
    → (s : Text) × (rfc1035_label is_alphabetic uuid letter ≡ returns s)
      × IsRfc1035Label s
      × (length s ≡ 32)
unfolding rfc1035_label
rfc1035_label-IsRfc1035Label p [] letter k u l = absurd (omega (arith, u.size))
rfc1035_label-IsRfc1035Label p (c ∷ []) letter k u l = absurd (omega (arith, u.size))
rfc1035_label-IsRfc1035Label p (c ∷ d ∷ s) letter k u l = elim (Bool-cases (p c)) [
  | inl a ↦ (
    c ∷ d ∷ s,
    ground arith,
    hex-IsRfc1035Label c c d s (lower_of_hex p c k (ground (arith, u.digits)) a) u.digits,
    u.size,
  )
  | inr n ↦ (letter ∷ d ∷ s, ground arith, hex-IsRfc1035Label letter c d s l u.digits, u.size)
]
