-- ===== src/Names/Subdomain.antt =====
-- The length of what `names::rfc1123_subdomain` returns, and when it panics.
use ghactions_rust_test.Prelude.{
  ℕ, zero, suc, ◌+◌, ◌-◌, ◌≤◌, ◌<◌, min, ◌≡◌, refl, ap, Bool, true, [], ◌∷◌, ◌++◌, Text, utf8_len,
  len, len-append, returns, panics, all, ltb, ◌==◌, arith, Bool-cases, ◌⊎◌, inl, inr, length,
  append-nil, ◌∙◌,
}
use ghactions_rust_test.Names.{truncate, normalize, fit, rfc1123_subdomain}
use ghactions_rust_test.Names.Label.{is_hex, IsSimpleUuid}

-- Some prefix of the text has exactly `n` bytes, so that a cut there is between characters.
abbrev pub IsBoundary : ℕ → Text → Type 0
IsBoundary n s = (p : Text) × (q : Text) × (p ++ q ≡ s) × (len p ≡ n)

utf8_len-pos : (c : ℕ) → 0 < utf8_len c
utf8_len-pos c = ground arith

truncate_nil : (s : Text) → truncate 0 s ≡ returns []
unfolding truncate
truncate_nil [] = refl
truncate_nil (c ∷ s) = refl

truncate_cons :
    (c n : ℕ) (s t : Text)
    → truncate n s ≡ returns t
    → truncate (utf8_len c + n) (c ∷ s) ≡ returns (c ∷ t)
unfolding truncate
truncate_cons c n s t h =
    let e : utf8_len c + n - utf8_len c ≡ n = omega arith in rw e (ground (arith, utf8_len-pos c))

-- A cut at a boundary gives the part before it.
truncate-append : (p q : Text) → truncate (len p) (p ++ q) ≡ returns p
unfolding len
truncate-append [] q = truncate_nil q
truncate-append (c ∷ p) q = truncate_cons c (len p) (p ++ q) p (truncate-append p q)

-- Every other cut inside the text panics.
truncate-panics : (n : ℕ) (s : Text) → n < len s → ¬ IsBoundary n s → truncate n s ≡ panics
unfolding truncate len
truncate-panics n [] h b = absurd (omega arith)
truncate-panics n (c ∷ s) h b = elim (Bool-cases (n == 0)) [
  | inl z ↦ absurd (b ([], c ∷ s, refl, ground arith))
  | inr z ↦ elim (Bool-cases (ltb n (utf8_len c))) [
    | inl l ↦ rw (z, l)
    | inr l ↦
        rw (z, l)
          (rw (
            truncate-panics (n - utf8_len c) s (ground arith)
              (λ w. b (c ∷ w.0, w.1, ap (λ t. c ∷ t) w.2, ground (arith, w.3)))))
  ]
]

-- What the name is made of: a prefix of the normalised prefix, a hyphen, and a prefix of the UUID
-- of at least eight bytes. Its length is that of both with the hyphen, but 63 at most.
pub record IsFitted (uuid prefix s : Text) : Type 0 where
  pub head : Text
  pub cut : Text
  pub tail : Text
  pub lost : Text
  pub joined : s ≡ head ++ b'-' ∷ tail
  pub from_prefix : head ++ cut ≡ prefix
  pub from_uuid : tail ++ lost ≡ uuid
  pub enough_uuid : 8 ≤ len tail
  pub exact_len : len s ≡ min (len prefix + 33) 63

len_of_hex : (u : Text) → all is_hex u ≡ true → len u ≡ length u
unfolding len
len_of_hex [] h = refl
len_of_hex (c ∷ u) h = ground (arith, len_of_hex u)

-- Hexadecimal text can be cut anywhere.
split_of_hex : (n : ℕ) (u : Text) → all is_hex u ≡ true → n ≤ len u → IsBoundary n u
unfolding len
split_of_hex zero u h le = ([], u, refl, refl)
split_of_hex (suc n) [] h le = absurd (omega arith)
split_of_hex (suc n) (c ∷ u) h le =
    let (p, q, e, l) = split_of_hex n u (ground arith) (ground arith) in
    (c ∷ p, q, ap (λ t. c ∷ t) e, ground arith)

pub truncate-IsBoundary : (n : ℕ) (s : Text) (b : IsBoundary n s) → truncate n s ≡ returns b.0
truncate-IsBoundary n s (p, q, e, l) = rw (← e, ← l) (truncate-append p q)

len-join : (p u : Text) → len (p ++ b'-' ∷ u) ≡ len p + 1 + len u
len-join p u = len-append p (b'-' ∷ u) ∙ (unfold len in omega arith)

module _ (uuid : Text) (valid : IsSimpleUuid uuid) (prefix : Text) where
  len-uuid : len uuid ≡ 32
  len-uuid = len_of_hex uuid valid.digits ∙ valid.size

  fit-whole : len prefix < 31 → (s : Text) × (fit uuid prefix ≡ returns s) × IsFitted uuid prefix s
  unfolding fit
  fit-whole h = (
    prefix ++ b'-' ∷ uuid,
    ground (arith, len-uuid),
    record {
      head = prefix;
      cut = [];
      tail = uuid;
      lost = [];
      joined = refl;
      from_prefix = append-nil prefix;
      from_uuid = append-nil uuid;
      enough_uuid = omega (arith, len-uuid);
      exact_len = omega (arith, len-uuid, len-join prefix uuid);
    },
  )

  fit-short_uuid :
      31 ≤ len prefix
      → len prefix ≤ 54
      → (s : Text) × (fit uuid prefix ≡ returns s) × IsFitted uuid prefix s
  unfolding fit
  fit-short_uuid h k =
      let b : IsBoundary (62 - len prefix) uuid =
        split_of_hex _ uuid valid.digits (omega (arith, len-uuid)) in
      (
        prefix ++ b'-' ∷ b.0,
        ground (arith, len-uuid, truncate-IsBoundary (62 - len prefix) uuid b),
        record {
          head = prefix;
          cut = [];
          tail = b.0;
          lost = b.1;
          joined = refl;
          from_prefix = append-nil prefix;
          from_uuid = b.2;
          enough_uuid = omega (arith, b.3);
          exact_len = omega (arith, b.3, len-join prefix b.0);
        },
      )

  fit-cut :
      54 < len prefix
      → IsBoundary 54 prefix
      → (s : Text) × (fit uuid prefix ≡ returns s) × IsFitted uuid prefix s
  unfolding fit
  fit-cut h p =
      let b : IsBoundary 8 uuid = split_of_hex _ uuid valid.digits (omega (arith, len-uuid)) in
      (
        p.0 ++ b'-' ∷ b.0,
        ground (arith, len-uuid, truncate-IsBoundary 54 prefix p, truncate-IsBoundary 8 uuid b),
        record {
          head = p.0;
          cut = p.1;
          tail = b.0;
          lost = b.1;
          joined = refl;
          from_prefix = p.2;
          from_uuid = b.2;
          enough_uuid = omega (arith, b.3);
          exact_len = omega (arith, p.3, b.3, len-join p.0 b.0);
        },
      )

  fit-panics : 54 < len prefix → ¬ IsBoundary 54 prefix → fit uuid prefix ≡ panics
  unfolding fit
  fit-panics h n = ground (arith, len-uuid, truncate-panics 54 prefix h n)

-- For a simple UUID the function returns, unless the normalised prefix has more than 54 bytes and
-- byte 54 is inside a character. The name is then a prefix of the normalised prefix, a hyphen and
-- at least eight bytes of the UUID, and its length is that of both with the hyphen, but 63 at most.
pub rfc1123_subdomain-IsFitted :
    (is_alphanumeric : ℕ → Bool) (to_kebab : Text → Text) (uuid prefix : Text)
    → IsSimpleUuid uuid
    → (len (normalize is_alphanumeric to_kebab prefix) ≤ 54)
      ⊎ IsBoundary 54 (normalize is_alphanumeric to_kebab prefix)
    → (s : Text) × (rfc1123_subdomain is_alphanumeric to_kebab uuid prefix ≡ returns s)
      × IsFitted uuid (normalize is_alphanumeric to_kebab prefix) s
unfolding rfc1123_subdomain
rfc1123_subdomain-IsFitted p k uuid prefix v (inl le) =
    let q = normalize p k prefix in
    elim (Bool-cases (ltb (len q) 31)) [
      | inl small ↦ fit-whole uuid v q (ground arith)
      | inr large ↦ fit-short_uuid uuid v q (ground arith) le
    ]
rfc1123_subdomain-IsFitted p k uuid prefix v (inr b) =
    let q = normalize p k prefix in
    elim (Bool-cases (ltb 54 (len q))) [
      | inl large ↦ fit-cut uuid v q (ground arith) b
      | inr le ↦ elim (Bool-cases (ltb (len q) 31)) [
        | inl small ↦ fit-whole uuid v q (ground arith)
        | inr big ↦ fit-short_uuid uuid v q (ground arith) (ground arith)
      ]
    ]

-- For a simple UUID the function panics when the normalised prefix has more than 54 bytes and
-- byte 54 is inside a character, as it can be for a prefix with letters beyond ASCII.
pub rfc1123_subdomain-panics :
    (is_alphanumeric : ℕ → Bool) (to_kebab : Text → Text) (uuid prefix : Text)
    → IsSimpleUuid uuid
    → 54 < len (normalize is_alphanumeric to_kebab prefix)
    → ¬ IsBoundary 54 (normalize is_alphanumeric to_kebab prefix)
    → rfc1123_subdomain is_alphanumeric to_kebab uuid prefix ≡ panics
unfolding rfc1123_subdomain
rfc1123_subdomain-panics p k uuid prefix v h n = fit-panics uuid v (normalize p k prefix) h n
