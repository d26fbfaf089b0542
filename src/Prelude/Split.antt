-- ===== src/Prelude/Split.antt =====
-- `str::split` at one character, `str::rsplit_once`, and `str::trim_end`.
use Prim.Native.Nat.{ℕ}
use mathlib.Core.Path.{◌≡◌, refl, ap, ◌∙◌}
use mathlib.Core.Logic.{◌≢◌, inl, inr}
use mathlib.Core.Bool.{Bool, true, false, ◌&&◌, ◌||◌}
use mathlib.Core.Option.{Option, none, some}
use mathlib.Core.List.{List, [], ◌∷◌, ◌++◌}
use native.Mathlib.Omega.{arith}
use ghactions_rust_test.Prelude.Tests.{leb, ◌==◌, ==_iff, if◌then◌else◌, Bool-cases}
use ghactions_rust_test.Prelude.Texts.{Text}
use ghactions_rust_test.Prelude.Lists.{All}

-- The first piece begins one character earlier.
abbrev pub cons_first : ℕ → List Text → List Text
cons_first c [] = (c ∷ []) ∷ []
cons_first c (p ∷ ps) = (c ∷ p) ∷ ps

unfoldable pub split : ℕ → Text → List Text
split sep [] = [] ∷ []
split sep (c ∷ s) = let rest = split sep s in if c == sep then [] ∷ rest else cons_first c rest

-- Before the last separator and after it, once the rest of the text is split.
abbrev pub earlier : ℕ → ℕ → Text → Option (Text × Text) → Option (Text × Text)
earlier sep c s (some (before, after)) = some (c ∷ before, after)
earlier sep c s none = if c == sep then some ([], s) else none

unfoldable pub rsplit_once : ℕ → Text → Option (Text × Text)
rsplit_once sep [] = none
rsplit_once sep (c ∷ s) = earlier sep c s (rsplit_once sep s)

-- No character of the text is the separator.
abbrev pub Lacks : ℕ → Text → Type 0
Lacks sep = All (λ c. c ≢ sep)

-- The pieces with separators between them.
unfoldable pub join : ℕ → List Text → Text
join sep [] = []
join sep (p ∷ []) = p
join sep (p ∷ q ∷ ps) = p ++ sep ∷ join sep (q ∷ ps)

pub split-Lacks : (sep : ℕ) (p : Text) → Lacks sep p → split sep p ≡ p ∷ []
unfolding split
split-Lacks sep [] h = refl
split-Lacks sep (c ∷ p) (n, h) = rw (split-Lacks sep p h) (ground arith)

pub split-append : (sep : ℕ) (p s : Text) → Lacks sep p → split sep (p ++ sep ∷ s) ≡ p ∷ split sep s
unfolding split
split-append sep [] s h = ground arith
split-append sep (c ∷ p) s (n, h) = rw (split-append sep p s h) (ground arith)

rsplit_once-Lacks : (sep : ℕ) (s : Text) → Lacks sep s → rsplit_once sep s ≡ none
unfolding rsplit_once
rsplit_once-Lacks sep [] h = refl
rsplit_once-Lacks sep (c ∷ s) (n, h) = rw (rsplit_once-Lacks sep s h) (ground arith)

pub rsplit_once-append :
    (sep : ℕ) (before after : Text)
    → Lacks sep after
    → rsplit_once sep (before ++ sep ∷ after) ≡ some (before, after)
unfolding rsplit_once
rsplit_once-append sep [] after h = rw (rsplit_once-Lacks sep after h) (ground arith)
rsplit_once-append sep (c ∷ before) after h = rw (rsplit_once-append sep before after h)

join-cons_first :
    (sep c : ℕ) (p : Text) (ps : List Text)
    → join sep (cons_first c (p ∷ ps)) ≡ c ∷ join sep (p ∷ ps)
unfolding join
join-cons_first sep c p [] = refl
join-cons_first sep c p (q ∷ ps) = refl

-- A text has at least one piece.
split_cons : (sep : ℕ) (s : Text) → (p : Text) × (ps : List Text) × (split sep s ≡ p ∷ ps)
unfolding split
split_cons sep [] = ([], [], refl)
split_cons sep (c ∷ s) =
    let (p, ps, e) = split_cons sep s in
    elim (Bool-cases (c == sep)) [
      | inl is_sep ↦ ([], split sep s, rw is_sep)
      | inr not_sep ↦ (c ∷ p, ps, rw (not_sep, e))
    ]

cons_first-Lacks :
    (sep c : ℕ) (ps : List Text)
    → (c == sep) ≡ false
    → All (Lacks sep) ps
    → All (Lacks sep) (cons_first c ps)
cons_first-Lacks sep c [] n h = ground arith
cons_first-Lacks sep c (p ∷ ps) n h = ((ground arith, h.0), h.1)

-- No piece has the separator.
pub split-All-Lacks : (sep : ℕ) (s : Text) → All (Lacks sep) (split sep s)
unfolding split
split-All-Lacks sep [] = (tt, tt)
split-All-Lacks sep (c ∷ s) = elim (Bool-cases (c == sep)) [
  | inl is_sep ↦ rw is_sep (tt, split-All-Lacks sep s)
  | inr not_sep ↦ rw not_sep (cons_first-Lacks sep c (split sep s) not_sep (split-All-Lacks sep s))
]

-- Joining the pieces gives the text back.
pub join-split : (sep : ℕ) (s : Text) → join sep (split sep s) ≡ s
unfolding split join
join-split sep [] = refl
join-split sep (c ∷ s) =
    let (p, ps, e) = split_cons sep s in
    let ih : join sep (p ∷ ps) ≡ s = rw (← e) (join-split sep s) in
    elim (Bool-cases (c == sep)) [
      | inl is_sep ↦ rw (is_sep, e) (cc (ih, (==_iff c sep).0 is_sep))
      | inr not_sep ↦ rw (not_sep, e) (join-cons_first sep c p ps ∙ ap (λ t. c ∷ t) ih)
    ]

-- What a result says of the text: the cut is at the last separator, or there is none.
abbrev pub IsLastCut : ℕ → Text → Option (Text × Text) → Type 0
IsLastCut sep s none = Lacks sep s
IsLastCut sep s (some (before, after)) = (s ≡ before ++ sep ∷ after) × Lacks sep after

earlier-IsLastCut :
    (sep c : ℕ) (s : Text) (o : Option (Text × Text))
    → IsLastCut sep s o
    → IsLastCut sep (c ∷ s) (earlier sep c s o)
earlier-IsLastCut sep c s (some (a, b)) (e, h) = (ap (λ t. c ∷ t) e, h)
earlier-IsLastCut sep c s none h = elim (Bool-cases (c == sep)) [
  | inl is_sep ↦ rw is_sep (ap (λ x. x ∷ s) ((==_iff c sep).0 is_sep), h)
  | inr not_sep ↦ rw not_sep (ground arith, h)
]

pub rsplit_once-IsLastCut : (sep : ℕ) (s : Text) → IsLastCut sep s (rsplit_once sep s)
unfolding rsplit_once
rsplit_once-IsLastCut sep [] = tt
rsplit_once-IsLastCut sep (c ∷ s) =
    earlier-IsLastCut sep c s (rsplit_once sep s) (rsplit_once-IsLastCut sep s)

-- `char::is_whitespace`: the property White_Space of Unicode.
unfoldable pub is_whitespace : ℕ → Bool
is_whitespace c =
    (leb 0x9 c && leb c 0xd)
    || c == 0x20
    || c == 0x85
    || c == 0xa0
    || c == 0x1680
    || (leb 0x2000 c && leb c 0x200a)
    || c == 0x2028
    || c == 0x2029
    || c == 0x202f
    || c == 0x205f
    || c == 0x3000

-- A character before what is left of the rest.
abbrev pub trim_before : ℕ → Text → Text
trim_before c [] = if is_whitespace c then [] else c ∷ []
trim_before c (d ∷ t) = c ∷ d ∷ t

-- `str::trim_end`
unfoldable pub trim_end : Text → Text
trim_end [] = []
trim_end (c ∷ s) = trim_before c (trim_end s)

-- The text is empty, or its last character is no white space.
abbrev pub EndsBlack : Text → Type 0
EndsBlack [] = Unit
EndsBlack (c ∷ []) = is_whitespace c ≡ false
EndsBlack (_ ∷ d ∷ s) = EndsBlack (d ∷ s)

-- The trimmed text ends in no white space, and only white space was cut off.
pub record IsTrimmed (s t : Text) : Type 0 where
  pub black : EndsBlack t
  pub white : Text
  pub only_white : All (λ c. is_whitespace c ≡ true) white
  pub whole : t ++ white ≡ s

trim_before-IsTrimmed : (c : ℕ) (s t : Text) → IsTrimmed s t → IsTrimmed (c ∷ s) (trim_before c t)
trim_before-IsTrimmed c s [] h = elim (Bool-cases (is_whitespace c)) [
  | inl w ↦ rw w (record {
    black = tt;
    white = c ∷ h.white;
    only_white = (w, h.only_white);
    whole = ap (λ x. c ∷ x) h.whole;
  })
  | inr b ↦ rw b (record {
    black = b;
    white = h.white;
    only_white = h.only_white;
    whole = ap (λ x. c ∷ x) h.whole;
  })
]
trim_before-IsTrimmed c s (d ∷ t) h = record {
  black = h.black;
  white = h.white;
  only_white = h.only_white;
  whole = ap (λ x. c ∷ x) h.whole;
}

pub trim_end-IsTrimmed : (s : Text) → IsTrimmed s (trim_end s)
unfolding trim_end
trim_end-IsTrimmed [] = record { black = tt; white = []; only_white = tt; whole = refl }
trim_end-IsTrimmed (c ∷ s) = trim_before-IsTrimmed c s (trim_end s) (trim_end-IsTrimmed s)
