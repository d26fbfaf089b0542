-- ===== src/Calls.antt =====
-- Calls that change a state, may fail and may panic, and what `?` makes of them.
use ghactions_rust_test.Prelude.{
  ◌≡◌, refl, ok, err, Run, returns, panics, Bool, true, false, if◌then◌else◌,
}
use ghactions_rust_test.Errors.{AcmResult}

-- What a call gives, with the state after it.
abbrev pub Call : (S A : Type 0) → Type 0
Call S A = Run (AcmResult A) × S

-- `.await?`
unfoldable pub and_then : {S A B : Type 0} → Call S A → (A → S → Call S B) → Call S B
and_then (returns (ok a), s) f = f a s
and_then (returns (err e), s) f = (returns (err e), s)
and_then (panics, s) f = (panics, s)

-- A call of a function that cannot fail, but may panic.
unfoldable pub infallible : {S A : Type 0} → Run A → S → Call S A
infallible (returns a) s = (returns (ok a), s)
infallible panics s = (panics, s)

-- A chain that succeeded, by its first step.
pub record Succeeds {S A B : Type 0} (c : Call S A) (f : A → S → Call S B) (b : B) (t : S)
    : Type 0 where
  pub value : A
  pub state : S
  pub first : c ≡ (returns (ok value), state)
  pub later : f value state ≡ (returns (ok b), t)

pub Succeeds-and_then :
    {S A B : Type 0} (c : Call S A) (f : A → S → Call S B) (b : B) (t : S)
    → and_then c f ≡ (returns (ok b), t)
    → Succeeds c f b t
unfolding and_then
Succeeds-and_then (returns (ok a), s) f b t h = record {
  value = a;
  state = s;
  first = refl;
  later = h;
}
Succeeds-and_then (returns (err e), s) f b t h = cc
Succeeds-and_then (panics, s) f b t h = cc

pub infallible-eq-ok :
    {S A : Type 0} (r : Run A) (s : S) (a : A) (t : S)
    → infallible r s ≡ (returns (ok a), t)
    → (r ≡ returns a) × (s ≡ t)
unfolding infallible
infallible-eq-ok (returns x) s a t h = (cc, cc)
infallible-eq-ok panics s a t h = cc

pub fallible-eq-ok :
    {S A : Type 0} (r : AcmResult A) (s : S) (a : A) (t : S)
    → let c : Call S A = (returns r, s) in c ≡ (returns (ok a), t) → (r ≡ ok a) × (s ≡ t)
fallible-eq-ok (ok x) s a t h = (cc, cc)
fallible-eq-ok (err e) s a t h = cc

pub returned-eq :
    {S A : Type 0} (a b : A) (s t : S)
    → let c : Call S A = (returns (ok a), s) in c ≡ (returns (ok b), t) → a ≡ b
returned-eq a b s t h = cc

-- What holds of the state after a call, however it ends.
unfoldable pub Keeps : {S A : Type 0} → (S → Type 0) → Call S A → Type 0
Keeps holds c = holds c.1

pub Keeps-returned :
    {S A : Type 0} (holds : S → Type 0) (r : Run (AcmResult A)) (s : S)
    → holds s
    → Keeps holds (r, s)
unfolding Keeps
Keeps-returned holds r s h = h

-- What each step keeps true of the state, a chain keeps true.
pub and_then-Keeps :
    {S A B : Type 0} (holds : S → Type 0) (c : Call S A) (f : A → S → Call S B)
    → Keeps holds c
    → ((a : A) (s : S) → holds s → Keeps holds (f a s))
    → Keeps holds (and_then c f)
unfolding and_then Keeps
and_then-Keeps holds (returns (ok a), s) f h k = k a s h
and_then-Keeps holds (returns (err e), s) f h k = h
and_then-Keeps holds (panics, s) f h k = h

pub infallible-Keeps :
    {S A : Type 0} (holds : S → Type 0) (r : Run A) (s : S) → holds s → Keeps holds (infallible r s)
unfolding infallible Keeps
infallible-Keeps holds (returns a) s h = h
infallible-Keeps holds panics s h = h

pub branch-Keeps :
    {S A : Type 0} (holds : S → Type 0) (b : Bool) (c d : Call S A)
    → Keeps holds c
    → Keeps holds d
    → Keeps holds (if b then c else d)
branch-Keeps holds true c d h k = h
branch-Keeps holds false c d h k = k
