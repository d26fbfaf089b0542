-- ===== src/Prelude/Results.antt =====
-- `std::result::Result`, and calls that may panic.
use mathlib.Core.Path.{◌≡◌, refl}
use mathlib.Core.Option.{Option, none, some}

pub data Result {ℓ} (E A : Type ℓ) : Type ℓ where
  ok : A → Result E A
  err : E → Result E A

-- `?`
infixl 5 ◌>>=◌
abbrev pub ◌>>=◌ {ℓ} : {E A B : Type ℓ} → Result E A → (A → Result E B) → Result E B
ok value >>= next = next value
err failure >>= next = err failure

-- `Option::ok_or_else`
abbrev pub ok_or {ℓ} : {E A : Type ℓ} → Option A → E → Result E A
ok_or none e = err e
ok_or (some a) e = ok a

abbrev pub map_err {ℓ} : {E F A : Type ℓ} → (E → F) → Result E A → Result F A
map_err f (ok a) = ok a
map_err f (err e) = err (f e)

abbrev pub map_ok {ℓ} : {E A B : Type ℓ} → (A → B) → Result E A → Result E B
map_ok f (ok a) = ok (f a)
map_ok f (err e) = err e

-- What a call comes to that may panic (`unwrap`, `expect`, `panic!`, a slice off its boundary).
pub data Run {ℓ} (A : Type ℓ) : Type ℓ where
  returns : A → Run A
  panics : Run A

abbrev pub run_bind {ℓ} : {A B : Type ℓ} → Run A → (A → Run B) → Run B
run_bind (returns a) f = f a
run_bind panics f = panics

-- `Option::unwrap`
abbrev pub unwrap {ℓ} : {A : Type ℓ} → Option A → Run A
unwrap none = panics
unwrap (some a) = returns a

-- A successful bind came from a successful first step, whose value the second step took.
pub >>=-eq-ok {ℓ} :
    {F S T : Type ℓ} (first : Result F S) (next : S → Result F T) {result : T}
    → (first >>= next) ≡ ok result
    → (value : S) × (first ≡ ok value) × (next value ≡ ok result)
>>=-eq-ok (err failure) next same = cc
>>=-eq-ok (ok value) next same = (value, refl, same)

-- A successful `ok_or` had a value.
pub ok_or-eq-ok {ℓ} :
    {F S : Type ℓ} (o : Option S) (failure : F) {value : S}
    → ok_or o failure ≡ ok value
    → o ≡ some value
ok_or-eq-ok (some value) failure same = cc
ok_or-eq-ok none failure same = cc

-- A bind that returned came from a first call that returned.
pub run_bind-eq-returns {ℓ} :
    {A B : Type ℓ} (r : Run A) (f : A → Run B) {b : B}
    → run_bind r f ≡ returns b
    → (a : A) × (r ≡ returns a) × (f a ≡ returns b)
run_bind-eq-returns (returns a) f h = (a, refl, h)
run_bind-eq-returns panics f h = cc
