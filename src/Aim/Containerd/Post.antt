-- ===== src/Aim/Containerd/Post.antt =====
-- What a call of the workflow has dropped by its end, whichever way it ends.
use ghactions_rust_test.Prelude.{◌≡◌, refl, List, ◌∷◌, ok, err, Run, returns, panics}
use ghactions_rust_test.Errors.{AcmResult}
use ghactions_rust_test.Calls.{and_then, infallible}
use ghactions_rust_test.Aim.Containerd.{Dropped, State, Call, dropping}

module _ {W : Type 0} where
  -- What holds of the drops after a call: `P` with a success, `E` with an error or a panic.
  unfoldable pub Post :
      {A : Type 0} → (A → List Dropped → Type 0) → (List Dropped → Type 0) → Call W A → Type 0
  Post P E (returns (ok a), s) = P a s.drops
  Post P E (returns (err _), s) = E s.drops
  Post P E (panics, s) = E s.drops

  pub and_then-Post :
      {A B : Type 0} (P : A → List Dropped → Type 0) (Q : B → List Dropped → Type 0)
      (E : List Dropped → Type 0) (c : Call W A) (f : A → State W → Call W B)
      → Post P E c
      → ((a : A) (s : State W) → P a s.drops → Post Q E (f a s))
      → Post Q E (and_then c f)
  unfolding and_then Post
  and_then-Post P Q E (returns (ok a), s) f h k = k a s h
  and_then-Post P Q E (returns (err _), s) f h k = h
  and_then-Post P Q E (panics, s) f h k = h

  -- The same, with what the first call gave.
  pub Post-first :
      {A B : Type 0} (Q : B → List Dropped → Type 0) (E : List Dropped → Type 0)
      (r : Run (AcmResult A)) (s : State W) (f : A → State W → Call W B)
      → E s.drops
      → ((a : A) → r ≡ returns (ok a) → Post Q E (f a s))
      → Post Q E (and_then (r, s) f)
  unfolding and_then Post
  Post-first Q E (returns (ok a)) s f e k = k a refl
  Post-first Q E (returns (err _)) s f e k = e
  Post-first Q E panics s f e k = e

  pub Post-ok :
      {A : Type 0} (P : A → List Dropped → Type 0) (E : List Dropped → Type 0) (a : A) (s : State W)
      → P a s.drops
      → Post P E (returns (ok a), s)
  unfolding Post
  Post-ok P E a s h = h

  pub Post-panics :
      {A : Type 0} (P : A → List Dropped → Type 0) (E : List Dropped → Type 0) (s : State W)
      → E s.drops
      → Post P E (panics, s)
  unfolding Post
  Post-panics P E s h = h

  -- A weaker statement about errors.
  pub Post-weaken :
      {A : Type 0} (P Q : A → List Dropped → Type 0) (E F : List Dropped → Type 0) (c : Call W A)
      → ((a : A) (d : List Dropped) → P a d → Q a d)
      → ((d : List Dropped) → E d → F d)
      → Post P E c
      → Post Q F c
  unfolding Post
  Post-weaken P Q E F (returns (ok a), s) p e h = p a s.drops h
  Post-weaken P Q E F (returns (err _), s) p e h = e s.drops h
  Post-weaken P Q E F (panics, s) p e h = e s.drops h

  pub dropping-Post :
      {A : Type 0} (P : A → List Dropped → Type 0) (E : List Dropped → Type 0) (x : Dropped)
      (c : Call W A)
      → Post (λ a d. P a (x ∷ d)) (λ d. E (x ∷ d)) c
      → Post P E (dropping x c)
  unfolding dropping Post
  dropping-Post P E x (returns (ok a), s) h = h
  dropping-Post P E x (returns (err _), s) h = h
  dropping-Post P E x (panics, s) h = h

  -- A call that drops nothing.
  pub Post-same :
      {A : Type 0} (r : Run (AcmResult A)) (s : State W) (d : List Dropped)
      → s.drops ≡ d
      → Post (λ _ e. e ≡ d) (λ e. e ≡ d) (r, s)
  unfolding Post
  Post-same (returns (ok a)) s d h = h
  Post-same (returns (err e)) s d h = h
  Post-same panics s d h = h

  pub infallible-Post :
      {A : Type 0} (r : Run A) (s : State W) (d : List Dropped)
      → s.drops ≡ d
      → Post (λ a e. (e ≡ d) × (r ≡ returns a)) (λ e. e ≡ d) (infallible r s)
  unfolding infallible Post
  infallible-Post (returns a) s d h = (h, refl)
  infallible-Post panics s d h = h
