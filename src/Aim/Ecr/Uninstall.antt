-- ===== src/Aim/Ecr/Uninstall.antt =====
-- When ECR has no image of a tag any more.
use ghactions_rust_test.Prelude.{
  ◌≡◌, ap, ◌++◌, List, [], ◌∷◌, Text, text, eq_text, eq_of_eq_text, Result, ok, err, map_err, Run,
  returns, panics, run_bind, Bool-cases, inl, inr,
}
use ghactions_rust_test.Errors.{AcmError, AcmResult}
use ghactions_rust_test.Calls.{Call, Succeeds-and_then, fallible-eq-ok}
use ghactions_rust_test.Os.{Arg, plain}
use ghactions_rust_test.Aim.Errors.{ecr_uninstall_serde_error, uninstall_command_error}
use ghactions_rust_test.Aim.Env.{Env, repository}
use ghactions_rust_test.Aim.Outside.{EcrUninstallFailure, EcrUninstall, Outside, State}
use ghactions_rust_test.Aim.Ecr.{first_failure, ecr_command, ecr_uninstall}

-- ECR reports no failure, or first that there is no such image.
abbrev pub IsFree : List EcrUninstallFailure → Type 0
IsFree [] = Unit
IsFree (f ∷ _) = f.failure_code ≡ text "ImageNotFound"

first_failure-IsFree : (l : List EcrUninstallFailure) → first_failure l ≡ ok tt → IsFree l
unfolding first_failure
first_failure-IsFree [] h = tt
first_failure-IsFree (f ∷ l) h = elim (Bool-cases (eq_text f.failure_code (text "ImageNotFound"))) [
  | inl same ↦ eq_of_eq_text f.failure_code (text "ImageNotFound") same
  | inr other ↦ absurd (cc (rw other at h))
]

-- The arguments of `aws ecr` for the deletion of a tag.
abbrev pub delete_args : Env → Text → List Arg
delete_args env tag =
    plain (text "batch-delete-image")
    ∷ plain (text "--repository-name")
    ∷ plain (repository env)
    ∷ plain (text "--image-ids")
    ∷ plain (text "imageTag=" ++ tag)
    ∷ []

map_err_ok : {E F A : Type 0} (f : E → F) (r : Result E A) (a : A) → map_err f r ≡ ok a → r ≡ ok a
map_err_ok {E} f (ok x) a h = let same : x ≡ a = cc in ap (λ y. ok y) same
map_err_ok f (err e) a h = cc

printed_of :
    {S : Type 0} (r : Run (AcmResult Text)) (s s2 : S) (out : Text)
    → (let c : Call S Text = (
      run_bind r (λ r. returns (map_err (λ (e : AcmError). uninstall_command_error e.message) r)),
      s,
    ) in
        c)
      ≡ (returns (ok out), s2)
    → r ≡ returns (ok out)
printed_of (returns (ok x)) s s2 out h = let same : x ≡ out = cc in ap (λ y. returns (ok y)) same
printed_of (returns (err e)) s s2 out h = cc
printed_of panics s s2 out h = cc

module _ {W : Type 0} (outside : Outside W) (env : Env) where
  -- The command has succeeded with an output that says that the tag is free.
  pub record IsUninstalled (tag : Text) (s : State W) : Type 0 where
    pub out : Text
    pub result : EcrUninstall
    pub printed : (ecr_command outside env (delete_args env tag) s).0 ≡ returns (ok out)
    pub parsed : outside.read_uninstall out ≡ ok result
    pub free : IsFree result.failures

  -- The deletion of a tag from ECR succeeds only if the command succeeds, its output can be read,
  -- and ECR reports no failure there or, first, that there is no such image.
  pub ecr_uninstall-IsUninstalled :
      (tag : Text) (s t : State W)
      → ecr_uninstall outside env tag s ≡ (returns (ok tt), t)
      → IsUninstalled tag s
  unfolding ecr_uninstall
  ecr_uninstall-IsUninstalled tag s t h =
      let (r, s') = ecr_command outside env (delete_args env tag) s in
      let s0 =
        Succeeds-and_then
          (
            run_bind r
                (λ r. returns (map_err (λ (e : AcmError). uninstall_command_error e.message) r)),
            s',
          )
          _ tt t h in
      let s1 =
        Succeeds-and_then
          (returns (map_err ecr_uninstall_serde_error (outside.read_uninstall s0.value)), s0.state)
          _ tt t s0.later in
      record {
        out = s0.value;
        result = s1.value;
        printed = printed_of r s' s0.state s0.value s0.first;
        parsed = map_err_ok _ _ _ (fallible-eq-ok _ _ _ _ s1.first).0;
        free = first_failure-IsFree s1.value.failures (fallible-eq-ok _ _ tt t s1.later).0;
      }
