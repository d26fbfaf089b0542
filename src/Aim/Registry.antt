-- ===== src/Aim/Registry.antt =====
-- k8s/service/aim/src/registry/mod.rs: the choice of the registry, its configuration, and the entry
-- points of the module but for the import.
pub mod Lookup
pub mod Settled
pub mod Contents
pub mod Manifests
use ghactions_rust_test.Prelude.{
  ℕ, Bool, true, false, List, [], ◌∷◌, ◌++◌, map, Option, none, some, Text, text, eq_text, find,
  Result, ok, err, map_err, ok_or, Run, returns, panics, run_bind, ◌==◌, if◌then◌else◌,
}
use ghactions_rust_test.Errors.{AcmError, AcmResult, string_error}
use ghactions_rust_test.Calls.{Call, and_then, infallible}
use ghactions_rust_test.Os.{Secret, Arg, plain, hidden, Process, cmd}
use ghactions_rust_test.Aim.Errors.{
  ecr_uninstall_serde_error, ecr_image_serde_error, ecr_uninstall_failure, ecr_uninstall_error,
  uninstall_command_error, image_delete_error, tag_not_found,
}
use ghactions_rust_test.Aim.Env.{
  Env, registry, repository, aws_access_key_id, aws_secret_access_key, aws_region, aws_username,
}
use ghactions_rust_test.Aim.Containerd.{Image, Implementation, ecr, minikube, which}
use ghactions_rust_test.Aim.Outside.{
  EcrUninstallFailure, Response, Outside, Once, fresh, done, poisoned, State, answered, checked,
  find_tag, command, request,
}
use ghactions_rust_test.Aim.Ecr.{ecr_uninstall, ecr_list, ecr_get}
use ghactions_rust_test.Aim.Minikube.{minikube_uninstall, minikube_list, minikube_get}

module _ {W : Type 0} (outside : Outside W) (env : Env) (to_lowercase : Text → Text) where
  -- A command whose failure panics.
  pub command_or_panic : Text → List Arg → State W → Run (Unit {0}) × State W
  unfolding command
  command_or_panic program args s =
      let (r, s) = command outside program args s in (run_bind r succeeded, s)
    where
      succeeded : AcmResult Text → Run (Unit {0})
      succeeded (ok _) = returns tt
      succeeded (err _) = panics

  pub run_then :
      {A : Type 0}
      → Run A × State W
      → (A → State W → Run (Unit {0}) × State W)
      → Run (Unit {0}) × State W
  run_then (returns a, s) f = f a s
  run_then (panics, s) f = (panics, s)

  pub aws_set : Text → Arg → State W → Run (Unit {0}) × State W
  unfolding command_or_panic
  aws_set key value s =
      command_or_panic (text "aws")
        (plain (text "configure") ∷ plain (text "set") ∷ plain key ∷ value ∷ []) s

  -- The closure of `Implementation::configure`.
  pub configure_once : State W → Run (Unit {0}) × State W
  unfolding run_then
  configure_once s = run_then (which to_lowercase env, s) configure_for
    where
      configure_for : Implementation → State W → Run (Unit {0}) × State W
      configure_for minikube s = (returns tt, s)
      configure_for ecr s =
          run_then (aws_access_key_id env, s)
            (λ key_id s.
              run_then (aws_secret_access_key env, s)
                (λ access_key s.
                  run_then (aws_region env, s)
                    (λ region s.
                      run_then (aws_username env, s)
                        (λ _ s.
                          run_then (aws_set (text "aws_access_key_id") (plain key_id) s) (λ _ s.
                            run_then (aws_set (text "aws_secret_access_key") (hidden access_key) s)
                              (λ _ s. aws_set (text "region") (plain region) s))))))

  -- What `Once` is after its closure.
  pub settle : Run (Unit {0}) × State W → Run (Unit {0}) × State W
  settle (returns _, s) = (returns tt, record s { once = done })
  settle (panics, s) = (panics, record s { once = poisoned })

  pub configure_in : Once → State W → Run (Unit {0}) × State W
  unfolding settle configure_once
  configure_in done s = (returns tt, s)
  configure_in poisoned s = (panics, s)
  configure_in fresh s = settle (configure_once s)

  -- `Implementation::configure`
  unfoldable pub configure : State W → Run (Unit {0}) × State W
  unfolding configure_in
  configure s = configure_in s.once s

  -- The head of each entry point: the configuration, and then the implementation.
  pub configured :
      {A : Type 0} → State W → (Implementation → State W → Call (State W) A) → Call (State W) A
  unfolding and_then infallible configure
  configured s f =
      let (r, s) = configure s in
      and_then (infallible r s) (λ _ s. and_then (infallible (which to_lowercase env) s) f)

  unfoldable pub uninstall : Text → State W → Call (State W) (Unit {0})
  unfolding configured ecr_uninstall minikube_uninstall
  uninstall tag s = configured s (λ i s. elim i [
    | ecr ↦ ecr_uninstall outside env tag s
    | minikube ↦ minikube_uninstall outside env tag s
  ])

  unfoldable pub list : State W → Call (State W) (List Image)
  unfolding configured ecr_list minikube_list
  list s =
      configured s
        (λ i s. elim i [ ecr ↦ ecr_list outside env s | minikube ↦ minikube_list outside env s ])

  -- The image of a tag in one of the registries.
  pub get_from : Implementation → Text → State W → Call (State W) (Option Image)
  unfolding ecr_get minikube_get
  get_from ecr tag s = ecr_get outside env tag s
  get_from minikube tag s = minikube_get outside env tag s

  unfoldable pub get : Text → State W → Call (State W) Image
  unfolding configured get_from and_then
  get tag s = and_then (configured s (λ i s. get_from i tag s)) (λ found s.
      (returns (ok_or found (tag_not_found tag (registry env ++ text "/" ++ repository env))), s))
