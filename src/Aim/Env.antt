-- ===== src/Aim/Env.antt =====
-- k8s/service/aim/src/env/mod.rs: the settings of the service. The environment is a parameter,
-- which has no value for a variable that is missing or no Unicode.
use ghactions_rust_test.Prelude.{
  [], ◌∷◌, Option, none, some, Text, text, Run, unwrap, run_bind, returns,
}
use ghactions_rust_test.Os.{Secret}

abbrev pub Env : Type 0
Env = Text → Option Text

-- `unwrap_or_else`
abbrev pub unwrap_or : Text → Option Text → Text
unwrap_or default none = default
unwrap_or default (some value) = value

unfoldable pub registry : Env → Text
registry env = unwrap_or (text "registry.kube-system") (env (text "REGISTRY"))

unfoldable pub repository : Env → Text
repository env = unwrap_or (text "ocf") (env (text "REPOSITORY"))

unfoldable pub implementation : Env → Text
implementation env = unwrap_or (text "Minikube") (env (text "IMPLEMENTATION"))

-- An empty variable counts as a missing one.
unfoldable pub map_empty_to_error : Option Text → Option Text
map_empty_to_error none = none
map_empty_to_error (some []) = none
map_empty_to_error (some (c ∷ s)) = some (c ∷ s)

unfoldable pub aws_region : Env → Run Text
aws_region env = unwrap (map_empty_to_error (env (text "AWS_REGION")))

unfoldable pub aws_access_key_id : Env → Run Text
aws_access_key_id env = unwrap (map_empty_to_error (env (text "AWS_ACCESS_KEY_ID")))

unfoldable pub aws_secret_access_key : Env → Run Secret
aws_secret_access_key env =
    run_bind (unwrap (map_empty_to_error (env (text "AWS_SECRET_ACCESS_KEY"))))
      (λ secret. returns (record { secret = secret }))

unfoldable pub aws_username : Env → Run Text
aws_username env = unwrap (map_empty_to_error (env (text "AWS_USERNAME")))
