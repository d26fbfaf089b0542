-- ===== src/Aim/Ecr.antt =====
-- k8s/service/aim/src/registry/ecr/mod.rs: the images of a repository of ECR.
pub mod Uninstall
use ghactions_rust_test.Prelude.{
  List, [], ◌∷◌, ◌++◌, map, Option, Text, text, eq_text, ok, err, map_err, returns, run_bind,
  if◌then◌else◌,
}
use ghactions_rust_test.Errors.{AcmResult}
use ghactions_rust_test.Calls.{Call, and_then}
use ghactions_rust_test.Os.{Arg, plain}
use ghactions_rust_test.Aim.Errors.{
  ecr_uninstall_serde_error, ecr_image_serde_error, ecr_uninstall_failure, ecr_uninstall_error,
  uninstall_command_error,
}
use ghactions_rust_test.Aim.Env.{Env, repository}
use ghactions_rust_test.Aim.Containerd.{Image}
use ghactions_rust_test.Aim.Outside.{
  EcrUninstallFailure, EcrImage, EcrUninstall, EcrListImages, Outside, State, find_tag, command,
}

-- The failure that ECR reports first, if it does. An image that is not there is as good as deleted.
unfoldable pub first_failure : List EcrUninstallFailure → AcmResult (Unit {0})
first_failure [] = ok tt
first_failure (f ∷ _) =
    if eq_text f.failure_code (text "ImageNotFound")
    then ok tt
    else err (
        ecr_uninstall_error
          (ecr_uninstall_failure f.image_id f.failure_code f.failure_reason).message)

-- `Image::from` an image of ECR.
abbrev pub from_ecr : EcrImage → Image
from_ecr image = record { tag = image.image_tag; digest = image.image_digest }

module _ {W : Type 0} (outside : Outside W) (env : Env) where
  -- `ecr!`
  unfoldable pub ecr_command : List Arg → State W → Call (State W) Text
  unfolding command
  ecr_command args s = command outside (text "aws") (plain (text "ecr") ∷ args) s

  -- `ecr::uninstall`
  unfoldable pub ecr_uninstall : Text → State W → Call (State W) (Unit {0})
  unfolding ecr_command command and_then
  ecr_uninstall tag s =
      let (r, s) =
        ecr_command
          (plain (text "batch-delete-image")
            ∷ plain (text "--repository-name")
            ∷ plain (repository env)
            ∷ plain (text "--image-ids")
            ∷ plain (text "imageTag=" ++ tag)
            ∷ [])
          s in
      and_then (run_bind r (λ r. returns (map_err (λ e. uninstall_command_error e.message) r)), s)
        (λ out s.
          and_then (returns (map_err ecr_uninstall_serde_error (outside.read_uninstall out)), s)
            (λ result s. (returns (first_failure result.failures), s)))

  -- `ecr::list`
  unfoldable pub ecr_list : State W → Call (State W) (List Image)
  unfolding ecr_command command and_then
  ecr_list s =
      and_then
        (ecr_command
          (plain (text "list-images")
            ∷ plain (text "--no-paginate")
            ∷ plain (text "--repository-name")
            ∷ plain (repository env)
            ∷ [])
          s)
        (λ out s.
          and_then (returns (map_err ecr_image_serde_error (outside.read_images out)), s)
            (λ images s. (returns (ok (map from_ecr images.image_ids)), s)))

  -- `ecr::get`
  unfoldable pub ecr_get : Text → State W → Call (State W) (Option Image)
  unfolding ecr_list and_then
  ecr_get tag s = and_then (ecr_list s) (λ images s. (returns (ok (find_tag tag images)), s))
