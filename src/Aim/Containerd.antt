-- ===== src/Aim/Containerd.antt =====
-- k8s/service/aim/src/registry/containerd: how an uploaded image gets into the registry, by
-- `WorkFlow::new_workflow(…).import(…).retag().push()`. The world `W` runs commands; what the
-- workflow drops is kept in a list, the newest first, since each drop starts a task of its own that
-- removes the image or the namespace.
pub mod Post
pub mod Stages
pub mod CleanUp
pub mod World
use ghactions_rust_test.Prelude.{
  ℕ, Bool, List, [], ◌∷◌, ◌++◌, Option, none, some, Text, text, Result, ok, err, Run, returns,
  panics, unwrap, run_bind, eq_text, if◌then◌else◌, map_err,
}
use ghactions_rust_test.Errors.{AcmError, AcmResult, string_error}
use ghactions_rust_test.Backoff.{Backoff}
use ghactions_rust_test.Calls.{Call as StateCall, and_then, infallible}
use ghactions_rust_test.Names.{rfc1035_label}
use ghactions_rust_test.Os.{Secret, raw_secret, Arg, plain, hidden, Process, cmd}
use ghactions_rust_test.Aim.Errors.{temp_path_is_not_uft8, get_password_error}
use ghactions_rust_test.Aim.Env.{Env, registry, repository, implementation, aws_username}
use ghactions_rust_test.Aim.Metadata.{Metadata, extract_image_metadata_from_str}

pub record TmpImage : Type 0 where
  pub reference : Text
  pub tag : Text
  pub digest : Text
  pub namespace : Text

pub record Image : Type 0 where
  pub tag : Text
  pub digest : Text

-- `impl From<TmpImage> for Image`
unfoldable pub to_image : TmpImage → Image
to_image image = record { tag = image.tag; digest = image.digest }

pub data Implementation : Type 0 where
  ecr minikube : Implementation

-- `Implementation::which`, which panics on any other name.
unfoldable pub which : (to_lowercase : Text → Text) → Env → Run Implementation
which to_lowercase env =
    let name = to_lowercase (implementation env) in
    if eq_text name (text "ecr")
    then returns ecr
    else if eq_text name (text "minikube")
    then returns minikube
    else panics

-- What was dropped.
pub data Dropped : Type 0 where
  image : TmpImage → Dropped
  namespace : Text → Dropped

pub record State (W : Type 0) : Type 0 where
  pub world : W
  pub drops : List Dropped

-- What the random generators give to an import: the namespace, and the UUID and the letter that
-- the label is made of.
pub record Draw : Type 0 where
  pub namespace : Text
  pub uuid : Text
  pub letter : ℕ

-- A call that may fail or panic, with the state after it.
abbrev pub Call : (W A : Type 0) → Type 0
Call W A = StateCall (State W) A

-- The `map_err` of `ecr::get_password`, with the `Debug` of an error.
pub as_password : {W : Type 0} → (AcmError → Text) → Call W Text → Call W Text
as_password debug (returns r, s) = (returns (map_err (λ e. get_password_error (debug e)) r), s)
as_password debug (panics, s) = (panics, s)

-- The value that goes out of scope at the end of a call, however the call ends.
pub dropping : {W A : Type 0} → Dropped → Call W A → Call W A
dropping x (r, s) = (r, record s { drops = x ∷ s.drops })

-- The arguments of `ctr` that list and import the images of a namespace.
abbrev pub ls_args : (namespace : Text) → List Arg
ls_args ns = plain (text "-n") ∷ plain ns ∷ plain (text "images") ∷ plain (text "ls") ∷ []

abbrev pub import_args : (namespace path : Text) → List Arg
import_args ns path =
    plain (text "-n")
    ∷ plain ns
    ∷ plain (text "images")
    ∷ plain (text "import")
    ∷ plain (text "--no-unpack")
    ∷ plain path
    ∷ []

module _ {W : Type 0} (run : Text → List Arg → W → Process × W) (env : Env)
    (to_lowercase : Text → Text) (debug : AcmError → Text) (is_alphabetic : ℕ → Bool) where
  -- `cmd!`
  pub call : Text → List Arg → State W → Call W Text
  call command args s =
      let (process, w) = run command args s.world in
      (cmd process command args, record s { world = w })

  -- `Import::extract_image_metadata`
  pub extract_image_metadata : (namespace : Text) → State W → Call W TmpImage
  unfolding and_then call
  extract_image_metadata ns s = and_then (call (text "ctr") (ls_args ns) s) (λ images_ls s.
      and_then (returns (extract_image_metadata_from_str ns images_ls), s)
        (λ m s. (
          returns (
              ok (record {
                reference = m.reference;
                tag = m.tag;
                digest = m.digest;
                namespace = ns;
              })),
          s,
        )))

  -- `Import::import_path`; a path that is no UTF-8 has a lossy form.
  pub import_path : (namespace : Text) → (path : Result Text Text) → State W → Call W TmpImage
  unfolding and_then call extract_image_metadata
  import_path ns path s =
      and_then (returns (map_err temp_path_is_not_uft8 path), s)
        (λ path s.
          and_then (call (text "ctr") (import_args ns path) s) (λ _ s. extract_image_metadata ns s))

  -- `Import::import`: the path of the upload, if it is on disk and UTF-8.
  pub import_upload : (namespace : Text) → Option Text → State W → Call W TmpImage
  unfolding import_path
  import_upload ns none s = (panics, s)
  import_upload ns (some path) s = import_path ns (ok path) s

  -- `Retag::retag`, which drops the image that it was given.
  pub retag : Draw → TmpImage → State W → Call W TmpImage
  unfolding and_then dropping call infallible
  retag draw old s = dropping (image old) (
      and_then (infallible (rfc1035_label is_alphabetic draw.uuid draw.letter) s) (λ new_tag s.
        let new_reference = registry env ++ text "/" ++ repository env ++ text ":" ++ new_tag in
        and_then
          (call (text "ctr")
            (plain (text "-n")
              ∷ plain old.namespace
              ∷ plain (text "images")
              ∷ plain (text "tag")
              ∷ plain old.reference
              ∷ plain new_reference
              ∷ [])
            s)
          (λ _ s. (
            returns (
                ok (record {
                  reference = new_reference;
                  tag = new_tag;
                  digest = old.digest;
                  namespace = old.namespace;
                })),
            s,
          ))))

  -- `ecr::get_credentials`
  pub get_credentials : State W → Call W (Text × Secret)
  unfolding and_then call infallible as_password
  get_credentials s = and_then (infallible (aws_username env) s) (λ username s.
      and_then
        (as_password debug
          (call (text "aws") (plain (text "ecr") ∷ plain (text "get-login-password") ∷ []) s))
        (λ password s. (returns (ok (username, record { secret = password })), s)))

  -- `Push::push_to_ecr`
  pub push_to_ecr : TmpImage → State W → Call W (Unit {0})
  unfolding and_then call get_credentials
  push_to_ecr i s = and_then (get_credentials s) (λ (username, password) s.
      let credentials : Secret = record { secret = username ++ text ":" ++ raw_secret password } in
      and_then
        (call (text "ctr")
          (plain (text "-n")
            ∷ plain i.namespace
            ∷ plain (text "images")
            ∷ plain (text "push")
            ∷ plain (text "-u")
            ∷ hidden credentials
            ∷ plain i.reference
            ∷ [])
          s)
        (λ _ s. (returns (ok tt), s)))

  -- `Push::push_to_minikube`
  pub push_to_minikube : TmpImage → State W → Call W (Unit {0})
  unfolding and_then call
  push_to_minikube i s =
      and_then
        (call (text "ctr")
          (plain (text "-n")
            ∷ plain i.namespace
            ∷ plain (text "images")
            ∷ plain (text "push")
            ∷ plain (text "--plain-http")
            ∷ plain i.reference
            ∷ [])
          s)
        (λ _ s. (returns (ok tt), s))

  pub push_to : Implementation → TmpImage → State W → Call W (Unit {0})
  unfolding push_to_ecr push_to_minikube
  push_to ecr i s = push_to_ecr i s
  push_to minikube i s = push_to_minikube i s

  -- `Push::push`, which drops its image at the end.
  pub push : TmpImage → State W → Call W Image
  unfolding and_then dropping infallible push_to
  push i s = dropping (image i) (
      and_then (infallible (which to_lowercase env) s) (λ implementation s.
        and_then (push_to implementation i s) (λ _ s. (returns (ok (to_image i)), s))))

  -- `containerd::import`, at the end of which the namespace is dropped.
  unfoldable pub import : Draw → Option Text → State W → Call W Image
  unfolding and_then dropping import_upload retag push
  import draw path s = dropping (namespace draw.namespace) (
      and_then (import_upload draw.namespace path s)
        (λ i s. and_then (retag draw i s) (λ i s. push i s)))
