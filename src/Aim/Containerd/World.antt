-- ===== src/Aim/Containerd/World.antt =====
-- What no command changes in the world, an import does not change.
use ghactions_rust_test.Prelude.{
  ℕ, Bool, List, [], ◌∷◌, Option, none, some, Text, text, returns, panics,
}
use ghactions_rust_test.Errors.{AcmError}
use ghactions_rust_test.Calls.{infallible, Keeps, Keeps-returned, and_then-Keeps, infallible-Keeps}
use ghactions_rust_test.Names.{rfc1035_label}
use ghactions_rust_test.Os.{Arg, Process, plain}
use ghactions_rust_test.Aim.Metadata.{extract_image_metadata_from_str}
use ghactions_rust_test.Aim.Env.{Env, aws_username}
use ghactions_rust_test.Aim.Containerd.{
  TmpImage, Implementation, ecr, minikube, which, Dropped, State, Draw, Call, as_password, dropping,
  ls_args, import_args, call, extract_image_metadata, import_path, import_upload, retag,
  get_credentials, push_to_ecr, push_to_minikube, push_to, push, import,
}

module _ {W : Type 0} (run : Text → List Arg → W → Process × W) (env : Env)
    (to_lowercase : Text → Text) (debug : AcmError → Text) (is_alphabetic : ℕ → Bool)
    (holds : W → Type 0)
    (kept : (program : Text) (args : List Arg) (w : W)
      → holds w
      → holds (run program args w).1) where
  abbrev Holds : State W → Type 0
  Holds s = holds s.world

  dropping-Keeps :
      {A : Type 0} (x : Dropped) (c : Call W A) → Keeps Holds c → Keeps Holds (dropping x c)
  unfolding dropping Keeps
  dropping-Keeps x c h = h

  call-Keeps :
      (program : Text) (args : List Arg) (s : State W)
      → Holds s
      → Keeps Holds (call run env to_lowercase debug is_alphabetic program args s)
  unfolding call Keeps
  call-Keeps program args s h = kept program args s.world h

  import_upload-Keeps :
      (ns : Text) (path : Option Text) (s : State W)
      → Holds s
      → Keeps Holds (import_upload run env to_lowercase debug is_alphabetic ns path s)
  unfolding import_upload import_path extract_image_metadata
  import_upload-Keeps ns none s h = Keeps-returned Holds panics s h
  import_upload-Keeps ns (some path) s h =
      and_then-Keeps Holds
        (call run env to_lowercase debug is_alphabetic (text "ctr") (import_args ns path) s) _
        (call-Keeps (text "ctr") (import_args ns path) s h)
        (λ _ s h.
          and_then-Keeps Holds
            (call run env to_lowercase debug is_alphabetic (text "ctr") (ls_args ns) s) _
            (call-Keeps (text "ctr") (ls_args ns) s h)
            (λ images_ls s h.
              and_then-Keeps Holds (returns (extract_image_metadata_from_str ns images_ls), s) _
                (Keeps-returned Holds _ s h) (λ m s h. Keeps-returned Holds _ s h)))

  retag-Keeps :
      (draw : Draw) (old : TmpImage) (s : State W)
      → Holds s
      → Keeps Holds (retag run env to_lowercase debug is_alphabetic draw old s)
  unfolding retag
  retag-Keeps draw old s h = dropping-Keeps _ _ (
      and_then-Keeps Holds (infallible (rfc1035_label is_alphabetic draw.uuid draw.letter) s) _
        (infallible-Keeps Holds _ s h)
        (λ new_tag s h.
          and_then-Keeps Holds (call run env to_lowercase debug is_alphabetic (text "ctr") _ s) _
            (call-Keeps (text "ctr") _ s h) (λ _ s h. Keeps-returned Holds _ s h)))

  as_password-Keeps : (c : Call W Text) → Keeps Holds c → Keeps Holds (as_password debug c)
  unfolding as_password Keeps
  as_password-Keeps (returns r, s) h = h
  as_password-Keeps (panics, s) h = h

  get_credentials-Keeps :
      (s : State W)
      → Holds s
      → Keeps Holds (get_credentials run env to_lowercase debug is_alphabetic s)
  unfolding get_credentials
  get_credentials-Keeps s h =
      let args : List Arg = plain (text "ecr") ∷ plain (text "get-login-password") ∷ [] in
      and_then-Keeps Holds (infallible (aws_username env) s) _ (infallible-Keeps Holds _ s h)
        (λ username s h.
          and_then-Keeps Holds
            (as_password debug (call run env to_lowercase debug is_alphabetic (text "aws") args s))
            _ (as_password-Keeps _ (call-Keeps (text "aws") args s h))
            (λ password s h. Keeps-returned Holds _ s h))

  push_to-Keeps :
      (i : Implementation) (image : TmpImage) (s : State W)
      → Holds s
      → Keeps Holds (push_to run env to_lowercase debug is_alphabetic i image s)
  unfolding push_to push_to_ecr push_to_minikube
  push_to-Keeps ecr image s h =
      and_then-Keeps Holds (get_credentials run env to_lowercase debug is_alphabetic s) _
        (get_credentials-Keeps s h)
        (λ (username, password) s h.
          and_then-Keeps Holds (call run env to_lowercase debug is_alphabetic (text "ctr") _ s) _
            (call-Keeps (text "ctr") _ s h) (λ _ s h. Keeps-returned Holds _ s h))
  push_to-Keeps minikube image s h =
      and_then-Keeps Holds (call run env to_lowercase debug is_alphabetic (text "ctr") _ s) _
        (call-Keeps (text "ctr") _ s h) (λ _ s h. Keeps-returned Holds _ s h)

  push-Keeps :
      (image : TmpImage) (s : State W)
      → Holds s
      → Keeps Holds (push run env to_lowercase debug is_alphabetic image s)
  unfolding push
  push-Keeps image s h = dropping-Keeps _ _ (
      and_then-Keeps Holds (infallible (which to_lowercase env) s) _ (infallible-Keeps Holds _ s h)
        (λ i s h.
          and_then-Keeps Holds (push_to run env to_lowercase debug is_alphabetic i image s) _
            (push_to-Keeps i image s h) (λ _ s h. Keeps-returned Holds _ s h)))

  -- What each command keeps true of the world, an import keeps true.
  pub import-Keeps :
      (draw : Draw) (path : Option Text) (s : State W)
      → Holds s
      → Keeps Holds (import run env to_lowercase debug is_alphabetic draw path s)
  unfolding import
  import-Keeps draw path s h = dropping-Keeps _ _ (
      and_then-Keeps Holds
        (import_upload run env to_lowercase debug is_alphabetic draw.namespace path s) _
        (import_upload-Keeps draw.namespace path s h)
        (λ i s h.
          and_then-Keeps Holds (retag run env to_lowercase debug is_alphabetic draw i s) _
            (retag-Keeps draw i s h) (λ i s h. push-Keeps i s h)))
