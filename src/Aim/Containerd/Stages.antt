-- ===== src/Aim/Containerd/Stages.antt =====
-- The drops of each stage of an import, and the image that it hands on.
use ghactions_rust_test.Prelude.{
  ℕ, ◌≡◌, refl, ap, Bool, List, ◌∷◌, ◌++◌, Option, none, some, Text, text, ok, err, returns, panics,
}
use ghactions_rust_test.Errors.{AcmError}
use ghactions_rust_test.Names.{rfc1035_label}
use ghactions_rust_test.Os.{Arg, Process, cmd}
use ghactions_rust_test.Aim.Metadata.{extract_image_metadata_from_str}
use ghactions_rust_test.Aim.Metadata.RoundTrip.{IsRead, extract-IsRead}
use ghactions_rust_test.Aim.Env.{Env, registry, repository, aws_username}
use ghactions_rust_test.Aim.Containerd.{
  TmpImage, to_image, which, Dropped, image, State, Draw, Call, call, extract_image_metadata,
  import_path, import_upload, retag, push_to, push_to_ecr, push_to_minikube, get_credentials,
  as_password, ecr, minikube, push, ls_args, import_args,
}
use ghactions_rust_test.Aim.Containerd.Post.{
  Post, and_then-Post, Post-ok, Post-panics, Post-weaken, dropping-Post, Post-same, infallible-Post,
  Post-first,
}

module _ {W : Type 0} (run : Text → List Arg → W → Process × W) (env : Env)
    (to_lowercase : Text → Text) (debug : AcmError → Text) (is_alphabetic : ℕ → Bool) where
  -- The retagged image: the configured repository, a new label, and the digest and the namespace
  -- of the image before.
  pub record IsRetagged (draw : Draw) (old new : TmpImage) : Type 0 where
    pub label : rfc1035_label is_alphabetic draw.uuid draw.letter ≡ returns new.tag
    pub reference :
        new.reference ≡ registry env ++ text "/" ++ repository env ++ text ":" ++ new.tag
    pub digest : new.digest ≡ old.digest
    pub namespace : new.namespace ≡ old.namespace

  call-Post :
      (command : Text) (args : List Arg) (s : State W) (d : List Dropped)
      → s.drops ≡ d
      → Post
          (λ _ e. e ≡ d)
          (λ e. e ≡ d)
          (call run env to_lowercase debug is_alphabetic command args s)
  unfolding call
  call-Post command args s d h = Post-same (cmd _ command args) _ d h

  -- The image is the one that `ctr images ls` prints in this world: its reference is the first field
  -- of the row, its digest the third, and its tag what follows the last colon of the reference.
  pub record IsListed (ns : Text) (w : W) (i : TmpImage) : Type 0 where
    pub images_ls : Text
    pub printed :
        cmd (run (text "ctr") (ls_args ns) w).0 (text "ctr") (ls_args ns) ≡ returns (ok images_ls)
    pub read : IsRead images_ls (record { reference = i.reference; tag = i.tag; digest = i.digest })
    pub namespace : i.namespace ≡ ns

  -- The image is the one that `ctr` lists in the namespace after the import of the upload.
  pub record IsUploaded (ns : Text) (path : Option Text) (w : W) (i : TmpImage) : Type 0 where
    pub file : Text
    pub path_is : path ≡ some file
    pub listed : IsListed ns (run (text "ctr") (import_args ns file) w).1 i

  read-Post :
      (ns : Text) (s : State W) (d : List Dropped)
      → s.drops ≡ d
      → Post
          (λ i e. (e ≡ d) × IsListed ns s.world i)
          (λ e. e ≡ d)
          (extract_image_metadata run env to_lowercase debug is_alphabetic ns s)
  unfolding extract_image_metadata call
  read-Post ns s d h = Post-first _ _ _ _ _ h (λ images_ls printed.
      Post-first _ _ (returns (extract_image_metadata_from_str ns images_ls)) _ _ h (λ m read.
        let e : extract_image_metadata_from_str ns images_ls ≡ ok m = cc in
        Post-ok _ _ _ _ (
          h,
          record {
            images_ls = images_ls;
            printed = printed;
            read = extract-IsRead ns images_ls m e;
            namespace = refl;
          },
        )))

  pub upload-Post :
      (ns : Text) (path : Option Text) (s : State W) (d : List Dropped)
      → s.drops ≡ d
      → Post
          (λ i e. (e ≡ d) × IsUploaded ns path s.world i)
          (λ e. e ≡ d)
          (import_upload run env to_lowercase debug is_alphabetic ns path s)
  unfolding import_upload import_path call
  upload-Post ns none s d h = Post-panics _ _ _ h
  upload-Post ns (some path) s d h =
      let ran = run (text "ctr") (import_args ns path) s.world in
      let t : State W = record s { world = ran.1 } in
      Post-first _ _ (cmd ran.0 (text "ctr") (import_args ns path)) t _ h (λ _ _.
        Post-weaken _ _ _ _ _ (λ i e w. (w.0, record { file = path; path_is = refl; listed = w.1 }))
          (λ e w. w) (read-Post ns t d h))

  pub retag-Post :
      (draw : Draw) (old : TmpImage) (s : State W) (d : List Dropped)
      → s.drops ≡ d
      → Post
          (λ new e. (e ≡ image old ∷ d) × IsRetagged draw old new)
          (λ e. e ≡ image old ∷ d)
          (retag run env to_lowercase debug is_alphabetic draw old s)
  unfolding retag
  retag-Post draw old s d h = dropping-Post _ _ _ _ (
      Post-weaken _ _ _ _ _ (λ new e w. (ap (λ l. image old ∷ l) w.0, w.1))
        (λ e w. ap (λ l. image old ∷ l) w)
        (and_then-Post _ (λ new e. (e ≡ d) × IsRetagged draw old new) (λ e. e ≡ d) _ _
          (infallible-Post (rfc1035_label is_alphabetic draw.uuid draw.letter) s d h)
          (λ tag s' w. and_then-Post _ _ _ _ _ (call-Post (text "ctr") _ s' d w.0) (λ _ s'' k.
            Post-ok _ _ _ _
              (k, record { label = w.1; reference = refl; digest = refl; namespace = refl })))))

  as_password-Post :
      (c : Call W Text) (d : List Dropped)
      → Post (λ _ e. e ≡ d) (λ e. e ≡ d) c
      → Post (λ _ e. e ≡ d) (λ e. e ≡ d) (as_password debug c)
  unfolding as_password Post
  as_password-Post (returns (ok t), s) d h = h
  as_password-Post (returns (err e), s) d h = h
  as_password-Post (panics, s) d h = h

  credentials-Post :
      (s : State W) (d : List Dropped)
      → s.drops ≡ d
      → Post
          (λ _ e. e ≡ d)
          (λ e. e ≡ d)
          (get_credentials run env to_lowercase debug is_alphabetic s)
  unfolding get_credentials
  credentials-Post s d h =
      and_then-Post _ _ _ _ _ (infallible-Post (aws_username env) s d h) (λ username s' w.
        and_then-Post _ _ _ _ _ (as_password-Post _ d (call-Post (text "aws") _ s' d w.0))
          (λ password s'' k. Post-ok _ _ _ _ k))

  push_to-Post :
      (implementation : _) (i : TmpImage) (s : State W) (d : List Dropped)
      → s.drops ≡ d
      → Post
          (λ _ e. e ≡ d)
          (λ e. e ≡ d)
          (push_to run env to_lowercase debug is_alphabetic implementation i s)
  unfolding push_to push_to_minikube push_to_ecr
  push_to-Post minikube i s d h =
      and_then-Post _ _ _ _ _ (call-Post (text "ctr") _ s d h) (λ _ s' k. Post-ok _ _ _ _ k)
  push_to-Post ecr i s d h =
      and_then-Post _ _ _ _ _ (credentials-Post s d h) (λ (username, password) s' k.
        and_then-Post _ _ _ _ _ (call-Post (text "ctr") _ s' d k) (λ _ s'' j. Post-ok _ _ _ _ j))

  pub push-Post :
      (i : TmpImage) (s : State W) (d : List Dropped)
      → s.drops ≡ d
      → Post
          (λ result e. (e ≡ image i ∷ d) × (result ≡ to_image i))
          (λ e. e ≡ image i ∷ d)
          (push run env to_lowercase debug is_alphabetic i s)
  unfolding push
  push-Post i s d h = dropping-Post _ _ _ _ (
      Post-weaken _ _ _ _ _ (λ result e w. (ap (λ l. image i ∷ l) w.0, w.1))
        (λ e w. ap (λ l. image i ∷ l) w)
        (and_then-Post _ (λ result e. (e ≡ d) × (result ≡ to_image i)) (λ e. e ≡ d) _ _
          (infallible-Post (which to_lowercase env) s d h)
          (λ implementation s' w.
            and_then-Post _ _ _ _ _ (push_to-Post implementation i s' d w.0)
              (λ _ s'' k. Post-ok _ _ _ _ (k, refl)))))
