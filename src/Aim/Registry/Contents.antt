-- ===== src/Aim/Registry/Contents.antt =====
-- The registry of ECR as a list of images: what the operations do to it, where ECR's commands go well.
use ghactions_rust_test.Prelude.{
  ◌≡◌, ◌∙◌, refl, Bool, true, false, List, [], ◌∷◌, ◌++◌, map, Option, none, Text, text, eq_text,
  eq_text_iff, ok, err, ok_or, Run, returns, if◌then◌else◌, arith,
}
use ghactions_rust_test.Errors.{AcmError, AcmResult}
use ghactions_rust_test.Calls.{and_then}
use ghactions_rust_test.Os.{Arg, plain, cmd}
use ghactions_rust_test.Aim.Errors.{tag_not_found}
use ghactions_rust_test.Aim.Env.{Env, registry, repository}
use ghactions_rust_test.Aim.Containerd.{Image, ecr, which}
use ghactions_rust_test.Aim.Outside.{
  EcrUninstallFailure, EcrUninstall, EcrListImages, Outside, State, done, command, find_tag,
}
use ghactions_rust_test.Aim.Ecr.{
  from_ecr, first_failure, ecr_command, ecr_uninstall, ecr_list, ecr_get,
}
use ghactions_rust_test.Aim.Ecr.Uninstall.{IsFree, delete_args}
use ghactions_rust_test.Aim.Registry.{get, uninstall}
use ghactions_rust_test.Aim.Registry.Settled.{uninstall_done, find_done}

abbrev pub list_args : Env → List Arg
list_args env =
    plain (text "list-images")
    ∷ plain (text "--no-paginate")
    ∷ plain (text "--repository-name")
    ∷ plain (repository env)
    ∷ []

-- The images without those of a tag.
abbrev pub erase : Text → List Image → List Image
erase tag [] = []
erase tag (i ∷ images) = if eq_text i.tag tag then erase tag images else i ∷ erase tag images

module _ {W : Type 0} (outside : Outside W) (env : Env) where
  -- What comes of a command of ECR.
  abbrev pub ran : List Arg → W → Run (AcmResult Text)
  ran args w =
      cmd (outside.run (text "aws") (plain (text "ecr") ∷ args) w).0 (text "aws")
        (plain (text "ecr") ∷ args)

  abbrev pub after : List Arg → W → W
  after args w = (outside.run (text "aws") (plain (text "ecr") ∷ args) w).1

  -- `aws ecr list-images` prints the images of the repository, and changes nothing. It prints a page,
  -- so that they are all printed if there are no more than that; all have tags.
  pub record Lists (contents : W → List Image) (w : W) : Type 0 where
    pub out : Text
    pub printed : ran (list_args env) w ≡ returns (ok out)
    pub images : EcrListImages
    pub parsed : outside.read_images out ≡ ok images
    pub same : map from_ecr images.image_ids ≡ contents w
    pub kept : contents (after (list_args env) w) ≡ contents w

  -- `aws ecr batch-delete-image` deletes a tag, and prints no failure, or that there is no such image;
  -- it has other failures to print where it does not delete.
  pub record Deletes (contents : W → List Image) (tag : Text) (w : W) : Type 0 where
    pub out : Text
    pub result : EcrUninstall
    pub printed : ran (delete_args env tag) w ≡ returns (ok out)
    pub parsed : outside.read_uninstall out ≡ ok result
    pub free : IsFree result.failures
    pub erased : contents (after (delete_args env tag) w) ≡ erase tag (contents w)

  -- The three commands that a deletion and two look-ups come to go well.
  pub record GoesWell (contents : W → List Image) (tag : Text) (w : W) : Type 0 where
    pub lists : Lists contents w
    pub deletes : Deletes contents tag w
    pub lists_after : Lists contents (after (delete_args env tag) w)

first_failure_free : (l : List EcrUninstallFailure) → IsFree l → first_failure l ≡ ok tt
unfolding first_failure
first_failure_free [] h = refl
first_failure_free (f ∷ l) h = rw ((eq_text_iff f.failure_code (text "ImageNotFound")).1 h) refl

find_tag-erase :
    (tag other : Text) (images : List Image)
    → find_tag other (erase tag images)
      ≡ (if eq_text tag other then none else find_tag other images)
unfolding find_tag
find_tag-erase tag other [] = ground arith
find_tag-erase tag other (i ∷ images) = ground (
  arith,
  find_tag-erase tag other images,
  eq_text_iff i.tag tag,
  eq_text_iff i.tag other,
  eq_text_iff tag other,
)

ok_or-if :
    {A : Type 0} (b : Bool) (o : Option A) (e : AcmError)
    → (let r : Run (AcmResult A) = returns (ok_or (if b then none else o) e) in r)
      ≡ (if b then returns (err e) else returns (ok_or o e))
ok_or-if true o e = refl
ok_or-if false o e = refl

module _ {W : Type 0} (outside : Outside W) (env : Env) (to_lowercase : Text → Text)
    (contents : W → List Image) where
  ecr_list-eq :
      (s : State W)
      → Lists outside env contents s.world
      → ecr_list outside env s ≡ (
        returns (ok (contents s.world)),
        record s { world = after outside env (list_args env) s.world },
      )
  unfolding ecr_list ecr_command command and_then
  ecr_list-eq s l = rw (l.printed, l.parsed, l.same) refl

  ecr_get-eq :
      (tag : Text) (s : State W)
      → Lists outside env contents s.world
      → ecr_get outside env tag s ≡ (
        returns (ok (find_tag tag (contents s.world))),
        record s { world = after outside env (list_args env) s.world },
      )
  unfolding ecr_get and_then
  ecr_get-eq tag s l = rw (ecr_list-eq s l) refl

  ecr_uninstall-eq :
      (tag : Text) (s : State W)
      → Deletes outside env contents tag s.world
      → ecr_uninstall outside env tag s
        ≡ (returns (ok tt), record s { world = after outside env (delete_args env tag) s.world })
  unfolding ecr_uninstall ecr_command command and_then
  ecr_uninstall-eq tag s d =
      rw (d.printed, d.parsed, first_failure_free d.result.failures d.free) refl

  module _ (chosen : which to_lowercase env ≡ returns ecr) where
    get-eq :
        (tag : Text) (s : State W)
        → s.once ≡ done
        → Lists outside env contents s.world
        → (get outside env to_lowercase tag s).0
          ≡ returns (
              ok_or
                (find_tag tag (contents s.world))
                (tag_not_found tag (registry env ++ text "/" ++ repository env)))
    unfolding get and_then
    get-eq tag s d l =
        rw (find_done outside env to_lowercase ecr tag s chosen d, ecr_get-eq tag s l) refl

    -- Let the service be configured for ECR, and let the commands go well: the repository has no more
    -- images than one page of `aws ecr list-images`, before and after, all of them with tags, and
    -- `aws ecr batch-delete-image` deletes the tag, and reports no failure but a missing image. Then
    -- uninstalling the tag succeeds, whether or not there is such an image, and afterwards the tag
    -- cannot be got, with a TagNotFound, while every other tag is got as before.
    pub get-uninstall :
        (tag other : Text) (s : State W)
        → s.once ≡ done
        → GoesWell outside env contents tag s.world
        → let u = uninstall outside env to_lowercase tag s in
          (u.0 ≡ returns (ok tt))
          × ((get outside env to_lowercase other u.1).0 ≡ (
              if eq_text tag other
              then returns (err (tag_not_found other (registry env ++ text "/" ++ repository env)))
              else (get outside env to_lowercase other s).0))
    get-uninstall tag other s d works =
        let e =
          uninstall_done outside env to_lowercase ecr tag s chosen d
          ∙ ecr_uninstall-eq tag s works.deletes in
        let t : State W = record s { world = after outside env (delete_args env tag) s.world } in
        rw e (
          refl,
          rw
              (
                get-eq other t d works.lists_after,
                works.deletes.erased,
                find_tag-erase tag other (contents s.world),
                get-eq other s d works.lists,
              )
              (ok_or-if (eq_text tag other) (find_tag other (contents s.world)) _),
        )
