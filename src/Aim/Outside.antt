-- ===== src/Aim/Outside.antt =====
-- What the registries of k8s/service/aim/src/registry need of the outside: commands, HTTP requests,
-- the readers of serde_json and the hash, which are parameters.
use ghactions_rust_test.Prelude.{
  ℕ, Bool, true, false, List, Option, none, some, Text, eq_text, find, Result, Run, returns, panics,
}
use ghactions_rust_test.Calls.{Call, infallible}
use ghactions_rust_test.Os.{Arg, Process, cmd}
use ghactions_rust_test.Aim.Errors.{}
use ghactions_rust_test.Aim.Env.{}
use ghactions_rust_test.Aim.Containerd.{Image}

pub record EcrUninstallFailure : Type 0 where
  pub image_id : Text
  pub failure_code : Text
  pub failure_reason : Text

-- What serde_json makes of an image in the output of `aws ecr`.
pub record EcrImage : Type 0 where
  pub image_digest : Text
  pub image_tag : Text

-- The output of `aws ecr batch-delete-image`.
pub record EcrUninstall : Type 0 where
  pub image_ids : List EcrImage
  pub failures : List EcrUninstallFailure

-- The output of `aws ecr list-images`.
pub record EcrListImages : Type 0 where
  pub image_ids : List EcrImage

-- The answer to a request: its status and its body.
pub record Response : Type 0 where
  pub status : ℕ
  pub body : Text

-- What the registries need of the outside. A request that is not answered gives `none`, and so
-- does a text that cannot be read, or an error with its text.
pub record Outside (W : Type 0) : Type 0 where
  pub run : Text → List Arg → W → Process × W
  pub get : (url : Text) → (accept : Option Text) → W → Option Response × W
  pub delete : (url : Text) → W → Option Response × W
  pub is_url : Text → Bool
  pub sha256 : Text → Text
  pub status_text : ℕ → Text
  pub read_uninstall : Text → Result Text EcrUninstall
  pub read_images : Text → Result Text EcrListImages
  pub read_tags : Text → Option (List Text)

-- `std::sync::Once`
pub data Once : Type 0 where
  fresh done poisoned : Once

pub record State (W : Type 0) : Type 0 where
  pub world : W
  pub once : Once

-- `unwrap` of an answer.
abbrev pub answered : {A : Type 0} → Option A → Run A
answered none = panics
answered (some a) = returns a

-- `.parse().unwrap()` of a URL.
abbrev pub checked : Bool → Text → Run Text
checked true url = returns url
checked false url = panics

-- `iter().find(|image| image.tag.eq(tag))`
unfoldable pub find_tag : Text → List Image → Option Image
find_tag tag images = find (λ i. eq_text i.tag tag) images

module _ {W : Type 0} (outside : Outside W) where
  unfoldable pub command : Text → List Arg → State W → Call (State W) Text
  command program args s =
      let (process, w) = outside.run program args s.world in
      (cmd process program args, record s { world = w })

  -- A request that panics where it is not answered.
  unfoldable pub request : Option Response × W → State W → Call (State W) Response
  unfolding infallible
  request (r, w) s = infallible (answered r) (record s { world = w })
