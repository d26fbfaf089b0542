-- ===== src/Aim/Endpoints.antt =====
-- k8s/service/aim/src/main.rs: the four handlers and the start of the service, with `import` of
-- k8s/service/aim/src/registry/mod.rs, through which an upload goes. The web framework, which
-- calls the handlers and answers a panic by itself, is left out.
pub mod Once
pub mod Start
use ghactions_rust_test.Prelude.{
  ℕ, Bool, List, [], ◌∷◌, map, Option, none, some, Text, text, Result, ok, err, Run, returns,
  panics, run_bind,
}
use ghactions_rust_test.Errors.{AcmError, AcmResult}
use ghactions_rust_test.Json.{
  Json, null, string, array, object, Items, no_items, item, Fields, no_fields, field,
}
use ghactions_rust_test.Calls.{Call, and_then, infallible}
use ghactions_rust_test.Os.{Arg, Process}
use ghactions_rust_test.Web.{Answer, kind_of_list, respond}
use ghactions_rust_test.Derive.{unit_type, builtin_kind}
use ghactions_rust_test.Aim.Env.{Env}
use ghactions_rust_test.Aim.Containerd
use ghactions_rust_test.Aim.Containerd.{Image, Draw}
use ghactions_rust_test.Aim.Outside.{Outside, State}
use ghactions_rust_test.Aim.Registry
use ghactions_rust_test.Aim.Registry.{configure}

-- `Serialize` of an image, and of a list of images.
unfoldable pub image_json : Image → Json
image_json i =
    object (field (text "tag") (string i.tag) (field (text "digest") (string i.digest) no_fields))

abbrev pub image_items : List Image → Items
image_items [] = no_items
image_items (i ∷ images) = item (image_json i) (image_items images)

abbrev pub image_kind : Image → Text
image_kind _ = text "Image"

-- The answer that a call of a handler comes to, unless it panics.
unfoldable pub answered : {S A : Type 0} → (A → Text) → (A → Json) → Call S A → Run Answer × S
unfolding respond
answered kind to_json (r, s) = (run_bind r (λ r. returns (respond kind to_json r)), s)

-- What an import changes: the registry's state, and the values dropped on the way.
abbrev pub ImportState : Type 0 → Type 0
ImportState W = Containerd.State (State W)

module _ {W : Type 0} (outside : Outside W) (env : Env) (to_lowercase : Text → Text) where
  -- The commands of an import run in the registry's world.
  abbrev pub run_in : Text → List Arg → State W → Process × State W
  run_in program args s =
      let (process, w) = outside.run program args s.world in (process, record s { world = w })

  module _ (debug : AcmError → Text) (is_alphabetic : ℕ → Bool) where
    -- `registry::import`
    unfoldable pub import : Draw → (path : Option Text) → ImportState W → Call (ImportState W) Image
    unfolding and_then infallible configure Containerd.import
    import draw path s =
        let (r, world) = configure outside env to_lowercase s.world in
        and_then (infallible r (record s { world = world }))
          (λ _ s. Containerd.import run_in env to_lowercase debug is_alphabetic draw path s)

    -- `POST /install`
    unfoldable pub install :
        Draw → (path : Option Text) → ImportState W → Run Answer × ImportState W
    unfolding answered import image_json
    install draw path s = answered image_kind image_json (import draw path s)

  -- `DELETE /uninstall`
  unfoldable pub uninstall : (tag : Text) → State W → Run Answer × State W
  unfolding answered builtin_kind Registry.uninstall
  uninstall tag s =
      answered (λ (_ : Unit {0}). builtin_kind unit_type) (λ _. null)
        (Registry.uninstall outside env to_lowercase tag s)

  -- `GET /list`
  unfoldable pub list : State W → Run Answer × State W
  unfolding answered kind_of_list image_json Registry.list
  list s =
      answered (λ images. kind_of_list (map image_kind images))
        (λ images. array (image_items images)) (Registry.list outside env to_lowercase s)

  -- `GET /get`
  unfoldable pub get : (tag : Text) → State W → Run Answer × State W
  unfolding answered image_json Registry.get
  get tag s = answered image_kind image_json (Registry.get outside env to_lowercase tag s)

  -- `main` up to the launch of the web server: the configuration, whose panic ends the service.
  unfoldable pub start : State W → Run (Unit {0}) × State W
  unfolding configure
  start s = configure outside env to_lowercase s
