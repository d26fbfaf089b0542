-- ===== src/Aim/Minikube.antt =====
-- k8s/service/aim/src/registry/minikube/mod.rs: the images of Minikube's registry.
use ghactions_rust_test.Prelude.{
  ℕ, List, [], ◌∷◌, ◌++◌, Option, none, some, Text, text, ok, err, returns, ◌==◌, if◌then◌else◌,
}
use ghactions_rust_test.Errors.{AcmResult}
use ghactions_rust_test.Calls.{Call, and_then, infallible}
use ghactions_rust_test.Aim.Errors.{image_delete_error}
use ghactions_rust_test.Aim.Env.{Env, registry, repository}
use ghactions_rust_test.Aim.Containerd.{Image}
use ghactions_rust_test.Aim.Outside.{Response, Outside, State, answered, checked, find_tag, request}

accepted : ℕ → Text → AcmResult (Unit {0})
accepted status shown =
    if status == 202 then ok tt else if status == 404 then ok tt else err (image_delete_error shown)

module _ {W : Type 0} (outside : Outside W) (env : Env) where
  unfoldable pub manifest_type : Text
  manifest_type = text "application/vnd.docker.distribution.manifest.v2+json"

  unfoldable pub manifest_url : Text → Text
  manifest_url name =
      text "http://" ++ registry env ++ text "/v2/" ++ repository env ++ text "/manifests/" ++ name

  -- The image of a manifest: its digest is the hash of the manifest.
  abbrev manifest_image : Text → Response → Image
  manifest_image tag r = record { tag = tag; digest = text "sha256:" ++ outside.sha256 r.body }

  -- A request for the manifest of a tag.
  unfoldable pub request_manifest : Text → State W → Call (State W) Response
  unfolding and_then infallible request manifest_url manifest_type
  request_manifest tag s =
      and_then (infallible (checked (outside.is_url (manifest_url tag)) (manifest_url tag)) s)
        (λ url s. request outside (outside.get url (some manifest_type) s.world) s)

  -- `minikube::get`
  unfoldable pub minikube_get : Text → State W → Call (State W) (Option Image)
  unfolding and_then request_manifest
  minikube_get tag s = and_then (request_manifest tag s) (λ r s.
      if r.status == 404
      then (returns (ok none), s)
      else (returns (ok (some (manifest_image tag r))), s))

  -- The loop of `minikube::list` over the tags.
  unfoldable pub list_manifests : List Text → State W → Call (State W) (List Image)
  unfolding and_then request_manifest
  list_manifests [] s = (returns (ok []), s)
  list_manifests (tag ∷ tags) s = and_then (request_manifest tag s) (λ r s.
      and_then (list_manifests tags s)
        (λ images s. (returns (ok (manifest_image tag r ∷ images)), s)))

  -- `minikube::list`
  unfoldable pub minikube_list : State W → Call (State W) (List Image)
  unfolding and_then infallible request list_manifests
  minikube_list s =
      let address =
        text "http://" ++ registry env ++ text "/v2/" ++ repository env ++ text "/tags/list" in
      and_then (infallible (checked (outside.is_url address) address) s) (λ url s.
        and_then (request outside (outside.get url none s.world) s) (λ r s.
          if r.status == 404
          then (returns (ok []), s)
          else and_then (infallible (answered (outside.read_tags r.body)) s)
              (λ tags s. list_manifests tags s)))

  -- The deletion of the manifest with the digest of an image.
  unfoldable pub delete_image : Image → State W → Call (State W) (Unit {0})
  unfolding and_then infallible request accepted manifest_url
  delete_image i s =
      and_then
        (infallible (checked (outside.is_url (manifest_url i.digest)) (manifest_url i.digest)) s)
        (λ url s.
          and_then (request outside (outside.delete url s.world) s)
            (λ r s. (returns (accepted r.status (outside.status_text r.status)), s)))

  unfoldable pub delete_found : Option Image → State W → Call (State W) (Unit {0})
  unfolding delete_image
  delete_found none s = (returns (ok tt), s)
  delete_found (some i) s = delete_image i s

  -- `minikube::uninstall`
  unfoldable pub minikube_uninstall : Text → State W → Call (State W) (Unit {0})
  unfolding and_then minikube_list delete_found
  minikube_uninstall tag s =
      and_then (minikube_list s) (λ images s. delete_found (find_tag tag images) s)
