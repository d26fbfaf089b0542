-- ===== src/Aim/Endpoints/Once.antt =====
-- No operation of the registries touches the state of the configuration, and an import does not
-- either.
use ghactions_rust_test.Prelude.{
  ◌≡◌, List, [], ◌∷◌, ◌++◌, Option, none, some, Text, text, ◌==◌, arith,
}
use ghactions_rust_test.Calls.{
  infallible, Keeps, Keeps-returned, and_then-Keeps, infallible-Keeps, branch-Keeps,
}
use ghactions_rust_test.Aim.Env.{Env, registry, repository}
use ghactions_rust_test.Aim.Containerd.{Image}
use ghactions_rust_test.Aim.Outside.{
  Outside, State, Once, answered, checked, find_tag, command, request, Response,
}
use ghactions_rust_test.Aim.Ecr.{ecr_command, ecr_uninstall, ecr_list, ecr_get}
use ghactions_rust_test.Aim.Minikube.{
  manifest_url, manifest_type, request_manifest, minikube_get, list_manifests, minikube_list,
  delete_image, delete_found, minikube_uninstall,
}

-- The configuration has this state.
abbrev pub Stays : {W : Type 0} → Once → State W → Type 0
Stays o s = s.once ≡ o

module _ {W : Type 0} (outside : Outside W) (env : Env) (o : Once) where
  request-Stays :
      (answer : Option Response × W) (s : State W)
      → Stays o s
      → Keeps (Stays o) (request outside answer s)
  unfolding request
  request-Stays (r, w) s h = infallible-Keeps (Stays o) (answered r) (record s { world = w }) h

  pub ecr_uninstall-Stays :
      (tag : Text) (s : State W) → Stays o s → Keeps (Stays o) (ecr_uninstall outside env tag s)
  unfolding ecr_uninstall ecr_command command Keeps
  ecr_uninstall-Stays tag s h = ground arith

  pub ecr_list-Stays : (s : State W) → Stays o s → Keeps (Stays o) (ecr_list outside env s)
  unfolding ecr_list ecr_command command Keeps
  ecr_list-Stays s h = ground arith

  pub ecr_get-Stays :
      (tag : Text) (s : State W) → Stays o s → Keeps (Stays o) (ecr_get outside env tag s)
  unfolding ecr_get
  ecr_get-Stays tag s h =
      and_then-Keeps (Stays o) (ecr_list outside env s) _ (ecr_list-Stays s h)
        (λ images s h. Keeps-returned (Stays o) _ s h)

  request_manifest-Stays :
      (tag : Text) (s : State W) → Stays o s → Keeps (Stays o) (request_manifest outside env tag s)
  unfolding request_manifest
  request_manifest-Stays tag s h =
      and_then-Keeps (Stays o)
        (infallible
          (checked (outside.is_url (manifest_url outside env tag)) (manifest_url outside env tag))
          s)
        _ (infallible-Keeps (Stays o) _ s h)
        (λ url s h. request-Stays (outside.get url (some (manifest_type outside env)) s.world) s h)

  pub minikube_get-Stays :
      (tag : Text) (s : State W) → Stays o s → Keeps (Stays o) (minikube_get outside env tag s)
  unfolding minikube_get
  minikube_get-Stays tag s h =
      and_then-Keeps (Stays o) (request_manifest outside env tag s) _
        (request_manifest-Stays tag s h)
        (λ r s h.
          branch-Keeps (Stays o) (r.status == 404) _ _ (Keeps-returned (Stays o) _ s h)
            (Keeps-returned (Stays o) _ s h))

  list_manifests-Stays :
      (tags : List Text) (s : State W)
      → Stays o s
      → Keeps (Stays o) (list_manifests outside env tags s)
  unfolding list_manifests
  list_manifests-Stays [] s h = Keeps-returned (Stays o) _ s h
  list_manifests-Stays (tag ∷ tags) s h =
      and_then-Keeps (Stays o) (request_manifest outside env tag s) _
        (request_manifest-Stays tag s h)
        (λ r s h.
          and_then-Keeps (Stays o) (list_manifests outside env tags s) _
            (list_manifests-Stays tags s h) (λ images s h. Keeps-returned (Stays o) _ s h))

  pub minikube_list-Stays :
      (s : State W) → Stays o s → Keeps (Stays o) (minikube_list outside env s)
  unfolding minikube_list
  minikube_list-Stays s h =
      let address : Text =
        text "http://" ++ registry env ++ text "/v2/" ++ repository env ++ text "/tags/list" in
      and_then-Keeps (Stays o) (infallible (checked (outside.is_url address) address) s) _
        (infallible-Keeps (Stays o) _ s h)
        (λ url s h.
          and_then-Keeps (Stays o) (request outside (outside.get url none s.world) s) _
            (request-Stays (outside.get url none s.world) s h)
            (λ r s h.
              branch-Keeps (Stays o) (r.status == 404) _ _ (Keeps-returned (Stays o) _ s h) (
                and_then-Keeps (Stays o) (infallible (answered (outside.read_tags r.body)) s) _
                  (infallible-Keeps (Stays o) _ s h) (λ tags s h. list_manifests-Stays tags s h))))

  delete_found-Stays :
      (found : Option Image) (s : State W)
      → Stays o s
      → Keeps (Stays o) (delete_found outside env found s)
  unfolding delete_found delete_image
  delete_found-Stays none s h = Keeps-returned (Stays o) _ s h
  delete_found-Stays (some i) s h =
      and_then-Keeps (Stays o)
        (infallible
          (checked (outside.is_url (manifest_url outside env i.digest))
            (manifest_url outside env i.digest))
          s)
        _ (infallible-Keeps (Stays o) _ s h)
        (λ url s h.
          and_then-Keeps (Stays o) (request outside (outside.delete url s.world) s) _
            (request-Stays (outside.delete url s.world) s h)
            (λ r s h. Keeps-returned (Stays o) _ s h))

  pub minikube_uninstall-Stays :
      (tag : Text) (s : State W)
      → Stays o s
      → Keeps (Stays o) (minikube_uninstall outside env tag s)
  unfolding minikube_uninstall
  minikube_uninstall-Stays tag s h =
      and_then-Keeps (Stays o) (minikube_list outside env s) _ (minikube_list-Stays s h)
        (λ images s h. delete_found-Stays (find_tag tag images) s h)
