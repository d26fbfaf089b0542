-- ===== src/Aim/Registry/Manifests.antt =====
-- Minikube's registry as a function from tags to manifests: what the operations do to it, where the
-- registry answers as its HTTP API is documented for names that are valid.
pub mod Removal
use ghactions_rust_test.Prelude.{
  ◌≡◌, ◌∙◌, refl, ap, Bool, true, false, List, [], ◌∷◌, ◌++◌, map, any, All, Option, none, some,
  Text, text, eq_text, eq_text_iff, eq_text_refl, find, ok, err, ok_or, Run, returns, panics, ◌==◌,
  if◌then◌else◌, arith, Bool-cases, inl, inr, ◌⊎◌,
}
use ghactions_rust_test.Errors.{AcmError, AcmResult}
use ghactions_rust_test.Calls.{Call, and_then, infallible}
use ghactions_rust_test.Aim.Errors.{tag_not_found}
use ghactions_rust_test.Aim.Env.{Env, registry, repository}
use ghactions_rust_test.Aim.Containerd.{Image, Implementation, minikube, which}
use ghactions_rust_test.Aim.Outside.{
  Outside, Response, State, Once, done, request, answered, checked, find_tag,
}
use ghactions_rust_test.Aim.Minikube.{
  manifest_url, manifest_type, request_manifest, minikube_get, list_manifests, minikube_list,
  delete_image, delete_found, minikube_uninstall,
}
use ghactions_rust_test.Aim.Registry.{get, uninstall}
use ghactions_rust_test.Aim.Registry.Settled.{uninstall_done, find_done}

-- The answer to a request for a manifest that is there, or is not.
abbrev pub Answers : Response → Option Text → Type 0
Answers r none = r.status ≡ 404
Answers r (some manifest) = (r.status ≡ 200) × (r.body ≡ manifest)

module _ {W : Type 0} (outside : Outside W) (env : Env) where
  abbrev pub digest_of : Text → Text
  digest_of manifest = text "sha256:" ++ outside.sha256 manifest

  -- A manifest after the deletion of a digest.
  abbrev pub without : (digest : Text) → Option Text → Option Text
  without digest none = none
  without digest (some manifest) =
      if eq_text (digest_of manifest) digest then none else some manifest

  abbrev pub has_digest : (digest : Text) → Option Text → Bool
  has_digest digest none = false
  has_digest digest (some manifest) = eq_text (digest_of manifest) digest

  abbrev pub tags_url : Text
  tags_url = text "http://" ++ registry env ++ text "/v2/" ++ repository env ++ text "/tags/list"

  abbrev pub tags_after : W → W
  tags_after w = (outside.get tags_url none w).1

  abbrev pub manifest_answer : Text → W → Option Response × W
  manifest_answer tag w =
      outside.get (manifest_url outside env tag) (some (manifest_type outside env)) w

  abbrev pub deletion_answer : Text → W → Option Response × W
  deletion_answer digest w = outside.delete (manifest_url outside env digest) w

  -- The list of all tags, each of which has a manifest.
  pub record Lists (manifests : W → Text → Option Text) (w : W) : Type 0 where
    pub is_url : outside.is_url tags_url ≡ true
    pub response : Response
    pub tags : List Text
    pub listed : (outside.get tags_url none w).0 ≡ some response
    pub status : response.status ≡ 200
    pub parsed : outside.read_tags response.body ≡ some tags
    pub present : All (λ tag. (m : Text) × (manifests w tag ≡ some m)) tags
    pub complete : (tag m : Text) → manifests w tag ≡ some m → any (λ t. eq_text t tag) tags ≡ true
    pub kept : manifests (tags_after w) ≡ manifests w

  -- A request for the manifest of a tag.
  pub record Shows (manifests : W → Text → Option Text) (tag : Text) (w : W) : Type 0 where
    pub is_url : outside.is_url (manifest_url outside env tag) ≡ true
    pub response : Response
    pub shown : (manifest_answer tag w).0 ≡ some response
    pub answers : Answers response (manifests w tag)
    pub kept : manifests (manifest_answer tag w).1 ≡ manifests w

  -- The deletion of a digest takes all tags that have a manifest with this digest.
  pub record Deletes (manifests : W → Text → Option Text) (digest : Text) (w : W) : Type 0 where
    pub is_url : outside.is_url (manifest_url outside env digest) ≡ true
    pub response : Response
    pub deleted : (deletion_answer digest w).0 ≡ some response
    pub accepted : (response.status ≡ 202) ⊎ (response.status ≡ 404)
    pub gone :
        (tag : Text) → manifests (deletion_answer digest w).1 tag ≡ without digest (manifests w tag)

  -- The registry answers, and has deletion enabled. Of the requests for names that are not valid, and
  -- of the list of tags if there is no image, nothing is assumed.
  pub record IsRegistry (IsName : Text → Type 0) (manifests : W → Text → Option Text) : Type 0 where
    pub names : (w : W) (tag m : Text) → manifests w tag ≡ some m → IsName tag
    pub digests : (m : Text) → IsName (digest_of m)
    pub lists : (w : W) (tag m : Text) → manifests w tag ≡ some m → Lists manifests w
    pub shows : (tag : Text) → IsName tag → (w : W) → Shows manifests tag w
    pub deletes : (digest : Text) → IsName digest → (w : W) → Deletes manifests digest w

module _ {W : Type 0} (outside : Outside W) (env : Env) (IsName : Text → Type 0)
    (manifests : W → Text → Option Text) (works : IsRegistry outside env IsName manifests) where
  pub request_manifest-eq :
      (tag : Text) (n : IsName tag) (s : State W)
      → request_manifest outside env tag s ≡ (
        returns (ok (works.shows tag n s.world).response),
        record s { world = (manifest_answer outside env tag s.world).1 },
      )
  unfolding request_manifest infallible and_then request
  request_manifest-eq tag n s =
      rw ((works.shows tag n s.world).is_url, (works.shows tag n s.world).shown) refl

  -- The image of a tag, if it has a manifest.
  abbrev pub image_of : Text → Option Text → Option Image
  image_of tag none = none
  image_of tag (some m) = some (record { tag = tag; digest = digest_of outside env m })

  got_image :
      (tag : Text) (r : Response) (found : Option Text) (s : State W)
      → Answers r found
      → (if r.status == 404 then (returns (ok none), s) else (
        returns
            (ok (some (record { tag = tag; digest = text "sha256:" ++ outside.sha256 r.body }))),
        s,
      ))
        ≡ (let c : Call (State W) (Option Image) = (returns (ok (image_of tag found)), s) in c)
  got_image tag r none s h = rw h refl
  got_image tag r (some m) s (h, e) = rw (h, e) refl

  pub minikube_get-eq :
      (tag : Text) (n : IsName tag) (s : State W)
      → minikube_get outside env tag s ≡ (
        returns (ok (image_of tag (manifests s.world tag))),
        record s { world = (manifest_answer outside env tag s.world).1 },
      )
  unfolding minikube_get and_then
  minikube_get-eq tag n s = rw (request_manifest-eq tag n s) (
      got_image tag (works.shows tag n s.world).response (manifests s.world tag) _
        (works.shows tag n s.world).answers)
