-- ===== src/Aim/Registry/Manifests/Removal.antt =====
-- What is left in Minikube's registry after a tag was uninstalled.
use ghactions_rust_test.Prelude.{◌≡◌, true, List, any, Option, some, Text, eq_text, ok, returns}
use ghactions_rust_test.Aim.Env.{Env}
use ghactions_rust_test.Aim.Containerd.{Image}
use ghactions_rust_test.Aim.Outside.{Outside, State, find_tag}
use ghactions_rust_test.Aim.Minikube.{list_manifests, minikube_uninstall}
use ghactions_rust_test.Aim.Registry.Manifests.{digest_of, without, IsRegistry}

module _ {W : Type 0} (outside : Outside W) (env : Env) (IsName : Text → Type 0)
    (manifests : W → Text → Option Text) (works : IsRegistry outside env IsName manifests) where
  -- What the loop over tags comes to, if each of them has a manifest.
  record Collected (M : Text → Option Text) (tags : List Text) (s : State W) : Type 0 where
    pub images : List Image
    pub last : State W
    pub same : list_manifests outside env tags s ≡ (returns (ok images), last)
    pub kept : manifests last.world ≡ M
    pub once : last.once ≡ s.once
    pub found :
        (tag m : Text)
        → any (λ t. eq_text t tag) tags ≡ true
        → M tag ≡ some m
        → find_tag tag images ≡ some (record { tag = tag; digest = digest_of outside env m })

  -- An uninstallation that has deleted the manifest of a tag.
  record Uninstalled (tag m : Text) (s : State W) : Type 0 where
    pub last : State W
    pub same : minikube_uninstall outside env tag s ≡ (returns (ok tt), last)
    pub once : last.once ≡ s.once
    pub gone :
        (t : Text)
        → manifests last.world t
          ≡ without outside env (digest_of outside env m) (manifests s.world t)
