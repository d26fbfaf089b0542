-- ===== src/Acm/Adoption/Deployed.antt =====
-- What the search for orphans finds among the pods that `deploy` has labelled.
use ghactions_rust_test.Prelude.{
  ℕ, ◌≡◌, refl, List, [], ◌∷◌, map, Text, text, eq_text, Run, returns, if◌then◌else◌, Bool-cases,
  All, inl, inr,
}
use ghactions_rust_test.K8s.Objects.{Pod}
use ghactions_rust_test.K8s.Deploy.{labels, labelled}
use ghactions_rust_test.Acm.Adoption.{contains, servicer_of, orphans_of}

-- A deployment: the manifest, the name that Kubernetes knows the pod by, and what the labels say.
pub record Deployment : Type 0 where
  pub manifest : Pod
  pub name : Text
  pub servicer : Text
  pub host : Text
  pub port : ℕ
  pub ttl : ℕ

abbrev pub pod_of : Deployment → Pod
pod_of d = labelled d.manifest (labels d.servicer d.host d.port d.ttl)

-- The names of the pods whose manager is not among those that run, in their order.
abbrev pub abandoned : (acms : List Text) → List Deployment → List Text
abandoned acms [] = []
abandoned acms (d ∷ deployments) =
    if contains acms d.servicer
    then abandoned acms deployments
    else d.name ∷ abandoned acms deployments

-- Among pods with the labels that `deploy` writes, and with names, the search does not panic,
-- and finds those pods whose manager does not run.
pub orphans_of-map :
    (name_of : Pod → Run Text) (acms : List Text) (deployments : List Deployment)
    → All (λ d. name_of (pod_of d) ≡ returns d.name) deployments
    → orphans_of name_of acms (map pod_of deployments) ≡ returns (abandoned acms deployments)
unfolding orphans_of servicer_of eq_text text
orphans_of-map name_of acms [] named = refl
orphans_of-map name_of acms (d ∷ deployments) (h, named) =
    elim (Bool-cases (contains acms d.servicer)) [
      | inl runs ↦ rw runs (orphans_of-map name_of acms deployments named)
      | inr gone ↦ rw (gone, h, orphans_of-map name_of acms deployments named) refl
    ]
