-- ===== src/Acm/Adoption.antt =====
-- k8s/service/acm/src/podmanager/adoption.rs: which pods belong to a connection manager that does
-- not run any more. The function sleeps first, and only writes log lines; nothing calls it yet.
pub mod Deployed
use ghactions_rust_test.Prelude.{
  ℕ, Bool, true, false, not, List, [], ◌∷◌, Option, none, some, Text, text, eq_text, any, find,
  Result, ok, err, Run, returns, panics, run_bind, unwrap, if◌then◌else◌,
}
use ghactions_rust_test.K8s.Objects.{Pod}
use ghactions_rust_test.K8s.Failures.{KubeError}
use ghactions_rust_test.K8s.Deploy.{ocf_namespace, ocf_system_namespace, connected}

-- `ListParams`: the selectors of labels and fields.
pub record ListParams : Type 0 where
  pub labels : Option Text
  pub fields : Option Text

-- What the function asks of the API server.
pub record Lister (W : Type 0) : Type 0 where
  pub try_default : W → Result KubeError (Unit {0}) × W
  pub list : (namespace : Text) → ListParams → W → Result KubeError (List Pod) × W

-- `BTreeMap::get`
abbrev pub get_label : Text → List (Text × Text) → Option Text
get_label key [] = none
get_label key ((k, v) ∷ labels) = if eq_text k key then some v else get_label key labels

-- `HashSet::contains`
abbrev pub contains : List Text → Text → Bool
contains names name = any (λ n. eq_text n name) names

-- The names of the managers that run, by their pods.
unfoldable pub names_of : (Pod → Run Text) → List Pod → Run (List Text)
names_of name_of [] = returns []
names_of name_of (p ∷ pods) =
    run_bind (name_of p)
      (λ name. run_bind (names_of name_of pods) (λ names. returns (name ∷ names)))

-- The name of the manager that has deployed a pod, by its label.
unfoldable pub servicer_of : Pod → Run Text
servicer_of p =
    run_bind (unwrap p.metadata.labels) (λ labels. unwrap (get_label (text "servicer") labels))

-- The loop: the names of the pods to take over, with a panic at the first pod without the label.
unfoldable pub orphans_of : (Pod → Run Text) → (acms : List Text) → List Pod → Run (List Text)
unfolding servicer_of
orphans_of name_of acms [] = returns []
orphans_of name_of acms (p ∷ pods) =
    let later = orphans_of name_of acms pods in
    run_bind (servicer_of p) (λ servicer.
      if contains acms servicer
      then later
      else run_bind (name_of p) (λ name. run_bind later (λ names. returns (name ∷ names))))

module _ {W : Type 0} (lister : Lister W) (name_of : Pod → Run Text) where
  -- `client.list(…).await.unwrap()`, with a new client.
  unfoldable pub listed : (namespace : Text) → ListParams → W → Run (List Pod) × W
  listed namespace params w =
      let (r, w) = lister.try_default w in
      let (answer, w') = lister.list namespace params w in
      elim r [
        | ok _ ↦ (elim answer [ ok pods ↦ returns pods | err _ ↦ panics ], w')
        | err _ ↦ (panics, w)
      ]

  unfoldable pub find_orphans : W → Run (List Text) × W
  unfolding listed names_of orphans_of
  find_orphans w =
      let (pods, w) = listed ocf_namespace (record { labels = none; fields = none }) w in
      let (acms, w') =
        listed ocf_system_namespace
          (record { labels = some (text "app=acm"); fields = some (text "status.phase=Running") })
          w in
      elim pods [
        | returns pods ↦ (
          run_bind acms
              (λ acms. run_bind (names_of name_of acms) (λ names. orphans_of name_of names pods)),
          w',
        )
        | panics ↦ (panics, w)
      ]
