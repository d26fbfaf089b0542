-- ===== src/K8s/Deploy.antt =====
-- `pod::new` of k8s/library/k8s/src/pod.rs, and k8s/library/k8s/src/lib.rs with the clients of
-- k8s/library/k8s/src/client.rs: the deployment and the deletion of pods. The API server is a world
-- `W` that each call changes.
pub mod Labels
pub mod Deletion
use ghactions_rust_test.Prelude.{
  ℕ, Bool, List, [], ◌∷◌, Option, none, some, Text, text, decimal, trim_end, is_whitespace, Result,
  ok, err, map_err, Run, returns, panics, run_bind, unwrap, ◌==◌, if◌then◌else◌, map_ok, ◌⊎◌, inl,
  inr,
}
use ghactions_rust_test.Errors.{AcmResult}
use ghactions_rust_test.Calls.{Call, and_then, infallible}
use ghactions_rust_test.Json.{
  Json, string, number, array, object, Items, no_items, item, Fields, no_fields, field,
}
use ghactions_rust_test.Names.{rfc1123_subdomain}
use ghactions_rust_test.K8s.Objects.{Pod, ObjectMeta}
use ghactions_rust_test.K8s.Failures.{KubeError, from_kube, api_error}
use ghactions_rust_test.K8s.Pod.{dns, port}
use ghactions_rust_test.K8s.Pod.Errors.{pod_serialization_error}

abbrev pub ocf_namespace : Text
ocf_namespace = text "ocf"

abbrev pub ocf_system_namespace : Text
ocf_system_namespace = text "ocf-system"

-- The `json!` of `pod::new`.
unfoldable pub pod_json : (name reference : Text) → Json
pod_json name reference =
    let env = object (
      field (text "name") (string (text "PORT"))
        (field (text "value") (string (text "8080")) no_fields)) in
    let listener = object (
      field (text "containerPort") (number 8080)
        (field (text "protocol") (string (text "TCP")) no_fields)) in
    let container = object (
      field (text "name") (string name) (
        field (text "image") (string reference) (
          field (text "env") (array (item env no_items)) (
            field (text "restartPolicy") (string (text "Never")) (
              field (text "imagePullPolicy") (string (text "IfNotPresent"))
                (field (text "ports") (array (item listener no_items)) no_fields)))))) in
    let metadata = object (
      field (text "name") (string name)
        (field (text "namespace") (string ocf_namespace) no_fields)) in
    object (
      field (text "apiVersion") (string (text "v1")) (
        field (text "kind") (string (text "Pod")) (
          field (text "metadata") metadata (
            field (text "spec")
              (object (field (text "containers") (array (item container no_items)) no_fields))
              no_fields))))

-- What the name of a pod is made with, and the reader of serde_json, with the text of its error.
pub record Maker : Type 0 where
  pub is_alphanumeric : ℕ → Bool
  pub to_kebab : Text → Text
  pub uuid : Text
  pub from_value : Json → Result Text Pod

-- `pod::new`
unfoldable pub new : Maker → (reference name : Text) → Run (AcmResult Pod)
new maker reference name =
    run_bind (rfc1123_subdomain maker.is_alphanumeric maker.to_kebab maker.uuid name) (λ name.
      returns (
        map_err (pod_serialization_error name reference)
          (maker.from_value (pod_json name reference))))

-- What the program asks of the API server: a client, and in a namespace a pod, a new pod and the
-- deletion of a pod, which gives the pod or a status.
pub record Cluster (W : Type 0) : Type 0 where
  pub try_default : W → Result KubeError (Unit {0}) × W
  pub get : (namespace name : Text) → W → Result KubeError Pod × W
  pub create : (namespace : Text) → Pod → W → Result KubeError Pod × W
  pub delete :
      (namespace name : Text) → (grace_period : ℕ) → W → Result KubeError (Pod ⊎ Unit {0}) × W

-- `str::trim`
unfoldable pub trim_start : Text → Text
trim_start [] = []
trim_start (c ∷ s) = let rest = trim_start s in if is_whitespace c then rest else c ∷ s

-- `unwrap` of what `try_default` gives.
abbrev pub connected : Result KubeError (Unit {0}) → Run (Unit {0})
connected (ok _) = returns tt
connected (err _) = panics

-- `map_err(ApiError::from)?`
abbrev pub answer : {W A : Type 0} → Result KubeError A × W → Call W A
answer (r, w) = (returns (map_err (λ e. api_error (from_kube e)) r), w)

-- The labels that say who has deployed the pod.
abbrev pub labels : (name host : Text) → (port ttl : ℕ) → List (Text × Text)
labels name host port ttl =
    (text "servicer", name)
    ∷ (text "servicer_dns", host)
    ∷ (text "servicer_port", decimal port)
    ∷ (text "ttl", decimal ttl)
    ∷ []

abbrev pub labelled : Pod → List (Text × Text) → Pod
labelled pod l = record pod { metadata = record pod.metadata { labels = some l } }

module _ {W : Type 0} (cluster : Cluster W) (name_of : Pod → Run Text) (hostname : Option Text)
    (maker : Maker) where
  -- `new_with_namespace`
  pub client : W → Call W (Unit {0})
  unfolding infallible
  client w = let (r, w) = cluster.try_default w in infallible (connected r) w

  unfoldable pub servicer : W → Call W Pod
  unfolding and_then infallible client
  servicer w = and_then (client w) (λ _ w.
      and_then (infallible (unwrap hostname) w)
        (λ host w. answer (cluster.get ocf_system_namespace (trim_end (trim_start host)) w)))

  unfoldable pub deploy : (reference name : Text) → (ttl : ℕ) → W → Call W Pod
  unfolding and_then infallible servicer client
  deploy reference name ttl w =
      and_then (new maker reference name, w)
        (λ pod w. and_then (servicer w) (λ myself w.
          and_then (infallible (name_of myself) w) (λ my_name w.
            and_then (returns (dns myself), w)
              (λ host w.
                and_then (returns (port myself), w)
                  (λ number w. and_then (client w) (λ _ w. answer (
                    cluster.create ocf_namespace (labelled pod (labels my_name host number ttl))
                      w)))))))

  -- The closure of `or_else`: an object that is not there counts as deleted.
  gone_is_deleted : Result KubeError (Pod ⊎ Unit {0}) → Result KubeError (Pod ⊎ Unit {0})
  gone_is_deleted (err (KubeError.api e)) =
      if e.code == 404 then ok (inr tt) else err (KubeError.api e)
  gone_is_deleted r = r

  unfoldable pub delete : (id : Text) → W → Call W (Pod ⊎ Unit {0})
  unfolding and_then client gone_is_deleted
  delete id w =
      and_then (client w)
        (λ _ w. let (r, w) = cluster.delete ocf_namespace id 60 w in answer (gone_is_deleted r, w))
