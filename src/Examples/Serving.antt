-- ===== src/Examples/Serving.antt =====
-- Requests to the two services.
use ghactions_rust_test.Prelude.{
  ℕ, suc, ◌≡◌, refl, true, some, Text, text, ok, err, Run, unwrap, trim_end, is_whitespace, len,
}
use ghactions_rust_test.Calls.{and_then, infallible}
use ghactions_rust_test.Json.{string}
use ghactions_rust_test.Errors.{string_error}
use ghactions_rust_test.Examples.Fixtures.{running_pod, uuid}
use ghactions_rust_test.Names.{truncate, normalize, rfc1123_subdomain}
use ghactions_rust_test.K8s.Objects.{Pod}
use ghactions_rust_test.K8s.Failures.{KubeError}
use ghactions_rust_test.K8s.Pod.{dns, port, replace_dots}
use ghactions_rust_test.K8s.Deploy.{
  Maker, Cluster, new, servicer, trim_start, labels, labelled, deploy, delete,
}
use ghactions_rust_test.K8s.Deploy.Labels.{IsDeployed, deploy-IsDeployed}
use ghactions_rust_test.Web.{respond}
use ghactions_rust_test.Web.RoundTrip.{read, told, read-respond}

-- A server that counts the pods that it has created, and has none to delete.
abbrev cluster : Cluster ℕ
cluster = record {
  try_default = λ n. (ok tt, n);
  get = λ _ _ n. (ok running_pod, n);
  create = λ _ pod n. (ok pod, suc n);
  delete = λ _ _ _ n. (err (KubeError.api (record { code = 404; message = text "gone" })), n);
}

abbrev name_of : Pod → Run Text
name_of p = unwrap p.metadata.name

abbrev maker : Maker
maker = record {
  is_alphanumeric = λ _. true;
  to_kebab = λ s. s;
  uuid = uuid;
  from_value = λ _. ok running_pod;
}

abbrev deployed : Pod
deployed = labelled running_pod (labels (text "pod") (text "10-0-0-7.ocf.pod") 8980 60)

deploy-IsDeployed_example :
    IsDeployed cluster name_of
      (some (text "pod\n"))
      maker
      (text "r/o:t")
      (text "mysql")
      60
      0
      deployed
      1
unfolding deploy new servicer and_then infallible rfc1123_subdomain normalize truncate text len dns
    port replace_dots trim_start trim_end is_whitespace
deploy-IsDeployed_example =
    deploy-IsDeployed cluster name_of (some (text "pod\n")) maker (text "r/o:t") (text "mysql") 60 0
      deployed 1 refl

read-respond_example :
    read (respond (λ (t : Text). text "String") (λ t. string t) (err (string_error (text "bad"))))
    ≡ told (λ (t : Text). text "String") (λ t. string t) (err (string_error (text "bad")))
read-respond_example =
    read-respond (λ (t : Text). text "String") (λ t. string t) (err (string_error (text "bad")))
