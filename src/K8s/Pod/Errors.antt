-- ===== src/K8s/Pod/Errors.antt =====
-- the errors of k8s/library/k8s/src/pod.rs, with their codes and messages.
-- A source enters as the text of its `Display`.
use ghactions_rust_test.Prelude.{Text, text, ◌++◌, none, some}
use ghactions_rust_test.Errors.{AcmError, not_found, internal_server_error}

unfoldable pub pod_serialization_error : Text → Text → Text → AcmError
pod_serialization_error name reference cause = record {
  kind = text "PodSerializationError";
  http_code = internal_server_error;
  message =
      text "Failed to serialize a Kubernetes pod resource with the name '"
      ++ name
      ++ text "' and image reference '"
      ++ reference
      ++ text
          "'. This is very peculiar, and it may work if you simply run it again, although this error should be reported to Alation so that we can make sure it never happens again.";
  source = some cause;
}

unfoldable pub err_image_pull_failure : Text → AcmError
err_image_pull_failure message = record {
  kind = text "ErrImagePull";
  http_code = not_found;
  message =
      text
        "The image for the connector failed to get pulled from the configured image registry. Perhaps the image doesn't exist or the connection to the registry couldn't be established?";
  source = some message;
}

unfoldable pub err_image_pull_cause : Text → AcmError
err_image_pull_cause message = record {
  kind = text "ErrImagePullCause";
  http_code = not_found;
  message = message;
  source = none;
}

unfoldable pub pod_has_no_status : Text → AcmError
pod_has_no_status op = record {
  kind = text "PodHasNoStatus";
  http_code = internal_server_error;
  message =
      text "An attempt was made to retrieve the status field of a pod object while "
      ++ op
      ++ text
          ", however the object had no status field. This was likely a premature call to a pod object that had not yet been provisioned in Kubernetes.";
  source = none;
}

unfoldable pub pod_has_no_ip : Text → AcmError
pod_has_no_ip op = record {
  kind = text "PodHasNoIp";
  http_code = internal_server_error;
  message =
      text "An attempt was made to retrieve the pod IP field of a pod object while "
      ++ op
      ++ text
          ", however the object had no IP. This was likely a premature call to a pod object that had not yet been provisioned in Kubernetes.";
  source = none;
}

unfoldable pub pod_has_no_namespace : Text → AcmError
pod_has_no_namespace op = record {
  kind = text "PodHasNoNamespace";
  http_code = internal_server_error;
  message =
      text "An attempt was made to retrieve the namespace of a pod object while "
      ++ op
      ++ text
          ", however the object had no namespace associated with it. This was likely a premature call to a pod object that had not yet been provisioned in Kubernetes.";
  source = none;
}

unfoldable pub pod_has_no_spec : Text → AcmError
pod_has_no_spec op = record {
  kind = text "PodHasNoSpec";
  http_code = internal_server_error;
  message =
      text "An attempt was made to retrieve the spec of a pod object while "
      ++ op
      ++ text
          ", however the object had no spec associated with it. This was likely a premature call to a pod object that had not yet been provisioned in Kubernetes.";
  source = none;
}

unfoldable pub pod_has_no_containers : Text → AcmError
pod_has_no_containers op = record {
  kind = text "PodHasNoContainers";
  http_code = internal_server_error;
  message =
      text
        "An attempt was made to retrieve at least one container associated with a pod object while "
      ++ op
      ++ text
          ", however the object had no containers associated with it. This was likely a premature call to a pod object that had not yet been provisioned in Kubernetes.";
  source = none;
}

unfoldable pub container_has_no_ports : Text → AcmError
container_has_no_ports op = record {
  kind = text "ContainerHasNoPorts";
  http_code = internal_server_error;
  message =
      text
        "An attempt was made to retrieve at least one listening port associated with a container object while "
      ++ op
      ++ text
          ", however the object had no listening ports associated with it. This was likely a premature call to a pod object that had not yet been provisioned in Kubernetes.";
  source = none;
}
