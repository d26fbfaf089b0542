-- ===== src/Aim/Errors.antt =====
-- the errors of k8s/service/aim/src/registry, with their codes and messages.
-- A source enters as the text of its `Display`.
use ghactions_rust_test.Prelude.{Text, text, ◌++◌, none, some}
use ghactions_rust_test.Errors.{
  AcmError, bad_request, not_found, internal_server_error, service_unavailable,
}

unfoldable pub unexpected_containerd_image_ls_format : Text → AcmError
unexpected_containerd_image_ls_format output = record {
  kind = text "UnexpectedContainerdImageLsFormat";
  http_code = internal_server_error;
  message =
      text
        "We received unexpected output from containerd at the \"import\" phase of our workflow. We expected a header of \"REF TYPE DIGEST SIZE PLATFORMS LABELS\" followed by a single row, but instead we got the following raw output: \""
      ++ output
      ++ text "\"";
  source = none;
}

unfoldable pub unexpected_containerd_image_row : Text → AcmError
unexpected_containerd_image_row output = record {
  kind = text "UnexpectedContainerdImageRow";
  http_code = internal_server_error;
  message =
      text
        "We received unexpected output from containerd at the \"import\" phase of our workflow. We expected a header of \"REF TYPE DIGEST SIZE PLATFORMS LABELS\" followed by a single row, but instead we got the following raw output: \""
      ++ output
      ++ text "\"";
  source = none;
}

unfoldable pub unexpected_image_reference_format : Text → AcmError
unexpected_image_reference_format output = record {
  kind = text "UnexpectedImageReferenceFormat";
  http_code = internal_server_error;
  message =
      text
        "We received unexpected output from containerd at the \"import\" phase of our workflow. We expected a header of \"REF TYPE DIGEST SIZE PLATFORMS LABELS\" followed by a single row whose \"REF\" section is of the format \"<registry>/<repository>:<tag>\"\nbit instead we got the following raw output: \""
      ++ output
      ++ text "\"";
  source = none;
}

unfoldable pub temp_path_is_not_uft8 : Text → AcmError
temp_path_is_not_uft8 path = record {
  kind = text "TempPathIsNotUFT8";
  http_code = internal_server_error;
  message =
      text "The temporary filepath for the connector's image was not valid UTF8 (was (lossy) "
      ++ path
      ++ text "). This is concerning, although the install may work if you just try again.";
  source = none;
}

unfoldable pub ecr_uninstall_serde_error : Text → AcmError
ecr_uninstall_serde_error error = record {
  kind = text "EcrUninstallSerdeError";
  http_code = internal_server_error;
  message =
      text
        "A failure occurred while deserializing the JSON representation for the response returned by AWS ECR's deletion endpoint. We expected a data structure similar to that documented in https://awscli.amazonaws.com/v2/documentation/api/latest/reference/ecr/batch-delete-image.html";
  source = some error;
}

unfoldable pub ecr_image_serde_error : Text → AcmError
ecr_image_serde_error error = record {
  kind = text "EcrImageSerdeError";
  http_code = internal_server_error;
  message =
      text
        "A failure occurred while deserializing the JSON representation for the response returned by AWS ECR's list-images endpoint. We expected a data structure similar to that documented in https://awscli.amazonaws.com/v2/documentation/api/latest/reference/ecr/list-images.html";
  source = some error;
}

unfoldable pub ecr_uninstall_failure : Text → Text → Text → AcmError
ecr_uninstall_failure image_id failure_code failure_reason = record {
  kind = text "EcrUninstallFailure";
  http_code = bad_request;
  message =
      text "ECR reported the failure code '"
      ++ failure_code
      ++ text "' when attempting to uninstall '"
      ++ image_id
      ++ text "'. The given reason was '"
      ++ failure_reason
      ++ text "'.";
  source = none;
}

unfoldable pub ecr_uninstall_error : Text → AcmError
ecr_uninstall_error cause = record {
  kind = text "EcrUninstallError";
  http_code = bad_request;
  message =
      text
        "A failure occurred while attempting to complete the deletion in the Elastic Container Registry. If this is a networking failure, then perhaps reattempting at a later time may succeed.";
  source = some cause;
}

unfoldable pub uninstall_command_error : Text → AcmError
uninstall_command_error error = record {
  kind = text "UninstallCommandError";
  http_code = internal_server_error;
  message =
      text
        "A raw error was returned from the AWS Elastic Container Registry API. This is usually indicative of an extreme failure case, such as a missing repository or expired/incorrect credentials. Do note, however, that ECR does make some interesting policy decisions with regard to what this error string is actually reporting. For example, a non-existent repository may actually be reported as an authorization error.";
  source = some error;
}

unfoldable pub get_password_error : Text → AcmError
get_password_error error = record {
  kind = text "GetPasswordError";
  http_code = internal_server_error;
  message =
      text
        "An error occurred while retrieving a password to use for the AWS Elastic Container Registry used by this Alation cluster. If this was a networking error, then perhaps the issue will resolve itself over time and it may be reattempted in the future. Otherwise, please contact Alation's site reliability engineering with the contents of this error.";
  source = some error;
}

unfoldable pub image_delete_error : Text → AcmError
image_delete_error status = record {
  kind = text "ImageDeleteError";
  http_code = service_unavailable;
  message = text "Received status code " ++ status ++ text " from the registry";
  source = none;
}

unfoldable pub tag_not_found : Text → Text → AcmError
tag_not_found tag registry = record {
  kind = text "TagNotFound";
  http_code = not_found;
  message = text "The OCF image tag '" ++ tag ++ text "' does not exist in " ++ registry;
  source = none;
}
