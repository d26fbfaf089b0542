-- ===== src/K8s/Failures.antt =====
-- k8s/library/k8s/src/errors.rs: what can go wrong at the Kubernetes API server. Of `kube::Error`
-- the program tells three cases apart; the last stands for all its other variants.
use ghactions_rust_test.Prelude.{ℕ, Text, text, some}
use ghactions_rust_test.Errors.{AcmError, internal_server_error}

pub record ErrorResponse : Type 0 where
  pub code : ℕ
  pub message : Text

pub data KubeError : Type 0 where
  api : ErrorResponse → KubeError
  connection : Text → KubeError
  rest : Text → KubeError

-- The `Display` of an error.
pub display : KubeError → Text
display (api e) = e.message
display (connection m) = m
display (rest m) = m

pub data ApiError : Type 0 where
  api connection rest : KubeError → ApiError

-- `impl From<kube::Error> for ApiError`
unfoldable pub from_kube : KubeError → ApiError
from_kube (KubeError.api e) = ApiError.api (KubeError.api e)
from_kube (KubeError.connection m) = ApiError.connection (KubeError.connection m)
from_kube (KubeError.rest m) = ApiError.rest (KubeError.rest m)

abbrev rejected : Text
rejected = text "The Kubernetes API server rejected our request"

abbrev failure : Text → Text → KubeError → AcmError
failure kind message e = record {
  kind = kind;
  http_code = internal_server_error;
  message = message;
  source = some (display e);
}

-- An `ApiError` as the error that is answered.
unfoldable pub api_error : ApiError → AcmError
unfolding display
api_error (ApiError.api e) = failure (text "ApiError::Api") rejected e
api_error (ApiError.connection e) =
    failure (text "ApiError::Connection") (text "Failed to connect to the Kubernetes API server") e
api_error (ApiError.rest e) = failure (text "ApiError::Rest") rejected e
