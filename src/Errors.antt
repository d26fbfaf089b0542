-- ===== src/Errors.antt =====
-- k8s/library/error/src/lib.rs and k8s/library/result/src/lib.rs: the error that every fallible
-- operation returns, `Box<dyn AcmError>`. It is the record of what its trait lets a caller ask:
-- the kind, the HTTP code, the text of its `Display`, and the text of its source, if it has one.
use ghactions_rust_test.Prelude.{ℕ, Text, text, Option, none, Result}

pub record AcmError : Type 0 where
  pub kind : Text
  pub http_code : ℕ
  pub message : Text
  pub source : Option Text

-- `result::Result`
abbrev pub AcmResult : Type 0 → Type 0
AcmResult A = Result AcmError A

-- The codes of `rocket::http::Status` that the program names.
abbrev pub status_ok : ℕ
status_ok = 200

abbrev pub bad_request : ℕ
bad_request = 400

abbrev pub not_found : ℕ
not_found = 404

abbrev pub internal_server_error : ℕ
internal_server_error = 500

abbrev pub service_unavailable : ℕ
service_unavailable = 503

-- A raw string as an error.
unfoldable pub string_error : Text → AcmError
string_error inner = record {
  kind = text "StringError";
  http_code = internal_server_error;
  message = inner;
  source = none;
}
