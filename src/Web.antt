-- ===== src/Web.antt =====
-- k8s/library/response/src/lib.rs, the responder of k8s/library/error/src/lib.rs, and
-- k8s/library/kind/src/lib.rs: how a result is answered over HTTP. The body is JSON, whose
-- printing by serde_json is left out.
pub mod RoundTrip
use ghactions_rust_test.Prelude.{
  ℕ, List, [], ◌∷◌, ◌++◌, Option, none, some, Text, text, Result, ok, err,
}
use ghactions_rust_test.Errors.{AcmError, AcmResult, status_ok}
use ghactions_rust_test.Json.{Json, null, string, object, Fields, no_fields, field}

-- `Kind` of a vector, by the kinds of its elements.
unfoldable pub kind_of_list : List Text → Text
kind_of_list [] = text "List[]"
kind_of_list (kind ∷ _) = text "List[" ++ kind ++ text "]"

pub record Answer : Type 0 where
  pub status : ℕ
  pub body : Json

-- `self.source().map(…)` as JSON.
abbrev pub cause_json : Option Text → Json
cause_json none = null
cause_json (some cause) = string cause

-- `Serialize` of an error.
unfoldable pub serialize : AcmError → Json
serialize e = object (
    field (text "kind") (string e.kind) (
      field (text "message") (string e.message)
        (field (text "cause") (cause_json e.source) no_fields)))

-- `respond_to` of a response, whose payload has a kind and a JSON form.
unfoldable pub respond_ok : (kind : Text) → Json → Answer
respond_ok kind payload = record {
  status = status_ok;
  body = object (
      field (text "payload")
        (object (field (text "kind") (string kind) (field (text "object") payload no_fields)))
        (field (text "error") null no_fields));
}

-- `respond_to` of an error.
unfoldable pub respond_err : AcmError → Answer
unfolding serialize
respond_err e = record {
  status = e.http_code;
  body = object (field (text "payload") null (field (text "error") (serialize e) no_fields));
}

-- A handler's result as an answer.
unfoldable pub respond : {A : Type 0} → (A → Text) → (A → Json) → AcmResult A → Answer
unfolding respond_ok respond_err
respond kind to_json (ok a) = respond_ok (kind a) (to_json a)
respond kind to_json (err e) = respond_err e
