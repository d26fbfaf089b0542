-- ===== src/Web/RoundTrip.antt =====
-- What a client reads from an answer.
use ghactions_rust_test.Prelude.{
  ℕ, ◌≡◌, refl, ap, Option, none, some, Text, text, eq_text, Result, ok, err, if◌then◌else◌,
}
use ghactions_rust_test.Errors.{AcmResult}
use ghactions_rust_test.Json.{Json, string, object, Fields, no_fields, field}
use ghactions_rust_test.Web.{Answer, cause_json, serialize, respond_ok, respond_err, respond}

-- The value of the first field of this name.
unfoldable pub lookup_field : Text → Fields → Option Json
lookup_field key no_fields = none
lookup_field key (field name value rest) =
    let later = lookup_field key rest in if eq_text name key then some value else later

abbrev pub as_fields : Option Json → Fields
as_fields (some (object fields)) = fields
as_fields _ = no_fields

abbrev pub as_text : Option Json → Option Text
as_text (some (string t)) = some t
as_text _ = none

abbrev pub as_object : Json → Fields
as_object (object fields) = fields
as_object _ = no_fields

-- A payload with its kind; or the code, kind, message and cause of an error.
abbrev pub Reading : Type 0
Reading = Result (ℕ × Option Text × Option Text × Option Text) (Option Text × Option Json)

read_error : ℕ → Fields → Reading
read_error status fields = err (
  status,
  as_text (lookup_field (text "kind") fields),
  as_text (lookup_field (text "message") fields),
  as_text (lookup_field (text "cause") fields),
)

-- A client takes an answer for an error exactly when the field of the error is an object.
read_as : ℕ → Option Json → Fields → Reading
read_as status (some (object fields)) payload = read_error status fields
read_as status error payload =
    ok (as_text (lookup_field (text "kind") payload), lookup_field (text "object") payload)

unfoldable pub read : Answer → Reading
unfolding read_error read_as
read a =
    let fields = as_object a.body in
    read_as a.status (lookup_field (text "error") fields)
      (as_fields (lookup_field (text "payload") fields))

-- What the client should read of a result.
abbrev pub told : {A : Type 0} → (A → Text) → (A → Json) → AcmResult A → Reading
told kind to_json (ok a) = ok (some (kind a), some (to_json a))
told kind to_json (err e) = err (e.http_code, some e.kind, some e.message, e.source)

as_text-cause_json : (cause : Option Text) → as_text (some (cause_json cause)) ≡ cause
as_text-cause_json none = refl
as_text-cause_json (some t) = refl

-- Whatever a handler returns, a client that reads the answer gets back the payload with its kind,
-- or else the code, the kind, the message and the cause of the error, and can tell the two apart.
pub read-respond :
    {A : Type 0} (kind : A → Text) (to_json : A → Json) (r : AcmResult A)
    → read (respond kind to_json r) ≡ told kind to_json r
unfolding read respond respond_ok respond_err serialize lookup_field read_as read_error text eq_text
read-respond kind to_json (ok a) = refl
read-respond kind to_json (err e) =
    ap (λ cause. err (e.http_code, some e.kind, some e.message, cause))
      (as_text-cause_json e.source)
