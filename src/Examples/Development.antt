-- ===== src/Examples/Development.antt =====
-- The image manager in front of a registry of Minikube that holds one image, or none.
use ghactions_rust_test.Prelude.{
  Bool, true, false, [], ◌∷◌, Option, none, some, Text, text, eq_text, ok, if◌then◌else◌,
}
use ghactions_rust_test.Os.{exited, valid}
use ghactions_rust_test.Aim.Env.{Env}
use ghactions_rust_test.Aim.Outside.{Outside, Response}
use ghactions_rust_test.Aim.Registry.{get}

abbrev no_env : Env
no_env _ = none

abbrev lower : Text → Text
lower _ = text "minikube"

abbrev response : Bool → Response
response true = record { status = 200; body = text "m" }
response false = record { status = 404; body = [] }

abbrev answer_to : (accept : Option Text) → Text → Bool → Response
answer_to none url w = response w
answer_to (some _) url w =
    response
      (if eq_text url (text "http://registry.kube-system/v2/ocf/manifests/a") then w else false)

abbrev outside : Outside Bool
outside = record {
  run = λ _ _ w. (exited true (valid []) (valid []), w);
  get = λ url accept w. (some (answer_to accept url w), w);
  delete = λ url w. (
    some (record { status = 202; body = [] }),
    if eq_text url (text "http://registry.kube-system/v2/ocf/manifests/sha256:e3b0")
        then false
        else w,
  );
  is_url = λ _. true;
  sha256 = λ _. text "e3b0";
  status_text = λ _. text "?";
  read_uninstall = λ _. ok (record { image_ids = []; failures = [] });
  read_images = λ _. ok (record { image_ids = [] });
  read_tags = λ _. some (text "a" ∷ []);
}

abbrev manifests : Bool → Text → Option Text
manifests true tag = if eq_text tag (text "a") then some (text "m") else none
manifests false tag = none
