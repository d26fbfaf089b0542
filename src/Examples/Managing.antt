-- ===== src/Examples/Managing.antt =====
-- Requests to the image manager, in front of Minikube's registry and of ECR.
use ghactions_rust_test.Prelude.{
  ℕ, ◌≡◌, refl, Bool, true, false, List, [], ◌∷◌, ◌++◌, none, some, Text, text, eq_text, ok, err,
  returns, if◌then◌else◌, is_whitespace, trim_end, arith, eq_text_iff,
}
use ghactions_rust_test.Errors.{AcmError}
use ghactions_rust_test.Examples.Fixtures.{uuid, is_alphabetic}
use ghactions_rust_test.Os.{Arg, plain, Process, exited, valid, cmd, exec}
use ghactions_rust_test.Aim.Env.{Env, registry, repository}
use ghactions_rust_test.Aim.Errors.{tag_not_found}
use ghactions_rust_test.Aim.Containerd.{Image, Draw, Implementation, which}
use ghactions_rust_test.Aim.Outside.{EcrImage, Outside, State, done}
use ghactions_rust_test.Aim.Ecr.Uninstall.{delete_args}
use ghactions_rust_test.Aim.Registry.{uninstall, get}
use ghactions_rust_test.Aim.Registry.Contents.{erase, after, Lists, Deletes, get-uninstall}
use ghactions_rust_test.Aim.Endpoints.{start}
use ghactions_rust_test.Aim.Endpoints.Start.{
  Request, installation, removal, listing, query, serve, serve_bare, serve_all, started-serve_all,
}

abbrev outside : Outside ℕ
outside = record {
  run = λ _ _ n. (exited true (valid []) (valid []), n);
  get = λ _ _ n. (some (record { status = 200; body = [] }), n);
  delete = λ _ n. (some (record { status = 202; body = [] }), n);
  is_url = λ _. true;
  sha256 = λ _. text "e3b0";
  status_text = λ _. text "?";
  read_uninstall = λ _. ok (record { image_ids = []; failures = [] });
  read_images = λ _. ok (record { image_ids = [] });
  read_tags = λ _. some (text "a" ∷ []);
}

abbrev no_env : Env
no_env _ = none

abbrev debug : AcmError → Text
debug e = e.kind

abbrev lower : Text → Text
lower _ = text "minikube"

abbrev draw : Draw
draw = record { namespace = text "n"; uuid = uuid; letter = b'k' }

abbrev requests : List Request
requests =
    listing ∷ installation draw (some (text "/tmp/x")) ∷ removal (text "a") ∷ query (text "a") ∷ []

abbrev started : State ℕ
started = record { world = 0; once = done }

started-serve_all_example :
    (i : Implementation) × (which lower no_env ≡ returns i)
    × (serve_all outside no_env lower debug is_alphabetic
          (serve outside no_env lower debug is_alphabetic)
          requests
          (record { world = started; drops = [] })
        ≡ serve_all outside no_env lower debug is_alphabetic
            (serve_bare outside no_env lower debug is_alphabetic i)
            requests
            (record { world = started; drops = [] }))
unfolding start which text eq_text
started-serve_all_example =
    started-serve_all outside no_env lower debug is_alphabetic 0 [] started requests refl

-- An ECR that holds the image of the tag `a`, or nothing.
abbrev image_a : Image
image_a = record { tag = text "a"; digest = text "sha256:e3b0" }

abbrev ecr_image_a : EcrImage
ecr_image_a = record { image_digest = text "sha256:e3b0"; image_tag = text "a" }

abbrev contents : Bool → List Image
contents true = image_a ∷ []
contents false = []

abbrev shown : Bool → Text
shown true = text "yes"
shown false = text "no"

abbrev fake : List Arg → Bool → Process × Bool
fake (_ ∷ _ ∷ _ ∷ _ ∷ _ ∷ plain t ∷ []) w =
    (exited true (valid []) (valid []), if eq_text t (text "imageTag=a") then false else w)
fake _ w = (exited true (valid (shown w)) (valid []), w)

abbrev fake_ecr : Outside Bool
fake_ecr = record {
  run = λ _. fake;
  get = λ _ _ w. (none, w);
  delete = λ _ w. (none, w);
  is_url = λ _. true;
  sha256 = λ _. [];
  status_text = λ _. text "?";
  read_uninstall = λ _. ok (record { image_ids = []; failures = [] });
  read_images =
      λ t. ok (record { image_ids = if eq_text t (text "yes") then ecr_image_a ∷ [] else [] });
  read_tags = λ _. none;
}

fake-Lists : (w : Bool) → Lists fake_ecr no_env contents w
unfolding cmd exec text eq_text trim_end is_whitespace
fake-Lists true = record {
  out = text "yes";
  images = record { image_ids = ecr_image_a ∷ [] };
  printed = refl;
  parsed = refl;
  same = refl;
  kept = refl;
}
fake-Lists false = record {
  out = text "no";
  images = record { image_ids = [] };
  printed = refl;
  parsed = refl;
  same = refl;
  kept = refl;
}

fake_erases :
    (tag : Text) (w : Bool)
    → contents (after fake_ecr no_env (delete_args no_env tag) w) ≡ erase tag (contents w)
unfolding text eq_text
fake_erases tag true = ground (arith, eq_text_iff tag (text "a"), eq_text_iff (text "a") tag)
fake_erases tag false = ground arith

fake-Deletes : (tag : Text) (w : Bool) → Deletes fake_ecr no_env contents tag w
unfolding cmd exec text trim_end
fake-Deletes tag w = record {
  out = [];
  result = record { image_ids = []; failures = [] };
  printed = refl;
  parsed = refl;
  free = tt;
  erased = fake_erases tag w;
}

abbrev to_ecr : Text → Text
to_ecr _ = text "ecr"

get-uninstall_example :
    let s : State Bool = record { world = true; once = done } in
    let u = uninstall fake_ecr no_env to_ecr (text "a") s in
    (u.0 ≡ returns (ok tt))
    × ((get fake_ecr no_env to_ecr (text "a") u.1).0 ≡ (
        if eq_text (text "a") (text "a")
        then returns
            (err (tag_not_found (text "a") (registry no_env ++ text "/" ++ repository no_env)))
        else (get fake_ecr no_env to_ecr (text "a") s).0))
unfolding which text eq_text
get-uninstall_example =
    get-uninstall fake_ecr no_env to_ecr contents refl (text "a") (text "a")
      (record { world = true; once = done }) refl
      (record {
        lists = fake-Lists true;
        deletes = fake-Deletes (text "a") true;
        lists_after = fake-Lists false;
      })
