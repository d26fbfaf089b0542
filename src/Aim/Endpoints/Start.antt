-- ===== src/Aim/Endpoints/Start.antt =====
-- What the service does after a successful start.
use ghactions_rust_test.Prelude.{
  ℕ, ◌≡◌, refl, ap, Bool, List, [], ◌∷◌, map, Option, Text, text, Run, returns, ◌++◌, ok_or,
}
use ghactions_rust_test.Errors.{AcmError, AcmResult}
use ghactions_rust_test.Json.{null, array}
use ghactions_rust_test.Calls.{Call, and_then, infallible, Keeps, and_then-Keeps, Keeps-returned}
use ghactions_rust_test.Web.{Answer, kind_of_list}
use ghactions_rust_test.Derive.{unit_type, builtin_kind}
use ghactions_rust_test.Aim.Env.{Env, registry, repository}
use ghactions_rust_test.Aim.Errors.{tag_not_found}
use ghactions_rust_test.Aim.Containerd
use ghactions_rust_test.Aim.Containerd.{Image, Draw, Implementation, ecr, minikube, which}
use ghactions_rust_test.Aim.Containerd.World.{import-Keeps}
use ghactions_rust_test.Aim.Outside.{Outside, State, fresh, done}
use ghactions_rust_test.Aim.Ecr.{ecr_get}
use ghactions_rust_test.Aim.Minikube.{minikube_get}
use ghactions_rust_test.Aim.Registry.Settled.{
  uninstall_from, list_from, find_from, configure_done, uninstall_done, list_done, find_done,
  Settles, settled_of_configure,
}
use ghactions_rust_test.Aim.Registry.{configure}
use ghactions_rust_test.Aim.Registry
use ghactions_rust_test.Aim.Endpoints.{
  image_json, image_items, image_kind, answered, ImportState, run_in, import, install, uninstall,
  list, get, start,
}
use ghactions_rust_test.Aim.Endpoints.Once.{
  Stays, ecr_uninstall-Stays, ecr_list-Stays, ecr_get-Stays, minikube_uninstall-Stays,
  minikube_list-Stays, minikube_get-Stays,
}

-- A request, with the random draw and the path of the upload for an installation.
pub data Request : Type 0 where
  installation : Draw → (path : Option Text) → Request
  removal : (tag : Text) → Request
  listing : Request
  query : (tag : Text) → Request

module _ {W : Type 0} (outside : Outside W) (env : Env) (to_lowercase : Text → Text)
    (debug : AcmError → Text) (is_alphabetic : ℕ → Bool) where
  -- A call on the registry's state alone.
  abbrev pub inside : {A : Type 0} → A × State W → ImportState W → A × ImportState W
  inside (a, w) s = (a, record s { world = w })

  -- The service: which handler serves a request.
  unfoldable pub serve : Request → ImportState W → Run Answer × ImportState W
  unfolding install uninstall list get
  serve (installation draw path) s =
      install outside env to_lowercase debug is_alphabetic draw path s
  serve (removal tag) s = inside (uninstall outside env to_lowercase tag s.world) s
  serve listing s = inside (list outside env to_lowercase s.world) s
  serve (query tag) s = inside (get outside env to_lowercase tag s.world) s

  -- The same service without any configuration, for the registry that was chosen at its start.
  unfoldable pub serve_bare : Implementation → Request → ImportState W → Run Answer × ImportState W
  serve_bare i (installation draw path) s = answered image_kind image_json (
      Containerd.import (run_in outside env to_lowercase) env to_lowercase debug is_alphabetic draw
        path s)
  serve_bare i (removal tag) s =
      inside
        (answered (λ (_ : Unit {0}). builtin_kind unit_type) (λ _. null)
          (uninstall_from outside env to_lowercase i tag s.world))
        s
  serve_bare i listing s =
      inside
        (answered (λ images. kind_of_list (map image_kind images))
          (λ images. array (image_items images)) (list_from outside env to_lowercase i s.world))
        s
  serve_bare i (query tag) s =
      inside
        (answered image_kind image_json (
          and_then (find_from outside env to_lowercase i tag s.world) (λ found s. (
            returns (ok_or found (tag_not_found tag (registry env ++ text "/" ++ repository env))),
            s,
          ))))
        s

  import_done :
      (draw : Draw) (path : Option Text) (s : ImportState W)
      → s.world.once ≡ done
      → import outside env to_lowercase debug is_alphabetic draw path s
        ≡ Containerd.import
            (run_in outside env to_lowercase)
            env
            to_lowercase
            debug
            is_alphabetic
            draw
            path
            s
  unfolding import infallible and_then
  import_done draw path s d = rw (configure_done outside env to_lowercase s.world d) refl

  serve-serve_bare :
      (i : Implementation) (request : Request) (s : ImportState W)
      → which to_lowercase env ≡ returns i
      → s.world.once ≡ done
      → serve request s ≡ serve_bare i request s
  unfolding serve serve_bare Registry.get
  serve-serve_bare i (installation draw path) s w d =
      ap (answered image_kind image_json) (import_done draw path s d)
  serve-serve_bare i (removal tag) s w d =
      rw (uninstall_done outside env to_lowercase i tag s.world w d) refl
  serve-serve_bare i listing s w d = rw (list_done outside env to_lowercase i s.world w d) refl
  serve-serve_bare i (query tag) s w d =
      rw (find_done outside env to_lowercase i tag s.world w d) refl

  found-Keeps :
      (tag : Text) (c : Call (State W) (Option Image))
      → Keeps (Stays done) c
      → Keeps (Stays done) (
          and_then c (λ found s. (
            let r : AcmResult Image =
                  ok_or found (tag_not_found tag (registry env ++ text "/" ++ repository env)) in
                returns r,
            s,
          )))
  found-Keeps tag c h =
      and_then-Keeps (Stays done) c _ h (λ found s h. Keeps-returned (Stays done) _ s h)

  -- Both services keep the configuration done.
  bare-Keeps :
      (i : Implementation) (request : Request) (s : ImportState W)
      → s.world.once ≡ done
      → (serve_bare i request s).1.world.once ≡ done
  unfolding serve_bare answered Keeps
  bare-Keeps i (installation draw path) s d =
      import-Keeps (run_in outside env to_lowercase) env to_lowercase debug is_alphabetic
        (Stays done) (λ p a w h. h) draw path s d
  bare-Keeps ecr (removal tag) s d = ecr_uninstall-Stays outside env done tag s.world d
  bare-Keeps minikube (removal tag) s d = minikube_uninstall-Stays outside env done tag s.world d
  bare-Keeps ecr listing s d = ecr_list-Stays outside env done s.world d
  bare-Keeps minikube listing s d = minikube_list-Stays outside env done s.world d
  bare-Keeps ecr (query tag) s d =
      found-Keeps tag (ecr_get outside env tag s.world)
        (ecr_get-Stays outside env done tag s.world d)
  bare-Keeps minikube (query tag) s d =
      found-Keeps tag (minikube_get outside env tag s.world)
        (minikube_get-Stays outside env done tag s.world d)

  -- The answers to requests, one after the other, and the state after them.
  unfoldable pub serve_all :
      (Request → ImportState W → Run Answer × ImportState W)
      → List Request
      → ImportState W
      → List (Run Answer) × ImportState W
  serve_all one [] s = ([], s)
  serve_all one (request ∷ requests) s =
      let (answer, s) = one request s in
      let (answers, s) = serve_all one requests s in (answer ∷ answers, s)

  serve_all-bare :
      (i : Implementation) (requests : List Request) (s : ImportState W)
      → which to_lowercase env ≡ returns i
      → s.world.once ≡ done
      → serve_all serve requests s ≡ serve_all (serve_bare i) requests s
  unfolding serve_all
  serve_all-bare i [] s w d = refl
  serve_all-bare i (request ∷ requests) s w d =
      rw
        (
          serve-serve_bare i request s w d,
          serve_all-bare i requests (serve_bare i request s).1 w (bare-Keeps i request s d),
        )
        refl

  -- If the service has started, the registry that the environment names is known, and the answers
  -- to any requests, and the commands and HTTP requests made for them, are those of a service for
  -- that registry that never configures anything: no request panics for the configuration, or runs
  -- it again.
  pub started-serve_all :
      (w : W) (drops : List Containerd.Dropped) (t : State W) (requests : List Request)
      → start outside env to_lowercase (record { world = w; once = fresh }) ≡ (returns tt, t)
      → (i : Implementation) × (which to_lowercase env ≡ returns i)
        × (serve_all serve requests (record { world = t; drops = drops })
            ≡ serve_all (serve_bare i) requests (record { world = t; drops = drops }))
  unfolding start
  started-serve_all w drops t requests h =
      let c : Settles outside env to_lowercase t =
        settled_of_configure outside env to_lowercase w t h in
      (
        c.chosen,
        c.named,
        serve_all-bare c.chosen requests (record { world = t; drops = drops }) c.named c.is_done,
      )
