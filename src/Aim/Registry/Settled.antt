-- ===== src/Aim/Registry/Settled.antt =====
-- The registry after a configuration that succeeded.
use ghactions_rust_test.Prelude.{◌≡◌, refl, List, Option, Text, Run, returns, panics}
use ghactions_rust_test.Calls.{Call, and_then, infallible}
use ghactions_rust_test.Aim.Env.{Env}
use ghactions_rust_test.Aim.Containerd.{Image, Implementation, ecr, minikube, which}
use ghactions_rust_test.Aim.Outside.{Outside, State, fresh, done}
use ghactions_rust_test.Aim.Ecr.{ecr_uninstall, ecr_list, ecr_get}
use ghactions_rust_test.Aim.Minikube.{minikube_uninstall, minikube_list, minikube_get}
use ghactions_rust_test.Aim.Registry.{
  configure, configure_in, configure_once, settle, run_then, configured, uninstall, list, get_from,
}

module _ {W : Type 0} (outside : Outside W) (env : Env) (to_lowercase : Text → Text) where
  -- The operations of each registry.
  abbrev pub uninstall_from : Implementation → Text → State W → Call (State W) (Unit {0})
  uninstall_from ecr tag s = ecr_uninstall outside env tag s
  uninstall_from minikube tag s = minikube_uninstall outside env tag s

  abbrev pub list_from : Implementation → State W → Call (State W) (List Image)
  list_from ecr s = ecr_list outside env s
  list_from minikube s = minikube_list outside env s

  abbrev pub find_from : Implementation → Text → State W → Call (State W) (Option Image)
  find_from ecr tag s = ecr_get outside env tag s
  find_from minikube tag s = minikube_get outside env tag s

  pub configure_done :
      (s : State W) → s.once ≡ done → configure outside env to_lowercase s ≡ (returns tt, s)
  unfolding configure configure_in
  configure_done s d = rw d refl

  configured_done :
      {A : Type 0} (i : Implementation) (s : State W)
      (f : Implementation → State W → Call (State W) A)
      → which to_lowercase env ≡ returns i
      → s.once ≡ done
      → configured outside env to_lowercase s f ≡ f i s
  unfolding configured infallible and_then
  configured_done i s f w d = rw (configure_done s d, w) refl

  pub uninstall_done :
      (i : Implementation) (tag : Text) (s : State W)
      → which to_lowercase env ≡ returns i
      → s.once ≡ done
      → uninstall outside env to_lowercase tag s ≡ uninstall_from i tag s
  unfolding uninstall
  uninstall_done ecr tag s w d = configured_done ecr s _ w d
  uninstall_done minikube tag s w d = configured_done minikube s _ w d

  pub list_done :
      (i : Implementation) (s : State W)
      → which to_lowercase env ≡ returns i
      → s.once ≡ done
      → list outside env to_lowercase s ≡ list_from i s
  unfolding list
  list_done ecr s w d = configured_done ecr s _ w d
  list_done minikube s w d = configured_done minikube s _ w d

  pub find_done :
      (i : Implementation) (tag : Text) (s : State W)
      → which to_lowercase env ≡ returns i
      → s.once ≡ done
      → configured outside env to_lowercase s (λ i s. get_from outside env to_lowercase i tag s)
        ≡ find_from i tag s
  unfolding get_from
  find_done ecr tag s w d = configured_done ecr s _ w d
  find_done minikube tag s w d = configured_done minikube s _ w d

  -- The configuration is done, for this registry.
  pub record Settles (t : State W) : Type 0 where
    pub chosen : Implementation
    pub named : which to_lowercase env ≡ returns chosen
    pub is_done : t.once ≡ done

  settled_lem :
      (c : Run (Unit {0}) × State W) (t : State W)
      → settle outside env to_lowercase c ≡ (returns tt, t)
      → (c.0 ≡ returns tt) × (t.once ≡ done)
  unfolding settle
  settled_lem (returns _, s) t h = (refl, cc)
  settled_lem (panics, s) t h = cc

  chosen_of :
      (r : Run Implementation) (s : State W)
      (f : Implementation → State W → Run (Unit {0}) × State W)
      → (run_then outside env to_lowercase (r, s) f).0 ≡ returns tt
      → (i : Implementation) × (r ≡ returns i)
  unfolding run_then
  chosen_of (returns i) s f h = (i, refl)
  chosen_of panics s f h = cc

  pub settled_of_configure :
      (w : W) (t : State W)
      → configure outside env to_lowercase (record { world = w; once = fresh }) ≡ (returns tt, t)
      → Settles t
  unfolding configure configure_in configure_once
  settled_of_configure w t h =
      let (r, o) =
        settled_lem (configure_once outside env to_lowercase (record { world = w; once = fresh })) t
          h in
      let (i, e) = chosen_of (which to_lowercase env) _ _ r in
      record { chosen = i; named = e; is_done = o }
