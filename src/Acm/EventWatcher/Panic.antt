-- ===== src/Acm/EventWatcher/Panic.antt =====
-- When the event watcher panics, and what a pod whose image cannot be pulled leaves behind.
use ghactions_rust_test.Prelude.{
  ◌≡◌, Bool, true, false, List, none, some, Text, Result, ok, err, Run, returns, panics, arith,
  ◌||◌, ◌∙◌, ap,
}
use ghactions_rust_test.Errors.{AcmResult}
use ghactions_rust_test.Backoff.{Backoff}
use ghactions_rust_test.K8s.Objects.{Pod, ContainerStateWaiting}
use ghactions_rust_test.K8s.Pod.{
  running as is_running, terminated as is_terminated, crashed, was_err_image_pull, err_image_pull,
}
use ghactions_rust_test.K8s.Pod.ImagePull.{PullFailed, pull_outcome, err_image_pull_of_PullFailed}
use ghactions_rust_test.K8s.Watcher.{applied}
use ghactions_rust_test.Acm.EventWatcher.{
  Action, Phase, phase1, panicked, Daemon, Input, k8s, broken, on_phase1, observe, on_pull_failure,
  become, step,
}

abbrev pub panicking : {A : Type 0} → Run A → Bool
panicking panics = true
panicking (returns _) = false

-- The event shows a pod whose failed image pull cannot be reported, or the wait for it panics.
abbrev pub is_fatal : Input → Bool
is_fatal (k8s (ok (some (applied p)))) = panicking (err_image_pull p)
is_fatal broken = true
is_fatal _ = false

abbrev pub is_panicked : Phase → Bool
is_panicked panicked = true
is_panicked _ = false

abbrev is_report : Run (AcmResult (Unit {0})) → Bool
is_report (returns (err _)) = true
is_report _ = false

module _ {B : Type 0} (policy : Backoff B) (parse_uri : Text → Result Text (Unit {0}))
    (pod_id : Text) where
  observe_pull :
      (d : Daemon B) (g c : Bool) (p : Pod)
      → is_running p ≡ false
      → (is_terminated p || crashed p) ≡ false
      → was_err_image_pull p ≡ true
      → err_image_pull p ≡ panics
      → observe policy parse_uri pod_id p g c d ≡ become panicked d
  unfolding observe on_pull_failure
  observe_pull d g c p r t w e = rw (r, t, w, e)

  -- In phase 1, a pod that neither runs nor ended nor crashed, and that waits with the reason
  -- ErrImagePull but without a message, makes the daemon panic. The client is told nothing, the
  -- garbage collector gets no signal, and the pod is not deleted.
  pub pull_without_message_panics :
      (b : B) (log : List Action) (gc_open upstream_open client_ok : Bool) (p : Pod)
      (w : ContainerStateWaiting)
      → is_running p ≡ false
      → is_terminated p ≡ false
      → crashed p ≡ false
      → PullFailed p w
      → w.message ≡ none
      → let d =
          step policy parse_uri pod_id
            (record { phase = phase1; backoff = b; log = log })
            (record {
              input = k8s (ok (some (applied p)));
              gc_open = gc_open;
              upstream_open = upstream_open;
              client_ok = client_ok;
            }) in
        (d.phase ≡ panicked) × (d.log ≡ log)
  unfolding step on_phase1 was_err_image_pull become
  pull_without_message_panics b log g u k p w r t c f n =
      let d : Daemon B = record { phase = phase1; backoff = policy.reset b; log = log } in
      let e =
        observe_pull d g k p r (ground arith) (ground (arith, f.found))
          (err_image_pull_of_PullFailed p w f ∙ ap pull_outcome n) in
      (ap (λ (x : Daemon B). x.phase) e, ap (λ (x : Daemon B). x.log) e)
