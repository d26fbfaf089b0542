-- ===== src/K8s/Pod/ImagePull.antt =====
-- When reporting a failed image pull is safe.
use ghactions_rust_test.Prelude.{
  ◌≡◌, true, false, Option, none, some, Text, text, ok, err, Run, returns, panics, arith,
  find-eq-some, Bool-cases, Option-cases, ◌⊎◌, inl, inr,
}
use ghactions_rust_test.Errors.{AcmResult}
use ghactions_rust_test.K8s.Objects.{Pod, ContainerStatus, ContainerState, ContainerStateWaiting}
use ghactions_rust_test.K8s.Pod.{
  state_of, is_waiting_for, find_waiting, container_statuses, was_err_image_pull, waiting_message,
  err_image_pull,
}
use ghactions_rust_test.K8s.Pod.Errors.{err_image_pull_cause, err_image_pull_failure}

-- The first container that waits because its image could not be pulled, with its waiting state.
pub record PullFailed (p : Pod) (w : ContainerStateWaiting) : Type 0 where
  pub status : ContainerStatus
  pub state : ContainerState
  pub found : find_waiting (text "ErrImagePull") p ≡ some status
  pub has_state : status.state ≡ some state
  pub has_waiting : state.waiting ≡ some w

waiting_of_found :
    (wanted : Text) (s : ContainerStatus)
    → is_waiting_for wanted (state_of s).waiting ≡ true
    → (state : ContainerState) × (w : ContainerStateWaiting) × (s.state ≡ some state)
      × (state.waiting ≡ some w)
waiting_of_found wanted s h = elim (Option-cases s.state) [
  | inl e ↦ absurd (ground arith)
  | inr (state, e) ↦ elim (Option-cases state.waiting) [
    | inl n ↦ absurd (ground arith)
    | inr (w, q) ↦ (state, w, e, q)
  ]
]

find_waiting-is_waiting :
    (wanted : Text) (p : Pod) (s : ContainerStatus)
    → find_waiting wanted p ≡ some s
    → is_waiting_for wanted (state_of s).waiting ≡ true
unfolding find_waiting
find_waiting-is_waiting wanted p s h = find-eq-some _ (container_statuses p) {x = s} h

PullFailed-of_was :
    (p : Pod) → was_err_image_pull p ≡ true → (w : ContainerStateWaiting) × PullFailed p w
unfolding was_err_image_pull
PullFailed-of_was p h = elim (Option-cases (find_waiting (text "ErrImagePull") p)) [
  | inl e ↦ absurd (ground arith)
  | inr (s, e) ↦
      let (state, w, hs, hw) =
        waiting_of_found (text "ErrImagePull") s
          (find_waiting-is_waiting (text "ErrImagePull") p s e) in
      (w, record { status = s; state = state; found = e; has_state = hs; has_waiting = hw })
]

-- What `err_image_pull` comes to on a failed pull, by whether the waiting state has a message.
abbrev pub pull_outcome : Option Text → Run (AcmResult (Unit {0}))
pull_outcome none = panics
pull_outcome (some message) =
    returns (err (err_image_pull_failure (err_image_pull_cause message).message))

pub err_image_pull_of_PullFailed :
    (p : Pod) (w : ContainerStateWaiting)
    → PullFailed p w
    → err_image_pull p ≡ pull_outcome w.message
unfolding err_image_pull waiting_message
err_image_pull_of_PullFailed p w h = ground arith

-- `err_image_pull` returns Ok exactly when `was_err_image_pull` is false. When it is true, some
-- container waits for the reason ErrImagePull, and the call returns an error with the message of
-- that waiting state; but it panics when the waiting state has no message.
pub err_image_pull_cases :
    (p : Pod)
    → ((was_err_image_pull p ≡ false) × (err_image_pull p ≡ returns (ok tt)))
      ⊎ ((was_err_image_pull p ≡ true)
          × ((w : ContainerStateWaiting) × PullFailed p w
              × (err_image_pull p ≡ pull_outcome w.message)))
unfolding was_err_image_pull err_image_pull
err_image_pull_cases p = elim (Bool-cases (was_err_image_pull p)) [
  | inl was ↦
      let (w, failed) = PullFailed-of_was p was in
      inr (was, (w, failed, err_image_pull_of_PullFailed p w failed))
  | inr not_was ↦ inl (not_was, ground arith)
]
