-- ===== src/K8s/Pod.antt =====
-- `PodExt` of k8s/library/k8s/src/pod.rs: the questions that the services ask about a pod.
pub mod Errors
pub mod Address
pub mod ImagePull
use ghactions_rust_test.Prelude.{
  ℕ, Bool, true, false, List, [], ◌∷◌, ◌++◌, map, Option, none, some, Text, text, eq_text, decimal,
  any, find, head?, get_last?, Result, ok, err, ok_or, ◌>>=◌, Run, returns, panics, run_bind,
  unwrap, ◌==◌, if◌then◌else◌,
}
use ghactions_rust_test.Errors.{AcmResult}
use ghactions_rust_test.K8s.Objects.{
  Pod, ContainerPort, ContainerStatus, ContainerState, ContainerStateWaiting,
  ContainerStateTerminated,
}
use Errors.{
  pod_has_no_status, pod_has_no_ip, pod_has_no_namespace, pod_has_no_spec, pod_has_no_containers,
  container_has_no_ports, err_image_pull_cause, err_image_pull_failure,
}

-- `str::replace('.', "-")`
unfoldable pub replace_dots : Text → Text
replace_dots [] = []
replace_dots (c ∷ s) = (if c == b'.' then b'-' else c) ∷ replace_dots s

abbrev pub dns_op : Text
dns_op = text "retrieving its cluster DNS entry"

abbrev pub port_op : Text
port_op = text "retrieving its listening port number"

unfoldable pub dns : Pod → AcmResult Text
dns p = do
  status ← ok_or p.status (pod_has_no_status dns_op)
  ip ← ok_or status.pod_ip (pod_has_no_ip dns_op)
  domain ← ok_or p.metadata.namespace (pod_has_no_namespace dns_op)
  ok (replace_dots ip ++ text "." ++ domain ++ text ".pod")

unfoldable pub port : Pod → AcmResult ℕ
port p = do
  spec ← ok_or p.spec (pod_has_no_spec port_op)
  container ← ok_or (head? spec.containers) (pod_has_no_containers port_op)
  ports ← ok_or container.ports (container_has_no_ports port_op)
  first ← ok_or (head? ports) (container_has_no_ports port_op)
  ok first.container_port

unfoldable pub address : Pod → AcmResult Text
address p = do host ← dns p; number ← port p; ok (host ++ text ":" ++ decimal number)

-- `ContainerState::default()`
abbrev pub default_state : ContainerState
default_state = record { running = none; waiting = none; terminated = none }

-- The statuses through the defaults of a missing status and of missing container statuses.
unfoldable pub container_statuses : Pod → List ContainerStatus
container_statuses p = elim p.status [
  | none ↦ []
  | some status ↦ elim status.container_statuses [ none ↦ [] | some l ↦ l ]
]

abbrev pub state_of : ContainerStatus → ContainerState
state_of s = elim s.state [ none ↦ default_state | some state ↦ state ]

abbrev pub is_some {ℓ} : {A : Type ℓ} → Option A → Bool
is_some none = false
is_some (some _) = true

unfoldable pub running : Pod → Bool
running p = any (λ s. is_some (state_of s).running) (container_statuses p)

unfoldable pub terminated : Pod → Bool
terminated p = any (λ s. is_some (state_of s).terminated) (container_statuses p)

-- `matches!(&state.waiting, Some(ContainerStateWaiting { reason: Some(reason), .. }) if …)`
abbrev pub reason_is : Text → Option Text → Bool
reason_is wanted none = false
reason_is wanted (some reason) = eq_text reason wanted

abbrev pub is_waiting_for : Text → Option ContainerStateWaiting → Bool
is_waiting_for wanted none = false
is_waiting_for wanted (some w) = reason_is wanted w.reason

unfoldable pub find_waiting : Text → Pod → Option ContainerStatus
find_waiting wanted p =
    find (λ s. is_waiting_for wanted (state_of s).waiting) (container_statuses p)

unfoldable pub was_err_image_pull : Pod → Bool
was_err_image_pull p = is_some (find_waiting (text "ErrImagePull") p)

unfoldable pub crashed : Pod → Bool
crashed p = is_some (find_waiting (text "CrashLoopBackOff") p)

-- The chain of three `unwrap`s on the status that was found.
unfoldable pub waiting_message : ContainerStatus → Run Text
waiting_message s =
    run_bind (unwrap s.state)
      (λ state. run_bind (unwrap state.waiting) (λ waiting. unwrap waiting.message))

unfoldable pub err_image_pull : Pod → Run (AcmResult (Unit {0}))
err_image_pull p = elim (find_waiting (text "ErrImagePull") p) [
  | none ↦ returns (ok tt)
  | some problem ↦
      run_bind (waiting_message problem)
        (λ message. returns (err (err_image_pull_failure (err_image_pull_cause message).message)))
]

abbrev pub terminated_field :
    (ContainerStateTerminated → Option Text) → ContainerStatus → Option Text
terminated_field field s = elim (state_of s).terminated [ none ↦ none | some t ↦ field t ]

-- `status.pop().unwrap_or(None)`
abbrev pub pop_or_none : Option (Option Text) → Option Text
pop_or_none none = none
pop_or_none (some o) = o

unfoldable pub terminated_reason : Pod → Option Text
terminated_reason p =
    pop_or_none (get_last? (map (terminated_field (λ t. t.reason)) (container_statuses p)))

unfoldable pub terminated_message : Pod → Option Text
terminated_message p =
    pop_or_none (get_last? (map (terminated_field (λ t. t.message)) (container_statuses p)))
