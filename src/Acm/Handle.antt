-- ===== src/Acm/Handle.antt =====
-- k8s/service/acm/src/podmanager/external_handle.rs: how the result of the event watcher reaches a
-- waiting client. Between the two stands a shim, which keeps the result until the client comes, or
-- for sixty seconds.
pub mod Results
use ghactions_rust_test.Prelude.{
  ℕ, Bool, true, false, List, [], ◌∷◌, Option, none, some, Result, ok, err,
}
use ghactions_rust_test.Errors.{AcmError, AcmResult}
use ghactions_rust_test.K8s.Objects.{Pod}
use ghactions_rust_test.Acm.Errors.{inbound_result_channel_dropped, phantom_error}

pub record PodManagerUpperHandle : Type 0 where
  pub phantom : Option (AcmResult Pod)

abbrev pub new : PodManagerUpperHandle
new = record { phantom = none }

-- A message from a channel, or the error for a channel that was dropped.
abbrev pub or_dropped : Option (AcmResult Pod) → AcmResult Pod
or_dropped none = err inbound_result_channel_dropped
or_dropped (some result) = result

-- The coroutine of the shim: what it takes from the event watcher, whether the client comes to
-- the barrier in time, and what the client then receives.
unfoldable pub shim : Option (AcmResult Pod) → (in_time : Bool) → Option (AcmResult Pod)
shim received true = some (or_dropped received)
shim received false = none

-- What a handle remembers of a result.
abbrev pub remembered : AcmResult Pod → AcmResult Pod
remembered (ok pod) = ok pod
remembered (err _) = err phantom_error

wait_phantom :
    Option (AcmResult Pod)
    → Option (AcmResult Pod)
    → PodManagerUpperHandle
    → AcmResult Pod × PodManagerUpperHandle
wait_phantom (some (ok pod)) received h = (ok pod, h)
wait_phantom (some (err _)) received h = (err phantom_error, h)
wait_phantom none received h =
    let result = or_dropped received in (result, record { phantom = some (remembered result) })

-- `wait`, given what the channel holds if it comes to reading it.
unfoldable pub wait :
    Option (AcmResult Pod) → PodManagerUpperHandle → AcmResult Pod × PodManagerUpperHandle
unfolding wait_phantom
wait received h = wait_phantom h.phantom received h

-- Calls of `wait` one after the other.
unfoldable pub waits : List (Option (AcmResult Pod)) → PodManagerUpperHandle → List (AcmResult Pod)
waits [] h = []
waits (received ∷ rest) h = let (result, h') = wait received h in result ∷ waits rest h'
