-- ===== src/Acm/Handle/Results.antt =====
-- What a client gets from `wait`.
use ghactions_rust_test.Prelude.{
  ◌≡◌, refl, ap, Bool, true, false, List, [], ◌∷◌, map, Option, none, some, Text, Result, ok, err,
  All, arith,
}
use ghactions_rust_test.Errors.{AcmResult}
use ghactions_rust_test.Backoff.{Backoff}
use ghactions_rust_test.K8s.Objects.{Pod}
use ghactions_rust_test.K8s.Pod.{running as is_running}
use ghactions_rust_test.Acm.Errors.{phantom_error}
use ghactions_rust_test.Acm.Handle.{
  PodManagerUpperHandle, new, or_dropped, shim, remembered, wait, waits,
}
use ghactions_rust_test.Acm.EventWatcher.{Action, send_result, Tick, watch, init}
use ghactions_rust_test.Acm.EventWatcher.Safety.{ReportsRunning, ok_result_is_earned}

remembered_twice : (r : AcmResult Pod) → remembered (remembered r) ≡ remembered r
remembered_twice (ok p) = refl
remembered_twice (err e) = refl

waits_remembered :
    (r : AcmResult Pod) (received : List (Option (AcmResult Pod)))
    → waits received (record { phantom = some (remembered r) }) ≡ map (λ _. remembered r) received
unfolding waits wait
waits_remembered r [] = refl
waits_remembered (ok p) (x ∷ xs) = ap (λ l. ok p ∷ l) (waits_remembered (ok p) xs)
waits_remembered (err e) (x ∷ xs) = ap (λ l. err phantom_error ∷ l) (waits_remembered (err e) xs)

-- The first `wait` on a new handle gives what the channel holds. Every later one gives the same
-- pod if that was a success, and a PhantomError if it was an error, whatever the channel holds.
pub waits-new :
    (first : Option (AcmResult Pod)) (later : List (Option (AcmResult Pod)))
    → waits (first ∷ later) new ≡ or_dropped first ∷ map (λ _. remembered (or_dropped first)) later
unfolding waits wait
waits-new first later = ap (λ l. or_dropped first ∷ l) (waits_remembered (or_dropped first) later)

-- The result that the event watcher sent first, which is the one that the shim takes; the log has
-- the newest action first.
abbrev pub first_of : Action → Option (AcmResult Pod) → Option (AcmResult Pod)
first_of _ (some r) = some r
first_of (send_result r) none = some r
first_of _ none = none

unfoldable pub first_result : List Action → Option (AcmResult Pod)
first_result [] = none
first_result (a ∷ log) = first_of a (first_result log)

first_of-running :
    (a : Action) (o : Option (AcmResult Pod)) (p : Pod)
    → ReportsRunning a
    → (o ≡ some (ok p) → is_running p ≡ true)
    → first_of a o ≡ some (ok p)
    → is_running p ≡ true
first_of-running (send_result (ok q)) none p h k e = ground arith
first_of-running (send_result (err q)) none p h k e = cc
first_of-running (send_result r) (some x) p h k e = k e
first_of-running a o p h k e = ground arith

first_result-running :
    (log : List Action) (p : Pod)
    → All ReportsRunning log
    → first_result log ≡ some (ok p)
    → is_running p ≡ true
unfolding first_result
first_result-running [] p h e = cc
first_result-running (a ∷ log) p h e =
    first_of-running a (first_result log) p h.0 (first_result-running log p h.1) e

received_of_ok :
    (o : Option (AcmResult Pod)) (in_time : Bool) (p : Pod)
    → (wait (shim o in_time) new).0 ≡ ok p
    → (in_time ≡ true) × (o ≡ some (ok p))
unfolding wait shim
received_of_ok o false p h = cc
received_of_ok none true p h = cc
received_of_ok (some r) true p h = (refl, cc)

module _ {B : Type 0} (policy : Backoff B) (parse_uri : Text → Result Text (Unit {0}))
    (pod_id : Text) where
  -- If `wait` on a new handle succeeds, through the shim, with what an event watcher sent first
  -- after any inputs, then the client came in time and the pod that it gets was running.
  pub wait-ok-running :
      (b : B) (ts : List Tick) (in_time : Bool) (p : Pod)
      → (wait (shim (first_result (watch policy parse_uri pod_id (init b) ts).log) in_time) new).0
        ≡ ok p
      → (in_time ≡ true) × (is_running p ≡ true)
  wait-ok-running b ts in_time p h =
      let (came, sent) = received_of_ok _ in_time p h in
      (came, first_result-running _ p (ok_result_is_earned policy parse_uri pod_id b ts).0 sent)

-- A handle whose `wait` gave a pod remembers it, and gives it again whatever the channel holds.
pub wait_phantom_lem :
    (received : Option (AcmResult Pod)) (phantom : Option (AcmResult Pod)) (p : Pod)
    → let h : PodManagerUpperHandle = record { phantom = phantom } in
      (wait received h).0 ≡ ok p → (wait received h).1.phantom ≡ some (ok p)
unfolding wait
wait_phantom_lem received (some (ok q)) p e = cc
wait_phantom_lem received (some (err x)) p e = cc
wait_phantom_lem none none p e = cc
wait_phantom_lem (some (ok q)) none p e = cc
wait_phantom_lem (some (err x)) none p e = cc

pub wait-remembered :
    (received : Option (AcmResult Pod)) (h : PodManagerUpperHandle) (p : Pod)
    → h.phantom ≡ some (ok p)
    → (wait received h).0 ≡ ok p
unfolding wait
wait-remembered received h p e = rw e
