-- ===== src/Acm/ServerCheck.antt =====
-- k8s/service/acm/src/podmanager/server_check.rs: the daemon that polls the gRPC server of a pod
-- until it answers. Seconds stand for durations.
pub mod Verdict
pub mod Signal
use ghactions_rust_test.Prelude.{
  ℕ, ◌-◌, Bool, true, false, List, [], ◌∷◌, ◌++◌, Option, none, some, Text, text, Result, ok, err,
  ◌>>=◌, map_err, leb, if◌then◌else◌,
}
use ghactions_rust_test.Errors.{AcmError, AcmResult}
use ghactions_rust_test.Backoff.{Backoff}
use ghactions_rust_test.K8s.Objects.{Pod}
use ghactions_rust_test.K8s.Pod.{address}
use ghactions_rust_test.Acm.Errors.{not_ready, too_many_failures, grpc_endpoint_parsde_error}

abbrev pub maximum_polling_time : ℕ
maximum_polling_time = 30

-- `ServerCheck::new` up to the start of the daemon: the URI that it will poll. The parser of
-- URIs is a parameter, which gives the text of its error.
unfoldable pub new : (Text → Result Text (Unit {0})) → Pod → AcmResult Text
new parse pod = do
  a ← address pod
  let uri = text "http://" ++ a
  _ ← map_err (grpc_endpoint_parsde_error uri) (parse uri)
  ok uri

-- How the first `select!` of a round ends.
pub data Pause : Type 0 where
  waited interrupted : Pause

-- How the second one ends: a connection or its error, the end of patience, or the signal.
pub data Attempt : Type 0 where
  connected : Attempt
  refused : (error : Text) → Attempt
  impatient : Attempt
  interrupted : Attempt

-- One round of the loop, as its environment decides it.
pub record Round : Type 0 where
  pub pause : Pause
  pub attempt : Attempt

-- How the daemon ends, if it has: it sends a result, it was killed by the signal and sends
-- nothing, it panics at an `unwrap`, or it is still polling.
pub data Outcome : Type 0 where
  sent : AcmResult (Unit {0}) → Outcome
  killed : Outcome
  panicked : Outcome
  polling : Outcome

-- `latest_error.unwrap()` and the send that follows.
give_up : Text → Option Text → Outcome
give_up uri none = panicked
give_up uri (some error) = sent (err (too_many_failures uri error))

-- One round, by what the policy says and how the environment ends its two `select!`s; `again` is
-- the rest of the loop after a refusal.
on_round : Text → Option Text → Option ℕ → Pause → Attempt → (again : Text → Outcome) → Outcome
on_round uri latest none _ _ again = give_up uri latest
on_round uri latest (some _) Pause.interrupted _ again = killed
on_round uri latest (some _) waited connected again = sent (ok tt)
on_round uri latest (some _) waited (refused error) again = again error
on_round uri latest (some _) waited impatient again = sent (err not_ready)
on_round uri latest (some _) waited Attempt.interrupted again = killed

module _ {B : Type 0} (policy : Backoff B) (uri : Text) where
  -- The loop of `check` over the rounds that the environment grants, with `latest_error`. The
  -- receiver of the result outlives the daemon, so that its `send(…).unwrap()` succeeds.
  unfoldable pub check : B → Option Text → List Round → Outcome
  unfolding give_up on_round
  check b latest [] = polling
  check b latest (r ∷ rs) =
      let (next, b') = policy.next_backoff b in
      on_round uri latest next r.pause r.attempt (λ error. check b' (some error) rs)

  -- The time left for a connection: thirty seconds less the time spent, and 0 if that is more.
  unfoldable pub patience : B → ℕ
  patience b =
      if leb (policy.elapsed b) maximum_polling_time
      then maximum_polling_time - policy.elapsed b
      else 0
