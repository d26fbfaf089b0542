-- ===== src/K8s/Watcher.antt =====
-- k8s/library/k8s/src/watcher.rs: the state machine that lists objects, watches them and recovers.
-- The API server and the open stream are a world of some type `W`; each call answers and changes it.
pub mod Recovery
pub mod Termination
use ghactions_rust_test.Prelude.{
  ℕ, zero, suc, Bool, List, [], ◌∷◌, Option, none, some, Text, Result, ok, err, Run, returns,
  panics, run_bind, unwrap, ◌==◌, if◌then◌else◌,
}
use ghactions_rust_test.K8s.Failures.{KubeError, ErrorResponse}

pub data Fault : Type 0 where
  initial_list_failed watch_start_failed watch_failed : KubeError → Fault
  watch_error : ErrorResponse → Fault

pub data Event (K : Type 0) : Type 0 where
  added applied deleted : K → Event K
  restarted : List K → Event K

pub data State : Type 0 where
  empty : State
  init_listed watching : (resource_version : Text) → State

-- `kube::api::WatchEvent`
pub data WatchEvent (K : Type 0) : Type 0 where
  added modified deleted : K → WatchEvent K
  bookmark : (resource_version : Text) → WatchEvent K
  error : ErrorResponse → WatchEvent K

module _ {K : Type 0} where
  unfoldable pub into_iter_added : Event K → List K
  into_iter_added (Event.added k) = k ∷ []
  into_iter_added (Event.applied _) = []
  into_iter_added (Event.deleted _) = []
  into_iter_added (Event.restarted _) = []

  unfoldable pub into_iter_applied : Event K → List K
  into_iter_applied (Event.added k) = k ∷ []
  into_iter_applied (Event.applied k) = k ∷ []
  into_iter_applied (Event.deleted _) = []
  into_iter_applied (Event.restarted l) = l

  unfoldable pub into_iter_touched : Event K → List K
  into_iter_touched (Event.added k) = k ∷ []
  into_iter_touched (Event.applied k) = k ∷ []
  into_iter_touched (Event.deleted k) = k ∷ []
  into_iter_touched (Event.restarted l) = l

  unfoldable pub into_iter_deleted : Event K → List K
  into_iter_deleted (Event.added _) = []
  into_iter_deleted (Event.applied _) = []
  into_iter_deleted (Event.deleted k) = k ∷ []
  into_iter_deleted (Event.restarted _) = []

-- What the watcher asks of `kube::Api`, and of an object: the items of a list come with the
-- version of the list, `next` is `None` when the stream has ended.
pub record Api (K W : Type 0) : Type 0 where
  pub list : W → Result KubeError (List K × Option Text) × W
  pub watch : Text → W → Result KubeError (Unit {0}) × W
  pub next : W → Option (Result KubeError (WatchEvent K)) × W
  pub resource_version : K → Option Text

module _ {K W : Type 0} (api : Api K W) where
  -- What one round gives: an event or an error, or nothing yet; and the state that follows.
  abbrev pub Round : Type 0
  Round = Run (Option (Result Fault (Event K)) × State × W)

  on_list : Result KubeError (List K × Option Text) → W → Round
  on_list (ok (items, version)) w =
      run_bind (unwrap version) (λ v. returns (some (ok (Event.restarted items)), init_listed v, w))
  on_list (err e) w = returns (some (err (initial_list_failed e)), empty, w)

  on_watch : Text → Result KubeError (Unit {0}) → W → Round
  on_watch version (ok _) w = returns (none, watching version, w)
  on_watch version (err e) w = returns (some (err (watch_start_failed e)), init_listed version, w)

  on_object : Event K → K → W → Round
  on_object event k w =
      run_bind (unwrap (api.resource_version k)) (λ v. returns (some (ok event), watching v, w))

  on_next : Text → Option (Result KubeError (WatchEvent K)) → W → Round
  on_next version (some (ok (WatchEvent.added k))) w = on_object (Event.added k) k w
  on_next version (some (ok (WatchEvent.modified k))) w = on_object (Event.applied k) k w
  on_next version (some (ok (WatchEvent.deleted k))) w = on_object (Event.deleted k) k w
  on_next version (some (ok (WatchEvent.bookmark v))) w = returns (none, watching v, w)
  on_next version (some (ok (WatchEvent.error e))) w =
      returns (some (err (watch_error e)), (if e.code == 410 then empty else watching version), w)
  on_next version (some (err e)) w = returns (some (err (watch_failed e)), watching version, w)
  on_next version none w = returns (none, init_listed version, w)

  unfoldable pub step_trampolined : State → W → Round
  unfolding on_list on_watch on_object on_next
  step_trampolined empty w = let (answer, w') = api.list w in on_list answer w'
  step_trampolined (init_listed version) w =
      let (answer, w') = api.watch version w in on_watch version answer w'
  step_trampolined (watching version) w = let (answer, w') = api.next w in on_next version answer w'

  -- What a poll gives: a result with the state that follows; `none` means that the fuel ran out.
  abbrev pub Poll : Type 0
  Poll = Option (Run (Result Fault (Event K) × State × W))

  -- The match of `step` on a round: again, or the result.
  resume : (State → W → Poll) → Round → Poll
  resume again panics = some panics
  resume again (returns (none, s, w)) = again s w
  resume again (returns (some result, s, w)) = some (returns (result, s, w))

  -- The loop of `step`, on fuel.
  unfoldable pub step : ℕ → State → W → Poll
  unfolding resume
  step zero s w = none
  step (suc fuel) s w = resume (step fuel) (step_trampolined s w)

  -- One item of the stream, and the rest.
  unfold_item : (State → W → List (Result Fault (Event K))) → Poll → List (Result Fault (Event K))
  unfold_item rest none = []
  unfold_item rest (some panics) = []
  unfold_item rest (some (returns (result, s, w))) = result ∷ rest s w

  -- `watcher`: the first results of the stream that `unfold` makes, each with fuel for its rounds.
  -- It ends where the fuel of a result runs out or its poll panics.
  unfoldable pub watcher : (fuel results : ℕ) → State → W → List (Result Fault (Event K))
  unfolding unfold_item
  watcher fuel zero s w = []
  watcher fuel (suc n) s w = unfold_item (watcher fuel n) (step fuel s w)
