-- ===== src/Acm/GarbageCollector.antt =====
-- k8s/service/acm/src/podmanager/garbage_collector.rs: tickets, and the daemon that deletes a pod
-- when its ticket has run out. Unix times and monotonic instants are numbers of seconds.
pub mod Lease
pub mod Lifecycle
use ghactions_rust_test.Prelude.{
  ℕ, ◌-◌, ◌^◌, ◌*◌, ◌+◌, Bool, true, false, List, [], ◌∷◌, Option, none, some, Text, text, Result,
  ok, err, Run, returns, panics, run_bind, ltb, leb, decimal, if◌then◌else◌,
}
use ghactions_rust_test.Errors.{AcmResult}
use ghactions_rust_test.Acm.Errors.{refresh_channel_closed}
use ghactions_rust_test.Acm.EventWatcher.{GcStatus}

abbrev pub default_ttl : ℕ
default_ttl = 60 * 30

-- `negsuc n` is -(n + 1).
pub data ℤ : Type 0 where
  pos : ℕ → ℤ
  negsuc : ℕ → ℤ

-- `ttl as i64`
abbrev pub as_i64 : ℕ → ℤ
as_i64 n = if ltb n (2 ^ 63) then pos n else negsuc (2 ^ 64 - 1 - n)

-- The additions of `chrono` and of `tokio::time::Instant`, which panic out of their range.
pub record Clocks : Type 0 where
  pub utc_add : ℕ → ℤ → Run ℤ
  pub instant_add : ℕ → ℕ → Run ℕ

-- The two times of a ticket that it only prints are Unix times here. The clock stands after 1970,
-- but a time to live that wraps can lead before it.
pub record KeepAliveTicket : Type 0 where
  pub ticket : Text
  pub execution_date : ℤ
  pub now : ℕ
  pub then_ : ℤ
  pub execution_instant : ℕ

-- What the environment gives to a step: the input, the two clocks, and whether `client::new()` and
-- a call of the Kubernetes API in this step succeed.
pub data Input : Type 0 where
  status : Option GcStatus → Input
  refresh : Option (Unit {0}) → Input
  timeout : Input

pub record Tick : Type 0 where
  pub input : Input
  pub now : ℕ
  pub instant : ℕ
  pub client_ok : Bool
  pub api_ok : Bool

pub data Action : Type 0 where
  patch_labels : List (Text × Text) → Action
  reply : KeepAliveTicket → Action
  delete_pod : Action

pub data Phase : Type 0 where
  waiting : Phase
  counting : KeepAliveTicket → Phase
  stopped : Phase
  panicked : Phase

pub record Daemon : Type 0 where
  pub phase : Phase
  pub log : List Action

-- `i64::to_string`
abbrev pub decimal_i64 : ℤ → Text
decimal_i64 (pos n) = decimal n
decimal_i64 (negsuc n) = b'-' ∷ decimal (n + 1)

-- `KeepAliveTicket::pod_patch`
unfoldable pub pod_patch : KeepAliveTicket → List (Text × Text)
pod_patch k = (text "execution_date", decimal_i64 k.execution_date) ∷ []

-- `GarbageCollector::refresh`: whether the request was sent, and what came back.
unfoldable pub refresh_ticket : Bool → Option KeepAliveTicket → AcmResult KeepAliveTicket
refresh_ticket true (some k) = ok k
refresh_ticket true none = err refresh_channel_closed
refresh_ticket false _ = err refresh_channel_closed

module _ (clocks : Clocks) where
  -- `KeepAliveTicket::new`
  unfoldable pub new : Text → ℕ → (now instant : ℕ) → Run KeepAliveTicket
  new pod ttl now instant = run_bind (clocks.utc_add now (as_i64 ttl)) (λ later.
      run_bind (clocks.instant_add instant ttl) (λ execution_instant. returns (record {
        ticket = pod;
        execution_date = later;
        now = now;
        then_ = later;
        execution_instant = execution_instant;
      })))

  module _ (pod : Text) (ttl : ℕ) where
    -- `client.patch(…).await.unwrap()` with the new ticket.
    patch : KeepAliveTicket → (api_ok : Bool) → List Action → Daemon
    patch k true log = record { phase = counting k; log = patch_labels (pod_patch k) ∷ log }
    patch k false log = record { phase = panicked; log = patch_labels (pod_patch k) ∷ log }

    -- The head of phase 2: `client::new()`, which may panic, the ticket and its label.
    start : (client_ok : Bool) → Run KeepAliveTicket → (api_ok : Bool) → List Action → Daemon
    start true (returns k) api_ok log = patch k api_ok log
    start true panics api_ok log = record { phase = panicked; log = log }
    start false ticket api_ok log = record { phase = panicked; log = log }

    on_refresh : Run KeepAliveTicket → (api_ok : Bool) → List Action → Daemon
    on_refresh (returns k) api_ok log = patch k api_ok (reply k ∷ log)
    on_refresh panics api_ok log = record { phase = panicked; log = log }

    -- `client.delete(…).await.unwrap()` and the return.
    delete : (api_ok : Bool) → List Action → Daemon
    delete true log = record { phase = stopped; log = delete_pod ∷ log }
    delete false log = record { phase = panicked; log = delete_pod ∷ log }

    -- `sleep_until` yields only once the instant is reached.
    on_timeout : KeepAliveTicket → Tick → Daemon → Daemon
    on_timeout k t d = if leb k.execution_instant t.instant then delete t.api_ok d.log else d

    dispatch : Phase → Input → Tick → Daemon → Daemon
    dispatch waiting (status none) t d = record d { phase = stopped }
    dispatch waiting (status (some GcStatus.terminated)) t d = record d { phase = stopped }
    dispatch waiting (status (some (GcStatus.running _))) t d =
        start t.client_ok (new pod ttl t.now t.instant) t.api_ok d.log
    dispatch (counting k) (refresh none) t d = d
    dispatch (counting k) (refresh (some _)) t d =
        on_refresh (new pod ttl t.now t.instant) t.api_ok d.log
    dispatch (counting k) (status none) t d = delete t.api_ok d.log
    dispatch (counting k) (status (some (GcStatus.running _))) t d = d
    dispatch (counting k) (status (some GcStatus.terminated)) t d = record d { phase = stopped }
    dispatch (counting k) timeout t d = on_timeout k t d
    dispatch _ _ t d = d

    unfoldable pub step : Daemon → Tick → Daemon
    unfolding dispatch on_timeout delete on_refresh start patch
    step d t = dispatch d.phase t.input t d

    unfoldable pub gc : Daemon → List Tick → Daemon
    gc d [] = d
    gc d (t ∷ ts) = gc (step d t) ts

abbrev pub init : Daemon
init = record { phase = waiting; log = [] }
