-- ===== src/Acm/Endpoints.antt =====
-- The handlers of k8s/service/acm/src/main.rs, on the cache of pod managers and the API server.
-- A manager is the handle through which its client waits; what its garbage collector answers to a
-- refresh is an argument.
pub mod Waiting
use ghactions_rust_test.Prelude.{
  ℕ, Bool, List, [], ◌∷◌, ◌++◌, Option, none, some, Text, text, Result, ok, err, Run, returns,
  panics, ◌⊎◌, map_ok,
}
use ghactions_rust_test.Errors.{AcmResult}
use ghactions_rust_test.Calls.{Call, and_then, infallible}
use ghactions_rust_test.K8s.Objects.{Pod}
use ghactions_rust_test.K8s.Deploy
use ghactions_rust_test.K8s.Deploy.{Maker, Cluster}
use ghactions_rust_test.Acm.GarbageCollector.{default_ttl, KeepAliveTicket, refresh_ticket}
use ghactions_rust_test.Acm.Handle
use ghactions_rust_test.Acm.Handle.{PodManagerUpperHandle}
use ghactions_rust_test.Acm.PodManager.{get, insert}

abbrev pub Cache : Type 0
Cache = List (Text × PodManagerUpperHandle)

pub record PodTicket : Type 0 where
  pub pod : Pod
  pub ticket : KeepAliveTicket

abbrev pub pod_ticket : Pod → KeepAliveTicket → PodTicket
pod_ticket pod ticket = record { pod = pod; ticket = ticket }

-- What the channels of a manager give to a call: the result that the shim sends, whether a request
-- for a refresh is taken, and the ticket that comes back.
pub record Channels : Type 0 where
  pub received : Option (AcmResult Pod)
  pub sent : Bool
  pub reply : Option KeepAliveTicket

-- The refresh after a pod has come.
with_ticket : Channels → AcmResult Pod → AcmResult PodTicket
with_ticket c (err e) = err e
with_ticket c (ok pod) = map_ok (pod_ticket pod) (refresh_ticket c.sent c.reply)

wait_on : Channels → Text → AcmResult PodManagerUpperHandle → Cache → AcmResult PodTicket × Cache
unfolding with_ticket
wait_on c id (err e) cache = (err e, cache)
wait_on c id (ok manager) cache =
    let (result, manager) = Handle.wait c.received manager in
    (with_ticket c result, insert id manager cache)

-- `GET /wait`, which changes the manager in the cache.
unfoldable pub wait : Channels → (id : Text) → Cache → AcmResult PodTicket × Cache
unfolding wait_on
wait c id cache = wait_on c id (get id cache) cache

refresh_on : Channels → AcmResult PodManagerUpperHandle → AcmResult KeepAliveTicket
refresh_on c (err e) = err e
refresh_on c (ok manager) = refresh_ticket c.sent c.reply

-- `POST /refresh`
unfoldable pub refresh : Channels → (ticket : Text) → Cache → AcmResult KeepAliveTicket
unfolding refresh_on
refresh c ticket cache = refresh_on c (get ticket cache)

pub record State (W : Type 0) : Type 0 where
  pub world : W
  pub cache : Cache

abbrev pub unwrap_or {ℓ} : {A : Type ℓ} → A → Option A → A
unwrap_or default none = default
unwrap_or default (some a) = a

module _ {W : Type 0} (cluster : Cluster W) (name_of : Pod → Run Text) (hostname : Option Text)
    (maker : Maker) (env : Text → Option Text) where
  -- A call of the API server from a handler.
  in_world : {A : Type 0} → Call W A → Cache → Call (State W) A
  in_world (r, w) cache = (r, record { world = w; cache = cache })

  -- The reference of the image with a tag.
  pub reference : (tag : Text) → Text
  reference tag =
      unwrap_or (text "registry.kurl") (env (text "REGISTRY"))
      ++ text "/"
      ++ unwrap_or (text "ocf") (env (text "REPOSITORY"))
      ++ text ":"
      ++ tag

  -- `POST /deploy`; the time to live of the new manager is with its garbage collector.
  unfoldable pub deploy : (tag name : Text) → Option ℕ → State W → Call (State W) Pod
  unfolding and_then infallible in_world
  deploy tag name ttl s =
      and_then
        (in_world
          (Deploy.deploy cluster name_of hostname maker (reference tag) name
            (unwrap_or default_ttl ttl) s.world)
          s.cache)
        (λ pod s.
          and_then (infallible (name_of pod) s)
            (λ id s. (returns (ok pod), record s { cache = insert id Handle.new s.cache })))

  -- `DELETE /delete`
  unfoldable pub delete : (id : Text) → State W → Call (State W) (Unit {0})
  unfolding and_then in_world
  delete id s =
      and_then (in_world (Deploy.delete cluster name_of hostname maker id s.world) s.cache)
        (λ _ s. (returns (ok tt), s))
