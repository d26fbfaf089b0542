-- ===== src/Acm/Endpoints/Waiting.antt =====
-- What the endpoint for waiting gives, and what a second call gives.
use ghactions_rust_test.Prelude.{
  ◌≡◌, Bool, true, false, Option, none, some, Text, eq_text_refl, ok, err, map_ok, ap,
}
use ghactions_rust_test.Errors.{AcmResult}
use ghactions_rust_test.K8s.Objects.{Pod}
use ghactions_rust_test.Acm.GarbageCollector.{KeepAliveTicket, refresh_ticket}
use ghactions_rust_test.Acm.Handle
use ghactions_rust_test.Acm.Handle.{PodManagerUpperHandle}
use ghactions_rust_test.Acm.Handle.Results.{wait_phantom_lem, wait-remembered}
use ghactions_rust_test.Acm.PodManager.{get, insert, lookup}
use ghactions_rust_test.Acm.Endpoints.{
  Cache, PodTicket, pod_ticket, Channels, with_ticket, wait_on, wait,
}

-- A manager of this name stands in the cache, and remembers this pod.
pub record Remembers (id : Text) (cache : Cache) (pod : Pod) : Type 0 where
  pub manager : PodManagerUpperHandle
  pub found : get id cache ≡ ok manager
  pub kept : manager.phantom ≡ some (ok pod)

get-insert :
    (id : Text) (m : PodManagerUpperHandle) (cache : Cache) → get id (insert id m cache) ≡ ok m
unfolding get insert lookup
get-insert id m cache = rw (eq_text_refl id)

ticketed :
    (pod : Pod) (sent : Bool) (reply : Option KeepAliveTicket) (t : PodTicket)
    → map_ok (pod_ticket pod) (refresh_ticket sent reply) ≡ ok t
    → pod ≡ t.pod
unfolding refresh_ticket
ticketed pod true (some k) t h =
    let e : pod_ticket pod k ≡ t = cc in ap (λ (x : PodTicket). x.pod) e
ticketed pod true none t h = cc
ticketed pod false reply t h = cc

with_ticket-ok :
    (c : Channels) (r : AcmResult Pod) (t : PodTicket) → with_ticket c r ≡ ok t → r ≡ ok t.pod
unfolding with_ticket
with_ticket-ok c (ok pod) t h = ap (λ p. ok p) (ticketed pod c.sent c.reply t h)
with_ticket-ok c (err e) t h = cc

Remembers-after :
    (c : Channels) (id : Text) (m : PodManagerUpperHandle) (cache : Cache) (t : PodTicket)
    → (wait_on c id (ok m) cache).0 ≡ ok t
    → Remembers id (wait_on c id (ok m) cache).1 t.pod
unfolding wait_on
Remembers-after c id m cache t h = record {
  manager = (Handle.wait c.received m).1;
  found = get-insert id (Handle.wait c.received m).1 cache;
  kept =
      wait_phantom_lem c.received m.phantom t.pod
        (with_ticket-ok c (Handle.wait c.received m).0 t h);
}

wait_on-Remembers :
    (c : Channels) (id : Text) (found : AcmResult PodManagerUpperHandle) (cache : Cache)
    (t : PodTicket)
    → (wait_on c id found cache).0 ≡ ok t
    → Remembers id (wait_on c id found cache).1 t.pod
unfolding wait_on
wait_on-Remembers c id (ok m) cache t h = Remembers-after c id m cache t h
wait_on-Remembers c id (err e) cache t h = cc

-- After a wait that gave a pod, every further wait for it, with whatever its channel holds, gives
-- the same pod, with a new ticket, as long as the garbage collector answers.
pub wait-wait :
    (c later : Channels) (id : Text) (cache : Cache) (t : PodTicket) (k : KeepAliveTicket)
    → (wait c id cache).0 ≡ ok t
    → later.sent ≡ true
    → later.reply ≡ some k
    → (wait later id (wait c id cache).1).0 ≡ ok (record { pod = t.pod; ticket = k })
unfolding wait wait_on with_ticket refresh_ticket
wait-wait c later id cache t k h s r =
    let m = wait_on-Remembers c id (get id cache) cache t h in
    rw (m.found, wait-remembered later.received m.manager t.pod m.kept, s, r)
