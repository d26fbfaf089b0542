-- ===== src/K8s/Deploy/Labels.antt =====
-- What a deployment that succeeded has asked of the API server.
use ghactions_rust_test.Prelude.{
  ℕ, ◌≡◌, ap, sym, [], ◌∷◌, some, text, decimal, trim_end, unwrap, none, ◌∙◌, Option, Text, Result,
  ok, err, Run, returns,
}
use mathlib.Core.Path.{ap₂}
use ghactions_rust_test.Calls.{infallible, Succeeds-and_then, infallible-eq-ok, fallible-eq-ok}
use ghactions_rust_test.K8s.Objects.{Pod}
use ghactions_rust_test.K8s.Failures.{KubeError}
use ghactions_rust_test.K8s.Pod.{dns, port}
use ghactions_rust_test.K8s.Deploy.{
  Maker, new, Cluster, answer, connected, client, trim_start, servicer, deploy,
}

answer-eq-ok :
    {W A : Type 0} (r : Result KubeError A) (w : W) (a : A) (t : W)
    → answer (r, w) ≡ (returns (ok a), t)
    → (r ≡ ok a) × (w ≡ t)
answer-eq-ok (ok x) w a t h = (cc, cc)
answer-eq-ok (err e) w a t h = cc

module _ {W : Type 0} (cluster : Cluster W) (name_of : Pod → Run Text) (hostname : Option Text)
    (maker : Maker) where
  -- The steps of a deployment of `pod`, and what they found.
  pub record IsDeployed (reference name : Text) (ttl : ℕ) (w : W) (pod : Pod) (after : W)
      : Type 0 where
    pub manifest : Pod
    pub myself : Pod
    pub my_name : Text
    pub host : Text
    pub number : ℕ
    pub asked : W
    pub creating : W
    pub made : new maker reference name ≡ returns (ok manifest)
    pub self_name : Text
    pub has_name : hostname ≡ some self_name
    pub found :
        cluster.get (text "ocf-system") (trim_end (trim_start self_name)) (cluster.try_default w).1
        ≡ (ok myself, asked)
    pub named : name_of myself ≡ returns my_name
    pub has_dns : dns myself ≡ ok host
    pub has_port : port myself ≡ ok number
    pub settled : creating ≡ (cluster.try_default asked).1
    pub created :
        cluster.create
          (text "ocf")
          (record manifest {
            metadata = record manifest.metadata {
              labels = some (
                  (text "servicer", my_name)
                  ∷ (text "servicer_dns", host)
                  ∷ (text "servicer_port", decimal number)
                  ∷ (text "ttl", decimal ttl)
                  ∷ []);
            };
          })
          creating
        ≡ (ok pod, after)

  -- What `servicer` has found, and how.
  record IsServicer (w : W) (myself : Pod) (t : W) : Type 0 where
    pub self_name : Text
    pub has_name : hostname ≡ some self_name
    pub found :
        cluster.get (text "ocf-system") (trim_end (trim_start self_name)) (cluster.try_default w).1
        ≡ (ok myself, t)

  unwrap-eq : (o : Option Text) (h : Text) → unwrap o ≡ returns h → o ≡ some h
  unwrap-eq (some x) h e = let same : x ≡ h = cc in ap some same
  unwrap-eq none h e = cc

  client_world :
      (w : W) (u : Unit {0}) (t : W)
      → client cluster name_of hostname maker w ≡ (returns (ok u), t)
      → t ≡ (cluster.try_default w).1
  unfolding client
  client_world w u t h =
      let c = cluster.try_default w in sym (infallible-eq-ok (connected c.0) c.1 u t h).1

  servicer-IsServicer :
      (w : W) (myself : Pod) (t : W)
      → servicer cluster name_of hostname maker w ≡ (returns (ok myself), t)
      → IsServicer w myself t
  unfolding servicer
  servicer-IsServicer w myself t h =
      let s0 = Succeeds-and_then (client cluster name_of hostname maker w) _ myself t h in
      let s1 = Succeeds-and_then (infallible (unwrap hostname) s0.state) _ myself t s0.later in
      let named = infallible-eq-ok (unwrap hostname) s0.state s1.value s1.state s1.first in
      let e = answer-eq-ok _ _ myself t s1.later in
      record {
        self_name = s1.value;
        has_name = unwrap-eq hostname s1.value named.0;
        found =
            ap (cluster.get (text "ocf-system") (trim_end (trim_start s1.value)))
              (sym (client_world w s0.value s0.state s0.first) ∙ named.1)
            ∙ ap₂ (λ x y. (x, y)) e.0 e.1;
      }

  -- A deployment that succeeds first finds the pod that runs the program, which has the host's trimmed
  -- name in the namespace `ocf-system`, then makes a client, and
  -- then asks the API server to create a pod, in the namespace `ocf`; it gives the pod of the answer.
  -- The pod that it asks for is the manifest made for the reference and the name, with the labels
  -- `servicer`, `servicer_dns`, `servicer_port` and `ttl`, which are the name, the DNS entry and the
  -- port of the pod that runs the program, and the time to live.
  pub deploy-IsDeployed :
      (reference name : Text) (ttl : ℕ) (w : W) (pod : Pod) (t : W)
      → deploy cluster name_of hostname maker reference name ttl w ≡ (returns (ok pod), t)
      → IsDeployed reference name ttl w pod t
  unfolding deploy
  deploy-IsDeployed reference name ttl w pod t h =
      let s0 = Succeeds-and_then (new maker reference name, w) _ pod t h in
      let s1 =
        Succeeds-and_then (servicer cluster name_of hostname maker s0.state) _ pod t s0.later in
      let s2 = Succeeds-and_then (infallible (name_of s1.value) s1.state) _ pod t s1.later in
      let s3 = Succeeds-and_then (returns (dns s1.value), s2.state) _ pod t s2.later in
      let s4 = Succeeds-and_then (returns (port s1.value), s3.state) _ pod t s3.later in
      let s5 =
        Succeeds-and_then (client cluster name_of hostname maker s4.state) _ pod t s4.later in
      let found =
        servicer-IsServicer w s1.value s1.state (
          ap (λ x. servicer cluster name_of hostname maker x) (ap (λ c. c.1) s0.first)
          ∙ s1.first) in
      record {
        manifest = s0.value;
        myself = s1.value;
        my_name = s2.value;
        host = s3.value;
        number = s4.value;
        asked = s1.state;
        creating = s5.state;
        made = ap (λ c. c.0) s0.first;
        self_name = found.self_name;
        has_name = found.has_name;
        found = found.found;
        named = (infallible-eq-ok _ _ _ _ s2.first).0;
        has_dns = (fallible-eq-ok _ _ _ _ s3.first).0;
        has_port = (fallible-eq-ok _ _ _ _ s4.first).0;
        settled =
            (client_world s4.state s5.value s5.state s5.first)
            ∙ ap (λ x. (cluster.try_default x).1)
                (sym (fallible-eq-ok _ _ _ _ s4.first).1
                  ∙ sym (fallible-eq-ok _ _ _ _ s3.first).1
                  ∙ sym (infallible-eq-ok _ _ _ _ s2.first).1);
        created = let e = answer-eq-ok _ _ pod t s5.later in ap₂ (λ x y. (x, y)) e.0 e.1;
      }
