-- ===== src/K8s/Pod/Address.antt =====
-- When a pod has an address, and what it is.
use ghactions_rust_test.Prelude.{
  ℕ, ◌≡◌, ◌≢◌, List, [], ◌∷◌, ◌++◌, some, Text, text, decimal, head?, ok, All, arith, >>=-eq-ok,
  ok_or-eq-ok, ◌↔◌,
}
use ghactions_rust_test.K8s.Objects.{Pod, ContainerPort, Container, PodSpec, PodStatus}
use ghactions_rust_test.K8s.Pod.{replace_dots, dns, port, address}

-- All the fields that an address is made of are there: those of the pod's IP and namespace, and
-- the first port of its first container.
pub record IsAddressable (p : Pod) (ip domain : Text) (number : ℕ) : Type 0 where
  pub status : PodStatus
  pub spec : PodSpec
  pub container : Container
  pub ports : List ContainerPort
  pub first : ContainerPort
  pub has_status : p.status ≡ some status
  pub has_ip : status.pod_ip ≡ some ip
  pub has_namespace : p.metadata.namespace ≡ some domain
  pub has_spec : p.spec ≡ some spec
  pub has_container : head? spec.containers ≡ some container
  pub has_ports : container.ports ≡ some ports
  pub has_port : head? ports ≡ some first
  pub is_port : first.container_port ≡ number

-- `<ip with dashes>.<namespace>.pod:<port>`
abbrev pub address_text : Text → Text → ℕ → Text
address_text ip domain number =
    (replace_dots ip ++ text "." ++ domain ++ text ".pod") ++ text ":" ++ decimal number

-- A pod that has all the fields has the address made of them.
pub address_of_IsAddressable :
    (p : Pod) (ip domain : Text) (number : ℕ)
    → IsAddressable p ip domain number
    → address p ≡ ok (address_text ip domain number)
unfolding address dns port
address_of_IsAddressable p ip domain number h = rw (
  h.has_status, h.has_ip, h.has_namespace, h.has_spec, h.has_container, h.has_ports, h.has_port,
  h.is_port,
)

-- No dot is left in the first label of the DNS entry.
pub replace_dots-no_dot : (s : Text) → All (λ c. c ≢ b'.') (replace_dots s)
unfolding replace_dots
replace_dots-no_dot [] = tt
replace_dots-no_dot (c ∷ s) = (ground arith, replace_dots-no_dot s)

-- What an address is made of, once the pod has given one.
pub record Addressed (p : Pod) (a : Text) : Type 0 where
  pub ip : Text
  pub domain : Text
  pub number : ℕ
  pub fields : IsAddressable p ip domain number
  pub is_text : a ≡ address_text ip domain number

Addressed-of_ok : (p : Pod) (a : Text) → address p ≡ ok a → Addressed p a
unfolding address dns port
Addressed-of_ok p a h =
    let (host, hd, h1) = >>=-eq-ok (dns p) _ h in
    let (number, hp, h2) = >>=-eq-ok (port p) _ h1 in
    let (status, d0, d1) = >>=-eq-ok _ _ hd in
    let (ip, d2, d3) = >>=-eq-ok _ _ d1 in
    let (domain, d4, d5) = >>=-eq-ok _ _ d3 in
    let (spec, p0, p1) = >>=-eq-ok _ _ hp in
    let (container, p2, p3) = >>=-eq-ok _ _ p1 in
    let (ports, p4, p5) = >>=-eq-ok _ _ p3 in
    let (first, p6, p7) = >>=-eq-ok _ _ p5 in
    record {
      ip = ip;
      domain = domain;
      number = number;
      fields = record {
        status = status;
        spec = spec;
        container = container;
        ports = ports;
        first = first;
        has_status = ok_or-eq-ok _ _ d0;
        has_ip = ok_or-eq-ok _ _ d2;
        has_namespace = ok_or-eq-ok _ _ d4;
        has_spec = ok_or-eq-ok _ _ p0;
        has_container = ok_or-eq-ok _ _ p2;
        has_ports = ok_or-eq-ok _ _ p4;
        has_port = ok_or-eq-ok _ _ p6;
        is_port = cc;
      };
      is_text = cc;
    }

-- `address` succeeds exactly when the pod has an IP, a namespace and a first port on its first
-- container, and the address is then the IP with dashes for dots, the namespace and the port.
pub address-eq-ok_iff : (p : Pod) (a : Text) → (address p ≡ ok a) ↔ Addressed p a
address-eq-ok_iff p a = (
  Addressed-of_ok p a,
  λ h. rw h.is_text (address_of_IsAddressable p h.ip h.domain h.number h.fields),
)
