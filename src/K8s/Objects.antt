-- ===== src/K8s/Objects.antt =====
-- The parts of the Kubernetes objects of the `k8s_openapi` crate that the program reads or writes.
-- Ports are natural numbers: the negative ones that an i32 allows are left out.
use ghactions_rust_test.Prelude.{ℕ, Text, Option, List}

pub record ObjectMeta : Type 0 where
  pub name : Option Text
  pub namespace : Option Text
  pub labels : Option (List (Text × Text))

pub record ContainerPort : Type 0 where
  pub container_port : ℕ

pub record Container : Type 0 where
  pub ports : Option (List ContainerPort)

pub record PodSpec : Type 0 where
  pub containers : List Container

pub record ContainerStateWaiting : Type 0 where
  pub reason : Option Text
  pub message : Option Text

pub record ContainerStateTerminated : Type 0 where
  pub reason : Option Text
  pub message : Option Text

pub record ContainerState : Type 0 where
  pub running : Option (Unit {0})
  pub waiting : Option ContainerStateWaiting
  pub terminated : Option ContainerStateTerminated

pub record ContainerStatus : Type 0 where
  pub state : Option ContainerState

pub record PodStatus : Type 0 where
  pub pod_ip : Option Text
  pub container_statuses : Option (List ContainerStatus)

pub record Pod : Type 0 where
  pub metadata : ObjectMeta
  pub spec : Option PodSpec
  pub status : Option PodStatus
