-- ===== src/Aim.antt =====
-- The image manager, k8s/service/aim.
pub mod Errors
pub mod Env
pub mod Metadata
pub mod Containerd
pub mod Drops
pub mod Outside
pub mod Ecr
pub mod Minikube
pub mod Registry
pub mod Endpoints
