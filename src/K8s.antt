-- ===== src/K8s.antt =====
-- Kubernetes as the program sees it: k8s/library/k8s.
pub mod Objects
pub mod Pod
pub mod Failures
pub mod Watcher
pub mod Deploy
