-- ===== src/Acm.antt =====
-- k8s/service/acm/src.
pub mod Errors
pub mod ServerCheck
pub mod EventWatcher
pub mod GarbageCollector
pub mod Handle
pub mod PodManager
pub mod System
pub mod Endpoints
pub mod Desync
pub mod Orphans
pub mod Adoption
pub mod Managers
pub mod Readiness
