-- ===== src/Examples.antt =====
-- Runs of the program at concrete inputs.
pub mod Fixtures
mod Watching
mod Collecting
mod Checking
mod Cluster
mod Naming
mod Images
mod Serving
mod Failing
mod Coroutines
mod Managing
mod Deriving
mod Caching
mod Connecting
mod Development
