-- ===== src/Tests.antt =====
-- The theorems at concrete inputs.
pub mod Pools
pub mod Caches
pub mod Ranges
pub mod Victims
pub mod Queues
pub mod Managers
pub mod Nulls
pub mod Sessions
pub mod Devices
pub mod Doubles
pub mod Benchmarks
pub mod Wakeups
pub mod Simulations
