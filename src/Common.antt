-- ===== src/Common.antt =====
-- src/vm/Common.h: address arithmetic, the VPN hash, the performance counters.
pub mod Words
pub mod Address
pub mod Hash
pub mod Counters
