-- ===== src/Vm/Ownership.antt =====
-- Ownership of page frames: the frames in use and the pages with an address correspond one to one.
pub mod Owned
pub mod Frames
pub mod Table
pub mod Transfer
pub mod Extends
pub mod Same
pub mod Valid
pub mod Evict
pub mod Resident
pub mod Mappings
pub mod Release
pub mod Fill
pub mod Prefetch
pub mod Allocate
pub mod Free
pub mod Access
pub mod Write
pub mod Return
pub mod Later
pub mod Touch
pub mod Freed
pub mod Filling
pub mod Quiet
