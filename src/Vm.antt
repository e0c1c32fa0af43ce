-- ===== src/Vm.antt =====
-- src/vm/VirtualMemoryManager.h and src/vm/VirtualMemoryManager.cpp. `manager_mutex_` makes each public
-- member function one step.
pub mod State
pub mod Fault
pub mod Allocate
pub mod Access
pub mod Lifecycle
pub mod Ownership
pub mod Session
