-- ===== src/Core.antt =====
-- crates/aegishv-hypervisor-core/src: the bookkeeping of the hypervisor.
pub mod Errors
pub mod Ids
pub mod Ownership
pub mod Memory
mod Tests
pub mod Hugepage
pub mod Allocator
pub mod Window
pub mod Rings
pub mod Scheduler
pub mod Vm
pub mod PerCpu
pub mod Pci
