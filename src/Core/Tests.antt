-- ===== src/Core/Tests.antt =====
-- The bookkeeping of the hypervisor at concrete inputs.
mod Tables
mod Pages
mod Cpus
mod Allocators
mod Machines
