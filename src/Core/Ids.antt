-- ===== src/Core/Ids.antt =====
-- crates/aegishv-hypervisor-core/src/ids.rs: ids and addresses are numbers, and their constructors
-- refuse the reserved ones.
use aegis_hv.Common.{ℕ, none, some, ◌==◌, if◌then◌else◌, Result, ok, err}
use aegis_hv.Common.Word.{u16_max, u64_max, checked_add}
use aegis_hv.Core.Errors.{CoreErrorKind, invalid_id, invalid_address}

abbrev pub new_vm_id : ℕ → Result ℕ CoreErrorKind
new_vm_id raw = if raw == 0 then err invalid_id else ok raw

abbrev pub new_vcpu_id : ℕ → Result ℕ CoreErrorKind
new_vcpu_id raw = if raw == u16_max then err invalid_id else ok raw

abbrev pub new_physical_cpu_id : ℕ → Result ℕ CoreErrorKind
new_physical_cpu_id raw = if raw == u16_max then err invalid_id else ok raw

abbrev pub new_device_id : ℕ → Result ℕ CoreErrorKind
new_device_id raw = if raw == 0 then err invalid_id else ok raw

abbrev pub new_host_physical : ℕ → Result ℕ CoreErrorKind
new_host_physical raw = if raw == u64_max then err invalid_address else ok raw

abbrev pub new_guest_physical : ℕ → Result ℕ CoreErrorKind
new_guest_physical raw = if raw == u64_max then err invalid_address else ok raw

-- `HostPhysical::checked_add`: the largest number is reserved here as well.
abbrev pub host_add : ℕ → ℕ → Result ℕ CoreErrorKind
host_add address value = elim (checked_add address value) [
  | some next ↦ if next == u64_max then err invalid_address else ok next
  | none ↦ err invalid_address
]
