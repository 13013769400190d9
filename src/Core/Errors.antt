-- ===== src/Core/Errors.antt =====
-- crates/aegishv-hypervisor-core/src/error.rs: the kinds of error.
pub data CoreErrorKind : Type 0 where
  invalid_id invalid_address invalid_argument invalid_memory_map : CoreErrorKind
  capacity_exceeded overlap out_of_memory double_free zeroing_failed : CoreErrorKind
  invalid_transition ring_full unknown_command unsupported : CoreErrorKind
  permission_violation serial_timeout invalid_state : CoreErrorKind
