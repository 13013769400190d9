-- ===== src/Trap/Errors.antt =====
-- src/trap/mod.rs: the kinds of error of the trap code.
pub data TrapErrorKind : Type 0 where
  invalid_address invalid_page_size misaligned overlap not_mapped : TrapErrorKind
  unsupported_capability invalid_state policy_denied malformed_input : TrapErrorKind
