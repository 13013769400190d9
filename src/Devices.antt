-- ===== src/Devices.antt =====
-- crates/aegishv-devices/src: the virtual devices of a guest, and error.rs, whose errors keep their
-- kind.
pub mod Block
pub mod Console
pub mod Net
pub mod Virtio
mod Tests

pub data DeviceErrorKind : Type 0 where
  invalid_register invalid_queue capacity_exceeded unsupported permission_denied : DeviceErrorKind
  isolation_missing out_of_bounds : DeviceErrorKind
