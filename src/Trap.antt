-- ===== src/Trap.antt =====
-- src/trap: the page-trap controller of the sensor, its stage-2 model, its storm guard, its JIT
-- policy and its invalidation plans. An error is its kind: no code reads the text beside it.
pub mod Errors
pub mod Stage2
pub mod Table
pub mod Storm
pub mod Invalidation
pub mod SingleStep
pub mod Jit
pub mod Traps
mod Tests
pub mod Controller
