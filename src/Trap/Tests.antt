-- ===== src/Trap/Tests.antt =====
-- Runs of the trap code, and its theorems at concrete inputs.
mod Data
mod Tables
mod Controllers
mod Policies
