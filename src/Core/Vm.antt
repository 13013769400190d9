-- ===== src/Core/Vm.antt =====
-- crates/aegishv-hypervisor-core/src/vm.rs: the life cycle of a VM.
pub mod Life
use aegis_hv.Common.{ℕ, Bool, true, false, not, ok, err, if◌then◌else◌, Method}
use aegis_hv.Core.Errors.{CoreErrorKind, invalid_transition}

pub data VmState : Type 0 where
  created configured runnable running paused stopping stopped crashed : VmState

pub record Vm : Type 0 where
  pub id : ℕ
  pub state : VmState

-- `Vm::new`
abbrev pub new_vm : ℕ → Vm
new_vm id = record { id = id; state = created }

unfoldable pub allowed_transition : VmState → VmState → Bool
allowed_transition created configured = true
allowed_transition configured runnable = true
allowed_transition runnable running = true
allowed_transition running paused = true
allowed_transition paused running = true
allowed_transition running stopping = true
allowed_transition paused stopping = true
allowed_transition runnable stopping = true
allowed_transition stopping stopped = true
allowed_transition created crashed = true
allowed_transition configured crashed = true
allowed_transition runnable crashed = true
allowed_transition running crashed = true
allowed_transition paused crashed = true
allowed_transition stopping crashed = true
allowed_transition _ _ = false

unfoldable pub transition : VmState → Method Vm CoreErrorKind (Unit {0})
unfolding allowed_transition
transition next vm =
    if not (allowed_transition vm.state next)
    then (err invalid_transition, vm)
    else (ok tt, record vm { state = next })
