-- ===== src/Core/PerCpu.antt =====
-- crates/aegishv-hypervisor-core/src/percpu.rs: what the hypervisor keeps for each CPU. The array of
-- a table up to `len`, whose entries are all there, is a list, and its size `N` is the field
-- `capacity`.
pub mod Inv
pub mod Calls
use aegis_hv.Common.{
  ℕ, ◌+◌, ◌%◌, ◌*◌, Bool, true, false, ◌&&◌, ◌||◌, not, Option, none, some, List, [], ◌∷◌, ◌++◌,
  length, ltb, leb, ◌==◌, if◌then◌else◌, Result, ok, err, fail_if, ◌>>=◌, ◌>>◌,
}
use aegis_hv.Common.Word.{u64_mod}
use aegis_hv.Core.Errors.{
  CoreErrorKind, capacity_exceeded, invalid_state, invalid_address, invalid_transition,
}

pub data PerCpuState : Type 0 where
  empty reserved stack_ready online offline failed : PerCpuState

abbrev pub state_eq : PerCpuState → PerCpuState → Bool
state_eq empty empty = true
state_eq reserved reserved = true
state_eq stack_ready stack_ready = true
state_eq online online = true
state_eq offline offline = true
state_eq failed failed = true
state_eq _ _ = false

pub record PerCpuSlot : Type 0 where
  pub cpu : ℕ
  pub state : PerCpuState
  pub stack_base : ℕ
  pub stack_size : ℕ
  pub event_ring_index : Option ℕ
  pub scheduler_epoch : ℕ

pub record PerCpuTable : Type 0 where
  pub capacity : ℕ
  pub slots : List PerCpuSlot

-- `PerCpuTable::new`
abbrev pub new_table : ℕ → PerCpuTable
new_table capacity = record { capacity = capacity; slots = [] }

-- `find`
unfoldable pub find_slot : ℕ → List PerCpuSlot → Option PerCpuSlot
find_slot cpu [] = none
find_slot cpu (slot ∷ slots) = if slot.cpu == cpu then some slot else find_slot cpu slots

-- `get`
unfoldable pub get_slot : ℕ → PerCpuTable → Option PerCpuSlot
unfolding find_slot
get_slot cpu t = find_slot cpu t.slots

-- `find_mut` and the change of the slot that it finds, where the change may fail.
unfoldable pub change_slot :
    ℕ
    → (PerCpuSlot → Result PerCpuSlot CoreErrorKind)
    → List PerCpuSlot
    → Result (List PerCpuSlot) CoreErrorKind
change_slot cpu f [] = err invalid_state
change_slot cpu f (slot ∷ slots) =
    let here = f slot >>= λ slot'. ok (slot' ∷ slots) in
    let behind = change_slot cpu f slots >>= λ slots'. ok (slot ∷ slots') in
    if slot.cpu == cpu then here else behind

unfoldable pub reserve_stack : ℕ → ℕ → ℕ → PerCpuTable → Result PerCpuTable CoreErrorKind
unfolding find_slot
reserve_stack cpu stack_base stack_size t = do
  fail_if (leb t.capacity (length t.slots)) capacity_exceeded
  fail_if (elim (find_slot cpu t.slots) [ none ↦ false | some _ ↦ true ]) invalid_state
  fail_if
      (ltb stack_size (16 * 1024) || not (stack_size % 4096 == 0) || not (stack_base % 4096 == 0))
      invalid_address
  let slot : PerCpuSlot = record {
    cpu = cpu;
    state = stack_ready;
    stack_base = stack_base;
    stack_size = stack_size;
    event_ring_index = none;
    scheduler_epoch = 0;
  }
  ok (record t { slots = t.slots ++ (slot ∷ []) })

unfoldable pub attach_slot : ℕ → PerCpuSlot → Result PerCpuSlot CoreErrorKind
attach_slot event_ring_index slot = do
  fail_if (state_eq slot.state empty || state_eq slot.state failed) invalid_state
  ok (record slot { event_ring_index = some event_ring_index })

unfoldable pub online_slot : PerCpuSlot → Result PerCpuSlot CoreErrorKind
online_slot slot = do
  fail_if (not (state_eq slot.state stack_ready) && not (state_eq slot.state offline))
      invalid_transition
  fail_if (elim slot.event_ring_index [ none ↦ true | some _ ↦ false ]) invalid_state
  ok (record slot { state = online; scheduler_epoch = (slot.scheduler_epoch + 1) % u64_mod })

unfoldable pub offline_slot : PerCpuSlot → Result PerCpuSlot CoreErrorKind
offline_slot slot = do
  fail_if (not (state_eq slot.state online)) invalid_transition
  ok (record slot { state = offline; scheduler_epoch = (slot.scheduler_epoch + 1) % u64_mod })

abbrev pub change :
    ℕ
    → (PerCpuSlot → Result PerCpuSlot CoreErrorKind)
    → PerCpuTable
    → Result PerCpuTable CoreErrorKind
change cpu f t = change_slot cpu f t.slots >>= λ slots. ok (record t { slots = slots })

unfoldable pub attach_event_ring : ℕ → ℕ → PerCpuTable → Result PerCpuTable CoreErrorKind
unfolding attach_slot change_slot
attach_event_ring cpu event_ring_index = change cpu (attach_slot event_ring_index)

unfoldable pub mark_online : ℕ → PerCpuTable → Result PerCpuTable CoreErrorKind
unfolding online_slot change_slot
mark_online cpu = change cpu online_slot

unfoldable pub mark_offline : ℕ → PerCpuTable → Result PerCpuTable CoreErrorKind
unfolding offline_slot change_slot
mark_offline cpu = change cpu offline_slot
