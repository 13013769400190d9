-- ===== src/Core/Rings.antt =====
-- crates/aegishv-hypervisor-core/src/abi.rs: the ring of events, which forgets its oldest entry when
-- it is full, and the ring of commands, which refuses. The size `N` of a ring is the length of
-- `entries`.
pub mod Events
pub mod Numbers
pub mod Commands
use aegis_hv.Common.{
  ℕ, zero, suc, ◌+◌, ◌-◌, ◌%◌, Bool, true, false, ◌||◌, Option, none, some, List, [], ◌∷◌, length,
  get_or, set, replicate, ◌==◌, if◌then◌else◌, Result, ok, err, ok_or, Method,
}
use aegis_hv.Common.Word.{checked_add}
use aegis_hv.Core.Errors.{
  CoreErrorKind, capacity_exceeded, invalid_state, ring_full, unknown_command,
}

-- `CORE_ABI_VERSION` of lib.rs.
abbrev pub core_abi_version : ℕ
core_abi_version = 1

pub data EventKind : Type 0 where
  boot crash vm_state vcpu_state trap loss : EventKind

pub record EventRecord : Type 0 where
  pub abi_version : ℕ
  pub sequence : ℕ
  pub kind : EventKind
  pub vm_id : Option ℕ
  pub vcpu_id : Option ℕ
  pub arg0 : ℕ
  pub arg1 : ℕ

-- `EventRecord::empty`
abbrev pub empty_event : EventRecord
empty_event = record {
  abi_version = core_abi_version;
  sequence = 0;
  kind = boot;
  vm_id = none;
  vcpu_id = none;
  arg0 = 0;
  arg1 = 0;
}

pub record EventRing : Type 0 where
  pub entries : List EventRecord
  pub head : ℕ
  pub len : ℕ
  pub next_sequence : ℕ
  pub dropped : ℕ

-- `EventRing::new`
abbrev pub new_event_ring : ℕ → EventRing
new_event_ring n = record {
  entries = replicate n empty_event;
  head = 0;
  len = 0;
  next_sequence = 1;
  dropped = 0;
}

-- The two ways in which `push_lossy` stores a record.
abbrev pub store_event : EventRecord → EventRing → EventRing
store_event rec r =
    if r.len == length r.entries
    then record r {
      entries = set r.entries r.head rec;
      head = (r.head + 1) % length r.entries;
      dropped = r.dropped + 1;
    }
    else record r {
      entries = set r.entries ((r.head + r.len) % length r.entries) rec;
      len = r.len + 1;
    }

unfoldable pub push_lossy :
    EventKind → Option ℕ → Option ℕ → ℕ → ℕ → Method EventRing CoreErrorKind EventRecord
push_lossy kind vm_id vcpu_id arg0 arg1 r =
    let rec : EventRecord = record {
      abi_version = core_abi_version;
      sequence = r.next_sequence;
      kind = kind;
      vm_id = vm_id;
      vcpu_id = vcpu_id;
      arg0 = arg0;
      arg1 = arg1;
    } in
    let pushed : Result EventRecord CoreErrorKind × EventRing =
      elim (checked_add r.next_sequence 1) [
        | none ↦ (err invalid_state, r)
        | some next ↦ (ok rec, store_event rec (record r { next_sequence = next }))
      ] in
    if length r.entries == 0 then (err capacity_exceeded, r) else pushed

unfoldable pub pop_event : EventRing → Option EventRecord × EventRing
pop_event r = if r.len == 0 then (none, r) else (
  some (get_or r.entries r.head empty_event),
  record r { head = (r.head + 1) % length r.entries; len = r.len - 1 },
)

pub data CommandKind : Type 0 where
  pause_vm resume_vm stop_vm dump_state : CommandKind

-- `CommandKind::from_raw`
unfoldable pub from_raw : ℕ → Result CommandKind CoreErrorKind
from_raw raw =
    if raw == 1
    then ok pause_vm
    else if raw == 2
    then ok resume_vm
    else if raw == 3
    then ok stop_vm
    else if raw == 4
    then ok dump_state
    else err unknown_command

-- `CommandKind::raw`
abbrev pub raw_code : CommandKind → ℕ
raw_code pause_vm = 1
raw_code resume_vm = 2
raw_code stop_vm = 3
raw_code dump_state = 4

pub record CommandRecord : Type 0 where
  pub abi_version : ℕ
  pub sequence : ℕ
  pub kind : CommandKind
  pub vm_id : ℕ
  pub arg0 : ℕ
  pub arg1 : ℕ

-- `CommandRecord::empty`
abbrev pub empty_command : CommandRecord
empty_command = record {
  abi_version = core_abi_version;
  sequence = 0;
  kind = dump_state;
  vm_id = 1;
  arg0 = 0;
  arg1 = 0;
}

pub record CommandRing : Type 0 where
  pub entries : List CommandRecord
  pub head : ℕ
  pub len : ℕ
  pub next_sequence : ℕ

-- `CommandRing::new`
abbrev pub new_command_ring : ℕ → CommandRing
new_command_ring n = record {
  entries = replicate n empty_command;
  head = 0;
  len = 0;
  next_sequence = 1;
}

-- `CommandRing::push`
unfoldable pub push_command :
    CommandKind → ℕ → ℕ → ℕ → Method CommandRing CoreErrorKind CommandRecord
push_command kind vm_id arg0 arg1 r =
    let rec : CommandRecord = record {
      abi_version = core_abi_version;
      sequence = r.next_sequence;
      kind = kind;
      vm_id = vm_id;
      arg0 = arg0;
      arg1 = arg1;
    } in
    let pushed : Result CommandRecord CoreErrorKind × CommandRing =
      elim (checked_add r.next_sequence 1) [
        | none ↦ (err invalid_state, r)
        | some next ↦ (
          ok rec,
          record r {
            entries = set r.entries ((r.head + r.len) % length r.entries) rec;
            len = r.len + 1;
            next_sequence = next;
          },
        )
      ] in
    if length r.entries == 0 || r.len == length r.entries then (err ring_full, r) else pushed

-- `CommandRing::push_raw`
unfoldable pub push_raw : ℕ → ℕ → ℕ → ℕ → Method CommandRing CoreErrorKind CommandRecord
unfolding from_raw push_command
push_raw raw_kind vm_id arg0 arg1 r = elim (from_raw raw_kind) [
  | err e ↦ (err e, r)
  | ok kind ↦ push_command kind vm_id arg0 arg1 r
]

unfoldable pub pop_command : CommandRing → Option CommandRecord × CommandRing
pop_command r = if r.len == 0 then (none, r) else (
  some (get_or r.entries r.head empty_command),
  record r { head = (r.head + 1) % length r.entries; len = r.len - 1 },
)
