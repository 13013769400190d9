-- ===== src/Core/Rings/Commands.antt =====
-- The ring of commands is a bounded queue.
use native.Mathlib.Nat.{mod-lt}
use aegis_hv.Common.{
  ℕ, suc, ◌+◌, ◌-◌, ◌%◌, ◌<◌, ◌≤◌, true, false, none, some, List, [], ◌∷◌, ◌++◌, length, length-set,
  get_or, set, ◌==◌, ok, err, ◌≡◌, refl, arith, ap, Bool-cases, inl, inr, ◌⊎◌,
}
use aegis_hv.Common.Word.{u64_max, checked_add}
use aegis_hv.Core.Errors.{ring_full, unknown_command}
use aegis_hv.Core.Rings.{
  CommandKind, pause_vm, resume_vm, stop_vm, dump_state, raw_code, from_raw, CommandRecord,
  CommandRing, empty_command, push_command, push_raw, pop_command, core_abi_version,
}
use aegis_hv.Core.Window.{window, window-push}

-- The commands that wait in the ring, the oldest one first.
abbrev pub waiting : CommandRing → List CommandRecord
waiting r = window empty_command r.entries r.head r.len

pub record IsOpen (r : CommandRing) : Type 0 where
  pub placed : r.head < length r.entries
  pub fits : r.len ≤ length r.entries

-- The record that a push makes.
abbrev pub command : CommandKind → ℕ → ℕ → ℕ → CommandRing → CommandRecord
command kind vm_id arg0 arg1 r = record {
  abi_version = core_abi_version;
  sequence = r.next_sequence;
  kind = kind;
  vm_id = vm_id;
  arg0 = arg0;
  arg1 = arg1;
}

-- A command's code and its decoding are inverse to each other; every other code is refused.
pub from_raw-raw_code :
    (raw : ℕ)
    → ((kind : CommandKind) × (raw_code kind ≡ raw) × (from_raw raw ≡ ok kind))
      ⊎ (((kind : CommandKind) → ¬ (raw_code kind ≡ raw)) × (from_raw raw ≡ err unknown_command))
unfolding from_raw
from_raw-raw_code raw = elim (Bool-cases (raw == 1)) [
  | inl is ↦ inl (pause_vm, ground arith, rw is refl)
  | inr no1 ↦ elim (Bool-cases (raw == 2)) [
    | inl is ↦ inl (resume_vm, ground arith, rw (no1, is) refl)
    | inr no2 ↦ elim (Bool-cases (raw == 3)) [
      | inl is ↦ inl (stop_vm, ground arith, rw (no1, no2, is) refl)
      | inr no3 ↦ elim (Bool-cases (raw == 4)) [
        | inl is ↦ inl (dump_state, ground arith, rw (no1, no2, no3, is) refl)
        | inr no4 ↦ inr ((λ kind e. ground arith), rw (no1, no2, no3, no4) refl)
      ]
    ]
  ]
]

push_raw-known :
    (kind : CommandKind) (vm_id arg0 arg1 : ℕ) (r : CommandRing)
    → push_raw (raw_code kind) vm_id arg0 arg1 r ≡ push_command kind vm_id arg0 arg1 r
unfolding push_raw from_raw
push_raw-known pause_vm vm_id arg0 arg1 r = refl
push_raw-known resume_vm vm_id arg0 arg1 r = refl
push_raw-known stop_vm vm_id arg0 arg1 r = refl
push_raw-known dump_state vm_id arg0 arg1 r = refl

push_command-full :
    (kind : CommandKind) (vm_id arg0 arg1 : ℕ) (r : CommandRing)
    → (r.len == length r.entries) ≡ true
    → push_command kind vm_id arg0 arg1 r ≡ (err ring_full, r)
unfolding push_command
push_command-full kind vm_id arg0 arg1 r full = elim (Bool-cases (length r.entries == 0)) [
  | inl no_slot ↦ rw no_slot refl
  | inr some_slot ↦ rw (some_slot, full) refl
]

-- Where a push leaves a ring with room.
abbrev pub queued : CommandRecord → CommandRing → CommandRing
queued c r = record r {
  entries = set r.entries ((r.head + r.len) % length r.entries) c;
  len = r.len + 1;
  next_sequence = r.next_sequence + 1;
}

push_command-room :
    (kind : CommandKind) (vm_id arg0 arg1 : ℕ) (r : CommandRing)
    → IsOpen r
    → r.next_sequence < u64_max
    → (r.len == length r.entries) ≡ false
    → push_command kind vm_id arg0 arg1 r
      ≡ (ok (command kind vm_id arg0 arg1 r), queued (command kind vm_id arg0 arg1 r) r)
unfolding push_command
push_command-room kind vm_id arg0 arg1 r h small room =
    let some_slot : (length r.entries == 0) ≡ false = ground (arith, h.placed) in
    let next : checked_add r.next_sequence 1 ≡ some (r.next_sequence + 1) = ground arith in
    rw (some_slot, room, next) refl

-- A push of a known command to an open ring fails exactly if the ring is full, with the ring as it
-- was; otherwise, while the sequence counter is not used up, the command waits behind all others.
pub push_raw_lem :
    (kind : CommandKind) (vm_id arg0 arg1 : ℕ) (r : CommandRing)
    → IsOpen r
    → r.next_sequence < u64_max
    → let (result, r') = push_raw (raw_code kind) vm_id arg0 arg1 r in
      let c = command kind vm_id arg0 arg1 r in
      ((r.len ≡ length r.entries) × (result ≡ err ring_full) × (r' ≡ r))
      ⊎ ((r.len < length r.entries)
          × (result ≡ ok c)
          × IsOpen r'
          × (waiting r' ≡ waiting r ++ (c ∷ []))
          × (r'.next_sequence ≡ r.next_sequence + 1))
push_raw_lem kind vm_id arg0 arg1 r h small =
    rw (push_raw-known kind vm_id arg0 arg1 r) (elim (Bool-cases (r.len == length r.entries)) [
      | inl full ↦
          inl (rw (push_command-full kind vm_id arg0 arg1 r full) (ground arith, refl, refl))
      | inr room ↦
          let c = command kind vm_id arg0 arg1 r in
          let slot = (r.head + r.len) % length r.entries in
          let size = length-set r.entries slot c in
          let space : r.len < length r.entries = ground (arith, h.fits) in
          let one : r.len + 1 ≡ suc r.len = omega arith in
          inr (
            rw (push_command-room kind vm_id arg0 arg1 r h small room) (
              space,
              refl,
              record { placed = rw size h.placed; fits = rw (size, one) space },
              rw one (window-push empty_command r.len slot r.head r.entries c refl space h.placed),
              refl,
            ))
    ])

-- A pop from an empty ring finds nothing and changes nothing; otherwise it takes the oldest command.
pub pop_command_lem :
    (r : CommandRing)
    → IsOpen r
    → ((waiting r ≡ []) × (pop_command r ≡ (none, r)))
      ⊎ ((c : CommandRecord) × ((pop_command r).0 ≡ some c)
          × (waiting r ≡ c ∷ waiting (pop_command r).1)
          × IsOpen (pop_command r).1)
unfolding pop_command window
pop_command_lem r h = elim (Bool-cases (r.len == 0)) [
  | inl empty ↦ let none_left : r.len ≡ 0 = ground arith in inl (rw none_left refl, rw empty refl)
  | inr more ↦
      let n = r.len - 1 in
      let some_len : r.len ≡ suc n = ground arith in
      let positive : 0 < length r.entries = omega (arith, h.placed) in
      inr (
        get_or r.entries r.head empty_command,
        rw more refl,
        rw more (ap (window empty_command r.entries r.head) some_len),
        rw more (record { placed = mod-lt (r.head + 1) positive; fits = omega (arith, h.fits) }),
      )
]
