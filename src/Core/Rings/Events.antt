-- ===== src/Core/Rings/Events.antt =====
-- The ring of events is a queue that drops its oldest entry, and its numbers have no gap.
use native.Mathlib.Nat.{mod-lt}
use aegis_hv.Common.{
  ℕ, suc, ◌+◌, ◌-◌, ◌%◌, ◌<◌, ◌≤◌, true, false, Option, none, some, List, [], ◌∷◌, ◌++◌, length,
  length-set, get_or, ◌==◌, if◌then◌else◌, ok, ◌≡◌, refl, arith, ap, ◌∙◌, Bool-cases, inl, inr, ◌⊎◌,
}
use aegis_hv.Common.Word.{u64_max, checked_add}
use aegis_hv.Core.Rings.{
  EventKind, EventRecord, EventRing, empty_event, store_event, push_lossy, pop_event,
  core_abi_version,
}
use aegis_hv.Core.Window.{window, window-push, window-overwrite}

-- The events that wait in the ring, the oldest one first.
abbrev pub contents : EventRing → List EventRecord
contents r = window empty_event r.entries r.head r.len

pub record IsReady (r : EventRing) : Type 0 where
  pub placed : r.head < length r.entries
  pub fits : r.len ≤ length r.entries

abbrev pub without_first : List EventRecord → List EventRecord
without_first [] = []
without_first (e ∷ es) = es

-- The record that a push makes.
abbrev pub event : EventKind → Option ℕ → Option ℕ → ℕ → ℕ → EventRing → EventRecord
event kind vm_id vcpu_id arg0 arg1 r = record {
  abi_version = core_abi_version;
  sequence = r.next_sequence;
  kind = kind;
  vm_id = vm_id;
  vcpu_id = vcpu_id;
  arg0 = arg0;
  arg1 = arg1;
}

store_event-room :
    (e : EventRecord) (r : EventRing)
    → IsReady r
    → (r.len == length r.entries) ≡ false
    → IsReady (store_event e r) × (contents (store_event e r) ≡ contents r ++ (e ∷ []))
store_event-room e r h room =
    let slot = (r.head + r.len) % length r.entries in
    let size = length-set r.entries slot e in
    let space : r.len < length r.entries = ground (arith, h.fits) in
    let one : r.len + 1 ≡ suc r.len = omega arith in
    rw (room, one)
      (
        record { placed = rw size h.placed; fits = rw size space },
        window-push empty_event r.len slot r.head r.entries e refl space h.placed,
      )

store_event-full :
    (e : EventRecord) (r : EventRing)
    → IsReady r
    → (r.len == length r.entries) ≡ true
    → IsReady (store_event e r)
      × (contents (store_event e r) ≡ without_first (contents r) ++ (e ∷ []))
unfolding window
store_event-full e r h full =
    let n = r.len - 1 in
    let some_len : r.len ≡ suc n = ground (arith, h.placed) in
    let all_len : length r.entries ≡ suc n = ground (arith, some_len) in
    let size = length-set r.entries r.head e in
    let positive : 0 < length r.entries = omega (arith, h.placed) in
    rw full (
      record { placed = rw size (mod-lt (r.head + 1) positive); fits = rw size h.fits },
      rw some_len (window-overwrite empty_event n r.head r.entries e all_len h.placed),
    )

-- What waits after a push.
abbrev pub pushed : EventRecord → EventRing → List EventRecord
pushed e r =
    (if r.len == length r.entries then without_first (contents r) else contents r) ++ (e ∷ [])

pub push_lossy-ok :
    (kind : EventKind) (vm_id vcpu_id : Option ℕ) (arg0 arg1 : ℕ) (r : EventRing)
    → IsReady r
    → r.next_sequence < u64_max
    → push_lossy kind vm_id vcpu_id arg0 arg1 r ≡ (
      ok (event kind vm_id vcpu_id arg0 arg1 r),
      store_event
          (event kind vm_id vcpu_id arg0 arg1 r)
          (record r { next_sequence = r.next_sequence + 1 }),
    )
unfolding push_lossy
push_lossy-ok kind vm_id vcpu_id arg0 arg1 r h small =
    let some_slot : (length r.entries == 0) ≡ false = ground (arith, h.placed) in
    let next : checked_add r.next_sequence 1 ≡ some (r.next_sequence + 1) = ground arith in
    rw (some_slot, next) refl

-- A push to a ring with at least one slot, while its sequence counter is not used up, succeeds: the
-- record gets the next number and waits behind all others, of which the oldest one is dropped,
-- and counted, exactly if the ring was full.
pub push_lossy_lem :
    (kind : EventKind) (vm_id vcpu_id : Option ℕ) (arg0 arg1 : ℕ) (r : EventRing)
    → IsReady r
    → r.next_sequence < u64_max
    → let (result, r') = push_lossy kind vm_id vcpu_id arg0 arg1 r in
      let e = event kind vm_id vcpu_id arg0 arg1 r in
      (result ≡ ok e)
      × IsReady r'
      × (contents r' ≡ pushed e r)
      × (r'.next_sequence ≡ r.next_sequence + 1)
      × (r'.dropped ≡ (if r.len == length r.entries then r.dropped + 1 else r.dropped))
      × (r'.len ≡ (if r.len == length r.entries then r.len else r.len + 1))
push_lossy_lem kind vm_id vcpu_id arg0 arg1 r h small =
    let e = event kind vm_id vcpu_id arg0 arg1 r in
    let r0 = record r { next_sequence = r.next_sequence + 1 } in
    let h0 : IsReady r0 = record { placed = h.placed; fits = h.fits } in
    rw (push_lossy-ok kind vm_id vcpu_id arg0 arg1 r h small)
      (elim (Bool-cases (r.len == length r.entries)) [
        | inl full ↦
            let (ready, after) = store_event-full e r0 h0 full in
            (refl, ready, after ∙ rw full refl, rw full refl, rw full refl, rw full refl)
        | inr room ↦
            let (ready, after) = store_event-room e r0 h0 room in
            (refl, ready, after ∙ rw room refl, rw room refl, rw room refl, rw room refl)
      ])

-- A pop from an empty ring finds nothing and changes nothing; otherwise it takes the oldest event.
pub pop_event_lem :
    (r : EventRing)
    → IsReady r
    → ((contents r ≡ []) × (pop_event r ≡ (none, r)))
      ⊎ ((e : EventRecord) × ((pop_event r).0 ≡ some e)
          × (contents r ≡ e ∷ contents (pop_event r).1)
          × IsReady (pop_event r).1
          × (r.len ≡ (pop_event r).1.len + 1))
unfolding pop_event window
pop_event_lem r h = elim (Bool-cases (r.len == 0)) [
  | inl empty ↦ let none_left : r.len ≡ 0 = ground arith in inl (rw none_left refl, rw empty refl)
  | inr more ↦
      let n = r.len - 1 in
      let some_len : r.len ≡ suc n = ground arith in
      let positive : 0 < length r.entries = omega (arith, h.placed) in
      inr (
        get_or r.entries r.head empty_event,
        rw more refl,
        rw more (ap (window empty_event r.entries r.head) some_len),
        rw more (record { placed = mod-lt (r.head + 1) positive; fits = omega (arith, h.fits) }),
        rw more (omega (arith, some_len)),
      )
]
