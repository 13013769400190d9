-- ===== src/Core/PerCpu/Inv.antt =====
-- What holds of the table of CPUs after any sequence of calls.
use aegis_hv.Common.{
  ℕ, suc, ◌+◌, ◌%◌, ◌≤◌, Bool, true, false, ◌&&◌, ◌||◌, not, Option, none, some, List, [], ◌∷◌,
  length, ◌==◌, Result, ok, fail_if, ◌>>=◌, ◌≡◌, ◌≢◌, inl, inr, refl, arith, ap, subst, ◌∙◌, All,
  Pairs, Bool-cases, >>=-eq-ok,
}
use aegis_hv.Common.Word.{u64_mod}
use aegis_hv.Core.Errors.{CoreErrorKind, invalid_state, invalid_transition}
use aegis_hv.Core.Hugepage.Runs.{fail_if-ok}
use aegis_hv.Core.PerCpu.{
  PerCpuState, empty, reserved, stack_ready, online, offline, failed, state_eq, PerCpuSlot,
  PerCpuTable, change_slot, change, attach_slot, online_slot, offline_slot,
}

abbrev HasRing : PerCpuSlot → Type 0
HasRing slot = (index : ℕ) × (slot.event_ring_index ≡ some index)

-- How the state, the ring and the epoch of a slot belong together.
abbrev pub InPhase : PerCpuSlot → PerCpuState → Type 0
InPhase slot stack_ready = slot.scheduler_epoch ≡ 0
InPhase slot online = HasRing slot × (slot.scheduler_epoch % 2 ≡ 1)
InPhase slot offline = HasRing slot × (slot.scheduler_epoch % 2 ≡ 0)
InPhase slot _ = ⊥

abbrev pub IsSlot : PerCpuSlot → Type 0
IsSlot slot =
    (16384 ≤ slot.stack_size)
    × (slot.stack_size % 4096 ≡ 0)
    × (slot.stack_base % 4096 ≡ 0)
    × InPhase slot slot.state

abbrev pub IsTable : PerCpuTable → Type 0
IsTable t =
    (length t.slots ≤ t.capacity) × All IsSlot t.slots × Pairs (λ a b. a.cpu ≢ b.cpu) t.slots

-- A change of a slot that succeeds keeps it in order, and its CPU.
abbrev Keeps : (PerCpuSlot → Result PerCpuSlot CoreErrorKind) → Type 0
Keeps f =
    (slot slot' : PerCpuSlot)
    → IsSlot slot
    → f slot ≡ ok slot'
    → IsSlot slot' × (slot'.cpu ≡ slot.cpu)

attached-InPhase :
    (index : ℕ) (slot : PerCpuSlot) (s : PerCpuState)
    → InPhase slot s
    → InPhase (record slot { event_ring_index = some index }) s
attached-InPhase index slot stack_ready phase = phase
attached-InPhase index slot online (_, odd) = ((index, refl), odd)
attached-InPhase index slot offline (_, even) = ((index, refl), even)
attached-InPhase index slot empty phase = absurd phase
attached-InPhase index slot reserved phase = absurd phase
attached-InPhase index slot failed phase = absurd phase

pub attach_slot-Keeps : (index : ℕ) → Keeps (attach_slot index)
unfolding attach_slot
attach_slot-Keeps index slot slot' (a, b, c, phase) done =
    let after : PerCpuSlot = record slot { event_ring_index = some index } in
    let (_, _, made) =
      >>=-eq-ok (fail_if (state_eq slot.state empty || state_eq slot.state failed) invalid_state) _
        done in
    let e : after ≡ slot' = ground (arith, made) in
    subst (λ q. IsSlot q × (q.cpu ≡ slot.cpu)) e
      ((a, b, c, attached-InPhase index slot slot.state phase), refl)

-- The epoch is even, when the slot is not online.
even_epoch :
    (slot : PerCpuSlot) (s : PerCpuState)
    → InPhase slot s
    → (not (state_eq s stack_ready) && not (state_eq s offline)) ≡ false
    → slot.scheduler_epoch % 2 ≡ 0
even_epoch slot stack_ready phase h = omega (arith, phase)
even_epoch slot offline (_, even) h = even
even_epoch slot online phase h = absurd (ground (arith, h))
even_epoch slot empty phase h = absurd phase
even_epoch slot reserved phase h = absurd phase
even_epoch slot failed phase h = absurd phase

some_ring :
    (ring : Option ℕ)
    → elim ring [ none ↦ true | some _ ↦ false ] ≡ false
    → (index : ℕ) × (ring ≡ some index)
some_ring none h = absurd (ground (arith, h))
some_ring (some index) h = (index, refl)

pub online_slot-Keeps : Keeps online_slot
unfolding online_slot
online_slot-Keeps slot slot' (a, b, c, phase) done =
    let wrong = not (state_eq slot.state stack_ready) && not (state_eq slot.state offline) in
    let missing : Bool = elim slot.event_ring_index [ none ↦ true | some _ ↦ false ] in
    let (_, right, done') = >>=-eq-ok (fail_if wrong invalid_transition) _ done in
    let (_, ring, made) = >>=-eq-ok (fail_if missing invalid_state) _ done' in
    let after : PerCpuSlot = record slot {
      state = online;
      scheduler_epoch = (slot.scheduler_epoch + 1) % u64_mod;
    } in
    let e : after ≡ slot' = ground (arith, made) in
    let even = even_epoch slot slot.state phase (fail_if-ok wrong invalid_transition right) in
    let has = some_ring slot.event_ring_index (fail_if-ok missing invalid_state ring) in
    subst (λ q. IsSlot q × (q.cpu ≡ slot.cpu)) e ((a, b, c, (has, omega (arith, even))), refl)

online_phase :
    (slot : PerCpuSlot) (s : PerCpuState)
    → InPhase slot s
    → not (state_eq s online) ≡ false
    → HasRing slot × (slot.scheduler_epoch % 2 ≡ 1)
online_phase slot online phase h = phase
online_phase slot stack_ready phase h = absurd (ground (arith, h))
online_phase slot offline phase h = absurd (ground (arith, h))
online_phase slot empty phase h = absurd phase
online_phase slot reserved phase h = absurd phase
online_phase slot failed phase h = absurd phase

pub offline_slot-Keeps : Keeps offline_slot
unfolding offline_slot
offline_slot-Keeps slot slot' (a, b, c, phase) done =
    let wrong = not (state_eq slot.state online) in
    let (_, right, made) = >>=-eq-ok (fail_if wrong invalid_transition) _ done in
    let after : PerCpuSlot = record slot {
      state = offline;
      scheduler_epoch = (slot.scheduler_epoch + 1) % u64_mod;
    } in
    let e : after ≡ slot' = ground (arith, made) in
    let (has, odd) =
      online_phase slot slot.state phase (fail_if-ok wrong invalid_transition right) in
    subst (λ q. IsSlot q × (q.cpu ≡ slot.cpu)) e ((a, b, c, (has, omega (arith, odd))), refl)

-- The lists of slots have the same CPUs.
abbrev SameCpus : List PerCpuSlot → List PerCpuSlot → Type 0
SameCpus [] [] = Unit
SameCpus (a ∷ xs) (b ∷ ys) = (b.cpu ≡ a.cpu) × SameCpus xs ys
SameCpus _ _ = ⊥

SameCpus-refl : (slots : List PerCpuSlot) → SameCpus slots slots
SameCpus-refl [] = tt
SameCpus-refl (slot ∷ slots) = (refl, SameCpus-refl slots)

SameCpus-length : (xs ys : List PerCpuSlot) → SameCpus xs ys → length ys ≡ length xs
SameCpus-length [] [] h = refl
SameCpus-length [] (b ∷ ys) h = absurd h
SameCpus-length (a ∷ xs) [] h = absurd h
SameCpus-length (a ∷ xs) (b ∷ ys) h = ap suc (SameCpus-length xs ys h.1)

SameCpus-All :
    (cpu : ℕ) (xs ys : List PerCpuSlot)
    → SameCpus xs ys
    → All (λ s. cpu ≢ s.cpu) xs
    → All (λ s. cpu ≢ s.cpu) ys
SameCpus-All cpu [] [] same h = tt
SameCpus-All cpu [] (b ∷ ys) same h = absurd same
SameCpus-All cpu (a ∷ xs) [] same h = absurd same
SameCpus-All cpu (a ∷ xs) (b ∷ ys) same h =
    ((λ e. h.0 (e ∙ same.0)), SameCpus-All cpu xs ys same.1 h.1)

SameCpus-Pairs :
    (xs ys : List PerCpuSlot)
    → SameCpus xs ys
    → Pairs (λ a b. a.cpu ≢ b.cpu) xs
    → Pairs (λ a b. a.cpu ≢ b.cpu) ys
SameCpus-Pairs [] [] same h = tt
SameCpus-Pairs [] (b ∷ ys) same h = absurd same
SameCpus-Pairs (a ∷ xs) [] same h = absurd same
SameCpus-Pairs (a ∷ xs) (b ∷ ys) same h =
    (rw same.0 (SameCpus-All a.cpu xs ys same.1 h.0), SameCpus-Pairs xs ys same.1 h.1)

abbrev all_slots : List PerCpuSlot → Result (List PerCpuSlot) CoreErrorKind
all_slots = ok

change_slot_lem :
    (cpu : ℕ) (f : PerCpuSlot → Result PerCpuSlot CoreErrorKind) (slots out : List PerCpuSlot)
    → Keeps f
    → All IsSlot slots
    → change_slot cpu f slots ≡ ok out
    → All IsSlot out × SameCpus slots out
unfolding change_slot
change_slot_lem cpu f [] out keeps h done = absurd (ground (arith, done))
change_slot_lem cpu f (slot ∷ slots) out keeps h done = elim (Bool-cases (slot.cpu == cpu)) [
  | inl here ↦
      let done' : (f slot >>= λ slot'. all_slots (slot' ∷ slots)) ≡ ok out =
        rw (here, change_slot) at done in
      let (slot', e, made) = >>=-eq-ok (f slot) _ done' in
      let (is, same) = keeps slot slot' h.0 e in
      let e' : slot' ∷ slots ≡ out = ground (arith, made) in
      subst (λ o. All IsSlot o × SameCpus (slot ∷ slots) o) e'
        ((is, h.1), (same, SameCpus-refl slots))
  | inr behind ↦
      let done' : (change_slot cpu f slots >>= λ rest. all_slots (slot ∷ rest)) ≡ ok out =
        rw (behind, change_slot) at done in
      let (rest, e, made) = >>=-eq-ok (change_slot cpu f slots) _ done' in
      let (all, same) = change_slot_lem cpu f slots rest keeps h.1 e in
      let e' : slot ∷ rest ≡ out = ground (arith, made) in
      subst (λ o. All IsSlot o × SameCpus (slot ∷ slots) o) e' ((h.0, all), (refl, same))
]

pub change-IsTable :
    (cpu : ℕ) (f : PerCpuSlot → Result PerCpuSlot CoreErrorKind) (t t' : PerCpuTable)
    → Keeps f
    → IsTable t
    → change cpu f t ≡ ok t'
    → IsTable t'
change-IsTable cpu f t t' keeps (few, all, apart) done =
    let (slots, e, made) = >>=-eq-ok (change_slot cpu f t.slots) _ done in
    let e' : record t { slots = slots } ≡ t' = ground (arith, made) in
    let (all', same) = change_slot_lem cpu f t.slots slots keeps all e in
    subst IsTable e' (
      omega (arith, few, SameCpus-length t.slots slots same),
      all',
      SameCpus-Pairs t.slots slots same apart,
    )
