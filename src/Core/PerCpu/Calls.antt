-- ===== src/Core/PerCpu/Calls.antt =====
-- The table of CPUs along any sequence of calls.
use aegis_hv.Common.{
  ℕ, ◌*◌, ◌%◌, ◌≤◌, ◌<◌, Bool, true, false, ◌||◌, not, none, some, List, [], ◌∷◌, ◌++◌, length,
  length-append, ltb, leb, ◌==◌, Result, ok, err, fail_if, ◌≡◌, ◌≢◌, inl, inr, refl, arith, subst,
  All, All-append, Pairs-snoc, Bool-cases, Result-cases, >>=-eq-ok,
}
use aegis_hv.Core.Errors.{CoreErrorKind, capacity_exceeded, invalid_state, invalid_address}
use aegis_hv.Core.Hugepage.Runs.{fail_if-ok}
use aegis_hv.Core.PerCpu.{
  stack_ready, PerCpuSlot, PerCpuTable, new_table, find_slot, reserve_stack, attach_slot,
  online_slot, offline_slot, attach_event_ring, mark_online, mark_offline,
}
use aegis_hv.Core.PerCpu.Inv.{
  IsSlot, IsTable, attach_slot-Keeps, online_slot-Keeps, offline_slot-Keeps, change-IsTable,
}

find_slot-none :
    (cpu : ℕ) (slots : List PerCpuSlot)
    → elim (find_slot cpu slots) [ none ↦ false | some _ ↦ true ] ≡ false
    → All (λ s. s.cpu ≢ cpu) slots
unfolding find_slot
find_slot-none cpu [] h = tt
find_slot-none cpu (slot ∷ slots) h = elim (Bool-cases (slot.cpu == cpu)) [
  | inl here ↦ absurd (ground (arith, rw (here, find_slot) at h))
  | inr behind ↦ (ground (arith, behind), find_slot-none cpu slots (rw (behind, find_slot) at h))
]

abbrev bad_stack : ℕ → ℕ → Bool
bad_stack base size = ltb size (16 * 1024) || not (size % 4096 == 0) || not (base % 4096 == 0)

good_stack :
    (base size : ℕ)
    → bad_stack base size ≡ false
    → (16384 ≤ size) × (size % 4096 ≡ 0) × (base % 4096 ≡ 0)
good_stack base size h = ground (arith, h)

reserve_stack-IsTable :
    (cpu base size : ℕ) (t t' : PerCpuTable)
    → IsTable t
    → reserve_stack cpu base size t ≡ ok t'
    → IsTable t'
unfolding reserve_stack
reserve_stack-IsTable cpu base size t t' (few, all, apart) done =
    let full = leb t.capacity (length t.slots) in
    let known : Bool = elim (find_slot cpu t.slots) [ none ↦ false | some _ ↦ true ] in
    let bad = bad_stack base size in
    let (_, some_room, h1) = >>=-eq-ok (fail_if full capacity_exceeded) _ done in
    let (_, unknown, h2) = >>=-eq-ok (fail_if known invalid_state) _ h1 in
    let (_, good, h3) = >>=-eq-ok (fail_if bad invalid_address) _ h2 in
    let slot : PerCpuSlot = record {
      cpu = cpu;
      state = stack_ready;
      stack_base = base;
      stack_size = size;
      event_ring_index = none;
      scheduler_epoch = 0;
    } in
    let e : record t { slots = t.slots ++ (slot ∷ []) } ≡ t' = ground (arith, h3) in
    let (big, whole, aligned) = good_stack base size (fail_if-ok bad invalid_address good) in
    let room : length t.slots < t.capacity =
      ground (arith, fail_if-ok full capacity_exceeded some_room) in
    let fresh = find_slot-none cpu t.slots (fail_if-ok known invalid_state unknown) in
    subst IsTable e (
      omega (arith, length-append t.slots (slot ∷ []), room),
      All-append IsSlot t.slots (slot ∷ []) all ((big, whole, aligned, refl), tt),
      Pairs-snoc (λ a b. a.cpu ≢ b.cpu) t.slots slot apart fresh,
    )

pub data Call : Type 0 where
  reserves : ℕ → ℕ → ℕ → Call
  attaches : ℕ → ℕ → Call
  goes_online goes_offline : ℕ → Call

unfoldable pub serve : Call → PerCpuTable → Result PerCpuTable CoreErrorKind
unfolding reserve_stack attach_event_ring mark_online mark_offline
serve (reserves cpu base size) = reserve_stack cpu base size
serve (attaches cpu index) = attach_event_ring cpu index
serve (goes_online cpu) = mark_online cpu
serve (goes_offline cpu) = mark_offline cpu

-- A call that fails leaves the table as it is.
abbrev pub after : PerCpuTable → Result PerCpuTable CoreErrorKind → PerCpuTable
after t (ok t') = t'
after t (err _) = t

unfoldable pub serve_calls : List Call → PerCpuTable → PerCpuTable
unfolding serve
serve_calls [] t = t
serve_calls (call ∷ calls) t = serve_calls calls (after t (serve call t))

serve-IsTable : (call : Call) (t t' : PerCpuTable) → IsTable t → serve call t ≡ ok t' → IsTable t'
unfolding serve attach_event_ring mark_online mark_offline
serve-IsTable (reserves cpu base size) t t' h done = reserve_stack-IsTable cpu base size t t' h done
serve-IsTable (attaches cpu index) t t' h done =
    change-IsTable cpu (attach_slot index) t t' (attach_slot-Keeps index) h done
serve-IsTable (goes_online cpu) t t' h done =
    change-IsTable cpu online_slot t t' online_slot-Keeps h done
serve-IsTable (goes_offline cpu) t t' h done =
    change-IsTable cpu offline_slot t t' offline_slot-Keeps h done

serve_calls-IsTable :
    (calls : List Call) (t : PerCpuTable) → IsTable t → IsTable (serve_calls calls t)
unfolding serve_calls
serve_calls-IsTable [] t h = h
serve_calls-IsTable (call ∷ calls) t h = elim (Result-cases (serve call t)) [
  | inl (t', e) ↦ rw (serve_calls, e) (serve_calls-IsTable calls t' (serve-IsTable call t t' h e))
  | inr (_, e) ↦ rw (serve_calls, e) (serve_calls-IsTable calls t h)
]

-- Whatever is called on a new table, failing calls included, it has at most as many slots as its
-- array, each for a CPU of its own, and each with an aligned stack of 16 KiB at least. A CPU that
-- is online or offline has an event ring, and its epoch is odd exactly while it is online.
pub serve_calls-new_table :
    (capacity : ℕ) (calls : List Call) → IsTable (serve_calls calls (new_table capacity))
serve_calls-new_table capacity calls =
    serve_calls-IsTable calls (new_table capacity) (omega arith, tt, tt)
