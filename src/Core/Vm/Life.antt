-- ===== src/Core/Vm/Life.antt =====
-- Sequences of transitions of a VM.
use aegis_hv.Common.{
  ℕ, ◌≤◌, Bool, true, false, List, [], ◌∷◌, length, ok, err, ◌≡◌, ◌⊎◌, inl, inr, refl, arith,
  Bool-cases,
}
use aegis_hv.Core.Errors.{invalid_transition}
use aegis_hv.Core.Vm.{
  VmState, created, configured, runnable, running, paused, stopping, stopped, crashed, Vm,
  allowed_transition, transition,
}

-- The requests one after the other, whatever each of them returns.
unfoldable pub transitions : List VmState → Vm → Vm
unfolding transition
transitions [] vm = vm
transitions (next ∷ rest) vm = transitions rest (transition next vm).1

-- How far a VM has come.
abbrev pub stage : VmState → ℕ
stage created = 0
stage configured = 1
stage runnable = 2
stage running = 3
stage paused = 3
stage stopping = 4
stage stopped = 5
stage crashed = 5

abbrev pub has_ended : VmState → Bool
has_ended stopped = true
has_ended crashed = true
has_ended _ = false

-- The way to the stop from each state.
abbrev pub shutdown : VmState → List VmState
shutdown created = configured ∷ (runnable ∷ (stopping ∷ (stopped ∷ [])))
shutdown configured = runnable ∷ (stopping ∷ (stopped ∷ []))
shutdown stopping = stopped ∷ []
shutdown _ = stopping ∷ (stopped ∷ [])

allowed_transition-stage : (s t : VmState) → allowed_transition s t ≡ true → stage s ≤ stage t
unfolding allowed_transition
allowed_transition-stage s t h = ground arith

ended_for_good : (s t : VmState) → has_ended s ≡ true → allowed_transition s t ≡ false
unfolding allowed_transition
ended_for_good stopped t h = ground arith
ended_for_good crashed t h = ground arith
ended_for_good created t h = absurd (ground arith)
ended_for_good configured t h = absurd (ground arith)
ended_for_good runnable t h = absurd (ground arith)
ended_for_good running t h = absurd (ground arith)
ended_for_good paused t h = absurd (ground arith)
ended_for_good stopping t h = absurd (ground arith)

transition-cases :
    (next : VmState) (vm : Vm)
    → ((allowed_transition vm.state next ≡ true)
        × (transition next vm ≡ (ok tt, record vm { state = next })))
      ⊎ (transition next vm ≡ (err invalid_transition, vm))
unfolding transition
transition-cases next vm = elim (Bool-cases (allowed_transition vm.state next)) [
  | inl may ↦ inl (may, rw (transition, may) refl)
  | inr must_not ↦ inr (rw (transition, must_not) refl)
]

-- A VM goes on only.
abbrev GoesOn : Vm → Vm → Type 0
GoesOn vm vm' = (vm'.id ≡ vm.id) × (stage vm.state ≤ stage vm'.state)

transitions-GoesOn : (requests : List VmState) (vm : Vm) → GoesOn vm (transitions requests vm)
unfolding transitions
transitions-GoesOn [] vm = (refl, omega arith)
transitions-GoesOn (next ∷ rest) vm = elim (transition-cases next vm) [
  | inl (may, e) ↦
      let (same, on) = transitions-GoesOn rest (record vm { state = next }) in
      let on' = allowed_transition-stage vm.state next may in
      rw (transitions, e) (same, omega (arith, on, on'))
  | inr e ↦ rw (transitions, e) (transitions-GoesOn rest vm)
]

ended-transitions :
    (requests : List VmState) (vm : Vm) → has_ended vm.state ≡ true → transitions requests vm ≡ vm
unfolding transitions
ended-transitions [] vm h = refl
ended-transitions (next ∷ rest) vm h =
    let e : transition next vm ≡ (err invalid_transition, vm) =
      unfold transition in rw (ended_for_good vm.state next h) refl in
    rw (transitions, e) (ended-transitions rest vm h)

shutdown-transitions :
    (id : ℕ) (s : VmState)
    → (has_ended s ≡ true)
      ⊎ ((has_ended s ≡ false)
          × (transitions (shutdown s) (record { id = id; state = s })
              ≡ record { id = id; state = stopped }))
unfolding transitions transition allowed_transition
shutdown-transitions id created = inr (refl, refl)
shutdown-transitions id configured = inr (refl, refl)
shutdown-transitions id runnable = inr (refl, refl)
shutdown-transitions id running = inr (refl, refl)
shutdown-transitions id paused = inr (refl, refl)
shutdown-transitions id stopping = inr (refl, refl)
shutdown-transitions id stopped = inl refl
shutdown-transitions id crashed = inl refl

shutdown-length : (s : VmState) → length (shutdown s) ≤ 4
shutdown-length s = ground arith

-- Whatever is requested of a VM, it keeps its id and never goes back in its life cycle. Then either
-- it has ended, stopped or crashed, and no further requests change it, or it has not, and the
-- requests of `shutdown`, four at most, bring it to a stop.
pub life_lem :
    (requests : List VmState) (vm : Vm)
    → let vm' = transitions requests vm in
      (vm'.id ≡ vm.id)
      × (stage vm.state ≤ stage vm'.state)
      × (((has_ended vm'.state ≡ true) × ((more : List VmState) → transitions more vm' ≡ vm'))
          ⊎ ((has_ended vm'.state ≡ false)
              × (length (shutdown vm'.state) ≤ 4)
              × (transitions (shutdown vm'.state) vm' ≡ record vm' { state = stopped })))
life_lem requests vm =
    let vm' = transitions requests vm in
    let (same, on) = transitions-GoesOn requests vm in
    elim (shutdown-transitions vm'.id vm'.state) [
      | inl h ↦ (same, on, inl (h, λ more. ended-transitions more vm' h))
      | inr (going, e) ↦ (same, on, inr (going, shutdown-length vm'.state, e))
    ]
