-- ===== src/Core/Scheduler/Queue.antt =====
-- The run queue is first in, first out.
use native.Mathlib.Nat.{mod-lt, mod-add-mod, mod-eq_of_lt, add-mod_right}
use aegis_hv.Common.{
  ℕ, suc, ◌+◌, ◌-◌, ◌%◌, ◌<◌, ◌≤◌, true, Option, none, some, List, [], ◌∷◌, ◌++◌, length,
  length-set, get_or, set, leb, ◌==◌, Result, ok, err, ◌≡◌, refl, arith, ap, sym, ◌∙◌, subst, All,
  All-append, Bool-cases, Option-cases, inl, inr, ◌⊎◌,
}
use aegis_hv.Core.Errors.{CoreErrorKind, invalid_id, invalid_state, ring_full}
use aegis_hv.Core.Scheduler.{
  VcpuRef, VcpuScheduler, knows, push_queue, enqueue, pop_queue, schedule_on,
}
use aegis_hv.Core.Window.{window, window-push, window-set_away}

abbrev pub IsVcpu : Option VcpuRef → Type 0
IsVcpu none = ⊥
IsVcpu (some v) = Unit

-- The vCPUs that wait, the first one first.
abbrev pub ready : VcpuScheduler → List (Option VcpuRef)
ready s = window none s.queue s.head s.len

pub record IsQueue (s : VcpuScheduler) : Type 0 where
  pub placed : s.head < length s.queue
  pub fits : s.len ≤ length s.queue
  pub live : All IsVcpu (ready s)

pub push_queue_lem :
    (v : VcpuRef) (s : VcpuScheduler)
    → IsQueue s
    → ((s.len ≡ length s.queue) × (push_queue v s ≡ (err ring_full, s)))
      ⊎ (((push_queue v s).0 ≡ ok tt)
          × IsQueue (push_queue v s).1
          × (ready (push_queue v s).1 ≡ ready s ++ (some v ∷ []))
          × ((push_queue v s).1.running ≡ s.running)
          × ((push_queue v s).1.halted ≡ s.halted))
unfolding push_queue
push_queue_lem v s h = elim (Bool-cases (s.len == length s.queue)) [
  | inl full ↦ inl (ground arith, rw full refl)
  | inr room ↦
      let slot = (s.head + s.len) % length s.queue in
      let size = length-set s.queue slot (some v) in
      let space : s.len < length s.queue = ground (arith, h.fits) in
      let one : s.len + 1 ≡ suc s.len = omega arith in
      let after = window-push none s.len slot s.head s.queue (some v) refl space h.placed in
      inr (
        rw (room, one)
          (
            refl,
            record {
              placed = rw size h.placed;
              fits = rw size space;
              live = rw after (All-append IsVcpu (ready s) (some v ∷ []) h.live (tt, tt));
            },
            after,
            refl,
            refl,
          ))
]

pub pop_queue_lem :
    (s : VcpuScheduler)
    → IsQueue s
    → ((ready s ≡ []) × (pop_queue s ≡ (none, s)))
      ⊎ ((v : VcpuRef) × ((pop_queue s).0 ≡ some v)
          × (ready s ≡ some v ∷ ready (pop_queue s).1)
          × IsQueue (pop_queue s).1
          × ((pop_queue s).1.running ≡ s.running)
          × ((pop_queue s).1.halted ≡ s.halted))
unfolding pop_queue window
pop_queue_lem s h = elim (Bool-cases (s.len == 0)) [
  | inl empty ↦ let none_left : s.len ≡ 0 = ground arith in inl (rw none_left refl, rw empty refl)
  | inr more ↦
      let l = length s.queue in
      let n = s.len - 1 in
      let next = (s.head + 1) % l in
      let some_len : s.len ≡ suc n = ground arith in
      let first : ready s ≡ get_or s.queue s.head none ∷ window none s.queue next n =
        ap (window none s.queue s.head) some_len in
      let live : All IsVcpu (get_or s.queue s.head none ∷ window none s.queue next n) =
        subst (All IsVcpu) first h.live in
      let inside : next < l = mod-lt (s.head + 1) (omega (arith, h.placed)) in
      let around : (next + (l - 1)) % l ≡ s.head =
        mod-add-mod (s.head + 1) l (l - 1)
        ∙ ap (λ m. m % l) (omega (arith, h.placed))
        ∙ add-mod_right s.head l
        ∙ mod-eq_of_lt h.placed in
      let kept : window none (set s.queue s.head none) next n ≡ window none s.queue next n =
        window-set_away none n (l - 1) s.head next s.queue none around (omega (arith, h.fits))
          (omega (arith, h.placed)) inside in
      let nothing : Option VcpuRef = none in
      let size = length-set s.queue s.head nothing in
      elim (Option-cases (get_or s.queue s.head none)) [
        | inl gone ↦ absurd (subst IsVcpu gone live.0)
        | inr (v, is) ↦ inr (
          v,
          rw more is,
          first ∙ rw (is, more) (ap (λ xs. some v ∷ xs) (sym kept)),
          rw more (record {
            placed = rw size inside;
            fits = rw size (omega (arith, h.fits));
            live = rw kept live.1;
          }),
          rw more refl,
          rw more refl,
        )
      ]
]

-- `enqueue` refuses a vCPU that the scheduler already has, and any vCPU when the queue is full, and
-- then changes nothing. Otherwise the vCPU waits behind all others and nothing else changes.
pub enqueue_lem :
    (v : VcpuRef) (s : VcpuScheduler)
    → IsQueue s
    → ((knows v s ≡ true) × (enqueue v s ≡ (err invalid_state, s)))
      ⊎ (((s.len ≡ length s.queue) × (enqueue v s ≡ (err ring_full, s)))
          ⊎ (((enqueue v s).0 ≡ ok tt)
              × IsQueue (enqueue v s).1
              × (ready (enqueue v s).1 ≡ ready s ++ (some v ∷ []))
              × ((enqueue v s).1.running ≡ s.running)
              × ((enqueue v s).1.halted ≡ s.halted)))
unfolding enqueue
enqueue_lem v s h = elim (Bool-cases (knows v s)) [
  | inl known ↦ inl (known, rw known refl)
  | inr unknown ↦ inr (rw unknown (push_queue_lem v s h))
]

-- The CPU exists and runs no vCPU.
abbrev pub IsIdle : ℕ → VcpuScheduler → Type 0
IsIdle pcpu s = (pcpu < length s.running) × (get_or s.running pcpu none ≡ none)

-- While the ring of waiting vCPUs is well formed: `schedule_on` refuses a CPU that does not exist
-- and a CPU that is busy, and changes nothing. On an idle CPU, with nobody waiting, it changes
-- nothing either; otherwise it takes the vCPU that has waited longest and puts it on the CPU.
pub schedule_on_lem :
    (pcpu : ℕ) (s : VcpuScheduler)
    → IsQueue s
    → let (result, s') = schedule_on pcpu s in
      ((length s.running ≤ pcpu) × (schedule_on pcpu s ≡ (err invalid_id, s)))
      ⊎ ((pcpu < length s.running)
          × ((w : VcpuRef) × (get_or s.running pcpu none ≡ some w)
              × (schedule_on pcpu s ≡ (err invalid_state, s))))
      ⊎ (IsIdle pcpu s × (ready s ≡ []) × (schedule_on pcpu s ≡ (ok none, s)))
      ⊎ (IsIdle pcpu s
          × ((v : VcpuRef) × (result ≡ ok (some v))
              × (ready s ≡ some v ∷ ready s')
              × (s'.running ≡ set s.running pcpu (some v))
              × (s'.halted ≡ s.halted)))
unfolding schedule_on
schedule_on_lem pcpu s h = elim (Bool-cases (leb (length s.running) pcpu)) [
  | inl beyond ↦ inl (ground arith, rw beyond refl)
  | inr near ↦
      let there : pcpu < length s.running = ground (arith, near) in
      elim (Option-cases (get_or s.running pcpu none)) [
        | inr (w, busy) ↦ inr (inl (there, (w, busy, rw (near, busy) refl)))
        | inl idle ↦ elim (pop_queue_lem s h) [
          | inl (empty, same) ↦
              let popped : (pop_queue s).0 ≡ none =
                ap (λ (r : Option VcpuRef × VcpuScheduler). r.0) same in
              let kept : (pop_queue s).1 ≡ s =
                ap (λ (r : Option VcpuRef × VcpuScheduler). r.1) same in
              let nobody : Result (Option VcpuRef) CoreErrorKind = ok none in
              inr (
                inr (
                  inl ((there, idle), empty, rw (near, idle, popped) (ap (λ t. (nobody, t)) kept))))
          | inr (v, popped, before, q, running, halted) ↦ inr (
              inr (
                inr (
                  (there, idle),
                  (
                    v,
                    rw (near, idle, popped) refl,
                    rw (near, idle, popped) before,
                    rw (near, idle, popped) (ap (λ xs. set xs pcpu (some v)) running),
                    rw (near, idle, popped) halted,
                  ),
                )))
        ]
      ]
]
