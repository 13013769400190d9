-- ===== src/Core/Scheduler/Once.antt =====
-- Every vCPU stands in at most one place, whatever the scheduler is asked to do.
use aegis_hv.Common.{
  ℕ, ◌+◌, ◌<◌, ◌≤◌, false, Option, none, some, List, [], ◌∷◌, length, length-replicate, get_or, set,
  leb, ◌==◌, Result, ◌≡◌, refl, arith, ap, sym, subst, Bool-cases, Option-cases, inl, inr,
}
use aegis_hv.Core.Errors.{CoreErrorKind}
use aegis_hv.Core.Scheduler.{
  VcpuRef, holds, any_holds, VcpuScheduler, new_scheduler, knows, push_queue, enqueue, pop_queue,
  schedule_on, halt_running, wake, remove_first,
}
use aegis_hv.Core.Scheduler.Places.{
  one, count, count-append, count-fill, count-clear, count-remove, count-absent, count-window,
  count-replicate, count-one, count-cons, holds-some,
}
use aegis_hv.Core.Scheduler.Queue.{ready, IsQueue, push_queue_lem, pop_queue_lem}
use aegis_hv.Core.Window.{window}

-- How often a vCPU waits, runs and is halted.
abbrev pub places : VcpuRef → VcpuScheduler → ℕ
places v s = count v (ready s) + (count v s.running + count v s.halted)

pub record IsOrderly (s : VcpuScheduler) : Type 0 where
  pub queue : IsQueue s
  pub once : (v : VcpuRef) → places v s ≤ 1

-- A step that moves vCPUs and adds none.
moves :
    (s s' : VcpuScheduler)
    → IsOrderly s
    → IsQueue s'
    → ((v : VcpuRef) → places v s' ≡ places v s)
    → IsOrderly s'
moves s s' h q same = record { queue = q; once = λ v. omega (arith, same v, h.once v) }

halt_running-IsOrderly :
    (pcpu : ℕ) (s : VcpuScheduler) → IsOrderly s → IsOrderly (halt_running pcpu s).1
unfolding halt_running
halt_running-IsOrderly pcpu s h = elim (Bool-cases (leb (length s.running) pcpu)) [
  | inl beyond ↦ rw beyond h
  | inr near ↦ elim (Option-cases (get_or s.running pcpu none)) [
    | inl idle ↦ rw (near, idle) h
    | inr (w, runs) ↦ elim (Bool-cases (length s.halted == length s.queue)) [
      | inl full ↦ rw (near, runs, full) h
      | inr room ↦
          rw (near, runs, room)
            (moves s _ h
              (record { placed = h.queue.placed; fits = h.queue.fits; live = h.queue.live })
              (λ v. omega (
                arith,
                count-clear v w pcpu s.running runs,
                count-append v s.halted (some w ∷ []),
                count-one v w,
              )))
    ]
  ]
]

schedule_on-IsOrderly :
    (pcpu : ℕ) (s : VcpuScheduler) → IsOrderly s → IsOrderly (schedule_on pcpu s).1
unfolding schedule_on
schedule_on-IsOrderly pcpu s h = elim (Bool-cases (leb (length s.running) pcpu)) [
  | inl beyond ↦ rw beyond h
  | inr near ↦ elim (Option-cases (get_or s.running pcpu none)) [
    | inr (w, busy) ↦ rw (near, busy) h
    | inl idle ↦ elim (pop_queue_lem s h.queue) [
      | inl (_, same) ↦
          rw (near, idle, ap (λ (r : Option VcpuRef × VcpuScheduler). r.0) same)
            (subst IsOrderly (sym (ap (λ (r : Option VcpuRef × VcpuScheduler). r.1) same)) h)
      | inr (v, popped, before, q, running, halted) ↦
          let s' = (pop_queue s).1 in
          rw (near, idle, popped)
            (moves s _ h (record { placed = q.placed; fits = q.fits; live = q.live })
              (λ w. omega (
                arith,
                ap (count w) before,
                count-cons w (some v) (ready s'),
                ap (λ xs. count w (set xs pcpu (some v))) running,
                ap (count w) halted,
                count-fill w v pcpu s.running (ground arith) idle,
              )))
    ]
  ]
]

wake-IsOrderly : (v : VcpuRef) (s : VcpuScheduler) → IsOrderly s → IsOrderly (wake v s).1
unfolding wake
wake-IsOrderly v s h = elim (Bool-cases (any_holds v s.halted)) [
  | inr absent ↦ rw absent h
  | inl there ↦ elim (push_queue_lem v s h.queue) [
    | inl (_, full) ↦
        rw (there, ap (λ (r : Result (Unit {0}) CoreErrorKind × VcpuScheduler). r.0) full)
          (subst IsOrderly
            (sym (ap (λ (r : Result (Unit {0}) CoreErrorKind × VcpuScheduler). r.1) full)) h)
    | inr (pushed, q, after, running, halted) ↦
        rw (there, pushed)
          (moves s _ h (record { placed = q.placed; fits = q.fits; live = q.live })
            (λ w. omega (
              arith,
              ap (count w) after,
              count-append w (ready s) (some v ∷ []),
              count-one w v,
              ap (count w) running,
              ap (λ xs. count w (remove_first v xs)) halted,
              count-remove w v s.halted there,
            )))
  ]
]

-- A vCPU that `contains` does not find is nowhere.
places-unknown : (v : VcpuRef) (s : VcpuScheduler) → knows v s ≡ false → places v s ≡ 0
places-unknown v s h =
    let queue : any_holds v s.queue ≡ false = ground arith in
    let running : any_holds v s.running ≡ false = ground arith in
    let halted : any_holds v s.halted ≡ false = ground arith in
    omega (
      arith,
      count-window v s.len s.head s.queue queue,
      count-absent v s.running running,
      count-absent v s.halted halted,
    )

enqueue-IsOrderly : (v : VcpuRef) (s : VcpuScheduler) → IsOrderly s → IsOrderly (enqueue v s).1
unfolding enqueue
enqueue-IsOrderly v s h = elim (Bool-cases (knows v s)) [
  | inl known ↦ rw known h
  | inr unknown ↦ elim (push_queue_lem v s h.queue) [
    | inl (_, full) ↦ rw (unknown, full) h
    | inr (pushed, q, after, running, halted) ↦ rw unknown (record {
      queue = q;
      once = λ w.
          let total : places w (push_queue v s).1 ≡ places w s + one (holds w (some v)) = omega (
            arith,
            ap (count w) after,
            count-append w (ready s) (some v ∷ []),
            count-one w v,
            ap (count w) running,
            ap (count w) halted,
          ) in
          elim (Bool-cases (holds w (some v))) [
            | inr other ↦
                let none_more : one (holds w (some v)) ≡ 0 = ap one other in
                omega (arith, total, none_more, h.once w)
            | inl same ↦
                let one_more : one (holds w (some v)) ≡ 1 = ap one same in
                let e : v ≡ w = ground (arith, holds-some w (some v) same) in
                let gone : places w s ≡ 0 =
                  subst (λ x. places x s ≡ 0) e (places-unknown v s unknown) in
                omega (arith, total, one_more, gone)
          ];
    })
  ]
]

-- What a client asks of the scheduler.
pub data Request : Type 0 where
  enqueues wakes : VcpuRef → Request
  schedules halts : ℕ → Request

unfoldable pub serve : VcpuScheduler → Request → VcpuScheduler
unfolding enqueue wake schedule_on halt_running
serve s (enqueues v) = (enqueue v s).1
serve s (wakes v) = (wake v s).1
serve s (schedules pcpu) = (schedule_on pcpu s).1
serve s (halts pcpu) = (halt_running pcpu s).1

unfoldable pub serve_all : VcpuScheduler → List Request → VcpuScheduler
unfolding serve
serve_all s [] = s
serve_all s (q ∷ qs) = serve_all (serve s q) qs

serve-IsOrderly : (q : Request) (s : VcpuScheduler) → IsOrderly s → IsOrderly (serve s q)
unfolding serve
serve-IsOrderly (enqueues v) s h = enqueue-IsOrderly v s h
serve-IsOrderly (wakes v) s h = wake-IsOrderly v s h
serve-IsOrderly (schedules pcpu) s h = schedule_on-IsOrderly pcpu s h
serve-IsOrderly (halts pcpu) s h = halt_running-IsOrderly pcpu s h

serve_all-IsOrderly :
    (qs : List Request) (s : VcpuScheduler) → IsOrderly s → IsOrderly (serve_all s qs)
unfolding serve_all
serve_all-IsOrderly [] s h = h
serve_all-IsOrderly (q ∷ qs) s h = serve_all-IsOrderly qs (serve s q) (serve-IsOrderly q s h)

-- Whatever is asked of a new scheduler with at least one queue slot, every vCPU stands at most once
-- among those that wait, run and are
-- halted, and the waiting slots of the queue all hold one.
pub serve_all-new :
    (q p : ℕ) (requests : List Request) → 0 < q → IsOrderly (serve_all (new_scheduler q p) requests)
serve_all-new q p requests h =
    let nothing : Option VcpuRef = none in
    let size = length-replicate q nothing in
    let empty : (v : VcpuRef) → count v (ready (new_scheduler q p)) + count v [] ≡ 0 =
      λ v. unfold window in unfold count in refl in
    serve_all-IsOrderly requests (new_scheduler q p) (record {
      queue = record {
        placed = omega (arith, size);
        fits = omega arith;
        live = unfold window in tt;
      };
      once = λ v. omega (arith, count-replicate v p, empty v);
    })
