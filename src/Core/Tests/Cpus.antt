-- ===== src/Core/Tests/Cpus.antt =====
-- The scheduler at concrete inputs.
use aegis_hv.Common.{
  ◌≤◌, none, some, List, [], ◌∷◌, length, get_or, set, ok, err, ◌≡◌, ◌⊎◌, refl, arith, ◌<◌,
}
use aegis_hv.Core.Errors.{invalid_id, invalid_state}
use aegis_hv.Core.Scheduler.{
  VcpuRef, VcpuScheduler, running, runnable, new_scheduler, schedule_on, state_of,
}
use aegis_hv.Core.Scheduler.Queue.{ready, IsQueue, schedule_on_lem, IsIdle}
use aegis_hv.Core.Scheduler.Once.{IsOrderly, Request, enqueues, schedules, serve_all, serve_all-new}

abbrev first : VcpuRef
first = record { vm_id = 1; vcpu_id = 0 }

abbrev second : VcpuRef
second = record { vm_id = 1; vcpu_id = 1 }

abbrev requests : List Request
requests = enqueues first ∷ enqueues second ∷ schedules 0 ∷ enqueues first ∷ []

abbrev busy : VcpuScheduler
busy = serve_all (new_scheduler 2 2) requests

where_they_are : (state_of first busy ≡ some (running 0)) × (state_of second busy ≡ some runnable)
unfolding serve_all state_of
where_they_are = (refl, refl)

serve_all-new_example : IsOrderly busy
serve_all-new_example = serve_all-new 2 2 requests (omega arith)

busy-IsQueue : IsQueue busy
busy-IsQueue = (serve_all-new 2 2 requests (omega arith)).queue

schedule_on_lem_example :
    let (result, s') = schedule_on 1 busy in
    ((length busy.running ≤ 1) × (schedule_on 1 busy ≡ (err invalid_id, busy)))
    ⊎ ((1 < length busy.running)
        × ((w : VcpuRef) × (get_or busy.running 1 none ≡ some w)
            × (schedule_on 1 busy ≡ (err invalid_state, busy))))
    ⊎ (IsIdle 1 busy × (ready busy ≡ []) × (schedule_on 1 busy ≡ (ok none, busy)))
    ⊎ (IsIdle 1 busy
        × ((v : VcpuRef) × (result ≡ ok (some v))
            × (ready busy ≡ some v ∷ ready s')
            × (s'.running ≡ set busy.running 1 (some v))
            × (s'.halted ≡ busy.halted)))
schedule_on_lem_example = schedule_on_lem 1 busy busy-IsQueue
