-- ===== src/Core/Scheduler.antt =====
-- crates/aegishv-hypervisor-core/src/scheduler.rs: which vCPU waits, runs or is halted. The sizes `Q`
-- and `P` are the lengths of `queue` and `running`; the array of halted vCPUs is the list of its
-- live entries, behind which it holds nothing.
pub mod Places
pub mod Queue
pub mod Once
use aegis_hv.Common.{
  ℕ, zero, suc, ◌+◌, ◌-◌, ◌%◌, Bool, true, false, ◌&&◌, ◌||◌, Option, none, some, List, [], ◌∷◌,
  ◌++◌, length, get_or, set, replicate, leb, ◌==◌, if◌then◌else◌, Result, ok, err, Method,
}
use aegis_hv.Core.Errors.{CoreErrorKind, invalid_id, invalid_state, capacity_exceeded, ring_full}
use aegis_hv.Core.Ids.{new_physical_cpu_id}

pub record VcpuRef : Type 0 where
  pub vm_id : ℕ
  pub vcpu_id : ℕ

pub data VcpuRunState : Type 0 where
  runnable halted : VcpuRunState
  running : ℕ → VcpuRunState

-- `*entry == Some(vcpu)`
unfoldable pub holds : VcpuRef → Option VcpuRef → Bool
holds v none = false
holds v (some w) = w.vm_id == v.vm_id && w.vcpu_id == v.vcpu_id

unfoldable pub any_holds : VcpuRef → List (Option VcpuRef) → Bool
any_holds v [] = false
any_holds v (x ∷ xs) = holds v x || any_holds v xs

pub record VcpuScheduler : Type 0 where
  pub queue : List (Option VcpuRef)
  pub head : ℕ
  pub len : ℕ
  pub running : List (Option VcpuRef)
  pub halted : List (Option VcpuRef)

-- `VcpuScheduler::new`
abbrev pub new_scheduler : ℕ → ℕ → VcpuScheduler
new_scheduler q p = record {
  queue = replicate q none;
  head = 0;
  len = 0;
  running = replicate p none;
  halted = [];
}

-- `VcpuScheduler::contains`
abbrev pub knows : VcpuRef → VcpuScheduler → Bool
knows v s = any_holds v s.queue || any_holds v s.running || any_holds v s.halted

unfoldable pub push_queue : VcpuRef → Method VcpuScheduler CoreErrorKind (Unit {0})
push_queue v s = if s.len == length s.queue then (err ring_full, s) else (
  ok tt,
  record s { queue = set s.queue ((s.head + s.len) % length s.queue) (some v); len = s.len + 1 },
)

unfoldable pub enqueue : VcpuRef → Method VcpuScheduler CoreErrorKind (Unit {0})
unfolding any_holds push_queue
enqueue v s = if knows v s then (err invalid_state, s) else push_queue v s

unfoldable pub pop_queue : VcpuScheduler → Option VcpuRef × VcpuScheduler
pop_queue s = if s.len == 0 then (none, s) else (
  get_or s.queue s.head none,
  record s {
    queue = set s.queue s.head none;
    head = (s.head + 1) % length s.queue;
    len = s.len - 1;
  },
)

unfoldable pub schedule_on : ℕ → Method VcpuScheduler CoreErrorKind (Option VcpuRef)
unfolding pop_queue
schedule_on pcpu s =
    let (popped, s') = pop_queue s in
    let taken : Result (Option VcpuRef) CoreErrorKind × VcpuScheduler = elim popped [
      | none ↦ (ok none, s')
      | some v ↦ (ok (some v), record s' { running = set s'.running pcpu (some v) })
    ] in
    if leb (length s.running) pcpu
    then (err invalid_id, s)
    else elim (get_or s.running pcpu none) [ some _ ↦ (err invalid_state, s) | none ↦ taken ]

unfoldable pub halt_running : ℕ → Method VcpuScheduler CoreErrorKind VcpuRef
halt_running pcpu s =
    if leb (length s.running) pcpu then (err invalid_id, s) else elim (get_or s.running pcpu none) [
      | none ↦ (err invalid_state, s)
      | some v ↦ if length s.halted == length s.queue then (err capacity_exceeded, s) else (
        ok v,
        record s { halted = s.halted ++ (some v ∷ []); running = set s.running pcpu none },
      )
    ]

-- `position` and then `remove_option`: the first entry that holds `v` is taken out.
unfoldable pub remove_first : VcpuRef → List (Option VcpuRef) → List (Option VcpuRef)
unfolding holds
remove_first v [] = []
remove_first v (x ∷ xs) = if holds v x then xs else x ∷ remove_first v xs

unfoldable pub wake : VcpuRef → Method VcpuScheduler CoreErrorKind (Unit {0})
unfolding any_holds push_queue remove_first
wake v s =
    let (pushed, s') = push_queue v s in
    let woken : Result (Unit {0}) CoreErrorKind × VcpuScheduler = elim pushed [
      | err e ↦ (err e, s')
      | ok _ ↦ (ok tt, record s' { halted = remove_first v s'.halted })
    ] in
    if any_holds v s.halted then woken else (err invalid_state, s)

-- The loop of `state_of` over the running vCPUs.
unfoldable pub find_running : VcpuRef → ℕ → List (Option VcpuRef) → Option ℕ
unfolding holds
find_running v index [] = none
find_running v index (x ∷ xs) =
    let rest = find_running v (index + 1) xs in if holds v x then some index else rest

unfoldable pub state_of : VcpuRef → VcpuScheduler → Option VcpuRunState
unfolding any_holds find_running
state_of v s =
    let parked = if any_holds v s.halted then some halted else none in
    let placed : Option VcpuRunState = elim (find_running v 0 s.running) [
      | none ↦ parked
      | some index ↦ elim (new_physical_cpu_id index) [
        | ok pcpu ↦ some (running pcpu)
        | err _ ↦ none
      ]
    ] in
    if any_holds v s.queue then some runnable else placed
