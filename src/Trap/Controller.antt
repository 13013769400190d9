-- ===== src/Trap/Controller.antt =====
-- src/trap/controller.rs: traps on guest pages, from arming to hit, re-arming and disabling. A
-- method returns its result and the controller that it leaves, also when it fails.
pub mod Inv
pub mod Effects
pub mod States
pub mod Arm
pub mod Runs
pub mod Lapses
use aegis_hv.Common.{
  ℕ, ◌+◌, ◌-◌, ◌%◌, Bool, true, false, ◌&&◌, ◌||◌, not, Option, none, some, List, [], ◌∷◌, ◌++◌,
  ltb, leb, if◌then◌else◌, Result, ok, err, ok_or, ◌>>=◌, ◌>>◌, fail_if, Method, bind, reads,
}
use aegis_hv.Common.BTreeMap.{BTreeMap, Key, get, insert, values}
use aegis_hv.Common.Text.{Text, codes, text_eq, text_eq_iff, text_lt, hex}
use aegis_hv.Trap.Errors.{TrapErrorKind, not_mapped, invalid_state}
use aegis_hv.Trap.Invalidation.{InvalidationPlan, InvalidationScope, plan_invalidation}
use aegis_hv.Trap.Jit.{JitTrapContext, JitTrapPolicy, evaluate}
use aegis_hv.Trap.SingleStep.{SingleStepStrategy, as_str}
use aegis_hv.Trap.Stage2.{
  PageSize, size_4k, bytes, align_down, Stage2BackendKind, Stage2Mapping, Stage2Permissions,
  TrapAccessKind, without_access, new_mapping, write_back,
}
use aegis_hv.Trap.Storm.{
  TrapStormGuard, TrapStormDecision, allow, throttle_fail_open, throttle_fail_closed, TrapStormKey,
  new_key, observe,
}
use aegis_hv.Trap.Table.{Stage2Table, lookup, set_permissions}
use aegis_hv.Trap.Traps.{
  TrapKind, access, kind_eq, TrapState, armed, classifying, allowed_step, denied, rearmed, disabled,
  storm_throttled, accepts_hit, can_rearm, TrapClassification, TrapDecision, TrapHit, TrapOutcome,
  TrapRecord, text_key, trap_id,
}

pub record TrapController : Type 0 where
  pub backend : Stage2BackendKind
  pub table : Stage2Table
  pub traps : BTreeMap Text TrapRecord
  pub storm : TrapStormGuard
  pub jit_policy : JitTrapPolicy
  pub single_step : SingleStepStrategy

-- `TrapController::new`
abbrev pub new_controller :
    Stage2BackendKind
    → Stage2Table
    → TrapStormGuard
    → JitTrapPolicy
    → SingleStepStrategy
    → TrapController
new_controller backend table storm jit_policy single_step = record {
  backend = backend;
  table = table;
  traps = [];
  storm = storm;
  jit_policy = jit_policy;
  single_step = single_step;
}

unfoldable pub trap_state : Text → TrapController → Option TrapState
trap_state id c = elim (get id c.traps) [ none ↦ none | some trap ↦ some trap.state ]

-- A method of the table, on the controller's table.
abbrev pub with_table :
    {A : Type 0} → Method Stage2Table TrapErrorKind A → Method TrapController TrapErrorKind A
with_table f c = let (r, t) = f c.table in (r, record c { table = t })

-- A write to a field of the record at `id`.
abbrev pub set_state : Text → TrapRecord → TrapState → TrapController → TrapController
set_state id trap state c = record c { traps = insert id (record trap { state = state }) c.traps }

-- The record that `arm_trap` stores.
abbrev pub armed_record :
    Text → Text → ℕ → TrapKind → Stage2Mapping → Stage2Permissions → TrapRecord
armed_record owner_vm address_space gpa kind mapping previous =
    let page = align_down mapping.page_size gpa in
    record {
      id = trap_id owner_vm address_space page kind;
      kind = kind;
      owner_vm = owner_vm;
      address_space = address_space;
      page = page;
      page_size = mapping.page_size;
      original_permissions = previous;
      trapped_permissions = without_access mapping.permissions (access kind);
      state = armed;
    }

-- The end of `arm_trap`.
abbrev pub store_trap : TrapRecord → Method TrapController TrapErrorKind Text
store_trap trap c = (ok trap.id, record c { traps = insert trap.id trap c.traps })

-- `TrapController::arm_trap`
unfoldable pub arm_trap : Text → Text → ℕ → TrapKind → Method TrapController TrapErrorKind Text
arm_trap owner_vm address_space gpa kind c = elim (lookup owner_vm address_space gpa c.table) [
  | none ↦ (err not_mapped, c)
  | some mapping ↦
      bind
        (with_table (
          set_permissions owner_vm address_space (align_down mapping.page_size gpa)
            (without_access mapping.permissions (access kind))))
        (λ previous. store_trap (armed_record owner_vm address_space gpa kind mapping previous)) c
]

unfoldable pub invalidation_for : Text → TrapController → Result InvalidationPlan TrapErrorKind
invalidation_for id c = do
  trap ← ok_or (get id c.traps) not_mapped
  plan_invalidation c.backend
      (InvalidationScope.single_page trap.owner_vm trap.address_space trap.page trap.page_size)

-- The end of `finish_hit` and of `rearm`.
unfoldable pub report :
    Text
    → TrapDecision
    → Stage2Permissions
    → Stage2Permissions
    → Text
    → TrapController
    → Result TrapOutcome TrapErrorKind
unfolding invalidation_for
report id decision before after note c = do
  invalidation ← invalidation_for id c
  trap ← ok_or (get id c.traps) not_mapped
  ok (record {
    trap_id = trap.id;
    trap_kind = trap.kind;
    state = trap.state;
    decision = decision;
    backend = c.backend;
    page = trap.page;
    page_size = trap.page_size;
    permissions_before = before;
    permissions_after = after;
    invalidation = invalidation;
    note = note;
  })

-- Set the permissions of the trap's page.
abbrev pub regrant_page :
    TrapRecord → Stage2Permissions → Method TrapController TrapErrorKind Stage2Permissions
regrant_page trap permissions =
    with_table (set_permissions trap.owner_vm trap.address_space trap.page permissions)

unfoldable pub finish_hit :
    Text → TrapState → TrapDecision → Bool → Text → Method TrapController TrapErrorKind TrapOutcome
unfolding report
finish_hit id state decision allow_window note c = elim (get id c.traps) [
  | none ↦ (err not_mapped, c)
  | some trap ↦
      let c' = set_state id trap state c in
      let before = trap.trapped_permissions in
      let after = if allow_window then trap.original_permissions else trap.trapped_permissions in
      let opened =
        bind (regrant_page trap after) (λ _. reads (report id decision before after note)) c' in
      if allow_window then opened else reads (report id decision before after note) c'
]

-- The test of `find_covering_trap`.
unfoldable pub covers_hit : TrapHit → TrapRecord → Bool
covers_hit h trap =
    kind_eq trap.kind h.kind
    && text_eq trap.owner_vm h.owner_vm
    && text_eq trap.address_space h.address_space
    && leb trap.page h.gpa
    && ltb h.gpa (trap.page + bytes trap.page_size)

unfoldable pub find_trap : TrapHit → List TrapRecord → Option TrapRecord
unfolding covers_hit
find_trap h [] = none
find_trap h (trap ∷ traps) = if covers_hit h trap then some trap else find_trap h traps

unfoldable pub find_covering_trap : TrapHit → TrapController → Result Text TrapErrorKind
unfolding find_trap
find_covering_trap h c = elim (find_trap h (values c.traps)) [
  | none ↦ err not_mapped
  | some trap ↦ ok trap.id
]

-- The trap that a hit belongs to: the one named for its 4K page, or one that covers it.
unfoldable pub resolve : TrapHit → TrapController → Result Text TrapErrorKind
unfolding find_covering_trap trap_id
resolve h c =
    let direct = trap_id h.owner_vm h.address_space (align_down size_4k h.gpa) h.kind in
    elim (get direct c.traps) [ some _ ↦ ok direct | none ↦ find_covering_trap h c ]

-- The page under which the storm guard counts a hit on the trap `id`.
abbrev pub storm_page : Text → TrapHit → TrapController → ℕ
storm_page id h c = elim (get id c.traps) [
  | some trap ↦ trap.page
  | none ↦ align_down size_4k h.gpa
]

-- The `match classification` of `handle_hit`.
unfoldable pub classify :
    Text → TrapClassification → Method TrapController TrapErrorKind TrapOutcome
unfolding finish_hit
classify id TrapClassification.allow_step c =
    finish_hit id allowed_step TrapDecision.allow_step true
      (codes "single-step strategy " ++ as_str c.single_step) c
classify id (TrapClassification.deny reason) c =
    finish_hit id denied TrapDecision.deny false reason c
classify id (TrapClassification.jit_temporary_window ctx) c =
    let decision = evaluate c.jit_policy ctx in
    if decision.allowed
    then finish_hit id allowed_step TrapDecision.allow_temporary_write true decision.reason c
    else finish_hit id denied TrapDecision.deny false decision.reason c

-- A hit that the storm guard lets through.
unfoldable pub admit : Text → TrapClassification → Method TrapController TrapErrorKind TrapOutcome
unfolding classify
admit id classification c = elim (get id c.traps) [
  | none ↦ (err not_mapped, c)
  | some trap ↦
      if not (accepts_hit trap.state)
      then (err invalid_state, c)
      else classify id classification (set_state id trap classifying c)
]

-- The `match` on the storm guard's decision.
unfoldable pub after_storm :
    Text → TrapClassification → TrapStormDecision → Method TrapController TrapErrorKind TrapOutcome
unfolding admit
after_storm id classification allow c = admit id classification c
after_storm id classification throttle_fail_open c =
    finish_hit id storm_throttled TrapDecision.fail_open true
      (codes "trap storm throttled page; policy is fail-open") c
after_storm id classification throttle_fail_closed c =
    finish_hit id storm_throttled TrapDecision.fail_closed false
      (codes "trap storm throttled page; policy is fail-closed") c

-- `TrapController::handle_hit`
unfoldable pub handle_hit :
    TrapHit → TrapClassification → ℕ → Method TrapController TrapErrorKind TrapOutcome
unfolding resolve after_storm
handle_hit h classification now_ms c = elim (resolve h c) [
  | err e ↦ (err e, c)
  | ok id ↦ elim (new_key h.owner_vm h.address_space (storm_page id h c) h.vcpu_id) [
    | err e ↦ (err e, c)
    | ok key ↦
        let (decision, storm) = observe key now_ms c.storm in
        after_storm id classification decision (record c { storm = storm })
  ]
]

-- `TrapController::rearm`
unfoldable pub rearm : Text → Method TrapController TrapErrorKind TrapOutcome
unfolding report
rearm id c = elim (get id c.traps) [
  | none ↦ (err not_mapped, c)
  | some trap ↦
      let c' = set_state id trap rearmed c in
      let after = trap.trapped_permissions in
      if not (can_rearm trap.state)
      then (err invalid_state, c)
      else bind (regrant_page trap after)
          (λ _. reads (
            report id TrapDecision.allow_step trap.original_permissions after
              (codes "trap re-armed after temporary window")))
          c'
]

-- `TrapController::disable`
unfoldable pub disable : Text → Method TrapController TrapErrorKind (Unit {0})
disable id c = elim (get id c.traps) [
  | none ↦ (err not_mapped, c)
  | some trap ↦
      bind (regrant_page trap trap.original_permissions)
        (λ _ c'. (ok tt, set_state id trap disabled c')) c
]

-- `armable_mapping`
abbrev pub armable_mapping :
    Text → Text → ℕ → PageSize → Stage2Permissions → Result Stage2Mapping TrapErrorKind
armable_mapping owner_vm address_space base page_size permissions =
    new_mapping owner_vm address_space base page_size write_back permissions
