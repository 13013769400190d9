-- ===== src/Trap/Tests/Controllers.antt =====
-- The controller at concrete inputs.
use mathlib.Core.Option
use aegis_hv.Common.{ℕ, true, false, none, some, List, [], ◌∷◌, ok, err, ◌≡◌, refl, arith, ◌⊎◌}
use aegis_hv.Common.BTreeMap.{get}
use aegis_hv.Common.Text.{Text, codes}
use aegis_hv.Trap.Errors.{not_mapped}
use aegis_hv.Trap.Invalidation.{InvalidationScope, ScopeKind, primitive_for, status_for}
use aegis_hv.Trap.Stage2.{
  size_2m, intel_ept, align_down, Stage2Permissions, Stage2Mapping, allows, without_access,
  TrapAccessKind,
}
use aegis_hv.Trap.Storm.{TrapStormKey}
use aegis_hv.Trap.Table.{lookup}
use aegis_hv.Trap.Table.Lookup.{regrant}
use aegis_hv.Trap.Traps.{
  TrapKind, TrapRecord, TrapOutcome, TrapClassification, text_key, read, write, armed, rearmed,
  disabled, storm_throttled, allowed_step, trap_id, access, TrapDecision, TrapState,
}
use aegis_hv.Trap.Traps.Ids.{trap_id_collides}
use aegis_hv.Trap.Controller.{TrapController, arm_trap, handle_hit, rearm, disable, trap_state}
use aegis_hv.Trap.Controller.Arm.{arm_trap_lem, disable-arm_trap}
use aegis_hv.Trap.Controller.Inv.{Inv}
use aegis_hv.Trap.Controller.Lapses.{rearm_uncovers, storm_revives, arm_twice_keeps}
use aegis_hv.Trap.Controller.Runs.{
  run, Call, arms, hits, disables, run-new_controller, rearm_protects,
}
use aegis_hv.Trap.Controller.States.{HandlesHit, handle_hit_lem}
use aegis_hv.Trap.Tests.Data.{
  vm, space, rwx, huge, one_mapping, one_mapping-IsSound, huge-IsMade, guard, no_jit, controller,
  read_hit, controller-Inv, all_open,
}
use aegis_hv.Trap.SingleStep.{intel_monitor_trap_flag}

-- The trap on reads of the mapping, armed, hit and stepped over.
abbrev id : Text
id = trap_id vm space 0x20_0000 read

abbrev watching : TrapController
watching = run controller (arms vm space 0x20_1234 read ∷ [])

abbrev step_calls : List Call
step_calls = arms vm space 0x20_1234 read ∷ hits read_hit TrapClassification.allow_step 100 ∷ []

abbrev stepping : TrapController
stepping = run controller step_calls

lifecycle :
    (trap_state id watching ≡ some armed)
    × (trap_state id stepping ≡ some allowed_step)
    × (trap_state id (rearm id stepping).1 ≡ some rearmed)
unfolding all_open
lifecycle = (refl, refl, refl)

abbrev no_read : Stage2Permissions
no_read = without_access rwx TrapAccessKind.read

arm_trap_lem_example :
    ((lookup vm space 0x20_1234 one_mapping ≡ none)
      × (arm_trap vm space 0x20_1234 read controller ≡ (err not_mapped, controller)))
    ⊎ ((m : Stage2Mapping) × (lookup vm space 0x20_1234 one_mapping ≡ some m)
        × (let page = align_down m.page_size 0x20_1234 in
            let (r, c') = arm_trap vm space 0x20_1234 read controller in
            (r ≡ ok (trap_id vm space page read))
            × (trap_state (trap_id vm space page read) c' ≡ some armed)
            × Inv c'
            × (allows (without_access m.permissions TrapAccessKind.read) TrapAccessKind.read
                ≡ false)
            × ((o' s' : Text) (g' : ℕ)
                → lookup o' s' g' c'.table
                  ≡ Option.map
                      (regrant vm space page (without_access m.permissions TrapAccessKind.read))
                      (lookup o' s' g' one_mapping))))
unfolding run
arm_trap_lem_example = arm_trap_lem vm space 0x20_1234 read controller (controller-Inv [])

disable-arm_trap_example :
    let (r, c') = disable id (arm_trap vm space 0x20_1234 read controller).1 in
    (r ≡ ok tt)
    × (trap_state id c' ≡ some disabled)
    × ((o' s' : Text) (g' : ℕ) → lookup o' s' g' c'.table ≡ lookup o' s' g' one_mapping)
unfolding all_open
disable-arm_trap_example =
    disable-arm_trap vm space 0x20_1234 read controller huge (controller-Inv []) refl

handle_hit_lem_example :
    HandlesHit read_hit TrapClassification.allow_step 100 watching
      (handle_hit read_hit TrapClassification.allow_step 100 watching)
handle_hit_lem_example =
    handle_hit_lem read_hit TrapClassification.allow_step 100 watching
      (controller-Inv (arms vm space 0x20_1234 read ∷ []))

run-new_controller_example : Inv stepping
run-new_controller_example =
    run-new_controller intel_ept one_mapping guard no_jit intel_monitor_trap_flag step_calls
      one_mapping-IsSound (huge-IsMade, tt)

-- What re-arming after the step returns.
abbrev report : TrapOutcome
report = record {
  trap_id = id;
  trap_kind = read;
  state = rearmed;
  decision = TrapDecision.allow_step;
  backend = intel_ept;
  page = 0x20_0000;
  page_size = size_2m;
  permissions_before = rwx;
  permissions_after = no_read;
  invalidation = record {
    backend = intel_ept;
    scope_kind = ScopeKind.single_page;
    primitive = primitive_for intel_ept (InvalidationScope.single_page vm space 0x20_0000 size_2m);
    status = status_for intel_ept;
  };
  note = codes "trap re-armed after temporary window";
}

rearm_protects_example :
    let c' = (rearm id stepping).1 in
    (trap : TrapRecord) × (m : Stage2Mapping) × (get id stepping.traps ≡ some trap)
    × (trap_state id c' ≡ some rearmed)
    × (lookup trap.owner_vm trap.address_space trap.page c'.table ≡ some m)
    × (m.permissions ≡ no_read)
    × (allows m.permissions (access trap.kind) ≡ false)
unfolding all_open
rearm_protects_example =
    rearm_protects id stepping (rearm id stepping).1 report (controller-Inv step_calls) refl

-- Traps on reads and on writes of one page; the read trap is stepped over.
abbrev both_calls : List Call
both_calls =
    arms vm space 0x20_1234 read
    ∷ arms vm space 0x20_1234 write
    ∷ hits read_hit TrapClassification.allow_step 100
    ∷ []

abbrev both : TrapController
both = run controller both_calls

abbrev write_id : Text
write_id = trap_id vm space 0x20_0000 write

abbrev trap_of : TrapKind → TrapState → Stage2Permissions → TrapRecord
trap_of kind state original = record {
  id = trap_id vm space 0x20_0000 kind;
  kind = kind;
  owner_vm = vm;
  address_space = space;
  page = 0x20_0000;
  page_size = size_2m;
  original_permissions = original;
  trapped_permissions = without_access original (access kind);
  state = state;
}

rearm_uncovers_example :
    let c' = (rearm id both).1 in
    (trap_state write_id c' ≡ some armed)
    × ((m : Stage2Mapping) × (lookup vm space 0x20_0000 c'.table ≡ some m)
        × (allows m.permissions TrapAccessKind.write ≡ true))
unfolding all_open
rearm_uncovers_example =
    rearm_uncovers id write_id (trap_of read allowed_step rwx) (trap_of write armed no_read) both
      (controller-Inv both_calls) refl refl refl (λ e. ground arith) refl (refl, refl, refl) refl

-- The trap is disabled, after two hits on its page.
abbrev off_calls : List Call
off_calls =
    arms vm space 0x20_1234 read
    ∷ hits read_hit TrapClassification.allow_step 100
    ∷ hits read_hit TrapClassification.allow_step 101
    ∷ disables id
    ∷ []

abbrev off : TrapController
off = run controller off_calls

abbrev storm_of : TrapStormKey
storm_of = record { owner_vm = vm; address_space = space; page = 0x20_0000; vcpu_id = some 0 }

storm_revives_example :
    let c' = (handle_hit read_hit TrapClassification.allow_step 102 off).1 in
    (trap_state id off ≡ some disabled)
    × ((trap_state id c' ≡ some storm_throttled) × (trap_state id (rearm id c').1 ≡ some rearmed))
unfolding all_open
storm_revives_example =
    storm_revives read_hit TrapClassification.allow_step 102 id (trap_of read disabled rwx) storm_of
      off (controller-Inv off_calls) refl refl refl refl (λ e. ground (arith, e))

arm_twice_keeps_example :
    let (r, c') =
      disable id
        (arm_trap vm space 0x20_1234 read (arm_trap vm space 0x20_1234 read controller).1).1 in
    (r ≡ ok tt)
    × (trap_state id c' ≡ some disabled)
    × (lookup vm space 0x20_1234 c'.table ≡ some (record huge { permissions = no_read }))
unfolding all_open
arm_twice_keeps_example =
    arm_twice_keeps vm space 0x20_1234 read controller huge (controller-Inv []) refl

abbrev page : ℕ
page = 0x20_0000

trap_id_collides_example :
    trap_id (codes "vm:0") (codes "root") 0x1000 read
    ≡ trap_id (codes "vm") (codes "0:root") 0x1000 read
trap_id_collides_example = trap_id_collides (codes "vm") (codes "0") (codes "root") 0x1000 read
