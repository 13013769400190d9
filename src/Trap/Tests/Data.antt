-- ===== src/Trap/Tests/Data.antt =====
-- A VM with one 2M mapping, and a controller over it.
use aegis_hv.Common.{ℕ, true, none, some, List, [], ◌∷◌, refl, arith}
use aegis_hv.Common.BTreeMap.{get, insert}
use aegis_hv.Common.Text.{Text, codes, is_blank, hex, text_eq, text_lt}
use aegis_hv.Trap.Jit.{JitTrapPolicy}
use aegis_hv.Trap.SingleStep.{intel_monitor_trap_flag}
use aegis_hv.Trap.Stage2.{
  size_2m, intel_ept, write_back, Stage2Permissions, Stage2Mapping, contains, without_access,
  allows,
}
use aegis_hv.Trap.Storm.{TrapStormGuard, fail_closed, observe, new_key, storm_key_eq, storm_key_lt}
use aegis_hv.Trap.Table.{Stage2Table, key_of, lookup, find, covers, set_permissions}
use aegis_hv.Trap.Table.Apart.{IsSound}
use aegis_hv.Trap.Table.Tiles.{IsMade}
use aegis_hv.Trap.Traps.{TrapHit, read, trap_id, accepts_hit, can_rearm}
use aegis_hv.Trap.Controller.{
  TrapController, new_controller, arm_trap, handle_hit, rearm, disable, trap_state,
}
use aegis_hv.Trap.Controller.Inv.{Inv}
use aegis_hv.Trap.Controller.Runs.{run, Call, run-new_controller, step}
use aegis_hv.Trap.Invalidation.{plan_invalidation}

abbrev pub vm : Text
vm = codes "vm0"

abbrev pub space : Text
space = codes "root"

abbrev pub rwx : Stage2Permissions
rwx = record { read = true; write = true; exec = true }

abbrev pub huge : Stage2Mapping
huge = record {
  owner_vm = vm;
  address_space = space;
  base = 0x20_0000;
  page_size = size_2m;
  memory_type = write_back;
  permissions = rwx;
}

abbrev pub one_mapping : Stage2Table
one_mapping = record { mappings = (key_of huge, huge) ∷ [] }

pub one_mapping-IsSound : IsSound one_mapping
one_mapping-IsSound = (refl, omega arith, tt, tt)

pub huge-IsMade : IsMade huge
unfolding is_blank
huge-IsMade = record { aligned = refl; owned = refl; placed = refl }

-- At most two hits on a page in ten milliseconds.
abbrev pub guard : TrapStormGuard
guard = record { window_ms = 10; max_hits = 2; mode = fail_closed; buckets = [] }

abbrev pub no_jit : JitTrapPolicy
no_jit = record { rules = [] }

abbrev pub controller : TrapController
controller = new_controller intel_ept one_mapping guard no_jit intel_monitor_trap_flag

-- A read of an address in the middle of the mapping.
abbrev pub read_hit : TrapHit
read_hit = record {
  owner_vm = vm;
  address_space = space;
  gpa = 0x20_1234;
  vcpu_id = some 0;
  rip = none;
  kind = read;
}

pub controller-Inv : (calls : List Call) → Inv (run controller calls)
controller-Inv calls =
    run-new_controller intel_ept one_mapping guard no_jit intel_monitor_trap_flag calls
      one_mapping-IsSound (huge-IsMade, tt)

-- What a run of the controller computes through.
unfoldable pub all_open : ℕ
unfolding run step arm_trap handle_hit rearm disable trap_state trap_id hex lookup find covers
    contains set_permissions get insert text_eq text_lt is_blank without_access allows accepts_hit
    can_rearm observe new_key storm_key_eq storm_key_lt plan_invalidation
all_open = 0
