-- ===== src/Trap/Traps.antt =====
-- src/trap/controller.rs: what a trap, a hit and an outcome are, and how a trap is named.
pub mod Ids
use aegis_hv.Common.{
  ℕ, ◌+◌, ◌-◌, ◌%◌, Bool, true, false, ◌&&◌, ◌||◌, not, Option, none, some, List, [], ◌∷◌, ◌++◌,
  ltb, leb, if◌then◌else◌, Result, ok, err, ok_or, ◌>>=◌, ◌>>◌, fail_if, Method, bind, reads,
}
use aegis_hv.Common.BTreeMap.{BTreeMap, Key, get, insert, values}
use aegis_hv.Common.Text.{Text, codes, text_eq, text_eq_iff, text_lt, hex}
use aegis_hv.Trap.Errors.{TrapErrorKind, not_mapped, invalid_state}
use aegis_hv.Trap.Invalidation.{InvalidationPlan, InvalidationScope, plan_invalidation}
use aegis_hv.Trap.Jit.{JitTrapContext, JitTrapPolicy, evaluate}
use aegis_hv.Trap.SingleStep.{SingleStepStrategy, as_str}
use aegis_hv.Trap.Stage2.{
  PageSize, size_4k, bytes, align_down, Stage2BackendKind, Stage2Mapping, Stage2Permissions,
  TrapAccessKind, without_access, new_mapping, write_back,
}
use aegis_hv.Trap.Storm.{
  TrapStormGuard, TrapStormDecision, allow, throttle_fail_open, throttle_fail_closed, TrapStormKey,
  new_key, observe,
}
use aegis_hv.Trap.Table.{Stage2Table, lookup, set_permissions}

pub data TrapKind : Type 0 where
  read write execute : TrapKind

-- `TrapKind::as_str`
abbrev pub kind_str : TrapKind → Text
kind_str read = codes "read"
kind_str write = codes "write"
kind_str execute = codes "execute"

abbrev pub access : TrapKind → TrapAccessKind
access read = TrapAccessKind.read
access write = TrapAccessKind.write
access execute = TrapAccessKind.execute

abbrev pub kind_eq : TrapKind → TrapKind → Bool
kind_eq read read = true
kind_eq write write = true
kind_eq execute execute = true
kind_eq _ _ = false

pub data TrapState : Type 0 where
  armed hit classifying allowed_step denied rearmed disabled storm_throttled : TrapState

unfoldable pub accepts_hit : TrapState → Bool
accepts_hit armed = true
accepts_hit rearmed = true
accepts_hit _ = false

-- The states from which `rearm` goes on.
unfoldable pub can_rearm : TrapState → Bool
can_rearm allowed_step = true
can_rearm storm_throttled = true
can_rearm _ = false

pub data TrapClassification : Type 0 where
  allow_step : TrapClassification
  deny : Text → TrapClassification
  jit_temporary_window : JitTrapContext → TrapClassification

pub data TrapDecision : Type 0 where
  allow_step allow_temporary_write deny fail_open fail_closed : TrapDecision

pub record TrapHit : Type 0 where
  pub owner_vm : Text
  pub address_space : Text
  pub gpa : ℕ
  pub vcpu_id : Option ℕ
  pub rip : Option ℕ
  pub kind : TrapKind

pub record TrapOutcome : Type 0 where
  pub trap_id : Text
  pub trap_kind : TrapKind
  pub state : TrapState
  pub decision : TrapDecision
  pub backend : Stage2BackendKind
  pub page : ℕ
  pub page_size : PageSize
  pub permissions_before : Stage2Permissions
  pub permissions_after : Stage2Permissions
  pub invalidation : InvalidationPlan
  pub note : Text

pub record TrapRecord : Type 0 where
  pub id : Text
  pub kind : TrapKind
  pub owner_vm : Text
  pub address_space : Text
  pub page : ℕ
  pub page_size : PageSize
  pub original_permissions : Stage2Permissions
  pub trapped_permissions : Stage2Permissions
  pub state : TrapState

-- Strings as keys of a map.
instance abbrev pub text_key : Key Text
text_key = record { beq = text_eq; before = text_lt; beq_iff = text_eq_iff }

-- `format!("trap:{owner_vm}:{address_space}:{page:#x}:{}", kind.as_str())`
unfoldable pub trap_id : Text → Text → ℕ → TrapKind → Text
trap_id owner_vm address_space page kind =
    codes "trap:"
    ++ (owner_vm
        ++ (codes ":"
            ++ (address_space ++ (codes ":" ++ (hex page ++ (codes ":" ++ kind_str kind))))))
