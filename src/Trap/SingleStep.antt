-- ===== src/Trap/SingleStep.antt =====
-- src/trap/singlestep.rs: how a backend steps over one guest instruction.
use aegis_hv.Common.{Bool, Result, ok, err, if◌then◌else◌}
use aegis_hv.Common.Text.{Text, codes}
use aegis_hv.Trap.Errors.{TrapErrorKind, unsupported_capability}
use aegis_hv.Trap.Stage2.{Stage2BackendKind, synthetic, intel_ept, amd_npt, arm_stage2}

pub record SingleStepCapabilities : Type 0 where
  pub intel_monitor_trap_flag : Bool
  pub x86_trap_flag : Bool
  pub amd_vmcb_single_step : Bool
  pub arm_software_step : Bool

pub data SingleStepStrategy : Type 0 where
  intel_monitor_trap_flag x86_trap_flag amd_vmcb_single_step : SingleStepStrategy
  arm_software_step synthetic_step : SingleStepStrategy

abbrev pub as_str : SingleStepStrategy → Text
as_str intel_monitor_trap_flag = codes "intel_mtf"
as_str x86_trap_flag = codes "x86_tf"
as_str amd_vmcb_single_step = codes "amd_vmcb_single_step"
as_str arm_software_step = codes "arm_software_step"
as_str synthetic_step = codes "synthetic_step"

unfoldable pub select_single_step :
    Stage2BackendKind → SingleStepCapabilities → Result SingleStepStrategy TrapErrorKind
select_single_step synthetic caps = ok synthetic_step
select_single_step intel_ept caps =
    if caps.intel_monitor_trap_flag
    then ok intel_monitor_trap_flag
    else if caps.x86_trap_flag
    then ok x86_trap_flag
    else err unsupported_capability
select_single_step amd_npt caps =
    if caps.amd_vmcb_single_step
    then ok amd_vmcb_single_step
    else if caps.x86_trap_flag
    then ok x86_trap_flag
    else err unsupported_capability
select_single_step arm_stage2 caps =
    if caps.arm_software_step then ok arm_software_step else err unsupported_capability
