-- ===== src/Trap/Invalidation.antt =====
-- src/trap/invalidation.rs: which TLB invalidation a change of a stage-2 mapping needs.
use aegis_hv.Common.{ℕ, ◌||◌, not, Result, ok, ◌>>◌, fail_if}
use aegis_hv.Common.Text.{Text, is_blank}
use aegis_hv.Trap.Errors.{TrapErrorKind, malformed_input, misaligned}
use aegis_hv.Trap.Stage2.{
  PageSize, is_aligned, Stage2BackendKind, synthetic, intel_ept, amd_npt, arm_stage2,
}

pub data InvalidationScope : Type 0 where
  single_page : Text → Text → ℕ → PageSize → InvalidationScope
  address_space : Text → Text → InvalidationScope
  vm : Text → InvalidationScope
  global : InvalidationScope

-- The names that `InvalidationScope::kind` returns.
pub data ScopeKind : Type 0 where
  single_page address_space vm global : ScopeKind

abbrev pub kind : InvalidationScope → ScopeKind
kind (InvalidationScope.single_page _ _ _ _) = ScopeKind.single_page
kind (InvalidationScope.address_space _ _) = ScopeKind.address_space
kind (InvalidationScope.vm _) = ScopeKind.vm
kind InvalidationScope.global = ScopeKind.global

pub data InvalidationPrimitive : Type 0 where
  synthetic_record : InvalidationPrimitive
  intel_invept_single_context intel_invept_all_contexts : InvalidationPrimitive
  amd_invlpga amd_flush_asid : InvalidationPrimitive
  arm_tlbi_vaae2 arm_tlbi_vmalls12e1 : InvalidationPrimitive

pub data InvalidationStatus : Type 0 where
  recorded required : InvalidationStatus

pub record InvalidationPlan : Type 0 where
  pub backend : Stage2BackendKind
  pub scope_kind : ScopeKind
  pub primitive : InvalidationPrimitive
  pub status : InvalidationStatus

unfoldable pub validate_scope : InvalidationScope → Result (Unit {0}) TrapErrorKind
validate_scope (InvalidationScope.single_page owner_vm space gpa page_size) = do
  fail_if (is_blank owner_vm || is_blank space) malformed_input
  fail_if (not (is_aligned page_size gpa)) misaligned
  ok tt
validate_scope (InvalidationScope.address_space owner_vm space) = do
  fail_if (is_blank owner_vm || is_blank space) malformed_input
  ok tt
validate_scope (InvalidationScope.vm owner_vm) = do
  fail_if (is_blank owner_vm) malformed_input
  ok tt
validate_scope InvalidationScope.global = ok tt

-- The `match` of `plan_invalidation`.
unfoldable pub primitive_for : Stage2BackendKind → InvalidationScope → InvalidationPrimitive
primitive_for synthetic scope = synthetic_record
primitive_for intel_ept InvalidationScope.global = intel_invept_all_contexts
primitive_for intel_ept (InvalidationScope.vm _) = intel_invept_all_contexts
primitive_for intel_ept (InvalidationScope.single_page _ _ _ _) = intel_invept_single_context
primitive_for intel_ept (InvalidationScope.address_space _ _) = intel_invept_single_context
primitive_for amd_npt (InvalidationScope.single_page _ _ _ _) = amd_invlpga
primitive_for amd_npt (InvalidationScope.address_space _ _) = amd_flush_asid
primitive_for amd_npt (InvalidationScope.vm _) = amd_flush_asid
primitive_for amd_npt InvalidationScope.global = amd_flush_asid
primitive_for arm_stage2 (InvalidationScope.single_page _ _ _ _) = arm_tlbi_vaae2
primitive_for arm_stage2 (InvalidationScope.address_space _ _) = arm_tlbi_vmalls12e1
primitive_for arm_stage2 (InvalidationScope.vm _) = arm_tlbi_vmalls12e1
primitive_for arm_stage2 InvalidationScope.global = arm_tlbi_vmalls12e1

abbrev pub status_for : Stage2BackendKind → InvalidationStatus
status_for synthetic = recorded
status_for intel_ept = required
status_for amd_npt = required
status_for arm_stage2 = required

unfoldable pub plan_invalidation :
    Stage2BackendKind → InvalidationScope → Result InvalidationPlan TrapErrorKind
unfolding validate_scope primitive_for
plan_invalidation backend scope = do
  validate_scope scope
  ok (record {
    backend = backend;
    scope_kind = kind scope;
    primitive = primitive_for backend scope;
    status = status_for backend;
  })
