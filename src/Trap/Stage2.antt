-- ===== src/Trap/Stage2.antt =====
-- src/trap/stage2.rs: page sizes, permissions and mappings of the stage-2 model.
use aegis_hv.Common.{
  ℕ, ◌-◌, ◌*◌, ◌/◌, ◌%◌, Bool, true, false, ◌&&◌, Option, none, some, List, [], ◌∷◌, ltb, leb, ◌==◌,
  if◌then◌else◌, not, Result, ok, err, ok_or, fail_if, ◌>>◌,
}
use aegis_hv.Common.Text.{Text, is_blank}
use aegis_hv.Common.Word.{checked_add}
use aegis_hv.Trap.Errors.{
  TrapErrorKind, misaligned, malformed_input, unsupported_capability, invalid_address,
}

pub data PageSize : Type 0 where
  size_4k size_2m size_1g : PageSize

abbrev pub bytes : PageSize → ℕ
bytes size_4k = 4096
bytes size_2m = 2 * 1024 * 1024
bytes size_1g = 1024 * 1024 * 1024

abbrev pub is_aligned : PageSize → ℕ → Bool
is_aligned p addr = addr % bytes p == 0

abbrev pub align_down : PageSize → ℕ → ℕ
align_down p addr = addr - addr % bytes p

abbrev pub immediate_child : PageSize → Option PageSize
immediate_child size_1g = some size_2m
immediate_child size_2m = some size_4k
immediate_child size_4k = none

-- `self.immediate_child() == Some(target)`
abbrev pub is_child : PageSize → PageSize → Bool
is_child size_1g size_2m = true
is_child size_2m size_4k = true
is_child _ _ = false

unfoldable pub split_count : PageSize → PageSize → Result ℕ TrapErrorKind
split_count p target =
    if not (is_child p target) then err unsupported_capability else ok (bytes p / bytes target)

pub data Stage2BackendKind : Type 0 where
  synthetic intel_ept amd_npt arm_stage2 : Stage2BackendKind

pub data MemoryType : Type 0 where
  write_back write_through write_combining write_protected uncacheable normal device : MemoryType

pub record Stage2Limits : Type 0 where
  pub backend : Stage2BackendKind
  pub page_sizes : List PageSize
  pub memory_types : List MemoryType
  pub supports_execute_only : Bool
  pub supports_write_without_read : Bool

-- What each backend can express; the note for the reader is left out.
unfoldable pub limits : Stage2BackendKind → Stage2Limits
limits synthetic = record {
  backend = synthetic;
  page_sizes = size_4k ∷ size_2m ∷ size_1g ∷ [];
  memory_types = write_back ∷ uncacheable ∷ [];
  supports_execute_only = true;
  supports_write_without_read = true;
}
limits intel_ept = record {
  backend = intel_ept;
  page_sizes = size_4k ∷ size_2m ∷ size_1g ∷ [];
  memory_types = uncacheable ∷ write_combining ∷ write_through ∷ write_protected ∷ write_back ∷ [];
  supports_execute_only = true;
  supports_write_without_read = true;
}
limits amd_npt = record {
  backend = amd_npt;
  page_sizes = size_4k ∷ size_2m ∷ size_1g ∷ [];
  memory_types = write_back ∷ uncacheable ∷ [];
  supports_execute_only = false;
  supports_write_without_read = false;
}
limits arm_stage2 = record {
  backend = arm_stage2;
  page_sizes = size_4k ∷ size_2m ∷ size_1g ∷ [];
  memory_types = normal ∷ device ∷ [];
  supports_execute_only = true;
  supports_write_without_read = false;
}

pub data TrapAccessKind : Type 0 where
  read write execute : TrapAccessKind

pub record Stage2Permissions : Type 0 where
  pub read : Bool
  pub write : Bool
  pub exec : Bool

unfoldable pub without_access : Stage2Permissions → TrapAccessKind → Stage2Permissions
without_access p read = record p { read = false }
without_access p write = record p { write = false }
without_access p execute = record p { exec = false }

unfoldable pub with_access : Stage2Permissions → TrapAccessKind → Bool → Stage2Permissions
with_access p read enabled = record p { read = enabled }
with_access p write enabled = record p { write = enabled }
with_access p execute enabled = record p { exec = enabled }

unfoldable pub allows : Stage2Permissions → TrapAccessKind → Bool
allows p read = p.read
allows p write = p.write
allows p execute = p.exec

unfoldable pub is_wx : Stage2Permissions → Bool
is_wx p = p.write && p.exec

pub record Stage2Mapping : Type 0 where
  pub owner_vm : Text
  pub address_space : Text
  pub base : ℕ
  pub page_size : PageSize
  pub memory_type : MemoryType
  pub permissions : Stage2Permissions

-- `Stage2Mapping::new`
unfoldable pub new_mapping :
    Text → Text → ℕ → PageSize → MemoryType → Stage2Permissions → Result Stage2Mapping TrapErrorKind
new_mapping owner_vm address_space base page_size memory_type permissions = do
  fail_if (not (is_aligned page_size base)) misaligned
  fail_if (is_blank owner_vm) malformed_input
  fail_if (is_blank address_space) malformed_input
  ok (record {
    owner_vm = owner_vm;
    address_space = address_space;
    base = base;
    page_size = page_size;
    memory_type = memory_type;
    permissions = permissions;
  })

-- `Stage2Mapping::end`
unfoldable pub end : Stage2Mapping → Result ℕ TrapErrorKind
end m = ok_or (checked_add m.base (bytes m.page_size)) invalid_address

-- `Stage2Mapping::contains`
unfoldable pub contains : Stage2Mapping → ℕ → Bool
unfolding end
contains m gpa = elim (end m) [ ok last ↦ leb m.base gpa && ltb gpa last | err _ ↦ false ]
