-- ===== src/Core/Hugepage.antt =====
-- crates/aegishv-hypervisor-core/src/hugepage.rs: splitting and merging translation mappings.
pub mod Runs
pub mod RoundTrip
use aegis_hv.Common.{
  ℕ, ◌+◌, ◌*◌, ◌/◌, ◌%◌, Bool, true, false, ◌&&◌, ◌||◌, not, Option, none, some, List, [], ◌∷◌,
  length, ◌==◌, if◌then◌else◌, Result, ok, err, ok_or, fail_if, ◌>>=◌, ◌>>◌,
}
use aegis_hv.Common.Word.{checked_add}
use aegis_hv.Core.Errors.{
  CoreErrorKind, invalid_address, invalid_argument, permission_violation, unsupported,
}

pub data TranslationPageSize : Type 0 where
  size_4k size_2m size_1g : TranslationPageSize

abbrev pub bytes : TranslationPageSize → ℕ
bytes size_4k = 4096
bytes size_2m = 2 * 1024 * 1024
bytes size_1g = 1024 * 1024 * 1024

abbrev pub parent : TranslationPageSize → Option TranslationPageSize
parent size_4k = some size_2m
parent size_2m = some size_1g
parent size_1g = none

abbrev pub child : TranslationPageSize → Option TranslationPageSize
child size_1g = some size_2m
child size_2m = some size_4k
child size_4k = none

abbrev pub size_eq : TranslationPageSize → TranslationPageSize → Bool
size_eq size_4k size_4k = true
size_eq size_2m size_2m = true
size_eq size_1g size_1g = true
size_eq _ _ = false

pub record TranslationPermissions : Type 0 where
  pub read : Bool
  pub write : Bool
  pub execute : Bool

abbrev pub bool_eq : Bool → Bool → Bool
bool_eq true b = b
bool_eq false b = not b

abbrev pub permissions_eq : TranslationPermissions → TranslationPermissions → Bool
permissions_eq p q = bool_eq p.read q.read && bool_eq p.write q.write && bool_eq p.execute q.execute

-- `TranslationPermissions::is_wx`
abbrev pub is_wx : TranslationPermissions → Bool
is_wx p = p.write && p.execute

pub record TranslationMapping : Type 0 where
  pub guest_physical : ℕ
  pub host_physical : ℕ
  pub page_size : TranslationPageSize
  pub permissions : TranslationPermissions

-- `TranslationMapping::new`
unfoldable pub new_mapping :
    ℕ → ℕ → TranslationPageSize → TranslationPermissions → Result TranslationMapping CoreErrorKind
new_mapping guest_physical host_physical page_size permissions = do
  fail_if
      (not (guest_physical % bytes page_size == 0) || not (host_physical % bytes page_size == 0))
      invalid_address
  fail_if (is_wx permissions) permission_violation
  ok (record {
    guest_physical = guest_physical;
    host_physical = host_physical;
    page_size = page_size;
    permissions = permissions;
  })

unfoldable pub end_gpa : TranslationMapping → Result ℕ CoreErrorKind
end_gpa m = ok_or (checked_add m.guest_physical (bytes m.page_size)) invalid_address

unfoldable pub end_hpa : TranslationMapping → Result ℕ CoreErrorKind
end_hpa m = ok_or (checked_add m.host_physical (bytes m.page_size)) invalid_address

pub data InvalidationScope : Type 0 where
  page range address_space : InvalidationScope

pub record SplitPlan : Type 0 where
  pub source : TranslationMapping
  pub child_size : TranslationPageSize
  pub child_count : ℕ
  pub invalidation : InvalidationScope

unfoldable pub plan_split : TranslationMapping → Result SplitPlan CoreErrorKind
plan_split mapping = do
  size ← ok_or (child mapping.page_size) unsupported
  ok (record {
    source = mapping;
    child_size = size;
    child_count = bytes mapping.page_size / bytes size;
    invalidation = range;
  })

-- The loop of `plan_merge`, with the addresses that the next mapping must have.
unfoldable pub check_run :
    TranslationMapping → ℕ → ℕ → List TranslationMapping → Result (Unit {0}) CoreErrorKind
unfolding end_gpa end_hpa
check_run first expected_gpa expected_hpa [] = ok tt
check_run first expected_gpa expected_hpa (mapping ∷ mappings) = do
  fail_if
      (not (size_eq mapping.page_size first.page_size)
        || not (permissions_eq mapping.permissions first.permissions))
      permission_violation
  fail_if
      (not (mapping.guest_physical == expected_gpa) || not (mapping.host_physical == expected_hpa))
      invalid_address
  next_gpa ← end_gpa mapping
  next_hpa ← end_hpa mapping
  check_run first next_gpa next_hpa mappings

unfoldable pub plan_merge : List TranslationMapping → Result TranslationMapping CoreErrorKind
unfolding check_run new_mapping
plan_merge [] = err invalid_argument
plan_merge (first ∷ others) = do
  parent_size ← ok_or (parent first.page_size) unsupported
  fail_if (not (length (first ∷ others) == bytes parent_size / bytes first.page_size))
      invalid_argument
  fail_if
      (not (first.guest_physical % bytes parent_size == 0)
        || not (first.host_physical % bytes parent_size == 0))
      invalid_address
  check_run first first.guest_physical first.host_physical (first ∷ others)
  new_mapping first.guest_physical first.host_physical parent_size first.permissions
