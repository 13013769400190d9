-- ===== src/Vmi/X86.antt =====
-- src/vmi_x86.rs, and read_table_entry of src/vmi/memory.rs: the walk of the page tables of an
-- x86-64 guest. A mask of bits that stand together is a quotient and a remainder, and an `|` of
-- numbers that share no bit is a sum.
pub mod Levels
pub mod Same
use aegis_hv.Common.{
  ℕ, suc, ◌+◌, ◌-◌, ◌*◌, ◌/◌, ◌%◌, ◌^◌, Bool, true, false, ◌&&◌, not, Option, none, some, List, [],
  ◌∷◌, ltb, ◌==◌, if◌then◌else◌, Result, ok, err, ok_or, fail_if, ◌>>=◌, ◌>>◌,
}
use aegis_hv.Common.Word.{u64_mod, checked_add}
use aegis_hv.Vmi.Errors.{
  Level, pml5e, pml4e, pdpte, pde, pte, MemoryReadError, backend, malformed, other,
  TranslationError, backend_error, missing_context, invalid_address, not_present, missing_memory,
  malformed_page_tables, TranslationResult,
}

abbrev pub page_4k : ℕ
page_4k = 2 ^ 12

abbrev pub page_2m : ℕ
page_2m = 2 ^ 21

abbrev pub page_1g : ℕ
page_1g = 2 ^ 30

pub data X86PagingMode : Type 0 where
  four_level la57 : X86PagingMode

-- `GuestMemoryReader::read_physical` of a VM with a buffer of 8 bytes: how many bytes are read, and
-- the buffer. It is code of the caller.
abbrev pub Reader : Type 0
Reader = ℕ → ℕ → Result (ℕ × List ℕ) MemoryReadError

-- `u64::from_le_bytes`
unfoldable pub from_le_bytes : List ℕ → ℕ
from_le_bytes [] = 0
from_le_bytes (b ∷ bytes) = b + 256 * from_le_bytes bytes

unfoldable pub table_address : ℕ → ℕ → Option ℕ
table_address table_base index =
    if ltb (index * 8) u64_mod then checked_add table_base (index * 8) else none

unfoldable pub read_error : Level → ℕ → MemoryReadError → TranslationError
read_error level gpa backend = backend_error level
read_error level gpa malformed = malformed_page_tables level
read_error level gpa other = missing_memory gpa

unfoldable pub read_table_entry : Reader → ℕ → ℕ → ℕ → Level → Result ℕ TranslationError
unfolding table_address read_error from_le_bytes
read_table_entry memory vm table_base index level = do
  gpa ← ok_or (table_address table_base index) (malformed_page_tables level)
  elim (memory vm gpa) [
    | err e ↦ err (read_error level gpa e)
    | ok (read, bytes) ↦ fail_if (not (read == 8)) (missing_memory gpa) >> ok (from_le_bytes bytes)
  ]

-- `entry & (1 << n) != 0`
abbrev pub has_bit : ℕ → ℕ → Bool
has_bit entry n = (entry / 2 ^ n) % 2 == 1

-- `entry & mask`, for the mask of the bits from `size` on below 52.
abbrev pub base_of : ℕ → ℕ → ℕ
base_of entry size = entry % 2 ^ 52 / size * size

pub record X86PagePermissions : Type 0 where
  pub writable : Bool
  pub user : Bool
  pub executable : Bool

-- `X86PagePermissions::default`
abbrev pub default_permissions : X86PagePermissions
default_permissions = record { writable = true; user = true; executable = true }

unfoldable pub apply : ℕ → X86PagePermissions → X86PagePermissions
apply entry p = record {
  writable = p.writable && has_bit entry 1;
  user = p.user && has_bit entry 2;
  executable = p.executable && not (has_bit entry 63);
}

abbrev pub result : ℕ → ℕ → X86PagePermissions → TranslationResult
result gpa page_size p = record {
  gpa = gpa;
  readable = true;
  writable = p.writable;
  executable = p.executable;
  user = p.user;
  page_size = page_size;
}

unfoldable pub validate_present : Level → ℕ → ℕ → Result (Unit {0}) TranslationError
validate_present level entry gva = fail_if (not (has_bit entry 0)) (not_present level gva)

-- The bits 52 to 62.
unfoldable pub reject_reserved_high_bits : Level → ℕ → Result (Unit {0}) TranslationError
reject_reserved_high_bits level entry =
    fail_if (not (entry / 2 ^ 52 % 2 ^ 11 == 0)) (malformed_page_tables level)

-- The bits from 13 on below the base of a page of the size.
unfoldable pub reject_reserved_large_page_bits : Level → ℕ → ℕ → Result (Unit {0}) TranslationError
reject_reserved_large_page_bits level entry size =
    fail_if (not (entry % size / 2 ^ 13 == 0)) (malformed_page_tables level)

abbrev pub large_page : ℕ → Bool
large_page entry = has_bit entry 7

unfoldable pub is_canonical_with_sign_bit : ℕ → ℕ → Bool
is_canonical_with_sign_bit addr sign_bit =
    let sign = addr / 2 ^ sign_bit % 2 in
    let high = addr / 2 ^ (sign_bit + 1) in
    high == (if sign == 0 then 0 else 2 ^ (63 - sign_bit) - 1)

unfoldable pub is_canonical : ℕ → X86PagingMode → Bool
unfolding is_canonical_with_sign_bit
is_canonical addr four_level = is_canonical_with_sign_bit addr 47
is_canonical addr la57 = is_canonical_with_sign_bit addr 56

-- `pml5_index` and the four below it: nine bits from the bit `n` on.
abbrev pub table_index : ℕ → ℕ → ℕ
table_index n addr = addr / 2 ^ n % 512

-- The calls that every level begins with.
unfoldable pub read_entry : Reader → ℕ → ℕ → ℕ → Level → ℕ → Result ℕ TranslationError
unfolding read_table_entry validate_present reject_reserved_high_bits
read_entry memory vm table_base index level gva = do
  entry ← read_table_entry memory vm table_base index level
  validate_present level entry gva
  reject_reserved_high_bits level entry
  ok entry

-- The walk from each level on.
unfoldable pub walk_pt :
    Reader → ℕ → ℕ → ℕ → X86PagePermissions → Result TranslationResult TranslationError
unfolding read_entry apply
walk_pt memory vm gva table_base p = do
  entry ← read_entry memory vm table_base (table_index 12 gva) pte gva
  ok (result (base_of entry page_4k + gva % page_4k) page_4k (apply entry p))

unfoldable pub walk_pd :
    Reader → ℕ → ℕ → ℕ → X86PagePermissions → Result TranslationResult TranslationError
unfolding read_entry apply reject_reserved_large_page_bits walk_pt
walk_pd memory vm gva table_base p = do
  entry ← read_entry memory vm table_base (table_index 21 gva) pde gva
  let p' = apply entry p
  let large : Result TranslationResult TranslationError = do
    reject_reserved_large_page_bits pde entry page_2m
    ok (result (base_of entry page_2m + gva % page_2m) page_2m p')
  let below = walk_pt memory vm gva (base_of entry page_4k) p'
  if large_page entry then large else below

unfoldable pub walk_pdpt :
    Reader → ℕ → ℕ → ℕ → X86PagePermissions → Result TranslationResult TranslationError
unfolding read_entry apply reject_reserved_large_page_bits walk_pd
walk_pdpt memory vm gva table_base p = do
  entry ← read_entry memory vm table_base (table_index 30 gva) pdpte gva
  let p' = apply entry p
  let large : Result TranslationResult TranslationError = do
    reject_reserved_large_page_bits pdpte entry page_1g
    ok (result (base_of entry page_1g + gva % page_1g) page_1g p')
  let below = walk_pd memory vm gva (base_of entry page_4k) p'
  if large_page entry then large else below

unfoldable pub walk_pml4 :
    Reader → ℕ → ℕ → ℕ → X86PagePermissions → Result TranslationResult TranslationError
unfolding read_entry apply walk_pdpt
walk_pml4 memory vm gva table_base p = do
  entry ← read_entry memory vm table_base (table_index 39 gva) pml4e gva
  fail_if (large_page entry) (malformed_page_tables pml4e)
  walk_pdpt memory vm gva (base_of entry page_4k) (apply entry p)

unfoldable pub walk_pml5 :
    Reader → ℕ → ℕ → ℕ → X86PagePermissions → Result TranslationResult TranslationError
unfolding read_entry apply walk_pml4
walk_pml5 memory vm gva table_base p = do
  entry ← read_entry memory vm table_base (table_index 48 gva) pml5e gva
  fail_if (large_page entry) (malformed_page_tables pml5e)
  walk_pml4 memory vm gva (base_of entry page_4k) (apply entry p)

-- `translate_x86_64`; of the registers it reads `cr3_or_ttbr` only.
unfoldable pub translate :
    Reader → ℕ → Option ℕ → ℕ → X86PagingMode → Result TranslationResult TranslationError
unfolding is_canonical walk_pml4 walk_pml5
translate memory vm cr3_or_ttbr gva paging_mode = do
  fail_if (not (is_canonical gva paging_mode)) (invalid_address gva)
  cr3 ← ok_or cr3_or_ttbr missing_context
  elim paging_mode [
    | four_level ↦ walk_pml4 memory vm gva (base_of cr3 page_4k) default_permissions
    | la57 ↦ walk_pml5 memory vm gva (base_of cr3 page_4k) default_permissions
  ]
