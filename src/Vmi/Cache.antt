-- ===== src/Vmi/Cache.antt =====
-- src/vmi_cache.rs: the cache of translations, which drops its oldest entry when it is full.
pub mod Keys
pub mod Laws
pub mod Insert
pub mod Invalidate
pub mod Walks
pub mod Coherent
use Prim.Native.Nat.{bit_and, bit_or}
use aegis_hv.Common.{
  ℕ, zero, suc, ◌+◌, ◌-◌, ◌*◌, ◌/◌, ◌%◌, ◌^◌, Bool, true, false, ◌&&◌, ◌||◌, not, Option, none,
  some, List, [], ◌∷◌, ◌++◌, length, ◌==◌, min, if◌then◌else◌, Result, ok, err, fail_if, ◌>>=◌,
  ◌>>◌,
}
use aegis_hv.Common.Word.{align_down, saturating_mul, is_power_of_two}
use aegis_hv.Vmi.Errors.{TranslationError, translation_failed, TranslationResult}

-- The cases of `TranslationCacheError`.
pub data TranslationCacheError : Type 0 where
  invalid_capacity invalid_page_size : ℕ → TranslationCacheError

pub data Arm64CacheGranule : Type 0 where
  size_4k size_16k size_64k : Arm64CacheGranule

pub data TranslationMode : Type 0 where
  x86_64_four_level x86_64_la57 : TranslationMode
  arm64_stage1 : Arm64CacheGranule → TranslationMode

pub data AddressSpaceRoot : Type 0 where
  x86_cr3 : ℕ → AddressSpaceRoot
  arm64_ttbr0 arm64_ttbr1 explicit : ℕ → Option ℕ → AddressSpaceRoot

-- `AddressSpaceRoot::x86_cr3`
abbrev pub cr3_root : ℕ → AddressSpaceRoot
cr3_root cr3 = x86_cr3 (align_down cr3 4096)

-- `AddressSpaceRoot::asid`
unfoldable pub asid_of : AddressSpaceRoot → Option ℕ
asid_of (x86_cr3 base) = none
asid_of (arm64_ttbr0 base asid) = asid
asid_of (arm64_ttbr1 base asid) = asid
asid_of (explicit id asid) = asid

pub record TranslationAccess : Type 0 where
  pub user : Bool
  pub write : Bool
  pub execute : Bool

-- The constructors of `TranslationAccess`.
abbrev pub kernel_read : TranslationAccess
kernel_read = record { user = false; write = false; execute = false }

abbrev pub kernel_write : TranslationAccess
kernel_write = record { user = false; write = true; execute = false }

abbrev pub kernel_execute : TranslationAccess
kernel_execute = record { user = false; write = false; execute = true }

abbrev pub user_read : TranslationAccess
user_read = record { user = true; write = false; execute = false }

abbrev pub user_write : TranslationAccess
user_write = record { user = true; write = true; execute = false }

abbrev pub user_execute : TranslationAccess
user_execute = record { user = true; write = false; execute = true }

pub record TranslationCacheKey : Type 0 where
  pub vm : ℕ
  pub mode : TranslationMode
  pub root : AddressSpaceRoot
  pub virtual_page : ℕ
  pub page_size : ℕ
  pub access : TranslationAccess

unfoldable pub validate_page_size : ℕ → Result (Unit {0}) TranslationCacheError
unfolding is_power_of_two
validate_page_size page_size =
    fail_if (page_size == 0 || not (is_power_of_two 64 page_size)) (invalid_page_size page_size)

-- `TranslationCacheKey::for_gva`
unfoldable pub for_gva :
    ℕ
    → TranslationMode
    → AddressSpaceRoot
    → ℕ
    → ℕ
    → TranslationAccess
    → Result TranslationCacheKey TranslationCacheError
unfolding validate_page_size
for_gva vm mode root gva page_size access = do
  validate_page_size page_size
  ok (record {
    vm = vm;
    mode = mode;
    root = root;
    virtual_page = gva / page_size;
    page_size = page_size;
    access = access;
  })

pub record TranslationCacheValue : Type 0 where
  pub physical_page : ℕ
  pub page_size : ℕ
  pub readable : Bool
  pub writable : Bool
  pub user : Bool
  pub executable : Bool

-- `TranslationCacheValue::new`
unfoldable pub new_value :
    ℕ → ℕ → Bool → Bool → Bool → Bool → Result TranslationCacheValue TranslationCacheError
unfolding validate_page_size
new_value physical_page page_size readable writable user executable = do
  validate_page_size page_size
  ok (record {
    physical_page = align_down physical_page page_size;
    page_size = page_size;
    readable = readable;
    writable = writable;
    user = user;
    executable = executable;
  })

-- `TranslationCacheValue::from_translation`
unfoldable pub from_translation :
    TranslationResult → Result TranslationCacheValue TranslationCacheError
unfolding new_value
from_translation r = new_value r.gpa r.page_size r.readable r.writable r.user r.executable

-- `TranslationCacheValue::to_result`; the mask of a page size 0, which `new` refuses, would wrap.
abbrev pub to_result : TranslationCacheValue → ℕ → TranslationResult
to_result value gva =
    let offset = bit_and gva (value.page_size - 1) in
    record {
      gpa = bit_or value.physical_page offset;
      readable = value.readable;
      writable = value.writable;
      executable = value.executable;
      user = value.user;
      page_size = value.page_size;
    }

pub record TranslationCacheEntry : Type 0 where
  pub key : TranslationCacheKey
  pub value : TranslationCacheValue

pub record TranslationCache : Type 0 where
  pub max_entries : ℕ
  pub entries : List TranslationCacheEntry

-- `TranslationCache::new`
unfoldable pub new_cache : ℕ → Result TranslationCache TranslationCacheError
new_cache max_entries = do
  fail_if (max_entries == 0) (invalid_capacity max_entries)
  ok (record { max_entries = max_entries; entries = [] })

-- The derived equality tests.
abbrev pub option_eq : Option ℕ → Option ℕ → Bool
option_eq none none = true
option_eq (some a) (some b) = a == b
option_eq _ _ = false

abbrev pub granule_eq : Arm64CacheGranule → Arm64CacheGranule → Bool
granule_eq size_4k size_4k = true
granule_eq size_16k size_16k = true
granule_eq size_64k size_64k = true
granule_eq _ _ = false

unfoldable pub mode_eq : TranslationMode → TranslationMode → Bool
mode_eq x86_64_four_level x86_64_four_level = true
mode_eq x86_64_la57 x86_64_la57 = true
mode_eq (arm64_stage1 g) (arm64_stage1 h) = granule_eq g h
mode_eq _ _ = false

unfoldable pub root_eq : AddressSpaceRoot → AddressSpaceRoot → Bool
root_eq (x86_cr3 a) (x86_cr3 b) = a == b
root_eq (arm64_ttbr0 a i) (arm64_ttbr0 b j) = a == b && option_eq i j
root_eq (arm64_ttbr1 a i) (arm64_ttbr1 b j) = a == b && option_eq i j
root_eq (explicit a i) (explicit b j) = a == b && option_eq i j
root_eq _ _ = false

abbrev pub bool_eq : Bool → Bool → Bool
bool_eq true b = b
bool_eq false b = not b

unfoldable pub access_eq : TranslationAccess → TranslationAccess → Bool
access_eq a b = bool_eq a.user b.user && bool_eq a.write b.write && bool_eq a.execute b.execute

unfoldable pub key_eq : TranslationCacheKey → TranslationCacheKey → Bool
unfolding mode_eq root_eq access_eq
key_eq a b =
    a.vm == b.vm
    && mode_eq a.mode b.mode
    && root_eq a.root b.root
    && a.virtual_page == b.virtual_page
    && a.page_size == b.page_size
    && access_eq a.access b.access

unfoldable pub find_entry :
    TranslationCacheKey → List TranslationCacheEntry → Option TranslationCacheValue
unfolding key_eq
find_entry key [] = none
find_entry key (entry ∷ entries) =
    if key_eq entry.key key then some entry.value else find_entry key entries

unfoldable pub lookup : TranslationCacheKey → TranslationCache → Option TranslationCacheValue
unfolding find_entry
lookup key c = find_entry key c.entries

-- A division by zero, `checked_div`, gives nothing.
unfoldable pub lookup_result : TranslationCacheKey → ℕ → TranslationCache → Option TranslationResult
unfolding lookup
lookup_result key gva c =
    if key.page_size == 0 || not (gva / key.page_size == key.virtual_page)
    then none
    else elim (lookup key c) [
      | none ↦ none
      | some value ↦ if value.page_size == key.page_size then some (to_result value gva) else none
    ]

-- `insert` where the key is in the cache: its first entry gets the value.
unfoldable pub replace_value :
    TranslationCacheKey
    → TranslationCacheValue
    → List TranslationCacheEntry
    → Option (List TranslationCacheEntry)
unfolding key_eq
replace_value key value [] = none
replace_value key value (entry ∷ entries) =
    let behind : Option (List TranslationCacheEntry) = elim (replace_value key value entries) [
      | none ↦ none
      | some entries' ↦ some (entry ∷ entries')
    ] in
    if key_eq entry.key key then some (record entry { value = value } ∷ entries) else behind

-- `VecDeque::pop_front`
abbrev pub pop_front {ℓ} : {A : Type ℓ} → List A → List A
pop_front [] = []
pop_front (x ∷ xs) = xs

unfoldable pub insert :
    TranslationCacheKey → TranslationCacheValue → TranslationCache → TranslationCache
unfolding replace_value
insert key value c = elim (replace_value key value c.entries) [
  | some entries ↦ record c { entries = entries }
  | none ↦
      let entries = if length c.entries == c.max_entries then pop_front c.entries else c.entries in
      record c { entries = entries ++ (record { key = key; value = value } ∷ []) }
]

-- `cache_page_size_mismatch`, `cache_record_error`
abbrev pub cache_error : TranslationCacheKey → TranslationError
cache_error key = translation_failed (saturating_mul key.virtual_page key.page_size)

unfoldable pub insert_translation_result :
    TranslationCacheKey
    → Result TranslationResult TranslationError
    → TranslationCache
    → Result TranslationCache TranslationError
unfolding from_translation insert
insert_translation_result key translated c = do
  r ← translated
  fail_if (not (r.page_size == key.page_size)) (cache_error key)
  elim (from_translation r) [ err _ ↦ err (cache_error key) | ok value ↦ ok (insert key value c) ]

-- `retain_count`: the cache that is left and the number of the entries that are gone.
unfoldable pub retain {ℓ} : {A : Type ℓ} → (A → Bool) → List A → List A
retain keep [] = []
retain keep (x ∷ xs) = let rest = retain keep xs in if keep x then x ∷ rest else rest

unfoldable pub retain_count : (TranslationCacheKey → Bool) → TranslationCache → ℕ × TranslationCache
unfolding retain
retain_count keep c =
    let entries = retain (λ entry. keep entry.key) c.entries in
    (length c.entries - length entries, record c { entries = entries })

unfoldable pub invalidate_vmid : ℕ → TranslationCache → ℕ × TranslationCache
unfolding retain_count
invalidate_vmid vm = retain_count (λ key. not (key.vm == vm))

unfoldable pub invalidate_root : ℕ → AddressSpaceRoot → TranslationCache → ℕ × TranslationCache
unfolding retain_count root_eq
invalidate_root vm root = retain_count (λ key. not (key.vm == vm) || not (root_eq key.root root))

unfoldable pub invalidate_cr3 : ℕ → ℕ → TranslationCache → ℕ × TranslationCache
unfolding retain_count root_eq
invalidate_cr3 vm cr3 =
    retain_count (λ key. not (key.vm == vm) || not (root_eq key.root (cr3_root cr3)))

unfoldable pub invalidate_asid : ℕ → ℕ → TranslationCache → ℕ × TranslationCache
unfolding retain_count asid_of
invalidate_asid vm asid =
    retain_count (λ key. not (key.vm == vm) || not (option_eq (asid_of key.root) (some asid)))

unfoldable pub flush : TranslationCache → ℕ × TranslationCache
flush c = (length c.entries, record c { entries = [] })
