-- ===== src/Vmi/Cache/Coherent.antt =====
-- A cache that is filled by walks of the page tables answers like the walk.
use aegis_hv.Common.{
  ℕ, ◌*◌, ◌/◌, false, ◌||◌, not, some, List, [], ◌∷◌, ◌==◌, Result, ok, err, fail_if, ◌≡◌, inl, inr,
  refl, sym, ap, subst, ◌∙◌, arith, Bool-cases, Option-cases, Result-cases, >>=-eq-ok,
}
use aegis_hv.Common.Bits.{page_offset, is_power_of_two-eq}
use aegis_hv.Common.Word.{align_down}
use aegis_hv.Vmi.Errors.{TranslationError, TranslationResult}
use aegis_hv.Vmi.X86.{X86PagingMode, four_level, la57, Reader, base_of, page_4k, translate}
use aegis_hv.Vmi.X86.Levels.{at_address}
use aegis_hv.Vmi.X86.Same.{translate-SamePage}
use aegis_hv.Vmi.Cache.{
  TranslationMode, x86_cr3, AddressSpaceRoot, cr3_root, TranslationAccess, TranslationCacheKey,
  TranslationCacheValue, TranslationCache, for_gva, from_translation, to_result, lookup,
  lookup_result, insert_translation_result, retain_count, invalidate_vmid, invalidate_root,
  invalidate_cr3, invalidate_asid, flush, new_cache, validate_page_size, invalid_capacity,
  new_value,
}
use aegis_hv.Vmi.Cache.Walks.{
  mode_of, IsWalk, IsWalked, entry_of, find_entry-IsWalk, insert-IsWalked, retain-IsWalked,
}

-- What a user of the cache does: it remembers a walk, or it invalidates.
pub data Use : Type 0 where
  remembers : ℕ → ℕ → ℕ → X86PagingMode → TranslationAccess → Use
  drops_vm : ℕ → Use
  drops_root : ℕ → AddressSpaceRoot → Use
  drops_cr3 drops_asid : ℕ → ℕ → Use
  flushes : Use

-- The cache after a call that may fail.
abbrev pub or_as_before {ℓ} : {A : Type ℓ} {E : Type 0} → Result A E → A → A
or_as_before (ok a) b = a
or_as_before (err _) b = b

unfoldable pub remember :
    TranslationCacheKey
    → Result TranslationResult TranslationError
    → TranslationCache
    → TranslationCache
unfolding insert_translation_result
remember key walked c = or_as_before (insert_translation_result key walked c) c

unfoldable pub use_cache : Reader → Use → TranslationCache → TranslationCache
unfolding remember for_gva translate invalidate_vmid invalidate_root invalidate_cr3 invalidate_asid
    flush
use_cache memory (remembers vm cr3 g mode access) c =
    let walked = translate memory vm (some cr3) g mode in
    elim walked [
      | err _ ↦ c
      | ok r ↦ elim (for_gva vm (mode_of mode) (cr3_root cr3) g r.page_size access) [
        | err _ ↦ c
        | ok key ↦ remember key (ok r) c
      ]
    ]
use_cache memory (drops_vm vm) c = (invalidate_vmid vm c).1
use_cache memory (drops_root vm root) c = (invalidate_root vm root c).1
use_cache memory (drops_cr3 vm cr3) c = (invalidate_cr3 vm cr3 c).1
use_cache memory (drops_asid vm asid) c = (invalidate_asid vm asid c).1
use_cache memory flushes c = (flush c).1

unfoldable pub use_all : Reader → List Use → TranslationCache → TranslationCache
unfolding use_cache
use_all memory [] c = c
use_all memory (u ∷ uses) c = use_all memory uses (use_cache memory u c)

for_gva-ok :
    (vm : ℕ) (mode : TranslationMode) (root : AddressSpaceRoot) (g size : ℕ)
    (access : TranslationAccess) {key : TranslationCacheKey}
    → for_gva vm mode root g size access ≡ ok key
    → record {
      vm = vm;
      mode = mode;
      root = root;
      virtual_page = g / size;
      page_size = size;
      access = access;
    }
      ≡ key
unfolding for_gva
for_gva-ok vm mode root g size access made =
    let (_, _, made') = >>=-eq-ok (validate_page_size size) _ made in ground (arith, made')

remember-IsWalked :
    (memory : Reader) (key : TranslationCacheKey) (r : TranslationResult) (c : TranslationCache)
    → ((value : TranslationCacheValue)
        → from_translation r ≡ ok value
        → IsWalk memory (entry_of key value))
    → IsWalked memory c
    → IsWalked memory (remember key (ok r) c)
unfolding remember insert_translation_result
remember-IsWalked memory key r c w h = elim (Bool-cases (r.page_size == key.page_size)) [
  | inr differs ↦ rw (remember, differs) h
  | inl fits ↦ elim (Result-cases (from_translation r)) [
    | inl (value, e) ↦ rw (remember, fits, e) (insert-IsWalked memory key value c (w value e) h)
    | inr (_, e) ↦ rw (remember, fits, e) h
  ]
]

use_cache-IsWalked :
    (memory : Reader) (u : Use) (c : TranslationCache)
    → IsWalked memory c
    → IsWalked memory (use_cache memory u c)
unfolding use_cache invalidate_vmid invalidate_root invalidate_cr3 invalidate_asid flush
    retain_count
use_cache-IsWalked memory (remembers vm cr3 g mode access) c h =
    elim (Result-cases (translate memory vm (some cr3) g mode)) [
      | inr (_, e) ↦ rw (use_cache, e) h
      | inl (r, e) ↦
          elim (Result-cases (for_gva vm (mode_of mode) (cr3_root cr3) g r.page_size access)) [
            | inr (_, bad) ↦ rw (use_cache, e, bad) h
            | inl (key, made) ↦
                let same = for_gva-ok vm (mode_of mode) (cr3_root cr3) g r.page_size access made in
                let w : (value : TranslationCacheValue)
                    → from_translation r ≡ ok value
                    → IsWalk memory (entry_of key value) =
                  λ value e'.
                    subst (λ k. IsWalk memory (entry_of k value)) same
                      (cr3, g, mode, r, refl, refl, e, refl, refl, e') in
                rw (use_cache, e, made) (remember-IsWalked memory key r c w h)
          ]
    ]
use_cache-IsWalked memory (drops_vm vm) c h = retain-IsWalked memory _ c.entries h
use_cache-IsWalked memory (drops_root vm root) c h = retain-IsWalked memory _ c.entries h
use_cache-IsWalked memory (drops_cr3 vm cr3) c h = retain-IsWalked memory _ c.entries h
use_cache-IsWalked memory (drops_asid vm asid) c h = retain-IsWalked memory _ c.entries h
use_cache-IsWalked memory flushes c h = tt

use_all-IsWalked :
    (memory : Reader) (uses : List Use) (c : TranslationCache)
    → IsWalked memory c
    → IsWalked memory (use_all memory uses c)
unfolding use_all
use_all-IsWalked memory [] c h = h
use_all-IsWalked memory (u ∷ uses) c h =
    use_all-IsWalked memory uses (use_cache memory u c) (use_cache-IsWalked memory u c h)

abbrev root_base : AddressSpaceRoot → ℕ
root_base (x86_cr3 base) = base
root_base _ = 0

-- Of CR3 a walk reads the root only.
translate-cr3_root :
    (memory : Reader) (vm g cr3 cr3' : ℕ) (mode : X86PagingMode)
    → cr3_root cr3 ≡ cr3_root cr3'
    → translate memory vm (some cr3) g mode ≡ translate memory vm (some cr3') g mode
unfolding translate
translate-cr3_root memory vm g cr3 cr3' four_level e =
    let same : cr3 / 4096 * 4096 ≡ cr3' / 4096 * 4096 = ap root_base e in
    let base : base_of cr3 page_4k ≡ base_of cr3' page_4k = omega (arith, same) in
    rw (translate, base) refl
translate-cr3_root memory vm g cr3 cr3' la57 e =
    let same : cr3 / 4096 * 4096 ≡ cr3' / 4096 * 4096 = ap root_base e in
    let base : base_of cr3 page_4k ≡ base_of cr3' page_4k = omega (arith, same) in
    rw (translate, base) refl

mode_of-injective : (m n : X86PagingMode) → mode_of m ≡ mode_of n → m ≡ n
mode_of-injective m n e = ground (arith, e)

same_page : (a b c : ℕ) → (c == 0 || not (a == b)) ≡ false → a ≡ b
same_page a b c h = ground (arith, h)

-- What `lookup_result` went through when it found a result.
lookup_result-parts :
    (key : TranslationCacheKey) (gva : ℕ) (c : TranslationCache) {r : TranslationResult}
    → lookup_result key gva c ≡ some r
    → (gva / key.page_size ≡ key.virtual_page)
      × ((value : TranslationCacheValue) × (lookup key c ≡ some value) × (to_result value gva ≡ r))
unfolding lookup_result
lookup_result-parts key gva c {r} h =
    let skips = key.page_size == 0 || not (gva / key.page_size == key.virtual_page) in
    elim (Bool-cases skips) [
      | inl skip ↦ absurd (ground (arith, rw (lookup_result, skip) at h))
      | inr go ↦
          let page : gva / key.page_size ≡ key.virtual_page =
            same_page (gva / key.page_size) key.virtual_page key.page_size go in
          elim (Option-cases (lookup key c)) [
            | inl missing ↦ absurd (ground (arith, rw (lookup_result, go, missing) at h))
            | inr (value, e) ↦ elim (Bool-cases (value.page_size == key.page_size)) [
              | inr differs ↦ absurd (ground (arith, rw (lookup_result, go, e, differs) at h))
              | inl fits ↦ (page, (value, e, ground (arith, rw (lookup_result, go, e, fits) at h)))
            ]
          ]
    ]

abbrev value_of : TranslationResult → TranslationCacheValue
value_of r = record {
  physical_page = align_down r.gpa r.page_size;
  page_size = r.page_size;
  readable = r.readable;
  writable = r.writable;
  user = r.user;
  executable = r.executable;
}

from_translation-to_result :
    (r : TranslationResult) (value : TranslationCacheValue) (gva : ℕ)
    → from_translation r ≡ ok value
    → to_result value gva ≡ at_address r gva
unfolding from_translation new_value validate_page_size
from_translation-to_result r value gva made =
    let size = r.page_size in
    let (_, valid, made') = >>=-eq-ok (validate_page_size size) _ made in
    let e : value_of r ≡ value = ground (arith, made') in
    let (k, power) = is_power_of_two-eq 64 size (ground (arith, valid)) in
    let gpa = page_offset size k (r.gpa / size) gva power in
    ap (λ v. to_result v gva) (sym e) ∙ (λ i. record (at_address r gva) { gpa = gpa i })

new_cache-IsWalked :
    (memory : Reader) (capacity : ℕ) (c : TranslationCache)
    → new_cache capacity ≡ ok c
    → IsWalked memory c
unfolding new_cache
new_cache-IsWalked memory capacity c made =
    let (_, _, made') = >>=-eq-ok (fail_if (capacity == 0) (invalid_capacity capacity)) _ made in
    let e : record { max_entries = capacity; entries = [] } ≡ c = ground (arith, made') in
    subst (IsWalked memory) e tt

-- Whatever walks a new cache has remembered and whatever was invalidated in it, as long as the
-- page tables are read the same (one `memory`), a result that it finds for a key with the root of
-- CR3 and the paging mode is the one that the walk gives for the address.
pub lookup_result-translate :
    (memory : Reader) (uses : List Use) (capacity : ℕ) (c : TranslationCache)
    (key : TranslationCacheKey) (gva cr3 : ℕ) (mode : X86PagingMode) (r : TranslationResult)
    → new_cache capacity ≡ ok c
    → key.root ≡ cr3_root cr3
    → key.mode ≡ mode_of mode
    → lookup_result key gva (use_all memory uses c) ≡ some r
    → translate memory key.vm (some cr3) gva mode ≡ ok r
unfolding lookup
lookup_result-translate memory uses capacity c key gva cr3 mode r made root is_mode found =
    let walked = use_all-IsWalked memory uses c (new_cache-IsWalked memory capacity c made) in
    let (page, (value, e, e')) = lookup_result-parts key gva (use_all memory uses c) found in
    let (cr3', g, mode', r', root', is_mode', walk, page', size, v) =
      find_entry-IsWalk memory key (use_all memory uses c).entries walked e in
    let same_mode = mode_of-injective mode' mode (sym is_mode' ∙ is_mode) in
    let walk' : translate memory key.vm (some cr3) g mode ≡ ok r' =
      translate-cr3_root memory key.vm g cr3 cr3' mode (sym root ∙ root')
      ∙ subst (λ m. translate memory key.vm (some cr3') g m ≡ ok r') same_mode walk in
    let same : gva / r'.page_size ≡ g / r'.page_size =
      ap (λ s. gva / s) (sym size) ∙ page ∙ page' in
    translate-SamePage memory key.vm g gva (some cr3) mode r' walk' same
    ∙ ap ok (sym (from_translation-to_result r' value gva v) ∙ e')
