-- ===== src/Vmi/Tests.antt =====
-- The page walk and the cache of translations at concrete inputs.
use aegis_hv.Common.{
  ℕ, List, [], ◌∷◌, ◌==◌, if◌then◌else◌, ok, err, some, none, ◌≡◌, refl, arith, ap, true, not, ◌&&◌,
  false,
}
use aegis_hv.Vmi.Errors.{
  other, pte, not_present, missing_memory, invalid_address, TranslationResult,
}
use aegis_hv.Vmi.X86.{Reader, four_level, translate}
use aegis_hv.Vmi.X86.Levels.{at_address}
use aegis_hv.Vmi.X86.Same.{translate-SamePage}
use aegis_hv.Vmi.Cache.{
  TranslationCacheKey, TranslationCacheValue, TranslationCache, x86_64_four_level, x86_cr3,
  cr3_root, asid_of, option_eq, root_eq, kernel_read, lookup, lookup_result, insert,
  invalidate_vmid, invalidate_root, invalidate_cr3, invalidate_asid, flush, new_cache,
}
use aegis_hv.Vmi.Cache.Insert.{IsCache, Spares, insert_lem}
use aegis_hv.Vmi.Cache.Invalidate.{Drops, invalidate_lem}
use aegis_hv.Vmi.Cache.Coherent.{Use, remembers, drops_vm, use_all, lookup_result-translate}

abbrev bytes : ℕ → ℕ → ℕ → List ℕ
bytes a b c = a ∷ b ∷ c ∷ 0 ∷ 0 ∷ 0 ∷ 0 ∷ 0 ∷ []

-- Tables from the root 0x1000 on: 0x403 is mapped to the page 0x9000, the 2M page 3 to itself.
abbrev tables : Reader
tables vm gpa =
    if gpa == 0x1000
    then ok (8, bytes 0x07 0x20 0)
    else if gpa == 0x2000
    then ok (8, bytes 0x07 0x30 0)
    else if gpa == 0x3010
    then ok (8, bytes 0x07 0x40 0)
    else if gpa == 0x3018
    then ok (8, bytes 0x87 0x00 0x60)
    else if gpa == 0x4018
    then ok (8, bytes 0x05 0x90 0)
    else if gpa == 0x4020
    then ok (8, bytes 0x04 0x90 0)
    else err other

abbrev page : ℕ → TranslationResult
page gpa = record {
  gpa = gpa;
  readable = true;
  writable = false;
  executable = true;
  user = true;
  page_size = 0x1000;
}

translate_small : translate tables 1 (some 0x1018) 0x403025 four_level ≡ ok (page 0x9025)
unfolding translate
translate_small = refl

translate_large :
    translate tables 1 (some 0x1000) 0x612345 four_level
    ≡ ok (record (page 0x612345) { writable = true; page_size = 0x200000 })
unfolding translate
translate_large = refl

translate_absent :
    translate tables 1 (some 0x1000) 0x404000 four_level ≡ err (not_present pte 0x404000)
unfolding translate
translate_absent = refl

translate_unread :
    translate tables 1 (some 0x1000) 0x405000 four_level ≡ err (missing_memory 0x4028)
unfolding translate
translate_unread = refl

translate_wrong :
    translate tables 1 none 0x800000000000 four_level ≡ err (invalid_address 0x800000000000)
unfolding translate
translate_wrong = refl

translate-SamePage_example :
    translate tables 1 (some 0x1018) 0x403777 four_level ≡ ok (at_address (page 0x9025) 0x403777)
translate-SamePage_example =
    translate-SamePage tables 1 0x403025 0x403777 (some 0x1018) four_level (page 0x9025)
      translate_small refl

abbrev key : TranslationCacheKey
key = record {
  vm = 1;
  mode = x86_64_four_level;
  root = x86_cr3 0x1000;
  virtual_page = 0x403;
  page_size = 0x1000;
  access = kernel_read;
}

abbrev other_key : TranslationCacheKey
other_key = record key { vm = 2 }

abbrev value : TranslationCacheValue
value = record {
  physical_page = 0x9000;
  page_size = 0x1000;
  readable = true;
  writable = false;
  user = true;
  executable = true;
}

-- A full cache.
abbrev cache : TranslationCache
cache = record { max_entries = 1; entries = record { key = other_key; value = value } ∷ [] }

abbrev cache_empty : TranslationCache
cache_empty = record { max_entries = 1; entries = [] }

cache-IsCache : IsCache cache
cache-IsCache = (omega arith, omega arith, (tt, tt))

insert_lem_example :
    IsCache (insert key value cache)
    × (lookup key (insert key value cache) ≡ some value)
    × Spares key other_key cache (insert key value cache)
insert_lem_example =
    insert_lem key other_key value cache cache-IsCache (λ e. ground (arith, ap (λ k. k.vm) e))

invalidate_lem_example :
    Drops (λ k. not (k.vm == 2)) cache (invalidate_vmid 2 cache)
    × Drops
        (λ k. not (k.vm == 2 && root_eq k.root (x86_cr3 0x1000)))
        cache
        (invalidate_root 2 (x86_cr3 0x1000) cache)
    × Drops
        (λ k. not (k.vm == 2 && root_eq k.root (cr3_root 0x1018)))
        cache
        (invalidate_cr3 2 0x1018 cache)
    × Drops
        (λ k. not (k.vm == 2 && option_eq (asid_of k.root) (some 5)))
        cache
        (invalidate_asid 2 5 cache)
    × Drops (λ k. false) cache (flush cache)
invalidate_lem_example = invalidate_lem 2 0x1018 5 (x86_cr3 0x1000) cache cache-IsCache

-- The walk is remembered, and the entries of another VM are dropped.
abbrev uses : List Use
uses = remembers 1 0x1018 0x403025 four_level kernel_read ∷ drops_vm 2 ∷ []

found : lookup_result key 0x403777 (use_all tables uses cache_empty) ≡ some (page 0x9777)
unfolding lookup_result use_all
found = refl

lookup_result-translate_example :
    translate tables 1 (some 0x1000) 0x403777 four_level ≡ ok (page 0x9777)
lookup_result-translate_example =
    lookup_result-translate tables uses 1 cache_empty key 0x403777 0x1000 four_level (page 0x9777)
      (unfold new_cache in refl) refl refl found
