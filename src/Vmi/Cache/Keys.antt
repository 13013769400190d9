-- ===== src/Vmi/Cache/Keys.antt =====
-- The equality test on keys.
use aegis_hv.Common.{ℕ, Bool, true, ◌&&◌, Option, ◌==◌, ◌≡◌, refl, arith}
use aegis_hv.Vmi.Cache.{
  TranslationMode, Arm64CacheGranule, AddressSpaceRoot, TranslationAccess, TranslationCacheKey,
  option_eq, granule_eq, mode_eq, root_eq, access_eq, key_eq,
}

option_eq-eq : (a b : Option ℕ) → option_eq a b ≡ true → a ≡ b
option_eq-eq a b h = ground (arith, h)

option_eq_refl : (a : Option ℕ) → option_eq a a ≡ true
option_eq_refl a = ground arith

granule_eq-eq : (a b : Arm64CacheGranule) → granule_eq a b ≡ true → a ≡ b
granule_eq-eq a b h = ground (arith, h)

granule_eq_refl : (a : Arm64CacheGranule) → granule_eq a a ≡ true
granule_eq_refl a = ground arith

mode_eq-eq : (a b : TranslationMode) → mode_eq a b ≡ true → a ≡ b
unfolding mode_eq
mode_eq-eq a b h = ground (arith, h)

mode_eq_refl : (a : TranslationMode) → mode_eq a a ≡ true
unfolding mode_eq
mode_eq_refl a = ground arith

six :
    (a b c d e f : Bool)
    → (a && b && c && d && e && f) ≡ true
    → (a ≡ true) × (b ≡ true) × (c ≡ true) × (d ≡ true) × (e ≡ true) × (f ≡ true)
six a b c d e f h = ground (arith, h)

same_number : (a b : ℕ) → (a == b) ≡ true → a ≡ b
same_number a b h = ground (arith, h)

number_refl : (a : ℕ) → (a == a) ≡ true
number_refl a = ground arith

pub root_eq-eq : (a b : AddressSpaceRoot) → root_eq a b ≡ true → a ≡ b
unfolding root_eq
root_eq-eq a b h = ground (arith, h)

root_eq_refl : (a : AddressSpaceRoot) → root_eq a a ≡ true
unfolding root_eq
root_eq_refl a = ground arith

access_eq-eq : (a b : TranslationAccess) → access_eq a b ≡ true → a ≡ b
unfolding access_eq
access_eq-eq a b h =
    let all : (a.user ≡ b.user) × (a.write ≡ b.write) × (a.execute ≡ b.execute) =
      ground (arith, h) in
    λ i. record { user = all.0 i; write = all.1 i; execute = all.2 i }

access_eq_refl : (a : TranslationAccess) → access_eq a a ≡ true
unfolding access_eq
access_eq_refl a = ground arith

pub key_eq-eq : (a b : TranslationCacheKey) → key_eq a b ≡ true → a ≡ b
unfolding key_eq
key_eq-eq a b h =
    let all =
      six (a.vm == b.vm) (mode_eq a.mode b.mode) (root_eq a.root b.root)
        (a.virtual_page == b.virtual_page) (a.page_size == b.page_size)
        (access_eq a.access b.access) h in
    let vm = same_number a.vm b.vm all.0 in
    let mode = mode_eq-eq a.mode b.mode all.1 in
    let root = root_eq-eq a.root b.root all.2 in
    let page = same_number a.virtual_page b.virtual_page all.3 in
    let size = same_number a.page_size b.page_size all.4 in
    let access = access_eq-eq a.access b.access all.5 in
    λ i. record {
      vm = vm i;
      mode = mode i;
      root = root i;
      virtual_page = page i;
      page_size = size i;
      access = access i;
    }

pub key_eq_refl : (a : TranslationCacheKey) → key_eq a a ≡ true
unfolding key_eq
key_eq_refl a =
    rw
      (
        number_refl a.vm,
        mode_eq_refl a.mode,
        root_eq_refl a.root,
        number_refl a.virtual_page,
        number_refl a.page_size,
        access_eq_refl a.access,
      )
      refl
