-- ===== src/Vmi/Cache/Invalidate.antt =====
-- What a lookup finds after an invalidation.
use aegis_hv.Common.{
  ℕ, ◌+◌, ◌≤◌, Bool, true, false, ◌&&◌, ◌||◌, not, none, some, List, [], ◌∷◌, length, ◌==◌,
  if◌then◌else◌, ◌≡◌, ◌≢◌, inl, inr, refl, sym, ap, ◌∙◌, arith, All, Bool-cases,
}
use aegis_hv.Vmi.Cache.{
  TranslationCacheKey, TranslationCacheEntry, TranslationCache, AddressSpaceRoot, cr3_root, asid_of,
  option_eq, root_eq, key_eq, find_entry, lookup, retain, retain_count, invalidate_vmid,
  invalidate_root, invalidate_cr3, invalidate_asid, flush,
}
use aegis_hv.Vmi.Cache.Keys.{key_eq-eq}
use aegis_hv.Vmi.Cache.Laws.{keys, Distinct}
use aegis_hv.Vmi.Cache.Insert.{IsCache}

abbrev kept : (TranslationCacheKey → Bool) → List TranslationCacheEntry → List TranslationCacheEntry
kept keep = retain (λ entry. keep entry.key)

find_entry-retain :
    (keep : TranslationCacheKey → Bool) (k : TranslationCacheKey)
    (entries : List TranslationCacheEntry)
    → find_entry k (kept keep entries) ≡ (if keep k then find_entry k entries else none)
unfolding find_entry retain
find_entry-retain keep k [] = ground arith
find_entry-retain keep k (entry ∷ entries) =
    let rest = find_entry-retain keep k entries in
    elim (Bool-cases (key_eq entry.key k)) [
      | inl here ↦
          let same = key_eq-eq entry.key k here in
          elim (Bool-cases (keep entry.key)) [
            | inl stays ↦
                let stays' : keep k ≡ true = ap keep (sym same) ∙ stays in
                rw (retain, stays, stays', find_entry, here) refl
            | inr goes ↦
                let goes' : keep k ≡ false = ap keep (sym same) ∙ goes in
                let rest' : find_entry k (kept keep entries) ≡ none = rw goes' at rest in
                rw (retain, goes, goes') rest'
          ]
      | inr behind ↦ elim (Bool-cases (keep entry.key)) [
        | inl stays ↦ rw (retain, stays, find_entry, behind) rest
        | inr goes ↦ rw (retain, goes, find_entry, behind) rest
      ]
    ]

retain-length :
    (keep : TranslationCacheKey → Bool) (entries : List TranslationCacheEntry)
    → length (kept keep entries) ≤ length entries
unfolding retain
retain-length keep [] = omega arith
retain-length keep (entry ∷ entries) = elim (Bool-cases (keep entry.key)) [
  | inl stays ↦ rw (retain, stays) (omega (arith, retain-length keep entries))
  | inr goes ↦ rw (retain, goes) (omega (arith, retain-length keep entries))
]

retain-All :
    (P : TranslationCacheKey → Type 0) (keep : TranslationCacheKey → Bool)
    (entries : List TranslationCacheEntry)
    → All P (keys entries)
    → All P (keys (kept keep entries))
unfolding retain
retain-All P keep [] h = tt
retain-All P keep (entry ∷ entries) h = elim (Bool-cases (keep entry.key)) [
  | inl stays ↦ rw (retain, stays) (h.0, retain-All P keep entries h.1)
  | inr goes ↦ rw (retain, goes) (retain-All P keep entries h.1)
]

retain-Distinct :
    (keep : TranslationCacheKey → Bool) (entries : List TranslationCacheEntry)
    → Distinct entries
    → Distinct (kept keep entries)
unfolding retain
retain-Distinct keep [] h = tt
retain-Distinct keep (entry ∷ entries) h = elim (Bool-cases (keep entry.key)) [
  | inl stays ↦
      rw (retain, stays)
        (retain-All (λ k. entry.key ≢ k) keep entries h.0, retain-Distinct keep entries h.1)
  | inr goes ↦ rw (retain, goes) (retain-Distinct keep entries h.1)
]

-- The cache after an invalidation that spares the keys for which `keep` holds.
abbrev pub Drops : (TranslationCacheKey → Bool) → TranslationCache → ℕ × TranslationCache → Type 0
Drops keep c (n, c') =
    IsCache c'
    × (n + length c'.entries ≡ length c.entries)
    × ((k : TranslationCacheKey) → lookup k c' ≡ (if keep k then lookup k c else none))

retain_count_lem :
    (keep : TranslationCacheKey → Bool) (c : TranslationCache)
    → IsCache c
    → Drops keep c (retain_count keep c)
unfolding retain_count lookup
retain_count_lem keep c (room, few, apart) = (
  (room, omega (arith, few, retain-length keep c.entries), retain-Distinct keep c.entries apart),
  omega (arith, retain-length keep c.entries),
  λ k. find_entry-retain keep k c.entries,
)

not_both : (b c : Bool) → (not b || not c) ≡ not (b && c)
not_both b c = ground arith

-- The keys with both marks go.
retain_both :
    (f g : TranslationCacheKey → Bool) (c : TranslationCache)
    → IsCache c
    → Drops (λ key. not (f key && g key)) c (retain_count (λ key. not (f key) || not (g key)) c)
retain_both f g c h =
    let (is, size, found) = retain_count_lem (λ key. not (f key) || not (g key)) c h in
    (is, size, λ k. found k ∙ ap (λ b. if b then lookup k c else none) (not_both (f k) (g k)))

-- Each invalidation keeps the cache in order and returns how many entries it has dropped. The keys
-- of the VM, and of the address space root, the CR3 or the ASID where one is named, are found no
-- more, and all others as before; after a flush nothing is found.
pub invalidate_lem :
    (vm cr3 asid : ℕ) (root : AddressSpaceRoot) (c : TranslationCache)
    → IsCache c
    → Drops (λ key. not (key.vm == vm)) c (invalidate_vmid vm c)
      × Drops (λ key. not (key.vm == vm && root_eq key.root root)) c (invalidate_root vm root c)
      × Drops
          (λ key. not (key.vm == vm && root_eq key.root (cr3_root cr3)))
          c
          (invalidate_cr3 vm cr3 c)
      × Drops
          (λ key. not (key.vm == vm && option_eq (asid_of key.root) (some asid)))
          c
          (invalidate_asid vm asid c)
      × Drops (λ key. false) c (flush c)
unfolding invalidate_vmid invalidate_root invalidate_cr3 invalidate_asid flush lookup
invalidate_lem vm cr3 asid root c h = (
  retain_count_lem (λ key. not (key.vm == vm)) c h,
  retain_both (λ key. key.vm == vm) (λ key. root_eq key.root root) c h,
  retain_both (λ key. key.vm == vm) (λ key. root_eq key.root (cr3_root cr3)) c h,
  retain_both (λ key. key.vm == vm) (λ key. option_eq (asid_of key.root) (some asid)) c h,
  ((h.0, omega arith, tt), omega arith, λ k. unfold find_entry in refl),
)
