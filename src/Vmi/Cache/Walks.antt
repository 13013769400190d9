-- ===== src/Vmi/Cache/Walks.antt =====
-- Entries that walks of the page tables have found.
use aegis_hv.Common.{
  ℕ, ◌/◌, Bool, some, List, [], ◌∷◌, length, ◌==◌, ok, ◌≡◌, inl, inr, sym, subst, arith, All,
  All-append, Bool-cases, Option-cases,
}
use aegis_hv.Vmi.Errors.{TranslationResult}
use aegis_hv.Vmi.X86.{X86PagingMode, four_level, la57, Reader, translate}
use aegis_hv.Vmi.Cache.{
  TranslationMode, x86_64_four_level, x86_64_la57, cr3_root, TranslationCacheKey,
  TranslationCacheValue, TranslationCacheEntry, TranslationCache, from_translation, key_eq,
  find_entry, replace_value, pop_front, insert, retain,
}
use aegis_hv.Vmi.Cache.Keys.{key_eq-eq}

-- The mode of the keys for a mode of paging.
abbrev pub mode_of : X86PagingMode → TranslationMode
mode_of four_level = x86_64_four_level
mode_of la57 = x86_64_la57

-- The entry is what a walk for some address of the page has found.
abbrev pub IsWalk : Reader → TranslationCacheEntry → Type 0
IsWalk memory entry =
    (cr3 : ℕ) × (g : ℕ) × (mode : X86PagingMode) × (r : TranslationResult) × (entry.key.root
      ≡ cr3_root cr3)
    × (entry.key.mode ≡ mode_of mode)
    × (translate memory entry.key.vm (some cr3) g mode ≡ ok r)
    × (entry.key.virtual_page ≡ g / r.page_size)
    × (entry.key.page_size ≡ r.page_size)
    × (from_translation r ≡ ok entry.value)

abbrev pub IsWalked : Reader → TranslationCache → Type 0
IsWalked memory c = All (IsWalk memory) c.entries

abbrev pub entry_of : TranslationCacheKey → TranslationCacheValue → TranslationCacheEntry
entry_of key value = record { key = key; value = value }

pub find_entry-IsWalk :
    (memory : Reader) (k : TranslationCacheKey) (entries : List TranslationCacheEntry)
    {value : TranslationCacheValue}
    → All (IsWalk memory) entries
    → find_entry k entries ≡ some value
    → IsWalk memory (entry_of k value)
unfolding find_entry
find_entry-IsWalk memory k [] h found = absurd (ground (arith, found))
find_entry-IsWalk memory k (entry ∷ entries) {value} h found =
    elim (Bool-cases (key_eq entry.key k)) [
      | inl here ↦
          let e : entry.value ≡ value = ground (arith, rw (find_entry, here) at found) in
          let same : entry ≡ entry_of k value =
            λ i. record { key = key_eq-eq entry.key k here i; value = e i } in
          subst (IsWalk memory) same h.0
      | inr behind ↦ find_entry-IsWalk memory k entries h.1 (rw (find_entry, behind) at found)
    ]

replace_value-IsWalk :
    (memory : Reader) (key : TranslationCacheKey) (value : TranslationCacheValue)
    (entries out : List TranslationCacheEntry)
    → IsWalk memory (entry_of key value)
    → All (IsWalk memory) entries
    → replace_value key value entries ≡ some out
    → All (IsWalk memory) out
unfolding replace_value
replace_value-IsWalk memory key value [] out w h e = absurd (ground (arith, e))
replace_value-IsWalk memory key value (entry ∷ entries) out w h e =
    elim (Bool-cases (key_eq entry.key key)) [
      | inl here ↦
          let e' : record entry { value = value } ∷ entries ≡ out =
            ground (arith, rw (replace_value, here) at e) in
          let same : entry_of key value ≡ record entry { value = value } =
            λ i. record { key = sym (key_eq-eq entry.key key here) i; value = value } in
          subst (All (IsWalk memory)) e' (subst (IsWalk memory) same w, h.1)
      | inr behind ↦ elim (Option-cases (replace_value key value entries)) [
        | inl none_there ↦ absurd (ground (arith, rw (replace_value, behind, none_there) at e))
        | inr (rest, there) ↦
            let e' : entry ∷ rest ≡ out = ground (arith, rw (replace_value, behind, there) at e) in
            subst (All (IsWalk memory)) e'
              (h.0, replace_value-IsWalk memory key value entries rest w h.1 there)
      ]
    ]

pop_front-All :
    (memory : Reader) (entries : List TranslationCacheEntry)
    → All (IsWalk memory) entries
    → All (IsWalk memory) (pop_front entries)
pop_front-All memory [] h = h
pop_front-All memory (entry ∷ entries) h = h.1

pub insert-IsWalked :
    (memory : Reader) (key : TranslationCacheKey) (value : TranslationCacheValue)
    (c : TranslationCache)
    → IsWalk memory (entry_of key value)
    → IsWalked memory c
    → IsWalked memory (insert key value c)
unfolding insert
insert-IsWalked memory key value c w h = elim (Option-cases (replace_value key value c.entries)) [
  | inl e ↦ elim (Bool-cases (length c.entries == c.max_entries)) [
    | inl full ↦
        rw (insert, e, full)
          (All-append (IsWalk memory) (pop_front c.entries) (entry_of key value ∷ [])
            (pop_front-All memory c.entries h) (w, tt))
    | inr room ↦
        rw (insert, e, room)
          (All-append (IsWalk memory) c.entries (entry_of key value ∷ []) h (w, tt))
  ]
  | inr (out, e) ↦ rw (insert, e) (replace_value-IsWalk memory key value c.entries out w h e)
]

pub retain-IsWalked :
    (memory : Reader) (keep : TranslationCacheKey → Bool) (entries : List TranslationCacheEntry)
    → All (IsWalk memory) entries
    → All (IsWalk memory) (retain (λ entry. keep entry.key) entries)
unfolding retain
retain-IsWalked memory keep [] h = tt
retain-IsWalked memory keep (entry ∷ entries) h = elim (Bool-cases (keep entry.key)) [
  | inl stays ↦ rw (retain, stays) (h.0, retain-IsWalked memory keep entries h.1)
  | inr goes ↦ rw (retain, goes) (retain-IsWalked memory keep entries h.1)
]
