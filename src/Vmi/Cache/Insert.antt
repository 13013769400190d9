-- ===== src/Vmi/Cache/Insert.antt =====
-- What a lookup finds after an insertion.
use aegis_hv.Common.{
  ℕ, suc, ◌≤◌, ◌<◌, true, none, some, List, [], ◌∷◌, ◌++◌, length, length-append, ◌==◌,
  if◌then◌else◌, ◌≡◌, ◌≢◌, ◌⊎◌, inl, inr, refl, sym, subst, ◌∙◌, arith, Pairs-snoc, Bool-cases,
  Option-cases, All-imp,
}
use aegis_hv.Vmi.Cache.{
  TranslationCacheKey, TranslationCacheValue, TranslationCacheEntry, TranslationCache, key_eq,
  find_entry, lookup, replace_value, pop_front, insert,
}
use aegis_hv.Vmi.Cache.Keys.{key_eq-eq, key_eq_refl}
use aegis_hv.Vmi.Cache.Laws.{
  keys, Distinct, replace_value-none, find_entry-none, replace_value_lem, find_entry-append,
  find_entry-behind, find_entry-here, find_entry-snoc, none-find_entry, keys-append, differ,
}

-- The keys are different and no more than the cache has room for.
abbrev pub IsCache : TranslationCache → Type 0
IsCache c = (0 < c.max_entries) × (length c.entries ≤ c.max_entries) × Distinct c.entries

-- What becomes of the lookup of another key: it is as before, unless the entry was the oldest one
-- of a full cache that had to make room.
abbrev pub Spares :
    TranslationCacheKey → TranslationCacheKey → TranslationCache → TranslationCache → Type 0
Spares key k c c' =
    (lookup k c' ≡ lookup k c)
    ⊎ ((length c.entries ≡ c.max_entries)
        × (lookup key c ≡ none)
        × ((oldest : TranslationCacheEntry) × (rest : List TranslationCacheEntry) × (c.entries
              ≡ oldest ∷ rest)
            × (oldest.key ≡ k))
        × (lookup k c' ≡ none))

-- A new entry behind the others.
append_lem :
    (key k : TranslationCacheKey) (value : TranslationCacheValue)
    (entries : List TranslationCacheEntry)
    → key ≢ k
    → find_entry key entries ≡ none
    → Distinct entries
    → let out = entries ++ (record { key = key; value = value } ∷ []) in
      (find_entry key out ≡ some value) × (find_entry k out ≡ find_entry k entries) × Distinct out
append_lem key k value entries d fresh apart =
    let entry : TranslationCacheEntry = record { key = key; value = value } in
    (
      find_entry-append key entries (entry ∷ []) fresh ∙ find_entry-here entry [],
      find_entry-snoc k entries entry d,
      rw (keys-append entries (entry ∷ []))
          (Pairs-snoc (λ a b. a ≢ b) (keys entries) key apart (find_entry-none key entries fresh)),
    )

-- Without the oldest entry of a full cache.
pop_front_lem :
    (key k : TranslationCacheKey) (entries : List TranslationCacheEntry)
    → find_entry key entries ≡ none
    → Distinct entries
    → (find_entry key (pop_front entries) ≡ none)
      × Distinct (pop_front entries)
      × ((find_entry k (pop_front entries) ≡ find_entry k entries)
          ⊎ ((oldest : TranslationCacheEntry) × (rest : List TranslationCacheEntry) × (entries
                ≡ oldest ∷ rest)
              × (oldest.key ≡ k)
              × (find_entry k (pop_front entries) ≡ none)))
pop_front_lem key k [] fresh apart = (fresh, apart, inl refl)
pop_front_lem key k (entry ∷ entries) fresh apart =
    let (d, _) = find_entry-none key (entry ∷ entries) fresh in
    let fresh' = sym (find_entry-behind key entry entries d) ∙ fresh in
    elim (Bool-cases (key_eq entry.key k)) [
      | inl here ↦
          let same = key_eq-eq entry.key k here in
          let gone : find_entry k entries ≡ none =
            subst (λ q. find_entry q entries ≡ none) same
              (none-find_entry entry.key entries
                (All-imp (λ q d e. d (sym e)) (keys entries) apart.0)) in
          (fresh', apart.1, inr (entry, entries, refl, same, gone))
      | inr other ↦
          let d' : entry.key ≢ k =
            λ e. differ (subst (λ q. key_eq entry.key q ≡ true) e (key_eq_refl entry.key)) other in
          (fresh', apart.1, inl (sym (find_entry-behind k entry entries d')))
    ]

-- A miss: the new entry goes behind the others, and a full cache drops its oldest entry first.
abbrev pushed : TranslationCacheKey → TranslationCacheValue → TranslationCache → TranslationCache
pushed key value c =
    let entries = if length c.entries == c.max_entries then pop_front c.entries else c.entries in
    record c { entries = entries ++ (record { key = key; value = value } ∷ []) }

pop_front-length :
    {A : Type 0} (xs : List A) (n : ℕ) → 0 < n → length xs ≤ n → suc (length (pop_front xs)) ≤ n
pop_front-length [] n h k = omega arith
pop_front-length (x ∷ xs) n h k = omega arith

push_lem :
    (key k : TranslationCacheKey) (value : TranslationCacheValue) (c : TranslationCache)
    → IsCache c
    → key ≢ k
    → find_entry key c.entries ≡ none
    → IsCache (pushed key value c)
      × (lookup key (pushed key value c) ≡ some value)
      × Spares key k c (pushed key value c)
unfolding lookup
push_lem key k value c (room, few, apart) d fresh =
    let entry : TranslationCacheEntry = record { key = key; value = value } in
    elim (Bool-cases (length c.entries == c.max_entries)) [
      | inl full ↦
          let (fresh', apart', spares) = pop_front_lem key k c.entries fresh apart in
          let (found, others, apart'') =
            append_lem key k value (pop_front c.entries) d fresh' apart' in
          let few' : suc (length (pop_front c.entries)) ≤ c.max_entries =
            pop_front-length c.entries c.max_entries room few in
          rw full (
            (room, omega (arith, few', length-append (pop_front c.entries) (entry ∷ [])), apart''),
            found,
            elim spares [
              | inl same ↦ inl (others ∙ same)
              | inr (oldest, rest, e, same, gone) ↦
                  inr (ground (arith, full), fresh, (oldest, rest, e, same), others ∙ gone)
            ],
          )
      | inr not_full ↦
          let (found, others, apart'') = append_lem key k value c.entries d fresh apart in
          let few' : length c.entries < c.max_entries = ground (arith, few, not_full) in
          rw not_full (
            (room, omega (arith, few', length-append c.entries (entry ∷ [])), apart''),
            found,
            inl others,
          )
    ]

-- After an insertion the key is found with its value. Every other key is found as before, except
-- the oldest one, when a new key comes into a full cache. The keys of the cache stay different and
-- within its capacity.
pub insert_lem :
    (key k : TranslationCacheKey) (value : TranslationCacheValue) (c : TranslationCache)
    → IsCache c
    → key ≢ k
    → IsCache (insert key value c)
      × (lookup key (insert key value c) ≡ some value)
      × Spares key k c (insert key value c)
unfolding insert lookup
insert_lem key k value c h d = elim (Option-cases (replace_value key value c.entries)) [
  | inl e ↦ rw (insert, e) (push_lem key k value c h d (replace_value-none key value c.entries e))
  | inr (out, e) ↦
      let (found, others, size, same) = replace_value_lem key value c.entries out e in
      let (room, few, apart) = h in
      rw (insert, e) ((room, omega (arith, size, few), rw same apart), found, inl (others k d))
]
