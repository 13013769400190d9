-- ===== src/Vmi/Cache/Laws.antt =====
-- The search for a key in the list of entries.
use aegis_hv.Common.{
  suc, Bool, true, false, none, some, List, [], ◌∷◌, ◌++◌, length, ◌≡◌, ◌≢◌, inl, inr, refl, sym,
  ap, subst, ◌∙◌, arith, All, Pairs, Bool-cases, Option-cases,
}
use aegis_hv.Vmi.Cache.{
  TranslationCacheKey, TranslationCacheValue, TranslationCacheEntry, key_eq, find_entry,
  replace_value,
}
use aegis_hv.Vmi.Cache.Keys.{key_eq-eq, key_eq_refl}

abbrev pub keys : List TranslationCacheEntry → List TranslationCacheKey
keys [] = []
keys (entry ∷ entries) = entry.key ∷ keys entries

abbrev pub Distinct : List TranslationCacheEntry → Type 0
Distinct entries = Pairs (λ a b. a ≢ b) (keys entries)

pub other_key : (a b : TranslationCacheKey) → a ≢ b → key_eq a b ≡ false
other_key a b d = elim (Bool-cases (key_eq a b)) [
  | inl same ↦ absurd (d (key_eq-eq a b same))
  | inr other ↦ other
]

pub find_entry-here :
    (entry : TranslationCacheEntry) (entries : List TranslationCacheEntry)
    → find_entry entry.key (entry ∷ entries) ≡ some entry.value
unfolding find_entry
find_entry-here entry entries = rw (find_entry, key_eq_refl entry.key) refl

pub find_entry-behind :
    (k : TranslationCacheKey) (entry : TranslationCacheEntry) (entries : List TranslationCacheEntry)
    → entry.key ≢ k
    → find_entry k (entry ∷ entries) ≡ find_entry k entries
unfolding find_entry
find_entry-behind k entry entries d = rw (find_entry, other_key entry.key k d) refl

pub find_entry-append :
    (k : TranslationCacheKey) (entries more : List TranslationCacheEntry)
    → find_entry k entries ≡ none
    → find_entry k (entries ++ more) ≡ find_entry k more
unfolding find_entry
find_entry-append k [] more h = refl
find_entry-append k (entry ∷ entries) more h = elim (Bool-cases (key_eq entry.key k)) [
  | inl here ↦ absurd (ground (arith, rw (find_entry, here) at h))
  | inr behind ↦
      rw (find_entry, behind) (find_entry-append k entries more (rw (find_entry, behind) at h))
]

pub find_entry-snoc :
    (k : TranslationCacheKey) (entries : List TranslationCacheEntry) (entry : TranslationCacheEntry)
    → entry.key ≢ k
    → find_entry k (entries ++ (entry ∷ [])) ≡ find_entry k entries
unfolding find_entry
find_entry-snoc k [] entry d = find_entry-behind k entry [] d
find_entry-snoc k (e ∷ entries) entry d = elim (Bool-cases (key_eq e.key k)) [
  | inl here ↦ rw (find_entry, here) refl
  | inr behind ↦ rw (find_entry, behind) (find_entry-snoc k entries entry d)
]

pub differ : {b : Bool} → b ≡ true → b ≡ false → ⊥
differ h k = ground (arith, h, k)

-- A key that is not found is none of the keys.
pub find_entry-none :
    (k : TranslationCacheKey) (entries : List TranslationCacheEntry)
    → find_entry k entries ≡ none
    → All (λ q. q ≢ k) (keys entries)
unfolding find_entry
find_entry-none k [] h = tt
find_entry-none k (entry ∷ entries) h = elim (Bool-cases (key_eq entry.key k)) [
  | inl here ↦ absurd (ground (arith, rw (find_entry, here) at h))
  | inr behind ↦ (
    λ e. (differ (subst (λ q. key_eq entry.key q ≡ true) e (key_eq_refl entry.key)) behind),
    find_entry-none k entries (rw (find_entry, behind) at h),
  )
]

-- And the other way round.
pub none-find_entry :
    (k : TranslationCacheKey) (entries : List TranslationCacheEntry)
    → All (λ q. q ≢ k) (keys entries)
    → find_entry k entries ≡ none
unfolding find_entry
none-find_entry k [] h = refl
none-find_entry k (entry ∷ entries) h =
    find_entry-behind k entry entries h.0 ∙ none-find_entry k entries h.1

find_entry-cong :
    (k : TranslationCacheKey) (entry : TranslationCacheEntry) (xs ys : List TranslationCacheEntry)
    → find_entry k xs ≡ find_entry k ys
    → find_entry k (entry ∷ xs) ≡ find_entry k (entry ∷ ys)
unfolding find_entry
find_entry-cong k entry xs ys e = elim (Bool-cases (key_eq entry.key k)) [
  | inl here ↦ rw (find_entry, here) refl
  | inr behind ↦ rw (find_entry, behind) e
]

-- The list after a replacement.
abbrev pub Replaces :
    TranslationCacheKey
    → TranslationCacheValue
    → List TranslationCacheEntry
    → List TranslationCacheEntry
    → Type 0
Replaces key value entries out =
    (find_entry key out ≡ some value)
    × ((k : TranslationCacheKey) → key ≢ k → find_entry k out ≡ find_entry k entries)
    × (length out ≡ length entries)
    × (keys out ≡ keys entries)

pub replace_value-none :
    (key : TranslationCacheKey) (value : TranslationCacheValue)
    (entries : List TranslationCacheEntry)
    → replace_value key value entries ≡ none
    → find_entry key entries ≡ none
unfolding replace_value find_entry
replace_value-none key value [] h = refl
replace_value-none key value (entry ∷ entries) h = elim (Bool-cases (key_eq entry.key key)) [
  | inl here ↦ absurd (ground (arith, rw (replace_value, here) at h))
  | inr behind ↦ elim (Option-cases (replace_value key value entries)) [
    | inl e ↦ rw (find_entry, behind) (replace_value-none key value entries e)
    | inr (out, e) ↦ absurd (ground (arith, rw (replace_value, behind, e) at h))
  ]
]

pub replace_value_lem :
    (key : TranslationCacheKey) (value : TranslationCacheValue)
    (entries out : List TranslationCacheEntry)
    → replace_value key value entries ≡ some out
    → Replaces key value entries out
unfolding replace_value find_entry
replace_value_lem key value [] out h = absurd (ground (arith, h))
replace_value_lem key value (entry ∷ entries) out h = elim (Bool-cases (key_eq entry.key key)) [
  | inl here ↦
      let e : record entry { value = value } ∷ entries ≡ out =
        ground (arith, rw (replace_value, here) at h) in
      let same = key_eq-eq entry.key key here in
      subst (Replaces key value (entry ∷ entries)) e (
        rw (find_entry, here) refl,
        λ k d.
            let d' : entry.key ≢ k = λ e'. d (sym same ∙ e') in
            find_entry-behind k (record entry { value = value }) entries d'
            ∙ sym (find_entry-behind k entry entries d'),
        refl,
        refl,
      )
  | inr behind ↦ elim (Option-cases (replace_value key value entries)) [
    | inl e ↦ absurd (ground (arith, rw (replace_value, behind, e) at h))
    | inr (rest, e) ↦
        let e' : entry ∷ rest ≡ out = ground (arith, rw (replace_value, behind, e) at h) in
        let (found, others, size, same) = replace_value_lem key value entries rest e in
        subst (Replaces key value (entry ∷ entries)) e' (
          rw (find_entry, behind) found,
          λ k d. find_entry-cong k entry rest entries (others k d),
          ap suc size,
          ap (λ ks. entry.key ∷ ks) same,
        )
  ]
]

pub keys-append : (xs ys : List TranslationCacheEntry) → keys (xs ++ ys) ≡ keys xs ++ keys ys
keys-append [] ys = refl
keys-append (x ∷ xs) ys = ap (λ ks. x.key ∷ ks) (keys-append xs ys)
