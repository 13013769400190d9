-- ===== src/Core/Memory/Sort.antt =====
-- What a list of regions covers, and the sorting of a memory map.
use aegis_hv.Common.{
  ℕ, ◌+◌, ◌<◌, ◌≤◌, Bool, true, false, ◌&&◌, ◌||◌, List, [], ◌∷◌, ◌++◌, reverse, reverse-cons, ltb,
  leb, ok, ◌≡◌, refl, arith, All, All-imp, Pairs, Bool-cases, inl, inr, ap, sym, ◌∙◌, >>=-eq-ok,
  subst,
}
use aegis_hv.Common.Word.{u64_mod}
use aegis_hv.Core.Memory.{
  MemoryRegionKind, kind_eq, MemoryRegion, end, validate_region, shift_in, insert_sorted,
  sort_entries,
}

abbrev pub spans : MemoryRegion → ℕ → Bool
spans r a = leb r.base a && ltb a (r.base + r.length)

unfoldable pub covers_as : ℕ → MemoryRegionKind → MemoryRegion → Bool
covers_as a k r = spans r a && kind_eq r.kind k

-- Some region of the list has the kind `k` and covers `a`.
unfoldable pub at_kind : ℕ → MemoryRegionKind → List MemoryRegion → Bool
at_kind a k [] = false
at_kind a k (r ∷ rs) = covers_as a k r || at_kind a k rs

abbrev pub Valid : MemoryRegion → Type 0
Valid r = (0 < r.length) × (r.base + r.length < u64_mod)

-- `r` ends before `s` begins, with room between them if they are of one kind.
abbrev pub Gap : MemoryRegion → MemoryRegion → Type 0
Gap r s = (r.base + r.length ≤ s.base) × (kind_eq s.kind r.kind ≡ true → r.base + r.length < s.base)

at_kind-append :
    (a : ℕ) (k : MemoryRegionKind) (rs ss : List MemoryRegion)
    → at_kind a k (rs ++ ss) ≡ (at_kind a k rs || at_kind a k ss)
unfolding at_kind
at_kind-append a k [] ss = refl
at_kind-append a k (r ∷ rs) ss = ground (arith, at_kind-append a k rs ss)

or_swap : (b c : Bool) → (b || (c || false)) ≡ (c || b)
or_swap b c = ground arith

pub at_kind-reverse :
    (a : ℕ) (k : MemoryRegionKind) (rs : List MemoryRegion)
    → at_kind a k (reverse rs) ≡ at_kind a k rs
unfolding at_kind
at_kind-reverse a k [] = refl
at_kind-reverse a k (r ∷ rs) = rw (reverse-cons r rs) (
    at_kind-append a k (reverse rs) (r ∷ [])
    ∙ ap (λ b. b || at_kind a k (r ∷ [])) (at_kind-reverse a k rs)
    ∙ or_swap (at_kind a k rs) (covers_as a k r))

at_kind-shift_in :
    (a : ℕ) (k : MemoryRegionKind) (r : MemoryRegion) (rs : List MemoryRegion)
    → at_kind a k (shift_in r rs) ≡ at_kind a k (r ∷ rs)
unfolding at_kind shift_in
at_kind-shift_in a k r [] = refl
at_kind-shift_in a k r (s ∷ rs) = elim (Bool-cases (ltb r.base s.base)) [
  | inl before ↦ rw before (ground (arith, at_kind-shift_in a k r rs))
  | inr after ↦ rw after refl
]

shift_in-All {ℓ} :
    (P : MemoryRegion → Type ℓ) (r : MemoryRegion) (rs : List MemoryRegion)
    → P r
    → All P rs
    → All P (shift_in r rs)
unfolding shift_in
shift_in-All P r [] h k = (h, tt)
shift_in-All P r (s ∷ rs) h k = elim (Bool-cases (ltb r.base s.base)) [
  | inl before ↦ rw before (k.0, shift_in-All P r rs h k.1)
  | inr after ↦ rw after (h, k)
]

-- Sorted from the largest base down.
abbrev pub Descending : List MemoryRegion → Type 0
Descending = Pairs (λ r s. s.base ≤ r.base)

shift_in-Descending :
    (r : MemoryRegion) (rs : List MemoryRegion) → Descending rs → Descending (shift_in r rs)
unfolding shift_in
shift_in-Descending r [] h = (tt, tt)
shift_in-Descending r (s ∷ rs) h = elim (Bool-cases (ltb r.base s.base)) [
  | inl before ↦
      rw before
        (shift_in-All (λ x. x.base ≤ s.base) r rs (ground arith) h.0, shift_in-Descending r rs h.1)
  | inr after ↦
      let first : s.base ≤ r.base = ground arith in
      rw after ((first, All-imp (λ x below. omega (arith, below, first)) rs h.0), h)
]

pub validate_region-Valid : (r : MemoryRegion) → validate_region r ≡ ok tt → Valid r
unfolding validate_region end
validate_region-Valid r h = ground arith

insert_sorted-ok :
    (capacity : ℕ) (r : MemoryRegion) (rs : List MemoryRegion) {out : List MemoryRegion}
    → insert_sorted capacity r rs ≡ ok out
    → shift_in r rs ≡ out
unfolding insert_sorted
insert_sorted-ok capacity r rs h = ground arith

-- What the first loop leaves: the same coverage, valid regions, sorted.
pub sort_entries_lem :
    (capacity : ℕ) (sorted entries : List MemoryRegion) {out : List MemoryRegion}
    → sort_entries capacity sorted entries ≡ ok out
    → All Valid sorted
    → Descending sorted
    → All Valid out
      × Descending out
      × ((a : ℕ) (k : MemoryRegionKind)
          → at_kind a k out ≡ (at_kind a k sorted || at_kind a k entries))
unfolding sort_entries at_kind
sort_entries_lem capacity sorted [] {out} h v d =
    let e : sorted ≡ out = ground arith in
    (subst (All Valid) e v, subst Descending e d, λ a k. rw e (ground arith))
sort_entries_lem capacity sorted (r ∷ rs) {out} h v d =
    let (_, checked, h1) = >>=-eq-ok (validate_region r) _ h in
    let (sorted', put, h2) = >>=-eq-ok (insert_sorted capacity r sorted) _ h1 in
    let e : shift_in r sorted ≡ sorted' = insert_sorted-ok capacity r sorted put in
    let valid' : All Valid sorted' =
      subst (All Valid) e (shift_in-All Valid r sorted (validate_region-Valid r checked) v) in
    let down' : Descending sorted' = subst Descending e (shift_in-Descending r sorted d) in
    let (v', d', same) = sort_entries_lem capacity sorted' rs h2 valid' down' in
    (
      v',
      d',
      λ a k.
          let moved : at_kind a k sorted' ≡ at_kind a k (r ∷ sorted) =
            ap (at_kind a k) (sym e) ∙ at_kind-shift_in a k r sorted in
          same a k ∙ ground (arith, moved),
    )
