-- ===== src/Core/Memory/Merge.antt =====
-- The merging of a memory map keeps what it covers and leaves gaps between the regions.
use aegis_hv.Common.{
  ℕ, ◌+◌, ◌-◌, ◌<◌, ◌≤◌, Bool, true, false, ◌&&◌, ◌||◌, not, List, [], ◌∷◌, reverse, length, ltb,
  leb, if◌then◌else◌, Result, ok, ◌≡◌, refl, arith, fail_if, ◌>>◌, All, All-imp, All-every,
  All-reverse, Pairs, Pairs-reverse, Bool-cases, inl, inr, sym, ◌∙◌, ◌⊎◌, >>=-eq-ok, subst,
}
use aegis_hv.Core.Errors.{CoreErrorKind, overlap, capacity_exceeded}
use aegis_hv.Core.Memory.{
  MemoryRegionKind, kind_eq, MemoryRegion, MemoryMap, end, merge_region, sort_entries,
  merge_entries, from_entries,
}
use aegis_hv.Core.Memory.Sort.{
  spans, covers_as, at_kind, Valid, Gap, at_kind-reverse, sort_entries_lem,
}

pub kind_eq-eq : (k l : MemoryRegionKind) → kind_eq k l ≡ true → k ≡ l
kind_eq-eq k l h = ground arith

end-ok : (r : MemoryRegion) → Valid r → end r ≡ ok (r.base + r.length)
unfolding end
end-ok r h = ground arith

-- The last region, grown so that it covers `r`.
abbrev grown : MemoryRegion → MemoryRegion → MemoryRegion
grown r last =
    let last_end = last.base + last.length in
    let r_end = r.base + r.length in
    record last { length = (if ltb last_end r_end then r_end else last_end) - last.base }

-- `merge_region` on valid regions, with the comparison of the kinds as an argument.
abbrev pub merge_by :
    Bool
    → ℕ
    → MemoryRegion
    → MemoryRegion
    → List MemoryRegion
    → Result (List MemoryRegion) CoreErrorKind
merge_by same capacity r last rest = do
  fail_if (ltb r.base (last.base + last.length) && not same) overlap
  if leb r.base (last.base + last.length) && same
      then ok (grown r last ∷ rest)
      else (fail_if (leb capacity (length (last ∷ rest))) capacity_exceeded
          >> ok (r ∷ (last ∷ rest)))

pub merge_region-eq :
    (capacity : ℕ) (r last : MemoryRegion) (rest : List MemoryRegion)
    → Valid r
    → Valid last
    → merge_region capacity r (last ∷ rest)
      ≡ merge_by (kind_eq r.kind last.kind) capacity r last rest
unfolding merge_region
merge_region-eq capacity r last rest v w = rw (end-ok r v, end-ok last w) refl

merge_by-cases :
    (same : Bool) (capacity : ℕ) (r last : MemoryRegion) (rest : List MemoryRegion)
    {out : List MemoryRegion}
    → merge_by same capacity r last rest ≡ ok out
    → ((r.base ≤ last.base + last.length) × (same ≡ true) × (grown r last ∷ rest ≡ out))
      ⊎ ((last.base + last.length ≤ r.base)
          × (same ≡ true → last.base + last.length < r.base)
          × (r ∷ (last ∷ rest) ≡ out))
merge_by-cases true capacity r last rest h =
    elim (Bool-cases (leb r.base (last.base + last.length))) [
      | inl near ↦ inl (ground arith, refl, ground arith)
      | inr far ↦ inr (ground arith, (λ _. ground arith), ground arith)
    ]
merge_by-cases false capacity r last rest h =
    inr (ground arith, (λ e. absurd (ground arith)), ground arith)

spans-grown :
    (r last : MemoryRegion) (a : ℕ)
    → last.base ≤ r.base
    → r.base ≤ last.base + last.length
    → spans (grown r last) a ≡ (spans r a || spans last a)
spans-grown r last a h k = ground arith

and_or : (b c p : Bool) → ((b || c) && p) ≡ ((b && p) || (c && p))
and_or b c p = ground arith

covers_as-grown :
    (r last : MemoryRegion) (a : ℕ) (k : MemoryRegionKind)
    → last.base ≤ r.base
    → r.base ≤ last.base + last.length
    → kind_eq r.kind last.kind ≡ true
    → covers_as a k (grown r last) ≡ (covers_as a k r || covers_as a k last)
unfolding covers_as
covers_as-grown r last a k below near same =
    rw (spans-grown r last a below near, kind_eq-eq r.kind last.kind same)
      (and_or (spans r a) (spans last a) (kind_eq last.kind k))

-- The merged regions, the last one first: valid, and with gaps.
abbrev pub Merged : List MemoryRegion → Type 0
Merged rs = All Valid rs × Pairs (λ later earlier. Gap earlier later) rs

-- Every base is at most `b`.
abbrev pub Below : ℕ → List MemoryRegion → Type 0
Below b = All (λ m. m.base ≤ b)

at_kind-grown :
    (r last : MemoryRegion) (rest : List MemoryRegion) (a : ℕ) (k : MemoryRegionKind)
    → last.base ≤ r.base
    → r.base ≤ last.base + last.length
    → kind_eq r.kind last.kind ≡ true
    → at_kind a k (grown r last ∷ rest) ≡ (covers_as a k r || at_kind a k (last ∷ rest))
unfolding at_kind
at_kind-grown r last rest a k below near same =
    rw (covers_as-grown r last a k below near same) (ground arith)

-- `rs` is what merging `r` into `acc` leaves.
abbrev IsStep : MemoryRegion → List MemoryRegion → List MemoryRegion → Type 0
IsStep r acc rs =
    Merged rs
    × Below r.base rs
    × ((a : ℕ) (k : MemoryRegionKind) → at_kind a k rs ≡ (covers_as a k r || at_kind a k acc))

merge_region_lem :
    (capacity : ℕ) (r : MemoryRegion) (acc : List MemoryRegion) {out : List MemoryRegion}
    → Valid r
    → Merged acc
    → Below r.base acc
    → merge_region capacity r acc ≡ ok out
    → IsStep r acc out
merge_region_lem capacity r [] {out} v m b h =
    let e : r ∷ [] ≡ out = unfold merge_region in ground arith in
    subst (IsStep r []) e (unfold at_kind in (((v, tt), (tt, tt)), (omega arith, tt), λ a k. refl))
merge_region_lem capacity r (last ∷ rest) {out} v (w, gaps) b h =
    let h' : merge_by (kind_eq r.kind last.kind) capacity r last rest ≡ ok out =
      sym (merge_region-eq capacity r last rest v w.0) ∙ h in
    elim (merge_by-cases (kind_eq r.kind last.kind) capacity r last rest h') [
      | inl (near, same, e) ↦ subst (IsStep r (last ∷ rest)) e (
        (((ground (arith, v, w.0, b.0, near), ground (arith, v, w.0, b.0, near)), w.1), gaps),
        b,
        λ a k. at_kind-grown r last rest a k b.0 near same,
      )
      | inr (after, room, e) ↦ subst (IsStep r (last ∷ rest)) e (
          unfold at_kind in
          (
            (
              (v, w),
              (
                (
                  (after, room),
                  All-imp
                      (λ x gap.
                        (omega (arith, gap.0, after), λ _. omega (arith, gap.0, after, w.0.0)))
                      rest gaps.0,
                ),
                gaps,
              ),
            ),
            (omega arith, b),
            λ a k. refl,
          ))
    ]

-- What the second loop leaves: the same coverage, merged.
pub merge_entries_lem :
    (capacity : ℕ) (acc rs : List MemoryRegion) {out : List MemoryRegion}
    → All Valid rs
    → Pairs (λ r s. r.base ≤ s.base) rs
    → Merged acc
    → All (λ r. Below r.base acc) rs
    → merge_entries capacity acc rs ≡ ok out
    → Merged out
      × ((a : ℕ) (k : MemoryRegionKind) → at_kind a k out ≡ (at_kind a k acc || at_kind a k rs))
unfolding merge_entries
merge_entries_lem capacity acc [] {out} v up m b h =
    let e : acc ≡ out = ground arith in
    (subst Merged e m, λ a k. rw e (unfold at_kind in ground arith))
merge_entries_lem capacity acc (r ∷ rs) v up m b h =
    let (acc', step, h') = >>=-eq-ok (merge_region capacity r acc) _ h in
    let (m', b', same) = merge_region_lem capacity r acc v.0 m b.0 step in
    let (m'', same') =
      merge_entries_lem capacity acc' rs v.1 up.1 m'
        (All-imp (λ s above. All-imp (λ x low. omega (arith, low, above)) acc' b') rs up.0) h' in
    (m'', λ a k. same' a k ∙ rw (same a k) (unfold at_kind in ground arith))

-- A memory map that `from_entries` returns covers the same addresses with the same kinds as the
-- firmware's entries. Its regions are not empty, end below 2^64, stand in the order of their
-- addresses without an overlap, and two neighbours of one kind do not touch.
pub from_entries_lem :
    (capacity : ℕ) (entries : List MemoryRegion) (m : MemoryMap)
    → from_entries capacity entries ≡ ok m
    → All Valid m.regions
      × Pairs Gap m.regions
      × ((a : ℕ) (k : MemoryRegionKind) → at_kind a k m.regions ≡ at_kind a k entries)
unfolding from_entries at_kind
from_entries_lem capacity entries m h =
    let (_, _, h1) = >>=-eq-ok (fail_if (ltb capacity (length entries)) capacity_exceeded) _ h in
    let (sorted, sorts, h2) = >>=-eq-ok (sort_entries capacity [] entries) _ h1 in
    let (merged, merges, h3) = >>=-eq-ok (merge_entries capacity [] (reverse sorted)) _ h2 in
    let (v, down, cover) = sort_entries_lem capacity [] entries sorts tt tt in
    let (good, cover') =
      merge_entries_lem capacity [] (reverse sorted) (All-reverse Valid sorted v)
        (Pairs-reverse (λ r s. s.base ≤ r.base) sorted down) (tt, tt)
        (All-every (λ _. tt) (reverse sorted)) merges in
    let e : reverse merged ≡ m.regions = ground arith in
    rw (sym e) (
      All-reverse Valid merged good.0,
      Pairs-reverse (λ later earlier. Gap earlier later) merged good.1,
      λ a k. at_kind-reverse a k merged ∙ cover' a k ∙ at_kind-reverse a k sorted ∙ cover a k,
    )
