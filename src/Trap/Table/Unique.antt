-- ===== src/Trap/Table/Unique.antt =====
-- One address of one address space is covered by one mapping at most.
use aegis_hv.Common.{
  ℕ, ◌+◌, Bool, true, false, some, List, [], ◌∷◌, ◌≡◌, arith, All, Bool-cases, inl, inr, subst, ◌≤◌,
  ◌<◌,
}
use aegis_hv.Common.BTreeMap.{BTreeMap, values}
use aegis_hv.Common.Text.{Text}
use aegis_hv.Trap.Stage2.{
  PageSize, size_4k, size_2m, size_1g, bytes, is_aligned, align_down, Stage2Mapping,
}
use aegis_hv.Trap.Table.{MappingKey, Stage2Table, covers, find, lookup}
use aegis_hv.Trap.Table.Apart.{
  Fits, overlaps, Sound, IsSound, covers-overlaps, contains_lem, bytes_pos,
}
use aegis_hv.Trap.Table.Tiles.{IsMade}

pub find-covers_self :
    (test : Stage2Mapping → Bool) (m : Stage2Mapping) (ms : List Stage2Mapping)
    → find test ms ≡ some m
    → test m ≡ true
unfolding find
find-covers_self test m [] e = absurd (cc)
find-covers_self test m (w ∷ ms) e = elim (Bool-cases (test w)) [
  | inl hit ↦ let e' : some w ≡ some m = rw hit at e in subst (λ x. test x ≡ true) (cc) hit
  | inr miss ↦ find-covers_self test m ms (rw miss at e)
]

pub find-All {κ} :
    (P : Stage2Mapping → Type κ) (test : Stage2Mapping → Bool) (m : Stage2Mapping)
    (ms : List Stage2Mapping)
    → find test ms ≡ some m
    → All P ms
    → P m
unfolding find
find-All P test m [] e h = absurd (cc)
find-All P test m (w ∷ ms) e h = elim (Bool-cases (test w)) [
  | inl hit ↦ let e' : some w ≡ some m = rw hit at e in subst P (cc) h.0
  | inr miss ↦ find-All P test m ms (rw miss at e) h.1
]

Sound-Fits : (ms : BTreeMap MappingKey Stage2Mapping) → Sound ms → All Fits (values ms)
Sound-Fits [] d = tt
Sound-Fits ((k, w) ∷ ms) d = (d.1, Sound-Fits ms d.3)

find-covers :
    (o s o' s' : Text) (g g' : ℕ) (m : Stage2Mapping) (ms : BTreeMap MappingKey Stage2Mapping)
    → Sound ms
    → find (covers o s g) (values ms) ≡ some m
    → covers o' s' g' m ≡ true
    → find (covers o' s' g') (values ms) ≡ some m
unfolding find
find-covers o s o' s' g g' m [] d e c = absurd (cc)
find-covers o s o' s' g g' m ((k, w) ∷ ms) d e c = elim (Bool-cases (covers o s g w)) [
  | inl hit ↦ ground (arith, hit, e, c)
  | inr miss ↦
      let e' : find (covers o s g) (values ms) ≡ some m = rw miss at e in
      ground (
        arith,
        find-covers o s o' s' g g' m ms d.3 e' c,
        find-All (λ x. overlaps w x ≡ false) (covers o s g) m (values ms) e' d.2,
        covers-overlaps o' s' g' w m d.1
            (find-All Fits (covers o s g) m (values ms) e' (Sound-Fits ms d.3)),
      )
]

module _ (t : Stage2Table) (d : IsSound t) where
  pub lookup-Fits : (o s : Text) (g : ℕ) (m : Stage2Mapping) → lookup o s g t ≡ some m → Fits m
  unfolding lookup
  lookup-Fits o s g m e =
      find-All Fits (covers o s g) m (values t.mappings) e (Sound-Fits t.mappings d)

  -- A mapping that is found at one address is found at every address that it covers.
  pub lookup-covers :
      (o s o' s' : Text) (g g' : ℕ) (m : Stage2Mapping)
      → lookup o s g t ≡ some m
      → covers o' s' g' m ≡ true
      → lookup o' s' g' t ≡ some m
  unfolding lookup
  lookup-covers o s o' s' g g' m e c = find-covers o s o' s' g g' m t.mappings d e c

  pub lookup-covers_self :
      (o s : Text) (g : ℕ) (m : Stage2Mapping) → lookup o s g t ≡ some m → covers o s g m ≡ true
  unfolding lookup
  lookup-covers_self o s g m e = find-covers_self (covers o s g) m (values t.mappings) e

align_down-base :
    (p : PageSize) (base g : ℕ)
    → is_aligned p base ≡ true
    → base ≤ g
    → g < base + bytes p
    → align_down p g ≡ base
align_down-base size_4k base g a h k = ground arith
align_down-base size_2m base g a h k = ground arith
align_down-base size_1g base g a h k = ground arith

-- The page of a covered address is the base of its mapping, and covered too.
pub covers-page :
    (o s : Text) (g : ℕ) (m : Stage2Mapping)
    → IsMade m
    → Fits m
    → covers o s g m ≡ true
    → (align_down m.page_size g ≡ m.base) × (covers o s (align_down m.page_size g) m ≡ true)
unfolding covers
covers-page o s g m v f c =
    let e : align_down m.page_size g ≡ m.base =
      ground (arith, contains_lem m g f, align_down-base m.page_size m.base g v.aligned) in
    (e, rw e (ground (arith, contains_lem m g f, contains_lem m m.base f, bytes_pos m.page_size)))
