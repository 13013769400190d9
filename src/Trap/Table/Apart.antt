-- ===== src/Trap/Table/Apart.antt =====
-- The invariant of the stage-2 table: keys match, mappings end below 2^64, no two overlap.
use aegis_hv.Common.{
  ℕ, ◌+◌, ◌<◌, Bool, true, false, ◌&&◌, none, some, List, [], ◌∷◌, ltb, leb, if◌then◌else◌, ok, err,
  ◌≡◌, refl, arith, All, inl, inr, >>=-eq-ok, subst, Bool-cases, inl, inr, ◌∙◌, some, Result-cases,
  ◌⊎◌,
}
use aegis_hv.Common.BTreeMap.{
  get, remove, All-remove, get-All, BTreeMap, insert, values, All-insert,
}
use aegis_hv.Common.Text.{Text, text_eq_iff}
use aegis_hv.Common.Word.{u64_mod}
use aegis_hv.Trap.Errors.{TrapErrorKind}
use aegis_hv.Trap.Stage2.{PageSize, size_4k, size_2m, size_1g, bytes, Stage2Mapping, end, contains}
use aegis_hv.Trap.Table.{
  MappingKey, key_of, key_eq_iff, mapping_key, Stage2Table, same_space, covers, find, overlap_check,
  reject_overlap, add, map, key_eq,
}

abbrev pub last : Stage2Mapping → ℕ
last m = m.base + bytes m.page_size

abbrev pub Fits : Stage2Mapping → Type 0
Fits m = last m < u64_mod

-- Two mappings of one address space share an address.
unfoldable pub overlaps : Stage2Mapping → Stage2Mapping → Bool
overlaps a b = same_space a b.owner_vm b.address_space && ltb a.base (last b) && ltb b.base (last a)

abbrev pub Avoids : Stage2Mapping → List Stage2Mapping → Type 0
Avoids m ms = All (λ w. overlaps m w ≡ false) ms

abbrev pub Sound : BTreeMap MappingKey Stage2Mapping → Type 0
Sound [] = Unit
Sound ((k, m) ∷ ms) = (k ≡ key_of m) × Fits m × Avoids m (values ms) × Sound ms

abbrev pub IsSound : Stage2Table → Type 0
IsSound t = Sound t.mappings

pub bytes_pos : (p : PageSize) → 0 < bytes p
bytes_pos size_4k = omega arith
bytes_pos size_2m = omega arith
bytes_pos size_1g = omega arith

pub end-eq-ok : (m : Stage2Mapping) {e : ℕ} → end m ≡ ok e → (e ≡ last m) × Fits m
unfolding end
end-eq-ok m h = ground arith

pub end_of_Fits : (m : Stage2Mapping) → Fits m → end m ≡ ok (last m)
unfolding end
end_of_Fits m h = ground arith

pub contains_lem :
    (m : Stage2Mapping) (g : ℕ) → Fits m → contains m g ≡ (leb m.base g && ltb g (last m))
unfolding contains
contains_lem m g h = rw (end_of_Fits m h, contains)

pub overlaps_comm : (a b : Stage2Mapping) → overlaps a b ≡ overlaps b a
unfolding overlaps
overlaps_comm a b = ground (
  arith,
  text_eq_iff a.owner_vm b.owner_vm,
  text_eq_iff b.owner_vm a.owner_vm,
  text_eq_iff a.address_space b.address_space,
  text_eq_iff b.address_space a.address_space,
)

overlap_check-Avoids :
    (m : Stage2Mapping) (ms : List Stage2Mapping)
    → overlap_check m (last m) ms ≡ ok tt
    → Avoids m ms
unfolding overlap_check overlaps end
overlap_check-Avoids m [] h = tt
overlap_check-Avoids m (w ∷ ms) h = ground (
  arith,
  overlap_check-Avoids m ms,
  text_eq_iff m.owner_vm w.owner_vm,
  text_eq_iff w.owner_vm m.owner_vm,
  text_eq_iff m.address_space w.address_space,
  text_eq_iff w.address_space m.address_space,
)

pub Sound-insert :
    (m : Stage2Mapping) (ms : BTreeMap MappingKey Stage2Mapping)
    → Fits m
    → Avoids m (values ms)
    → Sound ms
    → Sound (insert (key_of m) m ms)
unfolding insert
Sound-insert m [] f a s = (refl, f, tt, tt)
Sound-insert m ((j, w) ∷ ms) f a s = ground (
  arith,
  Sound-insert m ms f a.1 s.3,
  overlaps_comm m w,
  All-insert (λ x. overlaps w x ≡ false) (key_of m) m ms,
)

reject_overlap-ok :
    (m : Stage2Mapping) (t : Stage2Table)
    → reject_overlap m t ≡ ok tt
    → Fits m × Avoids m (values t.mappings)
unfolding reject_overlap
reject_overlap-ok m t h =
    let (e, fits, rest) = >>=-eq-ok (end m) _ h in
    let (same, fit) = end-eq-ok m fits in
    (
      fit,
      overlap_check-Avoids m (values t.mappings)
          (subst (λ x. overlap_check m x (values t.mappings) ≡ ok tt) same rest),
    )

-- `map` accepts a mapping only if it fits and overlaps nothing, and leaves the table alone if not.
pub map-cases :
    (m : Stage2Mapping) (t : Stage2Table)
    → ((map m t ≡ (ok tt, add m t)) × Fits m × Avoids m (values t.mappings))
      ⊎ ((e : TrapErrorKind) × (map m t ≡ (err e, t)))
unfolding map
map-cases m t = elim (Result-cases (reject_overlap m t)) [
  | inl (_, e) ↦ inl (rw (e, map), (reject_overlap-ok m t e).0, (reject_overlap-ok m t e).1)
  | inr (e, h) ↦ inr (e, rw (h, map))
]

-- Two entries at one key overlap.
key_overlaps : (a b : Stage2Mapping) → key_of a ≡ key_of b → overlaps a b ≡ true
unfolding overlaps
key_overlaps a b h = ground (
  arith,
  text_eq_iff a.owner_vm b.owner_vm,
  text_eq_iff a.address_space b.address_space,
  bytes_pos a.page_size,
  bytes_pos b.page_size,
)

-- Two mappings that cover one address overlap.
pub covers-overlaps :
    (o s : Text) (g : ℕ) (a b : Stage2Mapping)
    → Fits a
    → Fits b
    → covers o s g a ≡ true
    → covers o s g b ≡ true
    → overlaps a b ≡ true
unfolding overlaps covers
covers-overlaps o s g a b fa fb h k = ground (
  arith,
  contains_lem a g fa,
  contains_lem b g fb,
  text_eq_iff a.owner_vm o,
  text_eq_iff b.owner_vm o,
  text_eq_iff a.owner_vm b.owner_vm,
  text_eq_iff a.address_space s,
  text_eq_iff b.address_space s,
  text_eq_iff a.address_space b.address_space,
)

-- What else the table holds does not cover an address that a mapping apart from it covers.
pub find-Avoids :
    (o s : Text) (g : ℕ) (m : Stage2Mapping) (ms : BTreeMap MappingKey Stage2Mapping)
    → Fits m
    → Avoids m (values ms)
    → Sound ms
    → covers o s g m ≡ true
    → find (covers o s g) (values ms) ≡ none
unfolding find
find-Avoids o s g m [] f a d h = refl
find-Avoids o s g m ((k, w) ∷ ms) f a d h =
    ground (arith, find-Avoids o s g m ms f a.1 d.3 h, covers-overlaps o s g m w f d.1 h)

pub find-insert :
    (o s : Text) (g : ℕ) (m : Stage2Mapping) (ms : BTreeMap MappingKey Stage2Mapping)
    → Fits m
    → Avoids m (values ms)
    → Sound ms
    → find (covers o s g) (values (insert (key_of m) m ms))
      ≡ (if covers o s g m then some m else find (covers o s g) (values ms))
unfolding insert find
find-insert o s g m [] f a d = refl
find-insert o s g m ((j, w) ∷ ms) f a d = ground (
  arith,
  find-insert o s g m ms f a.1 d.3,
  covers-overlaps o s g m w f d.1,
  key_overlaps m w,
  key_eq_iff j (key_of m),
)

pub Sound-remove :
    (key : MappingKey) (ms : BTreeMap MappingKey Stage2Mapping) → Sound ms → Sound (remove key ms)
unfolding remove
Sound-remove key [] d = tt
Sound-remove key ((j, w) ∷ ms) d =
    ground (arith, Sound-remove key ms d.3, All-remove (λ x. overlaps w x ≡ false) key ms d.2)

-- The entry at a key is its own key's, and fits.
pub get-Sound :
    (key : MappingKey) (m : Stage2Mapping) (ms : BTreeMap MappingKey Stage2Mapping)
    → Sound ms
    → get key ms ≡ some m
    → (key ≡ key_of m) × Fits m
unfolding get
get-Sound key m [] d h = absurd (cc)
get-Sound key m ((j, w) ∷ ms) d h = ground (arith, get-Sound key m ms d.3, key_eq_iff j key)

-- Without the entry at `key`, nothing overlaps that entry.
pub remove-Avoids :
    (key : MappingKey) (m : Stage2Mapping) (ms : BTreeMap MappingKey Stage2Mapping)
    → Sound ms
    → get key ms ≡ some m
    → Avoids m (values (remove key ms))
unfolding get remove
remove-Avoids key m [] d h = tt
remove-Avoids key m ((j, w) ∷ ms) d h = elim (Bool-cases (key_eq j key)) [
  | inl hit ↦
      let e : some w ≡ some m = rw hit at h in
      rw hit (
        subst (λ x. Avoids x (values (remove key ms))) (cc)
          (All-remove (λ x. overlaps w x ≡ false) key ms d.2))
  | inr miss ↦ rw miss (
    overlaps_comm m w ∙ get-All (λ x. overlaps w x ≡ false) key m ms (rw miss at h) d.2,
    remove-Avoids key m ms d.3 (rw miss at h),
  )
]

remove_absent :
    (m : Stage2Mapping) (ms : BTreeMap MappingKey Stage2Mapping)
    → Avoids m (values ms)
    → Sound ms
    → remove (key_of m) ms ≡ ms
unfolding remove
remove_absent m [] a d = refl
remove_absent m ((j, w) ∷ ms) a d =
    ground (arith, remove_absent m ms a.1 d.3, key_eq_iff j (key_of m), key_overlaps m w)

-- A lookup goes to the entry at `key` or to the rest.
pub find-remove :
    (key : MappingKey) (m : Stage2Mapping) (ms : BTreeMap MappingKey Stage2Mapping) (o s : Text)
    (g : ℕ)
    → Sound ms
    → get key ms ≡ some m
    → find (covers o s g) (values ms)
      ≡ (if covers o s g m then some m else find (covers o s g) (values (remove key ms)))
unfolding get remove find
find-remove key m [] o s g d h = absurd (cc)
find-remove key m ((j, w) ∷ ms) o s g d h = elim (Bool-cases (key_eq j key)) [
  | inl hit ↦ ground (arith, hit, h, key_eq_iff j key, remove_absent w ms d.2 d.3)
  | inr miss ↦
      let h' : get key ms ≡ some m = rw miss at h in
      ground (
        arith,
        find-remove key m ms o s g d.3 h',
        get-Sound key m ms d.3 h',
        get-All (λ x. overlaps w x ≡ false) key m ms h' d.2,
        covers-overlaps o s g w m d.1,
      )
]
