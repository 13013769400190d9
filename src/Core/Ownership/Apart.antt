-- ===== src/Core/Ownership/Apart.antt =====
-- The invariant of the ownership table, and what its loops compute when it holds.
use aegis_hv.Common.{
  ℕ, ◌+◌, ◌<◌, Bool, true, false, ◌&&◌, Option, none, some, List, [], ◌∷◌, ltb, leb, if◌then◌else◌,
  ok, ◌≡◌, refl, arith, All, Bool-cases, inl, inr, sym, subst,
}
use mathlib.Core.Option
use aegis_hv.Common.Word.{u64_max}
use aegis_hv.Core.Ids.{host_add}
use aegis_hv.Core.Ownership.{
  PageRange, PageOwnership, PageOwnershipTable, end, contains, overlaps, owner_in,
}

-- A range that is not empty and ends below the reserved address.
abbrev pub Fits : PageRange → Type 0
Fits r = (0 < r.length) × (r.start + r.length < u64_max)

abbrev pub inside : PageRange → ℕ → Bool
inside r a = leb r.start a && ltb a (r.start + r.length)

abbrev pub meets : PageRange → PageRange → Bool
meets r s = ltb r.start (s.start + s.length) && ltb s.start (r.start + r.length)

abbrev pub Avoids : PageRange → List PageOwnership → Type 0
Avoids r = All (λ e. meets e.range r ≡ false)

-- The ranges fit, and no two of them meet.
abbrev pub Sound : List PageOwnership → Type 0
Sound [] = Unit
Sound (e ∷ es) = Fits e.range × (Avoids e.range es × Sound es)

abbrev pub IsSound : PageOwnershipTable → Type 0
IsSound t = Sound t.entries

-- The first entry that covers an address.
unfoldable pub first_at : ℕ → List PageOwnership → Option PageOwnership
first_at a [] = none
first_at a (e ∷ es) = if inside e.range a then some e else first_at a es

pub host_add-ok : (a n : ℕ) → a + n < u64_max → host_add a n ≡ ok (a + n)
host_add-ok a n h = ground arith

pub end-ok : (r : PageRange) → Fits r → end r ≡ ok (r.start + r.length)
unfolding end
end-ok r h = host_add-ok r.start r.length h.1

pub contains-ok : (r : PageRange) (a : ℕ) → Fits r → contains r a ≡ ok (inside r a)
unfolding contains
contains-ok r a h = ground (arith, end-ok r h)

pub overlaps-ok : (r s : PageRange) → Fits r → Fits s → overlaps r s ≡ ok (meets r s)
unfolding overlaps
overlaps-ok r s h k = ground (arith, end-ok r h, end-ok s k)

pub owner_in-ok :
    (a : ℕ) (es : List PageOwnership)
    → Sound es
    → owner_in a es ≡ ok (Option.map (λ e. e.owner) (first_at a es))
unfolding owner_in first_at
owner_in-ok a [] h = refl
owner_in-ok a (e ∷ es) h = elim (Bool-cases (inside e.range a)) [
  | inl hit ↦ rw (contains-ok e.range a h.0, hit) refl
  | inr miss ↦ rw (contains-ok e.range a h.0, miss) (owner_in-ok a es h.1.1)
]

pub first_at-covers :
    (a : ℕ) (es : List PageOwnership) (e : PageOwnership)
    → first_at a es ≡ some e
    → inside e.range a ≡ true
unfolding first_at
first_at-covers a [] e found = ground arith
first_at-covers a (d ∷ es) e found = elim (Bool-cases (inside d.range a)) [
  | inl hit ↦
      let same : some d ≡ some e = rw hit at found in
      let same' : d ≡ e = ground arith in rw same' at hit
  | inr miss ↦ let later : first_at a es ≡ some e = rw miss at found in first_at-covers a es e later
]

first_at-All {ℓ} :
    (P : PageOwnership → Type ℓ) (a : ℕ) (es : List PageOwnership) (e : PageOwnership)
    → All P es
    → first_at a es ≡ some e
    → P e
unfolding first_at
first_at-All P a [] e h found = absurd (ground arith)
first_at-All P a (d ∷ es) e h found = elim (Bool-cases (inside d.range a)) [
  | inl hit ↦
      let same : some d ≡ some e = rw hit at found in
      let same' : d ≡ e = ground arith in subst P same' h.0
  | inr miss ↦
      let later : first_at a es ≡ some e = rw miss at found in first_at-All P a es e h.1 later
]

pub first_at-Fits :
    (a : ℕ) (es : List PageOwnership) (e : PageOwnership)
    → Sound es
    → first_at a es ≡ some e
    → Fits e.range
unfolding first_at
first_at-Fits a [] e h found = absurd (ground arith)
first_at-Fits a (d ∷ es) e h found = elim (Bool-cases (inside d.range a)) [
  | inl hit ↦
      let same : some d ≡ some e = rw hit at found in
      let same' : d ≡ e = ground arith in subst (λ x. Fits x.range) same' h.0
  | inr miss ↦
      let later : first_at a es ≡ some e = rw miss at found in first_at-Fits a es e h.1.1 later
]

apart : (r s : PageRange) (a : ℕ) → meets r s ≡ false → inside r a ≡ true → inside s a ≡ false
apart r s a h k = ground arith

-- An entry that stands first at one of its addresses stands first at all of them.
pub first_at-inside :
    (c a : ℕ) (es : List PageOwnership) (e : PageOwnership)
    → Sound es
    → first_at c es ≡ some e
    → inside e.range a ≡ true
    → first_at a es ≡ some e
unfolding first_at
first_at-inside c a [] e h found here = absurd (ground arith)
first_at-inside c a (d ∷ es) e h found here = elim (Bool-cases (inside d.range c)) [
  | inl hit ↦
      let same : some d ≡ some e = rw hit at found in
      let same' : d ≡ e = ground arith in
      rw (subst (λ x. inside x.range a ≡ true) (sym same') here) same
  | inr miss ↦
      let later : first_at c es ≡ some e = rw miss at found in
      let away = first_at-All (λ x. meets x.range d.range ≡ false) c es e h.1.0 later in
      rw (apart e.range d.range a away here) (first_at-inside c a es e h.1.1 later here)
]
