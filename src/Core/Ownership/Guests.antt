-- ===== src/Core/Ownership/Guests.antt =====
-- A guest mapping is accepted exactly when the guest owns every byte of it.
use mathlib.Core.Option
use aegis_hv.Common.{
  ℕ, zero, suc, ◌+◌, ◌-◌, ◌<◌, ◌≤◌, min, true, false, Option, none, some, List, [], ◌∷◌, ltb,
  if◌then◌else◌, Result, ok, err, ◌≡◌, ◌↔◌, refl, arith, Bool-cases, Option-cases, inl, inr, ap,
  >>=-eq-ok, sym, ◌∙◌,
}
use aegis_hv.Core.Errors.{CoreErrorKind, permission_violation}
use aegis_hv.Core.Ownership.{
  PageRange, PageOwner, vm, owner_eq, PageOwnership, PageOwnershipTable, new_range, owner_at,
  covered_until, walk, validate_guest_host_mapping,
}
use aegis_hv.Core.Ownership.Apart.{
  Fits, inside, Sound, IsSound, first_at, first_at-covers, first_at-inside, end-ok, contains-ok,
  owner_in-ok,
}

owner_eq-vm : (owner : PageOwner) (v : ℕ) → (owner_eq owner (vm v) ≡ true) ↔ (owner ≡ vm v)
owner_eq-vm owner v = ground arith

-- Where the entry that covers the cursor ends, up to `stop`.
abbrev until : PageOwnership → ℕ → ℕ
until e stop = min (e.range.start + e.range.length) stop

-- The answer of one round, by the entry that covers the cursor.
abbrev round : ℕ → ℕ → Option PageOwnership → Result (Option ℕ) CoreErrorKind
round v stop none = ok none
round v stop (some e) =
    if owner_eq e.owner (vm v) then ok (some (until e stop)) else err permission_violation

covered_until-eq :
    (v cursor stop : ℕ) (es : List PageOwnership)
    → Sound es
    → covered_until v cursor stop es ≡ round v stop (first_at cursor es)
unfolding covered_until first_at
covered_until-eq v cursor stop [] h = refl
covered_until-eq v cursor stop (e ∷ es) h = elim (Bool-cases (inside e.range cursor)) [
  | inl hit ↦
      rw (contains-ok e.range cursor h.0, hit, end-ok e.range h.0)
        (elim (Bool-cases (owner_eq e.owner (vm v))) [
          | inl same ↦ rw same refl
          | inr other ↦ rw other refl
        ])
  | inr miss ↦ rw (contains-ok e.range cursor h.0, miss) (covered_until-eq v cursor stop es h.1.1)
]

module _ (v stop : ℕ) (es : List PageOwnership) (h : Sound es) where
  -- The VM owns every address from `lo` up to `stop`.
  abbrev pub Owned : ℕ → Type 0
  Owned lo = (a : ℕ) → lo ≤ a → a < stop → Option.map (λ e. e.owner) (first_at a es) ≡ some (vm v)

  walk-unowned :
      (rounds cursor : ℕ)
      → cursor < stop
      → first_at cursor es ≡ none
      → walk (suc rounds) v cursor stop es ≡ err permission_violation
  unfolding walk
  walk-unowned rounds cursor more gone =
      rw (covered_until-eq v cursor stop es h, gone) (ground arith)

  walk-other :
      (rounds cursor : ℕ) (e : PageOwnership)
      → cursor < stop
      → first_at cursor es ≡ some e
      → owner_eq e.owner (vm v) ≡ false
      → walk (suc rounds) v cursor stop es ≡ err permission_violation
  unfolding walk
  walk-other rounds cursor e more found other =
      rw (covered_until-eq v cursor stop es h, found, other) (ground arith)

  moves_on :
      (cursor : ℕ) (e : PageOwnership)
      → cursor < stop
      → first_at cursor es ≡ some e
      → cursor < until e stop
  moves_on cursor e more found = ground (arith, first_at-covers cursor es e found)

  walk-step :
      (rounds cursor : ℕ) (e : PageOwnership)
      → cursor < stop
      → first_at cursor es ≡ some e
      → owner_eq e.owner (vm v) ≡ true
      → walk (suc rounds) v cursor stop es ≡ walk rounds v (until e stop) stop es
  unfolding walk
  walk-step rounds cursor e more found mine =
      rw (covered_until-eq v cursor stop es h, found, mine)
        (ground (arith, moves_on cursor e more found))

  walk_sound :
      (rounds cursor : ℕ)
      → stop - cursor ≤ rounds
      → walk rounds v cursor stop es ≡ ok tt
      → Owned cursor
  walk_sound zero cursor fuel done a low high = absurd (omega arith)
  walk_sound (suc rounds) cursor fuel done a low high =
      let more : cursor < stop = omega arith in
      elim (Option-cases (first_at cursor es)) [
        | inl gone ↦ absurd (cc (done, walk-unowned rounds cursor more gone))
        | inr (e, found) ↦ elim (Bool-cases (owner_eq e.owner (vm v))) [
          | inr other ↦ absurd (cc (done, walk-other rounds cursor e more found other))
          | inl mine ↦ elim (Bool-cases (inside e.range a)) [
            | inl here ↦
                rw (first_at-inside cursor a es e h found here)
                  (ap some ((owner_eq-vm e.owner v).0 mine))
            | inr beyond ↦
                walk_sound rounds (until e stop) (omega (arith, moves_on cursor e more found))
                  (sym (walk-step rounds cursor e more found mine) ∙ done) a
                  (ground (arith, first_at-covers cursor es e found)) high
          ]
        ]
      ]

  walk_complete :
      (rounds cursor : ℕ)
      → stop - cursor ≤ rounds
      → Owned cursor
      → walk rounds v cursor stop es ≡ ok tt
  unfolding walk
  walk_complete zero cursor fuel owned = ground arith
  walk_complete (suc rounds) cursor fuel owned = elim (Bool-cases (ltb cursor stop)) [
    | inr over ↦ rw over refl
    | inl more ↦
        let more' : cursor < stop = ground arith in
        let mine = owned cursor (omega arith) more' in
        elim (Option-cases (first_at cursor es)) [
          | inl gone ↦ absurd (ground (arith, gone, mine))
          | inr (e, found) ↦
              let owner : e.owner ≡ vm v = ground (arith, found, mine) in
              walk-step rounds cursor e more' found ((owner_eq-vm e.owner v).1 owner)
              ∙ walk_complete rounds (until e stop) (omega (arith, moves_on cursor e more' found))
                  (λ a low high. owned a (omega (arith, low, moves_on cursor e more' found)) high)
        ]
  ]

new_range-Fits :
    (start length : ℕ) (r : PageRange)
    → new_range start length ≡ ok r
    → (r ≡ record { start = start; length = length }) × Fits r
unfolding new_range
new_range-Fits start length r h = ground arith

validate-walk :
    (v start length : ℕ) (r : PageRange) (t : PageOwnershipTable)
    → new_range start length ≡ ok r
    → validate_guest_host_mapping v start length t ≡ walk length v start (start + length) t.entries
unfolding validate_guest_host_mapping
validate-walk v start length r t made =
    let (same, fits) = new_range-Fits start length r made in rw (made, end-ok r fits, same) refl

validate-made :
    (v start length : ℕ) (t : PageOwnershipTable)
    → validate_guest_host_mapping v start length t ≡ ok tt
    → (r : PageRange) × (new_range start length ≡ ok r)
unfolding validate_guest_host_mapping
validate-made v start length t done =
    let (r, made, _) = >>=-eq-ok (new_range start length) _ done in (r, made)

-- `validate_guest_host_mapping` accepts a range exactly when it is a page range and every one of
-- its addresses belongs to the VM, provided that the ranges of the table are apart.
pub validate-owner_at :
    (v start length : ℕ) (t : PageOwnershipTable)
    → IsSound t
    → (validate_guest_host_mapping v start length t ≡ ok tt) ↔ (
        (new_range start length ≡ ok (record { start = start; length = length }))
        × ((a : ℕ) → start ≤ a → a < start + length → owner_at a t ≡ ok (some (vm v))))
unfolding owner_at
validate-owner_at v start length t h = (
  (λ done.
      let (r, made) = validate-made v start length t done in
      let same = (new_range-Fits start length r made).0 in
      let walked : walk length v start (start + length) t.entries ≡ ok tt =
        sym (validate-walk v start length r t made) ∙ done in
      (
        made ∙ ap ok same,
        λ a low high.
            owner_in-ok a t.entries h
            ∙ ap ok (
                walk_sound v (start + length) t.entries h length start (omega arith) walked a low
                  high),
      )),
  (λ (made, owned).
      validate-walk v start length _ t made
      ∙ walk_complete v (start + length) t.entries h length start (omega arith)
          (λ a low high. ground (arith, owned a low high, owner_in-ok a t.entries h))),
)
