-- ===== src/Core/Ownership/Assign.antt =====
-- What `assign` does to the owners of all addresses.
use aegis_hv.Common.{
  ℕ, ◌≤◌, ◌<◌, max, true, false, none, some, List, [], ◌∷◌, ◌++◌, length, leb, if◌then◌else◌, ok,
  err, ◌≡◌, refl, sym, arith, All, All-append, Bool-cases, inl, inr, ◌⊎◌, ◌∙◌,
}
use aegis_hv.Core.Errors.{overlap, capacity_exceeded}
use aegis_hv.Core.Ownership.{
  PageRange, PageOwner, PageOwnership, PageOwnershipTable, check_overlaps, assign, owner_at,
}
use aegis_hv.Core.Ownership.Apart.{
  Fits, inside, meets, Sound, IsSound, first_at, owner_in-ok, overlaps-ok,
}

Sound-append :
    (es : List PageOwnership) (e : PageOwnership)
    → Sound es
    → Fits e.range
    → All (λ d. meets d.range e.range ≡ false) es
    → Sound (es ++ (e ∷ []))
Sound-append [] e h fits away = (fits, (tt, tt))
Sound-append (d ∷ es) e h fits away = (
  h.0,
  (
    All-append (λ x. meets x.range d.range ≡ false) es (e ∷ []) h.1.0 (ground (arith, away.0), tt),
    Sound-append es e h.1.1 fits away.1,
  ),
)

-- Either some address of the range lies in an entry, or no entry meets the range.
check_overlaps-cases :
    (r : PageRange) (es : List PageOwnership)
    → Sound es
    → Fits r
    → ((check_overlaps r es ≡ err overlap)
        × (a : ℕ) × (e : PageOwnership) × (inside r a ≡ true)
        × (first_at a es ≡ some e))
      ⊎ ((check_overlaps r es ≡ ok tt) × All (λ d. meets d.range r ≡ false) es)
unfolding check_overlaps first_at
check_overlaps-cases r [] h fits = inr (refl, tt)
check_overlaps-cases r (d ∷ es) h fits = elim (Bool-cases (meets d.range r)) [
  | inl hit ↦ inl (
    rw (overlaps-ok d.range r h.0 fits, hit) refl,
    max d.range.start r.start,
    d,
    ground arith,
    ground arith,
  )
  | inr miss ↦ elim (check_overlaps-cases r es h.1.1 fits) [
    | inr (fine, away) ↦ inr (rw (overlaps-ok d.range r h.0 fits, miss) fine, (miss, away))
    | inl (bad, a, e, within, found) ↦ elim (Bool-cases (inside d.range a)) [
      | inl here ↦ absurd (ground arith)
      | inr there ↦
          inl (rw (overlaps-ok d.range r h.0 fits, miss) bad, a, e, within, rw there found)
    ]
  ]
]

first_at-append :
    (a : ℕ) (es : List PageOwnership) (e : PageOwnership)
    → All (λ d. meets d.range e.range ≡ false) es
    → first_at a (es ++ (e ∷ [])) ≡ (if inside e.range a then some e else first_at a es)
unfolding first_at
first_at-append a [] e away = refl
first_at-append a (d ∷ es) e away = elim (Bool-cases (inside d.range a)) [
  | inl here ↦
      let apart : inside e.range a ≡ false = ground (arith, away.0) in rw (here, apart) refl
  | inr there ↦ rw there (first_at-append a es e away.1)
]

-- No entry that meets the range, no owner of an address in it.
first_at-away :
    (r : PageRange) (a : ℕ) (es : List PageOwnership)
    → All (λ d. meets d.range r ≡ false) es
    → inside r a ≡ true
    → first_at a es ≡ none
unfolding first_at
first_at-away r a [] away within = refl
first_at-away r a (d ∷ es) away within =
    let apart : inside d.range a ≡ false = ground (arith, away.0, within) in
    rw apart (first_at-away r a es away.1 within)

-- Some address of the range has an owner.
abbrev pub IsTaken : PageRange → PageOwnershipTable → Type 0
IsTaken r t =
    (a : ℕ) × (previous : PageOwner) × (inside r a ≡ true) × (owner_at a t ≡ ok (some previous))

away-not-IsTaken :
    (r : PageRange) (t : PageOwnershipTable)
    → IsSound t
    → All (λ d. meets d.range r ≡ false) t.entries
    → ¬ IsTaken r t
unfolding owner_at
away-not-IsTaken r t h away (a, previous, within, owned) =
    let free = first_at-away r a t.entries away within in
    let owned' = sym (owner_in-ok a t.entries h) ∙ owned in ground (arith, rw free at owned')

-- For a table whose ranges are apart, where these and the new one are not empty and end below 2 ^
-- 64 - 1: a full table refuses every assignment, and any other one an assignment that takes an
-- address which already has an owner; both leave the table as it was. Every other assignment
-- succeeds, keeps the ranges apart, gives the range's addresses to the new owner and leaves all
-- others alone.
pub assign_lem :
    (r : PageRange) (owner : PageOwner) (t : PageOwnershipTable)
    → IsSound t
    → Fits r
    → ((t.capacity ≤ length t.entries) × (assign r owner t ≡ (err capacity_exceeded, t)))
      ⊎ ((length t.entries < t.capacity) × IsTaken r t × (assign r owner t ≡ (err overlap, t)))
      ⊎ ((length t.entries < t.capacity)
          × (¬ IsTaken r t)
          × ((assign r owner t).0 ≡ ok tt)
          × IsSound (assign r owner t).1
          × ((a : ℕ)
              → owner_at a (assign r owner t).1
                ≡ (if inside r a then ok (some owner) else owner_at a t)))
unfolding assign owner_at
assign_lem r owner t h fits = elim (Bool-cases (leb t.capacity (length t.entries))) [
  | inl full ↦ inl (ground arith, rw full refl)
  | inr room ↦
      let space : length t.entries < t.capacity = ground (arith, room) in
      elim (check_overlaps-cases r t.entries h fits) [
        | inl (bad, a, e, within, found) ↦
            let taken : IsTaken r t =
              (a, e.owner, within, owner_in-ok a t.entries h ∙ rw found refl) in
            inr (inl (space, taken, rw (room, bad) refl))
        | inr (fine, away) ↦
            let e : PageOwnership = record { range = r; owner = owner } in
            let h' = Sound-append t.entries e h fits away in
            inr (
              inr (
                space,
                away-not-IsTaken r t h away,
                rw (room, fine) refl,
                rw (room, fine) h',
                λ a.
                    rw
                      (
                        room,
                        fine,
                        owner_in-ok a (t.entries ++ (e ∷ [])) h',
                        first_at-append a t.entries e away,
                        owner_in-ok a t.entries h,
                      )
                      (elim (Bool-cases (inside r a)) [
                        | inl hit ↦ rw hit refl
                        | inr miss ↦ rw miss refl
                      ]),
              ))
      ]
]
