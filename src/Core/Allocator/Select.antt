-- ===== src/Core/Allocator/Select.antt =====
-- The search for a free page within a constraint.
use aegis_hv.Common.{
  ℕ, suc, ◌+◌, ◌*◌, ◌/◌, ◌%◌, ◌<◌, ◌≤◌, Bool, true, false, Option, none, some, List, [], ◌∷◌, leb,
  if◌then◌else◌, Result, ok, ◌≡◌, refl, arith, Bool-cases, inl, inr, >>=-eq-ok, sym, min, max,
}
use aegis_hv.Core.Errors.{CoreErrorKind}
use aegis_hv.Core.Allocator.{PageAllocationConstraint, select}
use aegis_hv.Core.Allocator.FreeList.{PageRun, run_end, align_up}
use aegis_hv.Core.Allocator.Runs.{limit, in_run, covers, IsRun, Ordered, run_end-eq}
use aegis_hv.Core.Allocator.Take.{IsAt}

-- What rounding up leaves: the least multiple of 4096 from the number on.
pub align_up-eq :
    (value : ℕ) {aligned : ℕ}
    → align_up value 4096 ≡ ok aligned
    → aligned ≡ (value + 4095) / 4096 * 4096
unfolding align_up
align_up-eq value {aligned} h = ground (arith, h)

abbrev fits : PageAllocationConstraint → PageRun → ℕ → Bool
fits c run candidate = leb (candidate + 4096) (min (limit run) c.max_address_exclusive)

-- One round of the search.
select-step :
    (c : PageAllocationConstraint) (index : ℕ) (run : PageRun) (runs : List PageRun) (candidate : ℕ)
    → IsRun run
    → align_up (max run.start c.min_address) 4096 ≡ ok candidate
    → select c index (run ∷ runs) ≡ (
        if fits c run candidate
        then ok (some (index, candidate, limit run))
        else select c (suc index) runs)
unfolding select
select-step c index run runs candidate is e = rw (run_end-eq run is, e) (ground arith)

-- The search rounds the first address up.
select-aligned :
    (c : PageAllocationConstraint) (index : ℕ) (run : PageRun) (runs : List PageRun)
    {found : Option (ℕ × ℕ × ℕ)}
    → select c index (run ∷ runs) ≡ ok found
    → (candidate : ℕ) × (align_up (max run.start c.min_address) 4096 ≡ ok candidate)
unfolding select
select-aligned c index run runs h =
    let (_, _, h') = >>=-eq-ok (run_end run) _ h in
    let (candidate, e, _) = >>=-eq-ok (align_up (max run.start c.min_address) 4096) _ h' in
    (candidate, e)

abbrev pub Within : PageAllocationConstraint → ℕ → Type 0
Within c page = (c.min_address ≤ page) × (page + 4096 ≤ c.max_address_exclusive)

-- A candidate that fits, and what it means that it does not.
fits_lem :
    (c : PageAllocationConstraint) (run : PageRun) (runs : List PageRun) (candidate : ℕ)
    → candidate ≡ (max run.start c.min_address + 4095) / 4096 * 4096
    → fits c run candidate ≡ true
    → IsAt 0 candidate (limit run) (run ∷ runs) × Within c candidate
fits_lem c run runs candidate e h =
    let until : (candidate + 4096 ≤ limit run) × (candidate + 4096 ≤ c.max_address_exclusive) =
      ground arith in
    ((omega arith, omega arith, until.0, refl), (omega arith, until.1))

fits_not :
    (c : PageAllocationConstraint) (run : PageRun) (candidate page : ℕ)
    → IsRun run
    → candidate ≡ (max run.start c.min_address + 4095) / 4096 * 4096
    → fits c run candidate ≡ false
    → page % 4096 ≡ 0
    → Within c page
    → in_run run page ≡ false
fits_not c run candidate page is e h aligned within =
    let until : min (limit run) c.max_address_exclusive < candidate + 4096 = ground arith in
    elim (Bool-cases (in_run run page)) [
      | inl inside ↦
          let bounds : (run.start ≤ page) × (page < limit run) = ground (arith, inside) in
          absurd (omega (arith, bounds.0, bounds.1, is.0))
      | inr outside ↦ outside
    ]

abbrev found_as : Option (ℕ × ℕ × ℕ) → Result (Option (ℕ × ℕ × ℕ)) CoreErrorKind
found_as = ok

-- The search: a page of the constraint in one of the runs.
pub select_lem :
    (c : PageAllocationConstraint) (index : ℕ) (runs : List PageRun) (lo i page stop : ℕ)
    → Ordered lo runs
    → select c index runs ≡ ok (some (i, page, stop))
    → (j : ℕ) × (i ≡ index + j) × IsAt j page stop runs × Within c page
select_lem c index [] lo i page stop h found = absurd (unfold select in ground (arith, found))
select_lem c index (run ∷ runs) lo i page stop (low, is, h) found =
    let (candidate, aligned) = select-aligned c index run runs found in
    let step = select-step c index run runs candidate is aligned in
    let e = align_up-eq (max run.start c.min_address) aligned in
    elim (Bool-cases (fits c run candidate)) [
      | inl here ↦
          let found'' : found_as (some (index, candidate, limit run)) ≡ ok (some (i, page, stop)) =
            rw (step, here) at found in
          let same : (index ≡ i) × (candidate ≡ page) × (limit run ≡ stop) =
            ground (arith, found'') in
          let (at, within) = fits_lem c run runs candidate e here in
          let at' : IsAt 0 page stop (run ∷ runs) = rw (sym same.1, sym same.2) at in
          (0, omega (arith, same.0), at', rw (sym same.1) within)
      | inr past ↦
          let found'' : select c (suc index) runs ≡ ok (some (i, page, stop)) =
            rw (step, past) at found in
          let (j, at_i, at, within) =
            select_lem c (suc index) runs (suc (limit run)) i page stop h found'' in
          (suc j, omega (arith, at_i), at, within)
    ]

-- A search that finds nothing: no page of the constraint is free.
pub select-none :
    (c : PageAllocationConstraint) (index : ℕ) (runs : List PageRun) (lo : ℕ)
    → Ordered lo runs
    → select c index runs ≡ ok none
    → (page : ℕ) → page % 4096 ≡ 0
    → Within c page
    → covers page runs ≡ false
unfolding covers
select-none c index [] lo h none_found page aligned within = refl
select-none c index (run ∷ runs) lo (low, is, h) none_found page aligned within =
    let (candidate, e) = select-aligned c index run runs none_found in
    let step = select-step c index run runs candidate is e in
    let e' = align_up-eq (max run.start c.min_address) e in
    elim (Bool-cases (fits c run candidate)) [
      | inl here ↦ absurd (ground (arith, (rw (step, here) at none_found)))
      | inr past ↦
          let found'' : select c (suc index) runs ≡ ok none = rw (step, past) at none_found in
          let rest =
            select-none c (suc index) runs (suc (limit run)) h found'' page aligned within in
          let here : in_run run page ≡ false =
            fits_not c run candidate page is e' past aligned within in
          rw (here, rest) refl
    ]
