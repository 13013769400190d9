-- ===== src/Core/Allocator/RoundTrip.antt =====
-- An allocation is undone by giving the page back.
use aegis_hv.Common.{
  ℕ, zero, suc, ◌+◌, ◌-◌, ◌/◌, ◌%◌, ◌<◌, ◌≤◌, true, false, some, List, [], ◌∷◌, ◌++◌, length,
  get_or, ltb, leb, ◌==◌, Result, IsOk, ok, err, ◌>>=◌, ◌≡◌, ◌≢◌, refl, arith, Bool-cases, inl, inr,
  sym, All, All-imp, Result-cases, ap, subst, ◌∙◌, Method,
}
use aegis_hv.Core.Errors.{CoreErrorKind}
use aegis_hv.Core.Allocator.FreeList.{
  PageRun, empty_run, cut, splice, take_page_from_run, insert_free_run, remove_at,
}
use aegis_hv.Core.Allocator.Runs.{limit, in_run, covers, IsRun, Ordered}
use aegis_hv.Core.Allocator.Insert.{insert_free_run_lem}
use aegis_hv.Core.Allocator.Take.{IsAt, IsAt-length, splice-length, take_page_from_run_lem}
use aegis_hv.Core.Allocator.Fits.{HasRoom, IsApart, insert_free_run-IsOk}
use aegis_hv.Core.Allocator.Inv.{IsTaken, IsWellFormed, take_page-parts, take_page_lem}
use aegis_hv.Core.Allocator.Select.{select_lem}
use aegis_hv.Core.Allocator.Allocate.{allocate_within-take_page}
use aegis_hv.Core.Allocator.{
  PhysicalPageAllocator, PageAllocationConstraint, take_page, position, free, free_page,
  allocate_within, allocate_zeroed, after_allocation, after_zeroing, refuse, allocate, any,
}
use aegis_hv.Core.Allocator.Canonical.{Ordered-unique}

-- The run that holds the page.
IsAt-run :
    (index page stop : ℕ) (runs : List PageRun)
    → IsAt index page stop runs
    → let run = get_or runs index empty_run in
      (run.start ≤ page)
      × (page + 4096 ≤ stop)
      × (stop ≡ limit run)
      × ((x : ℕ) → in_run run x ≡ true → covers x runs ≡ true)
unfolding covers
IsAt-run zero page stop [] at = absurd at
IsAt-run (suc index) page stop [] at = absurd at
IsAt-run zero page stop (run ∷ runs) (from, _, until, e) =
    (from, until, e, λ x inside. ground (arith, inside))
IsAt-run (suc index) page stop (run ∷ runs) at =
    let (from, until, e, cover) = IsAt-run index page stop runs at in
    (from, until, e, λ x inside. ground (arith, cover x inside))

abbrev one_page : ℕ → PageRun
one_page page = record { start = page; count = 1 }

abbrev spliced : List PageRun → Result (List PageRun) CoreErrorKind
spliced = ok

-- A run of one page goes away.
whole_run :
    (capacity index page stop : ℕ) (runs out : List PageRun)
    → length runs ≤ capacity
    → index < length runs
    → (page - (get_or runs index empty_run).start) / 4096 ≡ 0
    → (stop - (page + 4096)) / 4096 ≡ 0
    → take_page_from_run capacity index page stop runs ≡ ok out
    → leb capacity (length out) ≡ false
unfolding take_page_from_run
whole_run capacity index page stop runs out fits at l r taken =
    let taken' : (cut (leb capacity (length runs)) (get_or runs index empty_run) (page + 4096) 0 0
          >>= λ new. spliced (splice index new runs))
        ≡ ok out =
      rw (take_page_from_run, l, r) at taken in
    let e : splice index [] runs ≡ out = unfold cut in ground (arith, taken') in
    let size : suc (length out) ≡ length runs =
      ap (λ xs. suc (length xs)) (sym e) ∙ omega (arith, splice-length index [] runs at) in
    ground (arith, size)

-- A list that a page was taken from has room for it.
take_page_from_run-HasRoom :
    (capacity index page stop : ℕ) (runs out : List PageRun)
    → Ordered 0 runs
    → length runs ≤ capacity
    → IsAt index page stop runs
    → take_page_from_run capacity index page stop runs ≡ ok out
    → HasRoom (leb capacity (length out)) (one_page page) out
take_page_from_run-HasRoom capacity index page stop runs out h fits at taken =
    let run = get_or runs index empty_run in
    let (from, until, e, cover) = IsAt-run index page stop runs at in
    let ((_, same), _) = take_page_from_run_lem capacity index page stop runs out h fits at taken in
    elim (Bool-cases (ltb run.start page)) [
      | inl left ↦
          let inside : in_run run (page - 1) ≡ true = ground (arith, left, until, e) in
          inr (
            inr (
              ground (arith, left),
              ground (arith, same (page - 1), cover (page - 1) inside, left),
            ))
      | inr no_left ↦ elim (Bool-cases (ltb (page + 4096) stop)) [
        | inl right ↦
            let inside : in_run run (page + 4096) ≡ true = ground (arith, from, right, e) in
            inr (inl (ground (arith, same (page + 4096), cover (page + 4096) inside)))
        | inr no_right ↦
            let l : page - run.start ≡ 0 = ground (arith, no_left) in
            let r : stop - (page + 4096) ≡ 0 = ground (arith, no_right) in
            inl (
              whole_run capacity index page stop runs out fits (IsAt-length index page stop runs at)
                (omega (arith, l)) (omega (arith, r)) taken)
      ]
    ]

-- The free list is as before, when the page is put back.
insert-take_page :
    (c : PageAllocationConstraint) (a : PhysicalPageAllocator) (page : ℕ) (runs : List PageRun)
    → IsWellFormed a
    → take_page c a ≡ ok (page, runs)
    → insert_free_run a.runs_capacity (one_page page) runs ≡ ok a.free_runs
insert-take_page c a page runs wf taken =
    let (ordered, fits, _, _, _) = wf in
    let (index, stop, found, cut, _) = take_page-parts c a page runs taken in
    let (j, e, at', _) = select_lem c 0 a.free_runs 0 index page stop ordered found in
    let at : IsAt index page stop a.free_runs =
      subst (λ i. IsAt i page stop a.free_runs) (omega (arith, e)) at' in
    let ((aligned, small, _, free), (ordered', same), few, _) =
      take_page_lem c a page runs wf taken in
    let is : IsRun (one_page page) = (omega arith, aligned, omega (arith, small)) in
    let apart : IsApart (one_page page) runs = λ x inside. ground (arith, same x, inside) in
    let room =
      take_page_from_run-HasRoom a.runs_capacity index page stop a.free_runs runs ordered fits at
        cut in
    elim (Result-cases (insert_free_run a.runs_capacity (one_page page) runs)) [
      | inl (out, done) ↦
          let (ordered'', same', _) =
            insert_free_run_lem a.runs_capacity (one_page page) runs out is ordered' few done in
          let cover : (x : ℕ) → covers x out ≡ covers x a.free_runs =
            λ x. ground (arith, same x, same' x, free x) in
          done ∙ ap ok (Ordered-unique 0 out a.free_runs ordered'' ordered cover)
      | inr (kind, bad) ↦ absurd (
          subst IsOk bad
            (insert_free_run-IsOk a.runs_capacity (one_page page) runs is ordered' apart room))
    ]

position-append :
    (page : ℕ) (pages : List ℕ)
    → All (λ q. q ≢ page) pages
    → position page (pages ++ (page ∷ [])) ≡ some (length pages)
unfolding position
position-append page [] h = ground arith
position-append page (p ∷ pages) h =
    let other : (p == page) ≡ false = ground (arith, h.0) in
    rw (other, position-append page pages h.1) refl

remove_at-append :
    (page : ℕ) (pages : List ℕ) → remove_at (length pages) (pages ++ (page ∷ [])) ≡ pages
unfolding remove_at splice
remove_at-append page [] = refl
remove_at-append page (p ∷ pages) = ap (λ ps. p ∷ ps) (remove_at-append page pages)

-- A page that is free is none of the allocated ones.
fresh :
    (runs : List PageRun) (page : ℕ) (pages : List ℕ)
    → covers page runs ≡ true
    → All (IsTaken runs) pages
    → All (λ q. q ≢ page) pages
fresh runs page pages free =
    All-imp (λ q (_, _, used) e. absurd (ground (arith, free, used, ap (λ p. covers p runs) e)))
      pages

-- Giving back the page that was just allocated succeeds and leaves the allocator as it was before
-- the allocation, with the same free runs and the same allocated pages.
pub free-allocate_within :
    (c : PageAllocationConstraint) (a a' : PhysicalPageAllocator) (page : ℕ)
    → IsWellFormed a
    → allocate_within c a ≡ (ok page, a')
    → free page a' ≡ (ok tt, a)
unfolding free free_page
free-allocate_within c a a' page wf done =
    let (runs, taken, e) = allocate_within-take_page c a a' page done in
    let ((aligned, _, _, is_free), _, _, _) = take_page_lem c a page runs wf taken in
    let (_, _, _, pages, _) = wf in
    let aligned' : (page % 4096 == 0) ≡ true = ground (arith, aligned) in
    let found =
      position-append page a.allocated
        (fresh a.free_runs page a.allocated (is_free page (ground arith)) pages) in
    rw (sym e) (
      rw
        (
          free,
          free_page,
          aligned',
          found,
          insert-take_page c a page runs wf taken,
          remove_at-append page a.allocated,
        )
        refl)

-- If the page that was allocated cannot be zeroed, then `allocate_zeroed` returns the error of the
-- zeroing and leaves the allocator as it was.
pub allocate_zeroed-failed :
    {Z : Type 0} (zero_page : ℕ → Method Z CoreErrorKind (Unit {0})) (a a' : PhysicalPageAllocator)
    (z z' : Z) (page : ℕ) (e : CoreErrorKind)
    → IsWellFormed a
    → allocate a ≡ (ok page, a')
    → zero_page page z ≡ (err e, z')
    → allocate_zeroed zero_page (a, z) ≡ (err e, (a, z'))
unfolding allocate_zeroed after_allocation after_zeroing refuse
allocate_zeroed-failed zero_page a a' z z' page e wf done failed =
    let back = free-allocate_within any a a' page wf done in
    rw (allocate_zeroed, done, failed, back) refl
