-- ===== src/Core/Allocator/Inv.antt =====
-- The allocator's invariant, and what each operation does to it.
use aegis_hv.Common.{
  ℕ, suc, ◌+◌, ◌%◌, ◌<◌, ◌≤◌, Bool, true, false, ◌||◌, some, List, [], ◌∷◌, ◌++◌, length, leb, ok,
  ok_or, fail_if, ◌≡◌, ◌≢◌, arith, All, All-imp, All-append, Pairs, Pairs-snoc, ap, >>=-eq-ok,
  subst, length-append, ◌∙◌,
}
use aegis_hv.Common.Word.{u64_mod}
use aegis_hv.Core.Errors.{invalid_address, capacity_exceeded, out_of_memory}
use aegis_hv.Core.Hugepage.Runs.{ok_or-ok}
use aegis_hv.Core.Allocator.{
  PageAllocationConstraint, PhysicalPageAllocator, select, take_page, free,
}
use aegis_hv.Core.Allocator.FreeList.{PageRun, take_page_from_run}
use aegis_hv.Core.Allocator.Runs.{in_page, covers, Ordered}
use aegis_hv.Core.Allocator.Take.{IsAt, IsAt-covers, IsAt-page, Removes, take_page_from_run_lem}
use aegis_hv.Core.Allocator.Select.{Within, select_lem}
use aegis_hv.Core.Allocator.Pages.{in_pages, in_pages-append}

-- An allocated page is aligned, lies below 2^64 and is not free.
abbrev pub IsTaken : List PageRun → ℕ → Type 0
IsTaken runs page = (page % 4096 ≡ 0) × (page + 4096 < u64_mod) × (covers page runs ≡ false)

abbrev pub IsWellFormed : PhysicalPageAllocator → Type 0
IsWellFormed a =
    Ordered 0 a.free_runs
    × (length a.free_runs ≤ a.runs_capacity)
    × (length a.allocated ≤ a.pages_capacity)
    × All (IsTaken a.free_runs) a.allocated
    × Pairs (λ p q. p ≢ q) a.allocated

-- The memory that the allocator holds: free or handed out.
abbrev pub holds : PhysicalPageAllocator → ℕ → Bool
holds a x = covers x a.free_runs || in_pages x a.allocated

-- What `take_page` finds.
abbrev IsPageOf : PageAllocationConstraint → ℕ → List PageRun → Type 0
IsPageOf c page runs =
    (page % 4096 ≡ 0)
    × (page + 4096 < u64_mod)
    × Within c page
    × ((x : ℕ) → in_page page x ≡ true → covers x runs ≡ true)

found_page_lem :
    (c : PageAllocationConstraint) (capacity index page stop : ℕ) (runs out : List PageRun)
    → Ordered 0 runs
    → length runs ≤ capacity
    → select c 0 runs ≡ ok (some (index, page, stop))
    → take_page_from_run capacity index page stop runs ≡ ok out
    → IsPageOf c page runs × Removes 0 page runs out × (length out ≤ capacity)
found_page_lem c capacity index page stop runs out ordered fits found cut =
    let (j, e, at', within) = select_lem c 0 runs 0 index page stop ordered found in
    let at : IsAt index page stop runs =
      subst (λ i. IsAt i page stop runs) (omega (arith, e)) at' in
    let (aligned, small) = IsAt-page index page stop runs 0 ordered at in
    let (removes, few) =
      take_page_from_run_lem capacity index page stop runs out ordered fits at cut in
    ((aligned, small, within, IsAt-covers index page stop runs at), removes, few)

-- Equations on both arguments of a predicate.
subst_both :
    (P : ℕ → List PageRun → Type 0) {p q : ℕ} {rs ss : List PageRun}
    → p ≡ q
    → rs ≡ ss
    → P p rs
    → P q ss
subst_both P {p} {q} {rs} {ss} e e' h = subst (λ r. P r ss) e (subst (P p) e' h)

-- What `take_page` went through when it succeeded.
pub take_page-parts :
    (c : PageAllocationConstraint) (a : PhysicalPageAllocator) (page : ℕ) (runs : List PageRun)
    → take_page c a ≡ ok (page, runs)
    → (index : ℕ) × (stop : ℕ) × (select c 0 a.free_runs ≡ ok (some (index, page, stop)))
      × (take_page_from_run a.runs_capacity index page stop a.free_runs ≡ ok runs)
      × (suc (length a.allocated) ≤ a.pages_capacity)
unfolding take_page
take_page-parts c a page runs taken =
    let (_, _, h1) =
      >>=-eq-ok (fail_if (leb c.max_address_exclusive c.min_address) invalid_address) _ taken in
    let (_, free_entry, h2) =
      >>=-eq-ok (fail_if (leb a.pages_capacity (length a.allocated)) capacity_exceeded) _ h1 in
    let (selected, found, h3) = >>=-eq-ok (select c 0 a.free_runs) _ h2 in
    let ((index, page', stop), some_page, h4) = >>=-eq-ok (ok_or selected out_of_memory) _ h3 in
    let (runs', cut, h5) =
      >>=-eq-ok (take_page_from_run a.runs_capacity index page' stop a.free_runs) _ h4 in
    let e : (page' ≡ page) × (runs' ≡ runs) = ground (arith, h5) in
    let found' : select c 0 a.free_runs ≡ ok (some (index, page', stop)) =
      found ∙ ap ok (ok_or-ok selected out_of_memory some_page) in
    subst_both
      (λ p rs.
        (index : ℕ) × (stop : ℕ) × (select c 0 a.free_runs ≡ ok (some (index, p, stop)))
        × (take_page_from_run a.runs_capacity index p stop a.free_runs ≡ ok rs)
        × (suc (length a.allocated) ≤ a.pages_capacity))
      e.0 e.1 (index, stop, found', cut, ground (arith, free_entry))

pub take_page_lem :
    (c : PageAllocationConstraint) (a : PhysicalPageAllocator) (page : ℕ) (runs : List PageRun)
    → IsWellFormed a
    → take_page c a ≡ ok (page, runs)
    → IsPageOf c page a.free_runs
      × Removes 0 page a.free_runs runs
      × (length runs ≤ a.runs_capacity)
      × (suc (length a.allocated) ≤ a.pages_capacity)
take_page_lem c a page runs (ordered, fits, _, _, _) taken =
    let (index, stop, found, cut, entries) = take_page-parts c a page runs taken in
    let (is, removes, few) =
      found_page_lem c a.runs_capacity index page stop a.free_runs runs ordered fits found cut in
    (is, removes, few, entries)

-- The allocator after the page is handed out.
abbrev pub handed_out : PhysicalPageAllocator → ℕ → List PageRun → PhysicalPageAllocator
handed_out a page runs = record a { free_runs = runs; allocated = a.allocated ++ (page ∷ []) }

abbrev pub SameMemory : PhysicalPageAllocator → PhysicalPageAllocator → Type 0
SameMemory a a' = (x : ℕ) → holds a' x ≡ holds a x

Removes-IsTaken :
    (page lo : ℕ) (runs out : List PageRun) (pages : List ℕ)
    → Removes lo page runs out
    → All (IsTaken runs) pages
    → All (IsTaken out) pages
Removes-IsTaken page lo runs out pages (_, same) =
    All-imp (λ q (aligned, small, free). (aligned, small, ground (arith, same q, free))) pages

pub handed_out_lem :
    (c : PageAllocationConstraint) (a : PhysicalPageAllocator) (page : ℕ) (runs : List PageRun)
    → IsWellFormed a
    → take_page c a ≡ ok (page, runs)
    → IsWellFormed (handed_out a page runs) × SameMemory a (handed_out a page runs)
handed_out_lem c a page runs wf taken =
    let (ordered, fits, _, pages, apart) = wf in
    let ((aligned, small, _, free), removes, few, entries) = take_page_lem c a page runs wf taken in
    let gone : covers page runs ≡ false = ground (arith, removes.1 page) in
    let fresh : All (λ q. q ≢ page) a.allocated =
      All-imp (λ q (_, _, used) e. absurd (ground (arith, free q, used, e))) a.allocated pages in
    (
      (
        removes.0,
        few,
        omega (arith, length-append a.allocated (page ∷ []), entries),
        All-append (IsTaken runs) a.allocated (page ∷ [])
            (Removes-IsTaken page 0 a.free_runs runs a.allocated removes pages)
            ((aligned, small, gone), tt),
        Pairs-snoc (λ p q. p ≢ q) a.allocated page apart fresh,
      ),
      λ x.
          unfold in_pages in
          ground (arith, removes.1 x, free x, in_pages-append x a.allocated (page ∷ [])),
    )
