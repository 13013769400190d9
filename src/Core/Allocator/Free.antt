-- ===== src/Core/Allocator/Free.antt =====
-- Giving a page back.
use aegis_hv.Common.{
  ℕ, ◌+◌, ◌%◌, ◌<◌, ◌≤◌, true, false, ◌||◌, not, some, List, ◌==◌, ok, err, ok_or, fail_if, ◌≡◌,
  ◌≢◌, refl, arith, Bool-cases, inl, inr, All, Result-cases, ap, >>=-eq-ok, subst, ◌∙◌, All-both,
}
use aegis_hv.Core.Errors.{invalid_address, double_free}
use aegis_hv.Core.Hugepage.Runs.{ok_or-ok}
use aegis_hv.Core.Allocator.{PhysicalPageAllocator, position, free_page, free}
use aegis_hv.Core.Allocator.FreeList.{PageRun, remove_at, insert_free_run}
use aegis_hv.Core.Allocator.Runs.{in_page, covers}
use aegis_hv.Core.Allocator.Insert.{insert_free_run_lem}
use aegis_hv.Core.Allocator.Pages.{
  in_pages, remove_at_lem, remove_at-All, position-All, position-none,
}
use aegis_hv.Core.Allocator.Inv.{IsTaken, IsWellFormed, SameMemory}

-- An aligned address lies in no other aligned page.
other_page : (page q : ℕ) → page % 4096 ≡ 0 → q % 4096 ≡ 0 → q ≢ page → in_page page q ≡ false
other_page page q h k d = elim (Bool-cases (in_page page q)) [
  | inl inside ↦
      let bounds : (page ≤ q) × (q < page + 4096) = ground (arith, inside) in
      absurd (d (omega (arith, bounds.0, bounds.1, h, k)))
  | inr outside ↦ outside
]

-- The allocator after the page is freed.
abbrev freed : PhysicalPageAllocator → ℕ → List PageRun → PhysicalPageAllocator
freed a index runs = record a { free_runs = runs; allocated = remove_at index a.allocated }

-- A page that is given back is free and no longer allocated; nothing else changes.
abbrev pub Frees : ℕ → PhysicalPageAllocator → PhysicalPageAllocator → Type 0
Frees page a a' =
    IsWellFormed a'
    × SameMemory a a'
    × (page % 4096 ≡ 0)
    × (in_pages page a.allocated ≡ true)
    × All (λ q. q ≢ page) a'.allocated
    × ((x : ℕ) → covers x a'.free_runs ≡ (in_page page x || covers x a.free_runs))

freed_lem :
    (page index : ℕ) (a : PhysicalPageAllocator) (runs : List PageRun)
    → IsWellFormed a
    → position page a.allocated ≡ some index
    → insert_free_run a.runs_capacity (record { start = page; count = 1 }) a.free_runs ≡ ok runs
    → Frees page a (freed a index runs)
freed_lem page index a runs (ordered, fits, entries, pages, apart) found inserted =
    let (fresh, apart', size, cover) = remove_at_lem page a.allocated apart found in
    let (aligned, small, used) = position-All (IsTaken a.free_runs) page a.allocated pages found in
    let run : PageRun = record { start = page; count = 1 } in
    let (ordered', same, fits') =
      insert_free_run_lem a.runs_capacity run a.free_runs runs (omega arith, aligned, small) ordered
        fits inserted in
    let kept = remove_at-All (IsTaken a.free_runs) index a.allocated pages in
    (
      (
        ordered',
        fits',
        omega (arith, size, entries),
        All-both
            (λ q (aligned', small', used') d. (
              aligned',
              small',
              ground (arith, same q, other_page page q aligned aligned' d, used'),
            ))
            (remove_at index a.allocated) kept fresh,
        apart',
      ),
      λ x. ground (arith, same x, cover x),
      aligned,
      ground (arith, cover page),
      fresh,
      same,
    )

-- What `free` does when it succeeds.
pub free_page_lem :
    (page : ℕ) (a a' : PhysicalPageAllocator)
    → IsWellFormed a
    → free_page page a ≡ ok a'
    → Frees page a a'
unfolding free_page
free_page_lem page a a' wf done =
    let (_, aligned, h1) = >>=-eq-ok (fail_if (not (page % 4096 == 0)) invalid_address) _ done in
    let (index, found, h2) = >>=-eq-ok (ok_or (position page a.allocated) double_free) _ h1 in
    let run : PageRun = record { start = page; count = 1 } in
    let (runs, inserted, h3) = >>=-eq-ok (insert_free_run a.runs_capacity run a.free_runs) _ h2 in
    let e : freed a index runs ≡ a' = ground (arith, h3) in
    subst (Frees page a) e (
      freed_lem page index a runs wf (ok_or-ok (position page a.allocated) double_free found)
        inserted)

-- What `free` went through when it succeeded.
free-free_page :
    (page : ℕ) (a a' : PhysicalPageAllocator) → free page a ≡ (ok tt, a') → free_page page a ≡ ok a'
unfolding free
free-free_page page a a' done = elim (Result-cases (free_page page a)) [
  | inl (after, e) ↦ e ∙ ap ok (ground (arith, rw (e, free) at done))
  | inr (_, e) ↦ absurd (ground (arith, rw (e, free) at done))
]

-- The second `free` of a page.
free-again :
    (page : ℕ) (a : PhysicalPageAllocator)
    → page % 4096 ≡ 0
    → All (λ q. q ≢ page) a.allocated
    → free page a ≡ (err double_free, a)
unfolding free free_page
free-again page a aligned fresh =
    let aligned' : (page % 4096 == 0) ≡ true = ground (arith, aligned) in
    rw (free, free_page, aligned', position-none page a.allocated fresh) refl

-- A page that `free` accepts was allocated. It is free afterwards and no longer allocated, no
-- other address becomes free, the allocator holds the same memory and keeps its invariant; and a
-- second `free` of the page fails as a double free and changes nothing.
pub free_lem :
    (page : ℕ) (a a' : PhysicalPageAllocator)
    → IsWellFormed a
    → free page a ≡ (ok tt, a')
    → Frees page a a' × (free page a' ≡ (err double_free, a'))
free_lem page a a' wf done =
    let frees = free_page_lem page a a' wf (free-free_page page a a' done) in
    let (_, _, aligned, _, fresh, _) = frees in (frees, free-again page a' aligned fresh)
