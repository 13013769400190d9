-- ===== src/Core/Allocator.antt =====
-- crates/aegishv-hypervisor-core/src/allocator.rs: the allocator of 4K pages. The arrays up to
-- their lengths are lists, and their sizes `R` and `A` are the fields `runs_capacity` and
-- `pages_capacity`.
pub mod FreeList
pub mod Runs
pub mod Join
pub mod Insert
pub mod Take
pub mod Select
pub mod Trim
pub mod Counts
pub mod Pages
pub mod Inv
pub mod Free
pub mod Reserve
pub mod Boot
pub mod Allocate
pub mod Reach
pub mod Canonical
pub mod Fits
pub mod RoundTrip
pub mod Bounds
use aegis_hv.Common.{
  ℕ, zero, suc, ◌+◌, ◌-◌, ◌*◌, ◌/◌, ◌%◌, min, max, Bool, true, false, ◌&&◌, not, Option, none, some,
  List, [], ◌∷◌, ◌++◌, length, get_or, ltb, leb, ◌==◌, if◌then◌else◌, Result, ok, err, ok_or,
  fail_if, ◌>>=◌, ◌>>◌, Method,
}
use aegis_hv.Common.Word.{u64_max, checked_add, saturating_mul, align_down}
use aegis_hv.Core.Errors.{
  CoreErrorKind, invalid_address, capacity_exceeded, overlap, out_of_memory, double_free,
}
use aegis_hv.Core.Ids.{new_host_physical}
use aegis_hv.Core.Memory.{MemoryRegion, MemoryMap, end, usable_regions}
use aegis_hv.Core.Allocator.FreeList.{
  take_page_from_run, count_pages, align_up, insert_free_run, run_end, page_size_4k, remove_at,
  PageRun, check_split, trim,
}

pub record PageAllocationConstraint : Type 0 where
  pub min_address : ℕ
  pub max_address_exclusive : ℕ

-- `PageAllocationConstraint::new`
unfoldable pub new_constraint : ℕ → ℕ → Result PageAllocationConstraint CoreErrorKind
new_constraint min_address max_address = do
  fail_if (leb max_address min_address) invalid_address
  ok (record { min_address = min_address; max_address_exclusive = max_address })

-- `PageAllocationConstraint::any`
abbrev pub any : PageAllocationConstraint
any = record { min_address = 0; max_address_exclusive = u64_max }

pub record PhysicalPageAllocator : Type 0 where
  pub runs_capacity : ℕ
  pub pages_capacity : ℕ
  pub free_runs : List PageRun
  pub allocated : List ℕ

unfoldable pub free_pages : PhysicalPageAllocator → ℕ
unfolding count_pages
free_pages a = count_pages a.free_runs

unfoldable pub allocated_pages : PhysicalPageAllocator → ℕ
allocated_pages a = length a.allocated

-- The loop of `from_memory_map` over the usable regions.
unfoldable pub add_regions :
    ℕ → List MemoryRegion → List PageRun → Result (List PageRun) CoreErrorKind
unfolding align_up insert_free_run
add_regions capacity [] runs = ok runs
add_regions capacity (region ∷ regions) runs = do
  start ← align_up region.base page_size_4k
  region_end ← end region
  let stop = align_down region_end page_size_4k
  let skip = add_regions capacity regions runs
  let run : PageRun = record { start = start; count = (stop - start) / page_size_4k }
  let added : Result (List PageRun) CoreErrorKind = do
    runs' ← insert_free_run capacity run runs
    add_regions capacity regions runs'
  if leb stop start then skip else added

unfoldable pub from_memory_map : ℕ → ℕ → MemoryMap → Result PhysicalPageAllocator CoreErrorKind
unfolding add_regions
from_memory_map runs_capacity pages_capacity map = do
  runs ← add_regions runs_capacity (usable_regions map.regions) []
  ok (record {
    runs_capacity = runs_capacity;
    pages_capacity = pages_capacity;
    free_runs = runs;
    allocated = [];
  })

-- The search of `allocate_within`: the run's index, the page and the end of the run.
unfoldable pub select :
    PageAllocationConstraint → ℕ → List PageRun → Result (Option (ℕ × ℕ × ℕ)) CoreErrorKind
unfolding run_end align_up
select constraint index [] = ok none
select constraint index (run ∷ runs) = do
  stop ← run_end run
  candidate ← align_up (max run.start constraint.min_address) page_size_4k
  let next = select constraint (suc index) runs
  let allowed_end = min stop constraint.max_address_exclusive
  elim (checked_add candidate page_size_4k) [
    | none ↦ next
    | some candidate_end ↦
        if leb candidate_end allowed_end then ok (some (index, candidate, stop)) else next
  ]

-- `allocate_within` up to the first write: the page and the free list without it.
unfoldable pub take_page :
    PageAllocationConstraint → PhysicalPageAllocator → Result (ℕ × List PageRun) CoreErrorKind
unfolding select take_page_from_run
take_page constraint a = do
  fail_if (leb constraint.max_address_exclusive constraint.min_address) invalid_address
  fail_if (leb a.pages_capacity (length a.allocated)) capacity_exceeded
  selected ← select constraint 0 a.free_runs
  (index, page, stop) ← ok_or selected out_of_memory
  runs ← take_page_from_run a.runs_capacity index page stop a.free_runs
  ok (page, runs)

unfoldable pub allocate_within :
    PageAllocationConstraint → Method PhysicalPageAllocator CoreErrorKind ℕ
unfolding take_page
allocate_within constraint a = elim (take_page constraint a) [
  | err e ↦ (err e, a)
  | ok (page, runs) ↦ (
    new_host_physical page,
    record a { free_runs = runs; allocated = a.allocated ++ (page ∷ []) },
  )
]

abbrev pub allocate : Method PhysicalPageAllocator CoreErrorKind ℕ
allocate = allocate_within any

-- `position`: the index of the page.
unfoldable pub position : ℕ → List ℕ → Option ℕ
position page [] = none
position page (p ∷ pages) =
    if p == page then some 0 else elim (position page pages) [ none ↦ none | some i ↦ some (suc i) ]

-- `free`
unfoldable pub free_page : ℕ → PhysicalPageAllocator → Result PhysicalPageAllocator CoreErrorKind
unfolding position insert_free_run remove_at
free_page page a = do
  fail_if (not (page % page_size_4k == 0)) invalid_address
  index ← ok_or (position page a.allocated) double_free
  runs ← insert_free_run a.runs_capacity (record { start = page; count = 1 }) a.free_runs
  ok (record a { free_runs = runs; allocated = remove_at index a.allocated })

-- `free` as a method.
unfoldable pub free : ℕ → Method PhysicalPageAllocator CoreErrorKind (Unit {0})
unfolding free_page
free page a = elim (free_page page a) [ err e ↦ (err e, a) | ok a' ↦ (ok tt, a') ]

-- `self.free(page)?; return Err(err)`
unfoldable pub refuse : CoreErrorKind → Result (Unit {0}) CoreErrorKind → Result ℕ CoreErrorKind
refuse e (err e') = err e'
refuse e (ok _) = err e

-- The rest of `allocate_zeroed`, once the page is zeroed or not.
unfoldable pub after_zeroing :
    {Z : Type 0}
    → ℕ
    → PhysicalPageAllocator
    → Result (Unit {0}) CoreErrorKind × Z
    → Result ℕ CoreErrorKind × (PhysicalPageAllocator × Z)
unfolding free refuse
after_zeroing page a (ok _, z) = (ok page, (a, z))
after_zeroing page a (err e, z) = let (freed, a') = free page a in (refuse e freed, (a', z))

-- The rest of it, once the page is allocated or not. `zero_page` is a method of a caller's type
-- `Z`, whose state it may change.
unfoldable pub after_allocation :
    {Z : Type 0}
    → (ℕ → Method Z CoreErrorKind (Unit {0}))
    → Z
    → Result ℕ CoreErrorKind × PhysicalPageAllocator
    → Result ℕ CoreErrorKind × (PhysicalPageAllocator × Z)
unfolding after_zeroing
after_allocation zero_page z (err e, a) = (err e, (a, z))
after_allocation zero_page z (ok page, a) = after_zeroing page a (zero_page page z)

unfoldable pub allocate_zeroed :
    {Z : Type 0}
    → (ℕ → Method Z CoreErrorKind (Unit {0}))
    → Method (PhysicalPageAllocator × Z) CoreErrorKind ℕ
unfolding allocate_within after_allocation
allocate_zeroed zero_page (a, z) = after_allocation zero_page z (allocate a)

-- The first loop of `reserve_range`.
unfoldable pub hits_allocated : ℕ → ℕ → List ℕ → Bool
hits_allocated start stop [] = false
hits_allocated start stop (page ∷ pages) =
    if ltb page stop && ltb start (page + page_size_4k)
    then true
    else hits_allocated start stop pages

-- It fails before the first write only: the loop that writes reads the ends that `check_split` has
-- read.
unfoldable pub reserve_range :
    ℕ → ℕ → PhysicalPageAllocator → Result (ℕ × PhysicalPageAllocator) CoreErrorKind
unfolding align_up hits_allocated check_split trim free_pages
reserve_range base size a = do
  fail_if (size == 0) invalid_address
  raw_end ← ok_or (checked_add base size) invalid_address
  let start = align_down base page_size_4k
  stop ← align_up raw_end page_size_4k
  fail_if (hits_allocated start stop a.allocated) overlap
  check_split (leb a.runs_capacity (length a.free_runs)) start stop a.free_runs
  runs ← trim start stop a.free_runs
  let a' : PhysicalPageAllocator = record a { free_runs = runs }
  ok (free_pages a - free_pages a', a')
