-- ===== src/Core/Allocator/Reach.antt =====
-- The allocator along any sequence of its operations.
use aegis_hv.Common.{
  ℕ, true, Result, ok, err, ◌≡◌, arith, inl, inr, sym, Result-cases, ap, ◌∙◌, Method,
}
use aegis_hv.Core.Errors.{CoreErrorKind}
use aegis_hv.Core.Memory.{MemoryMap}
use aegis_hv.Core.Allocator.{
  PageAllocationConstraint, PhysicalPageAllocator, any, from_memory_map, allocate_within, allocate,
  allocate_zeroed, free, free_page, reserve_range, after_zeroing, after_allocation,
}
use aegis_hv.Core.Allocator.Pages.{in_pages, in_pages-nil}
use aegis_hv.Core.Allocator.Inv.{IsWellFormed, holds}
use aegis_hv.Core.Allocator.Allocate.{allocate_within-IsWellFormed}
use aegis_hv.Core.Allocator.Free.{free_page_lem}
use aegis_hv.Core.Allocator.Reserve.{reserve_range_lem}
use aegis_hv.Core.Allocator.Boot.{usable_at, from_memory_map_lem}

-- One call of an operation, whatever it returns.
pub data Step : PhysicalPageAllocator → PhysicalPageAllocator → Type 1 where
  allocating :
      (c : PageAllocationConstraint) (a : PhysicalPageAllocator) → Step a (allocate_within c a).1
  zeroing :
      {Z : Type 0} (zero_page : ℕ → Method Z CoreErrorKind (Unit {0})) (z : Z)
      (a : PhysicalPageAllocator)
      → Step a (allocate_zeroed zero_page (a, z)).1.0
  freeing : (page : ℕ) (a : PhysicalPageAllocator) → Step a (free page a).1
  reserving :
      (base size n : ℕ) (a a' : PhysicalPageAllocator)
      → reserve_range base size a ≡ ok (n, a')
      → Step a a'

pub data Reach (a : PhysicalPageAllocator) : PhysicalPageAllocator → Type 1 where
  start : Reach a a
  next : {b c : PhysicalPageAllocator} → Reach a b → Step b c → Reach a c

-- The allocator holds no memory that it did not hold before.
abbrev Keeps : PhysicalPageAllocator → PhysicalPageAllocator → Type 0
Keeps a a' = IsWellFormed a' × ((x : ℕ) → holds a' x ≡ true → holds a x ≡ true)

free-Keeps : (page : ℕ) (a : PhysicalPageAllocator) → IsWellFormed a → Keeps a (free page a).1
unfolding free
free-Keeps page a wf = elim (Result-cases (free_page page a)) [
  | inl (a', e) ↦
      let (wf', same, _, _, _, _) = free_page_lem page a a' wf e in
      rw (e, free) (wf', λ x h. sym (same x) ∙ h)
  | inr (_, e) ↦ rw (e, free) (wf, λ x h. h)
]

after_zeroing-Keeps :
    {Z : Type 0} (page : ℕ) (a : PhysicalPageAllocator)
    (zeroed : Result (Unit {0}) CoreErrorKind × Z)
    → IsWellFormed a
    → Keeps a (after_zeroing page a zeroed).1.0
unfolding after_zeroing
after_zeroing-Keeps page a (ok _, z) wf = (wf, λ x h. h)
after_zeroing-Keeps page a (err e, z) wf = free-Keeps page a wf

after_allocation-Keeps :
    {Z : Type 0} (zero_page : ℕ → Method Z CoreErrorKind (Unit {0})) (z : Z)
    (allocated : Result ℕ CoreErrorKind × PhysicalPageAllocator)
    → IsWellFormed allocated.1
    → Keeps allocated.1 (after_allocation zero_page z allocated).1.0
unfolding after_allocation
after_allocation-Keeps zero_page z (err e, a) wf = (wf, λ x h. h)
after_allocation-Keeps zero_page z (ok page, a) wf =
    after_zeroing-Keeps page a (zero_page page z) wf

allocate_zeroed-Keeps :
    {Z : Type 0} (zero_page : ℕ → Method Z CoreErrorKind (Unit {0})) (z : Z)
    (a : PhysicalPageAllocator)
    → IsWellFormed a
    → Keeps a (allocate_zeroed zero_page (a, z)).1.0
unfolding allocate_zeroed
allocate_zeroed-Keeps zero_page z a wf =
    let (wf', same) = allocate_within-IsWellFormed any a wf in
    let (wf'', kept) = after_allocation-Keeps zero_page z (allocate a) wf' in
    (wf'', λ x h. sym (same x) ∙ kept x h)

reserve_range-Keeps :
    (base size n : ℕ) (a a' : PhysicalPageAllocator)
    → IsWellFormed a
    → reserve_range base size a ≡ ok (n, a')
    → Keeps a a'
reserve_range-Keeps base size n a a' wf done =
    let (wf', pages, fewer, _, _) = reserve_range_lem base size n a a' wf done in
    (wf', λ x h. ground (arith, fewer x, ap (in_pages x) pages, h))

Step-Keeps : (a a' : PhysicalPageAllocator) → IsWellFormed a → Step a a' → Keeps a a'
Step-Keeps a a' wf (allocating c _) =
    let (wf', same) = allocate_within-IsWellFormed c a wf in (wf', λ x h. sym (same x) ∙ h)
Step-Keeps a a' wf (zeroing zero_page z _) = allocate_zeroed-Keeps zero_page z a wf
Step-Keeps a a' wf (freeing page _) = free-Keeps page a wf
Step-Keeps a a' wf (reserving base size n _ _ done) = reserve_range-Keeps base size n a a' wf done

Reach-Keeps : (a a' : PhysicalPageAllocator) → IsWellFormed a → Reach a a' → Keeps a a'
Reach-Keeps a a' wf start = (wf, λ x h. h)
Reach-Keeps a a' wf (next {b} before step) =
    let (wf', kept) = Reach-Keeps a b wf before in
    let (wf'', kept') = Step-Keeps b a' wf' step in (wf'', λ x h. kept x (kept' x h))

-- Whatever is called on an allocator that was made from a memory map, failing calls included, it
-- keeps its invariant: the free runs stand in order and do not touch, the allocated pages are
-- aligned, different and not free, and no list is longer than its array. All the memory that is
-- free or handed out lies in whole pages of usable regions of the map.
pub Reach-IsWellFormed :
    (runs_capacity pages_capacity : ℕ) (map : MemoryMap) (a a' : PhysicalPageAllocator)
    → from_memory_map runs_capacity pages_capacity map ≡ ok a
    → Reach a a'
    → IsWellFormed a' × ((x : ℕ) → holds a' x ≡ true → usable_at x map.regions ≡ true)
Reach-IsWellFormed runs_capacity pages_capacity map a a' made reach =
    let (wf, none_taken, same) = from_memory_map_lem runs_capacity pages_capacity map a made in
    let (wf', kept) = Reach-Keeps a a' wf reach in
    (
      wf',
      λ x h. sym (same x) ∙ ground (arith, kept x h, ap (in_pages x) none_taken, in_pages-nil x),
    )
