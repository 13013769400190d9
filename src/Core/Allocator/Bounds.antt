-- ===== src/Core/Allocator/Bounds.antt =====
-- How many pages can be free.
use aegis_hv.Common.{◌≤◌, ◌^◌, arith}
use aegis_hv.Core.Allocator.{PhysicalPageAllocator, free_pages}
use aegis_hv.Core.Allocator.Counts.{count_pages-bound}
use aegis_hv.Core.Allocator.Inv.{IsWellFormed}

-- The free pages of an allocator that keeps its invariant are at most 2^52, so the sum that
-- `free_pages` makes does not overflow.
pub free_pages-bound : (a : PhysicalPageAllocator) → IsWellFormed a → free_pages a ≤ 2 ^ 52
unfolding free_pages
free_pages-bound a (ordered, _, _, _, _) =
    omega (arith, count_pages-bound 0 a.free_runs ordered (omega arith))
