-- ===== src/Core/Tests/Allocators.antt =====
-- The page allocator at concrete inputs.
use aegis_hv.Common.{ℕ, ◌≤◌, ◌^◌, ◌+◌, true, [], ◌∷◌, ok, err, ◌≡◌, refl, Method}
use aegis_hv.Core.Errors.{CoreErrorKind, out_of_memory, double_free, zeroing_failed}
use aegis_hv.Core.Memory.{MemoryMap, usable, reserved, usable_regions, end}
use aegis_hv.Core.Allocator.{
  PageAllocationConstraint, PhysicalPageAllocator, from_memory_map, allocate_within, allocate,
  allocate_zeroed, free, reserve_range, free_pages,
}
use aegis_hv.Core.Allocator.Inv.{IsWellFormed, holds}
use aegis_hv.Core.Allocator.Free.{Frees, free_lem}
use aegis_hv.Core.Allocator.Boot.{usable_at, from_memory_map_lem}
use aegis_hv.Core.Allocator.Allocate.{HandsOut, allocate_within_lem}
use aegis_hv.Core.Allocator.Reserve.{Reserves, reserve_range_lem}
use aegis_hv.Core.Allocator.RoundTrip.{free-allocate_within, allocate_zeroed-failed}
use aegis_hv.Core.Allocator.Reach.{start, next, allocating, reserving, Reach-IsWellFormed}
use aegis_hv.Core.Allocator.Bounds.{free_pages-bound}

-- Three pages and a half, a reserved page, and sixteen more.
abbrev memory : MemoryMap
memory = record {
  capacity = 4;
  regions =
      record { base = 0x1000; length = 0x3800; kind = usable }
      ∷ (record { base = 0x4800; length = 0x1000; kind = reserved }
          ∷ (record { base = 0x1_0000; length = 0x1_0000; kind = usable } ∷ []));
}

abbrev booted : PhysicalPageAllocator
booted = record {
  runs_capacity = 4;
  pages_capacity = 8;
  free_runs = record { start = 0x1000; count = 3 } ∷ (record { start = 0x1_0000; count = 16 } ∷ []);
  allocated = [];
}

memory_boots : from_memory_map 4 8 memory ≡ ok booted
unfolding from_memory_map usable_regions end
memory_boots = refl

booted-IsWellFormed : IsWellFormed booted
booted-IsWellFormed = (from_memory_map_lem 4 8 memory booted memory_boots).0

-- The constraint takes a page out of the middle of the second run.
abbrev high : PageAllocationConstraint
high = record { min_address = 0x1_0001; max_address_exclusive = 0x1_4000 }

abbrev one_taken : PhysicalPageAllocator
one_taken = record booted {
  free_runs =
      record { start = 0x1000; count = 3 }
      ∷ (record { start = 0x1_0000; count = 1 } ∷ (record { start = 0x1_2000; count = 14 } ∷ []));
  allocated = 0x1_1000 ∷ [];
}

high_page : allocate_within high booted ≡ (ok 0x1_1000, one_taken)
unfolding allocate_within
high_page = refl

allocate_within_lem_example : HandsOut high 0x1_1000 booted one_taken
allocate_within_lem_example =
    allocate_within_lem high 0x1_1000 booted one_taken booted-IsWellFormed high_page

free-allocate_within_example : free 0x1_1000 one_taken ≡ (ok tt, booted)
free-allocate_within_example =
    free-allocate_within high booted one_taken 0x1_1000 booted-IsWellFormed high_page

one_taken-IsWellFormed : IsWellFormed one_taken
unfolding allocate_within
one_taken-IsWellFormed =
    (Reach-IsWellFormed 4 8 memory booted one_taken memory_boots
      (next start (allocating high booted))).0

free_lem_example :
    Frees 0x1_1000 one_taken booted × (free 0x1_1000 booted ≡ (err double_free, booted))
free_lem_example =
    free_lem 0x1_1000 one_taken booted one_taken-IsWellFormed
      (free-allocate_within high booted one_taken 0x1_1000 booted-IsWellFormed high_page)

-- The page between the two free stretches is in no free run.
abbrev reserved_page : PageAllocationConstraint
reserved_page = record { min_address = 0x4000; max_address_exclusive = 0x5000 }

no_page : (allocate_within reserved_page booted).0 ≡ err out_of_memory
unfolding allocate_within
no_page = refl

-- A reservation splits the second run.
abbrev split_run : PhysicalPageAllocator
split_run = record booted {
  free_runs =
      record { start = 0x1000; count = 3 }
      ∷ (record { start = 0x1_0000; count = 2 } ∷ (record { start = 0x1_4000; count = 12 } ∷ []));
}

reservation : reserve_range 0x1_2800 0x1000 booted ≡ ok (2, split_run)
unfolding reserve_range
reservation = refl

reserve_range_lem_example : Reserves 0x1_2800 0x1000 2 booted split_run
reserve_range_lem_example =
    reserve_range_lem 0x1_2800 0x1000 2 booted split_run booted-IsWellFormed reservation

Reach-IsWellFormed_example :
    IsWellFormed split_run
    × ((x : ℕ) → holds split_run x ≡ true → usable_at x memory.regions ≡ true)
Reach-IsWellFormed_example =
    Reach-IsWellFormed 4 8 memory booted split_run memory_boots
      (next start (reserving 0x1_2800 0x1000 2 booted split_run reservation))

free_pages-bound_example : free_pages split_run ≤ 2 ^ 52
free_pages-bound_example =
    free_pages-bound split_run
      (reserve_range_lem 0x1_2800 0x1000 2 booted split_run booted-IsWellFormed reservation).0

-- A zeroer that counts its calls and always fails.
abbrev broken : ℕ → Method ℕ CoreErrorKind (Unit {0})
broken page calls = (err zeroing_failed, calls + 1)

abbrev first_taken : PhysicalPageAllocator
first_taken = record booted {
  free_runs = record { start = 0x2000; count = 2 } ∷ (record { start = 0x1_0000; count = 16 } ∷ []);
  allocated = 0x1000 ∷ [];
}

first_page : allocate booted ≡ (ok 0x1000, first_taken)
unfolding allocate_within
first_page = refl

allocate_zeroed-failed_example :
    allocate_zeroed broken (booted, 0) ≡ (err zeroing_failed, (booted, 1))
allocate_zeroed-failed_example =
    allocate_zeroed-failed broken booted first_taken 0 1 0x1000 zeroing_failed booted-IsWellFormed
      first_page refl
