-- ===== src/Core/Tests/Tables.antt =====
-- The bookkeeping of the hypervisor at concrete inputs.
use aegis_hv.Common.{
  ℕ, ◌≤◌, ◌<◌, some, List, [], ◌∷◌, if◌then◌else◌, ok, err, ◌≡◌, ◌↔◌, ◌⊎◌, refl, arith, All, Pairs,
}
use aegis_hv.Core.Errors.{overlap, capacity_exceeded}
use aegis_hv.Core.Ownership.{
  PageRange, vm, hypervisor, PageOwnershipTable, new_range, assign, owner_at,
  validate_guest_host_mapping,
}
use aegis_hv.Core.Ownership.Apart.{inside, IsSound}
use aegis_hv.Core.Ownership.Assign.{assign_lem, IsTaken}
use aegis_hv.Core.Ownership.Guests.{validate-owner_at}
use aegis_hv.Core.Memory.{MemoryRegionKind, usable, reserved, MemoryRegion, MemoryMap, from_entries}
use aegis_hv.Core.Memory.Sort.{Valid, Gap, at_kind}
use aegis_hv.Core.Memory.Merge.{from_entries_lem}

-- Two ranges, of the hypervisor and of the first VM.
abbrev owners : PageOwnershipTable
owners = record {
  capacity = 4;
  entries =
      record { range = record { start = 0; length = 0x2000 }; owner = hypervisor }
      ∷ record { range = record { start = 0x4000; length = 0x3000 }; owner = vm 1 }
      ∷ [];
}

owners-IsSound : IsSound owners
owners-IsSound = ((omega arith, omega arith), ((refl, tt), ((omega arith, omega arith), (tt, tt))))

abbrev gap : PageRange
gap = record { start = 0x2000; length = 0x1000 }

assign_lem_example :
    ((4 ≤ 2) × (assign gap (vm 2) owners ≡ (err capacity_exceeded, owners)))
    ⊎ ((2 < 4) × IsTaken gap owners × (assign gap (vm 2) owners ≡ (err overlap, owners)))
    ⊎ ((2 < 4)
        × (¬ IsTaken gap owners)
        × ((assign gap (vm 2) owners).0 ≡ ok tt)
        × IsSound (assign gap (vm 2) owners).1
        × ((a : ℕ)
            → owner_at a (assign gap (vm 2) owners).1
              ≡ (if inside gap a then ok (some (vm 2)) else owner_at a owners)))
assign_lem_example = assign_lem gap (vm 2) owners owners-IsSound (omega arith, omega arith)

validate-owner_at_example : (validate_guest_host_mapping 1 0x5000 0x2000 owners ≡ ok tt) ↔ (
    (new_range 0x5000 0x2000 ≡ ok (record { start = 0x5000; length = 0x2000 }))
    × ((a : ℕ) → 0x5000 ≤ a → a < 0x7000 → owner_at a owners ≡ ok (some (vm 1))))
validate-owner_at_example = validate-owner_at 1 0x5000 0x2000 owners owners-IsSound

abbrev firmware : List MemoryRegion
firmware =
    record { base = 0x3000; length = 0x1000; kind = reserved }
    ∷ record { base = 0x1000; length = 0x1000; kind = usable }
    ∷ record { base = 0; length = 0x1800; kind = usable }
    ∷ []

abbrev merged : MemoryMap
merged = record {
  capacity = 8;
  regions =
      record { base = 0; length = 0x2000; kind = usable }
      ∷ record { base = 0x3000; length = 0x1000; kind = reserved }
      ∷ [];
}

from_entries_lem_example :
    All Valid merged.regions
    × Pairs Gap merged.regions
    × ((a : ℕ) (k : MemoryRegionKind) → at_kind a k merged.regions ≡ at_kind a k firmware)
unfolding from_entries
from_entries_lem_example = from_entries_lem 8 firmware merged refl
