-- ===== src/Core/Memory.antt =====
-- crates/aegishv-hypervisor-core/src/memory.rs: the firmware's memory map, sorted and merged. While
-- the arrays are filled, the model keeps them from the last entry to the first.
pub mod Sort
pub mod Merge
use aegis_hv.Common.{
  ℕ, ◌-◌, Bool, true, false, ◌&&◌, not, Option, none, some, List, [], ◌∷◌, reverse, length, ltb,
  leb, ◌==◌, if◌then◌else◌, Result, ok, err, ok_or, fail_if, ◌>>=◌, ◌>>◌,
}
use aegis_hv.Common.Word.{checked_add}
use aegis_hv.Core.Errors.{CoreErrorKind, invalid_memory_map, capacity_exceeded, overlap}

pub data MemoryRegionKind : Type 0 where
  usable reserved mmio acpi bad : MemoryRegionKind

abbrev pub kind_eq : MemoryRegionKind → MemoryRegionKind → Bool
kind_eq usable usable = true
kind_eq reserved reserved = true
kind_eq mmio mmio = true
kind_eq acpi acpi = true
kind_eq bad bad = true
kind_eq _ _ = false

pub record MemoryRegion : Type 0 where
  pub base : ℕ
  pub length : ℕ
  pub kind : MemoryRegionKind

-- `MemoryRegion::end`
unfoldable pub end : MemoryRegion → Result ℕ CoreErrorKind
end r = ok_or (checked_add r.base r.length) invalid_memory_map

pub record MemoryMap : Type 0 where
  pub capacity : ℕ
  pub regions : List MemoryRegion

unfoldable pub validate_region : MemoryRegion → Result (Unit {0}) CoreErrorKind
unfolding end
validate_region region = do fail_if (region.length == 0) invalid_memory_map; _ ← end region; ok tt

-- The shifting loop of `insert_sorted`, from the last entry on.
unfoldable pub shift_in : MemoryRegion → List MemoryRegion → List MemoryRegion
shift_in region [] = region ∷ []
shift_in region (last ∷ rest) =
    if ltb region.base last.base then last ∷ shift_in region rest else region ∷ (last ∷ rest)

unfoldable pub insert_sorted :
    ℕ → MemoryRegion → List MemoryRegion → Result (List MemoryRegion) CoreErrorKind
unfolding shift_in
insert_sorted capacity region regions = do
  fail_if (leb capacity (length regions)) capacity_exceeded
  ok (shift_in region regions)

unfoldable pub merge_region :
    ℕ → MemoryRegion → List MemoryRegion → Result (List MemoryRegion) CoreErrorKind
unfolding end
merge_region capacity region [] = ok (region ∷ [])
merge_region capacity region (last ∷ rest) =
    let same = kind_eq region.kind last.kind in
    let joined : ℕ → Result (List MemoryRegion) CoreErrorKind = λ last_end. do
      region_end ← end region
      let merged_end = if ltb last_end region_end then region_end else last_end
      ok (record last { length = merged_end - last.base } ∷ rest)
    in let pushed : Result (List MemoryRegion) CoreErrorKind = do
      fail_if (leb capacity (length (last ∷ rest))) capacity_exceeded
      ok (region ∷ (last ∷ rest))
      in do
        last_end ← end last
        fail_if (ltb region.base last_end && not same) overlap
        if leb region.base last_end && same then joined last_end else pushed

-- The first loop of `from_entries`.
unfoldable pub sort_entries :
    ℕ → List MemoryRegion → List MemoryRegion → Result (List MemoryRegion) CoreErrorKind
unfolding validate_region insert_sorted
sort_entries capacity sorted [] = ok sorted
sort_entries capacity sorted (entry ∷ entries) = do
  validate_region entry
  sorted' ← insert_sorted capacity entry sorted
  sort_entries capacity sorted' entries

-- The second one.
unfoldable pub merge_entries :
    ℕ → List MemoryRegion → List MemoryRegion → Result (List MemoryRegion) CoreErrorKind
unfolding merge_region
merge_entries capacity merged [] = ok merged
merge_entries capacity merged (region ∷ regions) = do
  merged' ← merge_region capacity region merged
  merge_entries capacity merged' regions

-- `MemoryMap::from_entries`
unfoldable pub from_entries : ℕ → List MemoryRegion → Result MemoryMap CoreErrorKind
unfolding sort_entries merge_entries
from_entries capacity entries = do
  fail_if (ltb capacity (length entries)) capacity_exceeded
  sorted ← sort_entries capacity [] entries
  merged ← merge_entries capacity [] (reverse sorted)
  ok (record { capacity = capacity; regions = reverse merged })

-- `MemoryMap::usable_regions`
unfoldable pub usable_regions : List MemoryRegion → List MemoryRegion
usable_regions [] = []
usable_regions (r ∷ rs) = if kind_eq r.kind usable then r ∷ usable_regions rs else usable_regions rs
