-- ===== src/Core/Allocator/Boot.antt =====
-- The free list that is made of a memory map.
use aegis_hv.Common.{
  ℕ, ◌+◌, ◌-◌, ◌*◌, ◌/◌, ◌<◌, ◌≤◌, Bool, false, ◌||◌, List, [], ◌∷◌, length, leb, if◌then◌else◌, ok,
  ◌>>=◌, ◌≡◌, refl, arith, Bool-cases, inl, inr, ap, >>=-eq-ok, subst, ◌∙◌,
}
use aegis_hv.Common.Word.{u64_mod, align_down}
use aegis_hv.Core.Memory.{MemoryRegion, MemoryMap, end, usable_regions}
use aegis_hv.Core.Allocator.{PhysicalPageAllocator, add_regions, from_memory_map}
use aegis_hv.Core.Allocator.FreeList.{PageRun, align_up, insert_free_run}
use aegis_hv.Core.Allocator.Runs.{in_run, covers, Ordered, IsRun}
use aegis_hv.Core.Allocator.Select.{align_up-eq}
use aegis_hv.Core.Allocator.Insert.{insert_free_run_lem}
use aegis_hv.Core.Allocator.Trim.{in_range}
use aegis_hv.Core.Allocator.Inv.{IsWellFormed}

-- The address lies in a page that the region holds from end to end.
abbrev whole : MemoryRegion → ℕ → Bool
whole r x = in_range ((r.base + 4095) / 4096 * 4096) ((r.base + r.length) / 4096 * 4096) x

unfoldable pub in_whole : ℕ → List MemoryRegion → Bool
in_whole x [] = false
in_whole x (r ∷ rs) = whole r x || in_whole x rs

-- Some usable region holds the whole page of the address.
abbrev pub usable_at : ℕ → List MemoryRegion → Bool
usable_at x rs = in_whole x (usable_regions rs)

-- The run of a region that holds a whole page, and that of one that does not.
run-whole :
    (r : MemoryRegion) (start stop x : ℕ)
    → start ≡ (r.base + 4095) / 4096 * 4096
    → stop ≡ (r.base + r.length) / 4096 * 4096
    → start < stop
    → in_run (record { start = start; count = (stop - start) / 4096 }) x ≡ whole r x
run-whole r start stop x e k some_pages =
    let sum : start + (stop - start) / 4096 * 4096 ≡ stop = omega arith in rw (sum, e, k) refl

no-whole :
    (r : MemoryRegion) (x : ℕ)
    → (r.base + r.length) / 4096 * 4096 ≤ (r.base + 4095) / 4096 * 4096
    → whole r x ≡ false
no-whole r x none_left = ground (arith, none_left)

end-eq :
    (r : MemoryRegion) {stop : ℕ} → end r ≡ ok stop → (stop ≡ r.base + r.length) × (stop < u64_mod)
unfolding end
end-eq r h = ground (arith, h)

or_swap : (b c d : Bool) → ((b || c) || d) ≡ (c || (b || d))
or_swap b c d = ground arith

-- What the loop over the regions leaves.
abbrev Loads : ℕ → List MemoryRegion → List PageRun → List PageRun → Type 0
Loads capacity regions runs out =
    Ordered 0 out
    × (length out ≤ capacity)
    × ((x : ℕ) → covers x out ≡ (covers x runs || in_whole x regions))

add_regions-step :
    (capacity start region_end : ℕ) (r : MemoryRegion) (rs : List MemoryRegion)
    (runs : List PageRun)
    → align_up r.base 4096 ≡ ok start
    → end r ≡ ok region_end
    → add_regions capacity (r ∷ rs) runs ≡ (
        let stop = align_down region_end 4096 in
        if leb stop start
        then add_regions capacity rs runs
        else (insert_free_run capacity
              (record { start = start; count = (stop - start) / 4096 })
              runs
            >>= add_regions capacity rs))
unfolding add_regions
add_regions-step capacity start region_end r rs runs e k = rw (e, k) refl

-- The bounds that one round computes.
region_bounds :
    (capacity : ℕ) (r : MemoryRegion) (rs : List MemoryRegion) (runs out : List PageRun)
    → add_regions capacity (r ∷ rs) runs ≡ ok out
    → (start : ℕ) × (align_up r.base 4096 ≡ ok start) × (region_end : ℕ) × (end r ≡ ok region_end)
unfolding add_regions
region_bounds capacity r rs runs out added =
    let (start, up, added') = >>=-eq-ok (align_up r.base 4096) _ added in
    let (region_end, k, _) = >>=-eq-ok (end r) _ added' in (start, up, region_end, k)

-- A region that adds no run.
pass :
    (x : ℕ) (r : MemoryRegion) (rs : List MemoryRegion) (runs out : List PageRun)
    → whole r x ≡ false
    → covers x out ≡ (covers x runs || in_whole x rs)
    → covers x out ≡ (covers x runs || in_whole x (r ∷ rs))
unfolding in_whole
pass x r rs runs out missed same = ground (arith, missed, same)

-- A region that adds the run.
load :
    (x : ℕ) (run : PageRun) (r : MemoryRegion) (rs : List MemoryRegion)
    (runs runs' out : List PageRun)
    → in_run run x ≡ whole r x
    → covers x runs' ≡ (in_run run x || covers x runs)
    → covers x out ≡ (covers x runs' || in_whole x rs)
    → covers x out ≡ (covers x runs || in_whole x (r ∷ rs))
unfolding in_whole
load x run r rs runs runs' out e k same =
    rw (same, k, e) (or_swap (whole r x) (covers x runs) (in_whole x rs))

add_regions_lem :
    (capacity : ℕ) (regions : List MemoryRegion) (runs out : List PageRun)
    → Ordered 0 runs
    → length runs ≤ capacity
    → add_regions capacity regions runs ≡ ok out
    → Loads capacity regions runs out
add_regions_lem capacity [] runs out h fits added =
    let e : runs ≡ out = unfold add_regions in ground (arith, added) in
    subst (Loads capacity [] runs) e (h, fits, λ x. unfold in_whole in ground arith)
add_regions_lem capacity (r ∷ rs) runs out h fits added =
    let (start, up, stop', k) = region_bounds capacity r rs runs out added in
    let ends = end-eq r k in
    let step = add_regions-step capacity start stop' r rs runs up k in
    let stop = align_down stop' 4096 in
    let up' = align_up-eq r.base up in
    let stop_e : stop ≡ (r.base + r.length) / 4096 * 4096 = ap (λ s. s / 4096 * 4096) ends.0 in
    elim (Bool-cases (leb stop start)) [
      | inl skipped ↦
          let added' : add_regions capacity rs runs ≡ ok out = rw (step, skipped) at added in
          let (ordered, few, cover) = add_regions_lem capacity rs runs out h fits added' in
          let none_left : (r.base + r.length) / 4096 * 4096 ≤ (r.base + 4095) / 4096 * 4096 =
            ground (arith, skipped, up', stop_e) in
          (ordered, few, λ x. pass x r rs runs out (no-whole r x none_left) (cover x))
      | inr taken ↦
          let run : PageRun = record { start = start; count = (stop - start) / 4096 } in
          let before : start < stop = ground (arith, taken) in
          let added' : (insert_free_run capacity run runs >>= add_regions capacity rs) ≡ ok out =
            rw (step, taken) at added in
          let (runs', inserted, rest) =
            >>=-eq-ok (insert_free_run capacity run runs) (add_regions capacity rs) added' in
          let is : IsRun run =
            (omega (arith, up', stop_e), omega (arith, up'), omega (arith, stop_e, up', ends.1)) in
          let (h', same, fits') = insert_free_run_lem capacity run runs runs' is h fits inserted in
          let (ordered, few, cover) = add_regions_lem capacity rs runs' out h' fits' rest in
          (
            ordered,
            few,
            λ x.
                load x run r rs runs runs' out (run-whole r start stop x up' stop_e before) (same x)
                  (cover x),
          )
    ]

-- An allocator that `from_memory_map` makes keeps the invariant and has handed out no page. An
-- address is free exactly if some usable region of the map holds its whole page.
pub from_memory_map_lem :
    (runs_capacity pages_capacity : ℕ) (map : MemoryMap) (a : PhysicalPageAllocator)
    → from_memory_map runs_capacity pages_capacity map ≡ ok a
    → IsWellFormed a
      × (a.allocated ≡ [])
      × ((x : ℕ) → covers x a.free_runs ≡ usable_at x map.regions)
unfolding from_memory_map
from_memory_map_lem runs_capacity pages_capacity map a made =
    let (runs, added, e) =
      >>=-eq-ok (add_regions runs_capacity (usable_regions map.regions) []) _ made in
    let (ordered, few, cover) =
      add_regions_lem runs_capacity (usable_regions map.regions) [] runs tt (omega arith) added in
    let fresh : PhysicalPageAllocator = record {
      runs_capacity = runs_capacity;
      pages_capacity = pages_capacity;
      free_runs = runs;
      allocated = [];
    } in
    let e' : fresh ≡ a = ground (arith, e) in
    subst
      (λ b.
        IsWellFormed b
        × (b.allocated ≡ [])
        × ((x : ℕ) → covers x b.free_runs ≡ usable_at x map.regions))
      e' ((ordered, few, omega arith, tt, tt), refl, λ x. cover x ∙ (unfold covers in refl))
