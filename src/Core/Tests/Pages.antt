-- ===== src/Core/Tests/Pages.antt =====
-- Merging, splitting and the rings at concrete inputs.
use aegis_hv.Common.{
  ℕ, ◌+◌, true, false, none, some, List, [], ◌∷◌, length, ok, ◌≡◌, refl, arith, if◌then◌else◌, ◌==◌,
}
use aegis_hv.Core.Hugepage.{
  size_2m, size_1g, TranslationPermissions, is_wx, TranslationMapping, SplitPlan, InvalidationScope,
  plan_split, plan_merge, new_mapping,
}
use aegis_hv.Core.Hugepage.Runs.{translate, plan_merge-translate}
use aegis_hv.Core.Hugepage.RoundTrip.{pages, plan_merge-plan_split}
use aegis_hv.Core.Rings.{
  trap, vm_state, EventRing, push_lossy, new_event_ring, CommandRing, new_command_ring,
}
use aegis_hv.Core.Rings.Events.{contents, IsReady, event, pushed, push_lossy_lem}
use aegis_hv.Core.Rings.Numbers.{Consecutive, Use, pushes, pops, run_ring, run_ring-new}
use aegis_hv.Core.Rings.Commands.{IsOpen}

abbrev rw_only : TranslationPermissions
rw_only = record { read = true; write = true; execute = false }

abbrev large : TranslationMapping
large = record {
  guest_physical = 0x4000_0000;
  host_physical = 0x8000_0000;
  page_size = size_1g;
  permissions = rw_only;
}

abbrev plan : SplitPlan
plan = record {
  source = large;
  child_size = size_2m;
  child_count = 512;
  invalidation = InvalidationScope.range;
}

merged_again : plan_merge (pages size_2m rw_only 512 0x4000_0000 0x8000_0000) ≡ ok large
merged_again =
    plan_merge-plan_split large plan (unfold new_mapping in refl) (omega arith) (omega arith)
      (unfold plan_split in refl)

plan_merge-plan_split_example :
    plan_merge (pages size_2m rw_only 512 0x4000_0000 0x8000_0000) ≡ ok large
plan_merge-plan_split_example =
    plan_merge-plan_split large plan (unfold new_mapping in refl) (omega arith) (omega arith)
      (unfold plan_split in refl)

plan_merge-translate_example :
    ((g : ℕ)
      → translate g (large ∷ []) ≡ translate g (pages size_2m rw_only 512 0x4000_0000 0x8000_0000))
    × (is_wx rw_only ≡ false)
plan_merge-translate_example =
    plan_merge-translate (pages size_2m rw_only 512 0x4000_0000 0x8000_0000) large merged_again

abbrev two_slots : EventRing
two_slots = new_event_ring 2

two_slots-IsReady : IsReady two_slots
two_slots-IsReady = record { placed = omega arith; fits = omega arith }

push_lossy_lem_example :
    let (result, r') = push_lossy trap (some 1) none 7 8 two_slots in
    let e = event trap (some 1) none 7 8 two_slots in
    (result ≡ ok e)
    × IsReady r'
    × (contents r' ≡ pushed e two_slots)
    × (r'.next_sequence ≡ 2)
    × (r'.dropped ≡ (if 0 == 2 then 1 else 0))
    × (r'.len ≡ (if 0 == 2 then 0 else 1))
push_lossy_lem_example =
    push_lossy_lem trap (some 1) none 7 8 two_slots two_slots-IsReady (omega arith)

abbrev one_event : EventRing
one_event = (push_lossy trap (some 1) none 7 8 two_slots).1

one_event-IsReady : IsReady one_event
unfolding push_lossy
one_event-IsReady = record { placed = omega arith; fits = omega arith }

-- Three events into two slots, and one out again.
abbrev uses : List Use
uses =
    pushes trap none none 1 0
    ∷ pushes vm_state none none 2 0
    ∷ pushes trap none none 3 0
    ∷ pops
    ∷ []

run_ring-new_example :
    let (r, taken) = run_ring (two_slots, 0) uses in
    Consecutive (taken + r.dropped + 1) (contents r)
    × (length (contents r) ≡ r.len)
    × (taken + r.dropped + r.len + 1 ≡ r.next_sequence)
run_ring-new_example = run_ring-new 2 uses (omega arith)

abbrev orders : CommandRing
orders = new_command_ring 1

orders-IsOpen : IsOpen orders
orders-IsOpen = record { placed = omega arith; fits = omega arith }
