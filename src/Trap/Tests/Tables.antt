-- ===== src/Trap/Tests/Tables.antt =====
-- The stage-2 table and the storm guard at concrete inputs.
use aegis_hv.Common.{ℕ, none, some, List, [], ◌∷◌, ok, err, ◌≡◌, refl, arith, length, if◌then◌else◌}
use aegis_hv.Common.BTreeMap.{get, insert}
use aegis_hv.Common.Text.{Text, text_eq, text_lt}
use aegis_hv.Trap.Errors.{unsupported_capability, overlap}
use aegis_hv.Trap.Stage2.{size_4k, size_1g, align_down, Stage2Mapping, contains, end}
use aegis_hv.Trap.Storm.{TrapStormKey, TrapStormGuard, allow, throttle_fail_closed, storm_key}
use aegis_hv.Trap.Storm.Window.{observe_all, observe_all-fresh}
use aegis_hv.Trap.Table.{
  Stage2Table, key_of, key_eq, mapping_key, covers, lookup, map, reject_overlap, split, key_lt,
}
use aegis_hv.Trap.Table.Apart.{IsSound}
use aegis_hv.Trap.Table.Lookup.{lookup-map}
use aegis_hv.Trap.Table.Tiles.{child}
use aegis_hv.Trap.Table.Split.{split_lem, split_loses}
use aegis_hv.Trap.Tests.Data.{vm, space, huge, one_mapping, one_mapping-IsSound, huge-IsMade, guard}

abbrev next_page : Stage2Mapping
next_page = record huge { base = 0x40_0000; page_size = size_4k }

abbrev both : Stage2Table
both = record { mappings = (key_of huge, huge) ∷ (key_of next_page, next_page) ∷ [] }

map_runs : map next_page one_mapping ≡ (ok tt, both)
unfolding map reject_overlap text_eq key_eq end insert key_lt text_lt
map_runs = refl

map_refuses : (map (record next_page { base = 0x3f_f000 }) one_mapping).0 ≡ err overlap
unfolding map reject_overlap text_eq end
map_refuses = refl

lookup-map_example : lookup vm space 0x40_0123 both ≡ some next_page
unfolding covers text_eq contains
lookup-map_example =
    lookup-map vm space 0x40_0123 next_page one_mapping both one_mapping-IsSound map_runs

split_lem_example :
    let r = split vm space 0x20_0000 size_4k one_mapping in
    (children : List Stage2Mapping) × (r.0 ≡ ok children)
    × (length children ≡ 512)
    × IsSound r.1
    × ((o s : Text) (g : ℕ)
        → lookup o s g r.1 ≡ (
            if covers o s g huge
            then some (child huge size_4k (align_down size_4k g))
            else lookup o s g one_mapping))
unfolding key_eq text_eq get
split_lem_example = split_lem one_mapping huge size_4k one_mapping-IsSound refl huge-IsMade refl

split_loses_example :
    let r = split vm space 0x20_0000 size_1g one_mapping in
    (r.0 ≡ err unsupported_capability)
    × (lookup vm space 0x20_1000 one_mapping ≡ some huge)
    × (lookup vm space 0x20_1000 r.1 ≡ none)
unfolding key_eq text_eq covers contains get
split_loses_example =
    split_loses one_mapping huge size_1g vm space 0x20_1000 one_mapping-IsSound refl refl refl

abbrev key : TrapStormKey
key = record { owner_vm = vm; address_space = space; page = 0x20_0000; vcpu_id = some 0 }

abbrev other : TrapStormKey
other = record key { vcpu_id = some 1 }

observe_all-fresh_example :
    observe_all key (100 ∷ 101 ∷ 109 ∷ []) guard ≡ allow ∷ allow ∷ throttle_fail_closed ∷ []
unfolding get
observe_all-fresh_example =
    observe_all-fresh key 100 (101 ∷ 109 ∷ []) guard refl (omega arith) (omega arith) (omega arith)

abbrev busy : TrapStormGuard
busy = record guard { buckets = (key, record { window_start_ms = 100; hits = 5 }) ∷ [] }
