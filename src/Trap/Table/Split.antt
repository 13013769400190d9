-- ===== src/Trap/Table/Split.antt =====
-- `Stage2Table::split` on every branch.
use aegis_hv.Common.{
  ℕ, ◌*◌, ◌%◌, ◌/◌, true, false, none, some, List, if◌then◌else◌, ok, err, ◌≡◌, refl, arith,
  All-imp, length, ◌∙◌,
}
use aegis_hv.Common.BTreeMap.{get, remove, values}
use aegis_hv.Common.Text.{Text}
use aegis_hv.Trap.Errors.{unsupported_capability}
use aegis_hv.Trap.Stage2.{
  PageSize, size_4k, size_2m, size_1g, bytes, is_aligned, align_down, is_child, split_count,
  Stage2Mapping,
}
use aegis_hv.Trap.Table.{key_of, mapping_key, Stage2Table, covers, lookup, split_loop, split}
use aegis_hv.Trap.Table.Tiles.{IsMade, meets, Clear, child, Tiles, split_loop-Tiles}
use aegis_hv.Trap.Table.Apart.{
  last, Fits, overlaps, Avoids, IsSound, contains_lem, get-Sound, find-remove, remove-Avoids,
  find-Avoids, Sound-remove,
}

child_sizes :
    (p q : PageSize) (b : ℕ)
    → is_child p q ≡ true
    → is_aligned p b ≡ true
    → (bytes p ≡ bytes p / bytes q * bytes q) × (b % bytes q ≡ 0)
child_sizes size_4k size_4k b h a = absurd (cc)
child_sizes size_4k size_2m b h a = absurd (cc)
child_sizes size_4k size_1g b h a = absurd (cc)
child_sizes size_2m size_4k b h a = ground arith
child_sizes size_2m size_2m b h a = absurd (cc)
child_sizes size_2m size_1g b h a = absurd (cc)
child_sizes size_1g size_4k b h a = absurd (cc)
child_sizes size_1g size_2m b h a = ground arith
child_sizes size_1g size_1g b h a = absurd (cc)

Clear-Avoids :
    (parent : Stage2Mapping) (t : Stage2Table)
    → Avoids parent (values t.mappings)
    → Clear parent parent.base (last parent) t
unfolding overlaps meets
Clear-Avoids parent t a = All-imp (λ w k. k) (values t.mappings) a

abbrev taken : Stage2Table → Stage2Mapping → Stage2Table
taken t parent = record { mappings = remove (key_of parent) t.mappings }

split-eq :
    (t : Stage2Table) (parent : Stage2Mapping) (target : PageSize)
    → get (key_of parent) t.mappings ≡ some parent
    → is_child parent.page_size target ≡ true
    → split parent.owner_vm parent.address_space parent.base target t
      ≡ split_loop
          (bytes parent.page_size / bytes target)
          parent
          parent.base
          target
          0
          (taken t parent)
unfolding split split_count
split-eq t parent target e c = rw (e, split, c, split_count)

lookup-taken :
    (t : Stage2Table) (parent : Stage2Mapping) (o s : Text) (g : ℕ)
    → IsSound t
    → Fits parent
    → get (key_of parent) t.mappings ≡ some parent
    → lookup o s g t ≡ (if covers o s g parent then some parent else lookup o s g (taken t parent))
unfolding lookup
lookup-taken t parent o s g d f e = find-remove (key_of parent) parent t.mappings o s g d e

-- A split into the next smaller size of a mapping that `Stage2Mapping::new` made succeeds. It
-- returns as many children as fill the parent, keeps the invariant, and afterwards every address
-- that the parent covered is covered by the child at the address rounded down, with the parent's
-- permissions and memory type; every other lookup is unchanged.
pub split_lem :
    (t : Stage2Table) (parent : Stage2Mapping) (target : PageSize)
    → IsSound t
    → get (key_of parent) t.mappings ≡ some parent
    → IsMade parent
    → is_child parent.page_size target ≡ true
    → let r = split parent.owner_vm parent.address_space parent.base target t in
      (children : List Stage2Mapping) × (r.0 ≡ ok children)
      × (length children ≡ bytes parent.page_size / bytes target)
      × IsSound r.1
      × ((o s : Text) (g : ℕ)
          → lookup o s g r.1 ≡ (
              if covers o s g parent
              then some (child parent target (align_down target g))
              else lookup o s g t))
unfolding covers
split_lem t parent target d e v c = rw (split-eq t parent target e c) (
  tiles.children,
  tiles.done,
  tiles.count,
  tiles.sound,
  λ o s g.
      tiles.found o s g
      ∙ ground (arith, lookup-taken t parent o s g d fits e, contains_lem parent g fits),
)
  where
    fits : Fits parent
    fits = (get-Sound (key_of parent) parent t.mappings d e).1

    sizes :
        (bytes parent.page_size ≡ bytes parent.page_size / bytes target * bytes target)
        × (parent.base % bytes target ≡ 0)
    sizes = child_sizes parent.page_size target parent.base c v.aligned

    tiles :
        Tiles parent target
          (bytes parent.page_size / bytes target)
          parent.base
          (last parent)
          (taken t parent)
          (split_loop
            (bytes parent.page_size / bytes target)
            parent
            parent.base
            target
            0
            (taken t parent))
    tiles =
        split_loop-Tiles parent parent.base target v (bytes parent.page_size / bytes target) 0
          parent.base (last parent) (taken t parent) (omega arith) (omega (arith, sizes.0)) fits
          sizes.1
          (Clear-Avoids parent (taken t parent)
            (remove-Avoids (key_of parent) parent t.mappings d e))
          (Sound-remove (key_of parent) t.mappings d)

-- A split into any other size fails, but the parent is gone: no address that it covered is mapped
-- any more.
pub split_loses :
    (t : Stage2Table) (parent : Stage2Mapping) (target : PageSize) (o s : Text) (g : ℕ)
    → IsSound t
    → get (key_of parent) t.mappings ≡ some parent
    → is_child parent.page_size target ≡ false
    → covers o s g parent ≡ true
    → let r = split parent.owner_vm parent.address_space parent.base target t in
      (r.0 ≡ err unsupported_capability)
      × (lookup o s g t ≡ some parent)
      × (lookup o s g r.1 ≡ none)
unfolding split split_count lookup
split_loses t parent target o s g d e c h =
    let (_, fits) = get-Sound (key_of parent) parent t.mappings d e in
    rw (e, split, c, split_count)
      (
        refl,
        ground (arith, lookup-taken t parent o s g d fits e),
        find-Avoids o s g parent (remove (key_of parent) t.mappings) fits
            (remove-Avoids (key_of parent) parent t.mappings d e)
            (Sound-remove (key_of parent) t.mappings d) h,
      )
