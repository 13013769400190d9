-- ===== src/Trap/Table/Tiles.antt =====
-- The loop of `Stage2Table::split`: the children tile their parent.
use aegis_hv.Common.{
  ℕ, zero, suc, ◌+◌, ◌*◌, ◌%◌, ◌<◌, ◌≤◌, Bool, true, false, ◌&&◌, some, List, [], ◌∷◌, ltb, leb,
  if◌then◌else◌, Result, ok, ◌≡◌, refl, arith, All, All-imp, length, subst, sym, ap, ◌∙◌,
}
use aegis_hv.Common.BTreeMap.{values, All-insert}
use aegis_hv.Common.Text.{Text, is_blank}
use aegis_hv.Common.Word.{u64_mod}
use aegis_hv.Trap.Errors.{TrapErrorKind}
use aegis_hv.Trap.Stage2.{
  PageSize, size_4k, size_2m, size_1g, bytes, is_aligned, align_down, Stage2Mapping, new_mapping,
}
use aegis_hv.Trap.Table.{
  key_of, mapping_key, Stage2Table, same_space, covers, lookup, add, child_of, split_loop,
}
use aegis_hv.Trap.Table.Apart.{
  last, Fits, overlaps, Avoids, IsSound, contains_lem, Sound-insert, find-insert, bytes_pos,
}

-- What `Stage2Mapping::new` checks.
pub record IsMade (m : Stage2Mapping) : Type 0 where
  pub aligned : is_aligned m.page_size m.base ≡ true
  pub owned : is_blank m.owner_vm ≡ false
  pub placed : is_blank m.address_space ≡ false

-- The child of `parent` at address `lo`.
abbrev pub child : Stage2Mapping → PageSize → ℕ → Stage2Mapping
child parent target lo = record parent { base = lo; page_size = target }

-- An entry has an address of the range in the parent's address space.
unfoldable pub meets : Stage2Mapping → ℕ → ℕ → Stage2Mapping → Bool
meets parent lo hi w =
    same_space parent w.owner_vm w.address_space && ltb lo (last w) && ltb w.base hi

abbrev pub in_range : Stage2Mapping → ℕ → ℕ → Text → Text → ℕ → Bool
in_range parent lo hi o s g = same_space parent o s && (leb lo g && ltb g hi)

abbrev pub Clear : Stage2Mapping → ℕ → ℕ → Stage2Table → Type 0
Clear parent lo hi t = All (λ w. meets parent lo hi w ≡ false) (values t.mappings)

child_of-ok :
    (parent : Stage2Mapping) (base : ℕ) (target : PageSize) (index : ℕ)
    → IsMade parent
    → (base + index * bytes target) % bytes target ≡ 0
    → child_of parent base target index ≡ ok (child parent target (base + index * bytes target))
unfolding new_mapping
child_of-ok parent base target index v h = ground arith

-- What the loop does with the children from `lo` up to `hi`.
pub record Tiles (parent : Stage2Mapping) (target : PageSize) (left lo hi : ℕ) (t : Stage2Table)
    (r : Result (List Stage2Mapping) TrapErrorKind × Stage2Table) : Type 0 where
  pub children : List Stage2Mapping
  pub done : r.0 ≡ ok children
  pub count : length children ≡ left
  pub sound : IsSound r.1
  pub found :
      (o s : Text) (g : ℕ)
      → lookup o s g r.1 ≡ (
          if in_range parent lo hi o s g
          then some (child parent target (align_down target g))
          else lookup o s g t)

pub align_down-child :
    (target : PageSize) (lo g : ℕ)
    → lo % bytes target ≡ 0
    → lo ≤ g
    → g < lo + bytes target
    → align_down target g ≡ lo
align_down-child size_4k lo g a h k = omega arith
align_down-child size_2m lo g a h k = omega arith
align_down-child size_1g lo g a h k = omega arith

pub aligned_next :
    (target : PageSize) (lo : ℕ) → lo % bytes target ≡ 0 → (lo + bytes target) % bytes target ≡ 0
aligned_next size_4k lo a = omega arith
aligned_next size_2m lo a = omega arith
aligned_next size_1g lo a = omega arith

child-Avoids :
    (parent : Stage2Mapping) (target : PageSize) (lo hi : ℕ) (t : Stage2Table)
    → lo + bytes target ≤ hi
    → Clear parent lo hi t
    → Avoids (child parent target lo) (values t.mappings)
unfolding meets overlaps
child-Avoids parent target lo hi t h c = All-imp (λ w k. ground arith) (values t.mappings) c

Clear-add :
    (parent : Stage2Mapping) (target : PageSize) (lo hi : ℕ) (t : Stage2Table)
    → lo + bytes target ≤ hi
    → Clear parent lo hi t
    → Clear parent (lo + bytes target) hi (add (child parent target lo) t)
unfolding meets
Clear-add parent target lo hi t h c =
    All-insert (λ w. meets parent (lo + bytes target) hi w ≡ false)
      (key_of (child parent target lo)) (child parent target lo) t.mappings (ground arith)
      (All-imp (λ w k. ground arith) (values t.mappings) c)

pub covers-child :
    (parent : Stage2Mapping) (target : PageSize) (lo : ℕ) (o s : Text) (g : ℕ)
    → Fits (child parent target lo)
    → covers o s g (child parent target lo) ≡ in_range parent lo (lo + bytes target) o s g
unfolding covers
covers-child parent target lo o s g f = rw (contains_lem (child parent target lo) g f)

pub lookup-add :
    (m : Stage2Mapping) (t : Stage2Table) (o s : Text) (g : ℕ)
    → Fits m
    → Avoids m (values t.mappings)
    → IsSound t
    → lookup o s g (add m t) ≡ (if covers o s g m then some m else lookup o s g t)
unfolding lookup
lookup-add m t o s g f a d = find-insert o s g m t.mappings f a d

-- One round of the loop.
pub tile_step :
    (parent : Stage2Mapping) (target : PageSize) (lo mid hi : ℕ) (t : Stage2Table) (o s : Text)
    (g : ℕ)
    → mid ≡ lo + bytes target
    → mid ≤ hi
    → hi < u64_mod
    → lo % bytes target ≡ 0
    → Clear parent lo hi t
    → IsSound t
    → (if in_range parent mid hi o s g
        then some (child parent target (align_down target g))
        else lookup o s g (add (child parent target lo) t))
      ≡ (if in_range parent lo hi o s g
          then some (child parent target (align_down target g))
          else lookup o s g t)
tile_step parent target lo mid hi t o s g e h f a c d =
    let fits : Fits (child parent target lo) = omega arith in
    let apart : Avoids (child parent target lo) (values t.mappings) =
      child-Avoids parent target lo hi t (omega arith) c in
    ground (
      arith,
      lookup-add (child parent target lo) t o s g fits apart d,
      covers-child parent target lo o s g fits,
      align_down-child target lo g a,
      bytes_pos target,
    )

module _ (parent : Stage2Mapping) (base : ℕ) (target : PageSize) (v : IsMade parent) where
  -- The child at `lo`, and the rest of the loop from `lo + bytes target` on.
  Tiles-cons :
      (left index lo hi : ℕ) (t : Stage2Table)
      → lo ≡ base + index * bytes target
      → lo + bytes target ≤ hi
      → hi < u64_mod
      → lo % bytes target ≡ 0
      → Clear parent lo hi t
      → IsSound t
      → Tiles parent target left
          (lo + bytes target)
          hi
          (add (child parent target lo) t)
          (split_loop left parent base target (index + 1) (add (child parent target lo) t))
      → Tiles parent target (suc left) lo hi t (split_loop (suc left) parent base target index t)
  unfolding split_loop
  Tiles-cons left index lo hi t e bound f a c d rest =
      rw (made, split_loop)
        (record {
          children = child parent target lo ∷ rest.children;
          done = rw rest.done;
          count = ap suc rest.count;
          sound = rest.sound;
          found = λ o s g.
              rest.found o s g ∙ tile_step parent target lo _ hi t o s g refl bound f a c d;
        })
    where
      made : child_of parent base target index ≡ ok (child parent target lo)
      made =
          subst (λ x. child_of parent base target index ≡ ok (child parent target x)) (sym e)
            (child_of-ok parent base target index v (rw (← e) a))

  pub split_loop-Tiles :
      (left index lo hi : ℕ) (t : Stage2Table)
      → lo ≡ base + index * bytes target
      → hi ≡ lo + left * bytes target
      → hi < u64_mod
      → lo % bytes target ≡ 0
      → Clear parent lo hi t
      → IsSound t
      → Tiles parent target left lo hi t (split_loop left parent base target index t)
  unfolding split_loop
  split_loop-Tiles zero index lo hi t e eh f a c d = record {
    children = [];
    done = refl;
    count = refl;
    sound = d;
    found = λ o s g. ground arith;
  }
  split_loop-Tiles (suc left) index lo hi t e eh f a c d =
      let bound : lo + bytes target ≤ hi = omega arith in
      Tiles-cons left index lo hi t e bound f a c d (
        split_loop-Tiles left (index + 1) (lo + bytes target) hi (add (child parent target lo) t)
          (omega arith) (omega arith) f (aligned_next target lo a)
          (Clear-add parent target lo hi t bound c)
          (Sound-insert (child parent target lo) t.mappings (omega arith)
            (child-Avoids parent target lo hi t bound c) d))
