-- ===== src/Trap/Controller/Inv.antt =====
-- The controller's invariant: the table is sound, its mappings are as `Stage2Mapping::new` makes
-- them, and every trap stands on a mapped, aligned page of a named address space.
use aegis_hv.Common.{ℕ, true, false, some, ok, ◌≡◌, All, All-imp, inl, inr}
use aegis_hv.Common.BTreeMap.{get, insert, values, All-insert_entry, get-All_entry}
use aegis_hv.Common.Text.{Text, is_blank}
use aegis_hv.Trap.Stage2.{is_aligned, Stage2Mapping, Stage2Permissions, allows}
use aegis_hv.Trap.Table.{Stage2Table, lookup, set_permissions}
use aegis_hv.Trap.Table.Apart.{IsSound}
use aegis_hv.Trap.Table.Lookup.{
  set_permissions-cases, set_permissions-IsSound, set_permissions_lem, regrant, All-set_first,
}
use aegis_hv.Trap.Table.Tiles.{IsMade}
use aegis_hv.Trap.Traps.{TrapRecord, access, text_key}
use aegis_hv.Trap.Controller.{TrapController}

abbrev pub IsMapped : Stage2Table → Text → Text → ℕ → Type 0
IsMapped t o s g = (m : Stage2Mapping) × (lookup o s g t ≡ some m)

pub record IsPlaced (t : Stage2Table) (e : Text × TrapRecord) : Type 0 where
  pub named : e.0 ≡ e.1.id
  pub owned : is_blank e.1.owner_vm ≡ false
  pub spaced : is_blank e.1.address_space ≡ false
  pub aligned : is_aligned e.1.page_size e.1.page ≡ true
  pub guarded : allows e.1.trapped_permissions (access e.1.kind) ≡ false
  pub mapped : IsMapped t e.1.owner_vm e.1.address_space e.1.page

pub record Inv (c : TrapController) : Type 0 where
  pub sound : IsSound c.table
  pub made : All IsMade (values c.table.mappings)
  pub placed : All (IsPlaced c.table) c.traps

module _ (o s : Text) (g : ℕ) (p : Stage2Permissions) (t : Stage2Table) where
  set_permissions-IsMade :
      All IsMade (values t.mappings) → All IsMade (values (set_permissions o s g p t).1.mappings)
  set_permissions-IsMade h = elim (set_permissions-cases o s g p t) [
    | inl (_, e) ↦ rw e h
    | inr (_, _, e) ↦ rw e (
        All-set_first o s g p IsMade t.mappings
          (λ w v. record { aligned = v.aligned; owned = v.owned; placed = v.placed }) h)
  ]

  -- Setting permissions maps nothing and unmaps nothing.
  pub set_permissions-IsMapped :
      (o' s' : Text) (g' : ℕ)
      → IsSound t
      → IsMapped t o' s' g'
      → IsMapped (set_permissions o s g p t).1 o' s' g'
  set_permissions-IsMapped o' s' g' d (m, e) = elim (set_permissions_lem o s g p t d) [
    | inl (_, same) ↦ rw same (m, e)
    | inr (_, _, _, every) ↦ (regrant o s g p m, rw (every o' s' g', e))
  ]

  set_permissions-IsPlaced :
      IsSound t → (e : Text × TrapRecord) → IsPlaced t e → IsPlaced (set_permissions o s g p t).1 e
  set_permissions-IsPlaced d e v = record {
    named = v.named;
    owned = v.owned;
    spaced = v.spaced;
    aligned = v.aligned;
    guarded = v.guarded;
    mapped = set_permissions-IsMapped e.1.owner_vm e.1.address_space e.1.page d v.mapped;
  }

-- Any change of permissions keeps the invariant.
pub Inv-regrant :
    (o s : Text) (g : ℕ) (p : Stage2Permissions) (c : TrapController)
    → Inv c
    → Inv (record c { table = (set_permissions o s g p c.table).1 })
Inv-regrant o s g p c v = record {
  sound = set_permissions-IsSound o s g p c.table v.sound;
  made = set_permissions-IsMade o s g p c.table v.made;
  placed = All-imp (set_permissions-IsPlaced o s g p c.table v.sound) c.traps v.placed;
}

-- So does a new record at a key, if it is placed.
pub Inv-store :
    (id : Text) (trap : TrapRecord) (c : TrapController)
    → Inv c
    → IsPlaced c.table (id, trap)
    → Inv (record c { traps = insert id trap c.traps })
Inv-store id trap c v h = record {
  sound = v.sound;
  made = v.made;
  placed = All-insert_entry (IsPlaced c.table) id trap c.traps h v.placed;
}

pub get-IsPlaced :
    (id : Text) (trap : TrapRecord) (c : TrapController)
    → Inv c
    → get id c.traps ≡ some trap
    → IsPlaced c.table (id, trap)
get-IsPlaced id trap c v e = get-All_entry (IsPlaced c.table) id trap c.traps e v.placed

-- Permissions can be set wherever something is mapped.
pub set_permissions-IsOk :
    (o s : Text) (g : ℕ) (p : Stage2Permissions) (t : Stage2Table)
    → IsMapped t o s g
    → (old : Stage2Permissions) × ((set_permissions o s g p t).0 ≡ ok old)
set_permissions-IsOk o s g p t (m, e) = elim (set_permissions-cases o s g p t) [
  | inl (gone, _) ↦ absurd (cc (gone, e))
  | inr (m', _, done) ↦ (m'.permissions, rw done)
]
