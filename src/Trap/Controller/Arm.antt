-- ===== src/Trap/Controller/Arm.antt =====
-- Arming a trap, and taking it away again.
use mathlib.Core.Option
use aegis_hv.Common.{
  ℕ, true, false, none, some, Result, ok, err, ◌≡◌, refl, arith, Option-cases, Bool-cases, inl, inr,
  ◌⊎◌, ◌∙◌, bind-ok, ap, subst,
}
use aegis_hv.Common.BTreeMap.{insert, values, get-insert_self}
use aegis_hv.Common.Text.{Text, is_blank, text_eq_iff}
use aegis_hv.Trap.Errors.{TrapErrorKind, not_mapped}
use aegis_hv.Trap.Stage2.{
  align_down, Stage2Mapping, Stage2Permissions, TrapAccessKind, without_access, allows,
}
use aegis_hv.Trap.Table.{lookup, covers, set_permissions}
use aegis_hv.Trap.Table.Lookup.{regrant, set_permissions_lem, covers_regranted}
use aegis_hv.Trap.Table.Unique.{
  lookup-Fits, lookup-covers, lookup-covers_self, covers-page, find-All,
}
use aegis_hv.Trap.Table.Tiles.{IsMade}
use aegis_hv.Trap.Traps.{TrapKind, TrapRecord, access, armed, disabled, trap_id, text_key}
use aegis_hv.Trap.Controller.{
  TrapController, armed_record, arm_trap, disable, trap_state, store_trap, with_table,
}
use aegis_hv.Trap.Controller.Inv.{Inv, IsPlaced, Inv-regrant, Inv-store, set_permissions-IsMapped}
use aegis_hv.Trap.Controller.Effects.{opened, with_state, disable_lem}

allows-without :
    (p : Stage2Permissions) (a : TrapAccessKind) → allows (without_access p a) a ≡ false
unfolding allows without_access
allows-without p TrapAccessKind.read = refl
allows-without p TrapAccessKind.write = refl
allows-without p TrapAccessKind.execute = refl

-- Giving a mapping's own permissions back undoes the trap on it.
regrant_back :
    (o s : Text) (g : ℕ) (p : Stage2Permissions) (m w : Stage2Mapping)
    → (covers o s g w ≡ true → w ≡ m)
    → regrant o s g m.permissions (regrant o s g p w) ≡ w
regrant_back o s g p m w h = elim (Bool-cases (covers o s g w)) [
  | inl hit ↦
      rw (hit, covers_regranted o s g p o s g w, hit)
        (subst (λ x. record w { permissions = x.permissions } ≡ w) (h hit) refl)
  | inr miss ↦ rw (miss, miss)
]

module _ (o s : Text) (g : ℕ) (kind : TrapKind) (c : TrapController) (v : Inv c) (m : Stage2Mapping)
    (found : lookup o s g c.table ≡ some m) where
  -- The page, the record and the controller that arming a mapped address leads to.
  abbrev pub page : ℕ
  page = align_down m.page_size g

  abbrev pub trapped : Stage2Permissions
  trapped = without_access m.permissions (access kind)

  abbrev pub trap : TrapRecord
  trap = armed_record o s g kind m m.permissions

  abbrev pub after : TrapController
  after = record c {
    table = (set_permissions o s page trapped c.table).1;
    traps = insert trap.id trap c.traps;
  }

  pub m-IsMade : IsMade m
  unfolding lookup
  m-IsMade = find-All IsMade (covers o s g) m (values c.table.mappings) found v.made

  pub at_page : (page ≡ m.base) × (covers o s page m ≡ true)
  at_page =
      covers-page o s g m m-IsMade (lookup-Fits c.table v.sound o s g m found)
        (lookup-covers_self c.table v.sound o s g m found)

  pub lookup-page : lookup o s page c.table ≡ some m
  lookup-page = lookup-covers c.table v.sound o s o s g page m found at_page.1

  -- Every lookup afterwards sees the trapped permissions on the mappings that cover the page.
  pub arm-effect :
      ((set_permissions o s page trapped c.table).0 ≡ ok m.permissions)
      × ((o' s' : Text) (g' : ℕ)
          → lookup o' s' g' after.table
            ≡ Option.map (regrant o s page trapped) (lookup o' s' g' c.table))
  arm-effect = elim (set_permissions_lem o s page trapped c.table v.sound) [
    | inl (gone, _) ↦ absurd (cc (gone, lookup-page))
    | inr (m', e, done, every) ↦ (rw done (ground (arith, e, lookup-page)), every)
  ]

  -- The table after the page is trapped.
  abbrev covered : TrapController
  covered = record c { table = (set_permissions o s page trapped c.table).1 }

  pub arm_trap-eq : arm_trap o s g kind c ≡ (ok trap.id, after)
  unfolding arm_trap
  arm_trap-eq =
      rw (found, arm_trap)
        (bind-ok (with_table (set_permissions o s page trapped))
          (λ previous. store_trap (armed_record o s g kind m previous)) c {s' = covered}
          (ap (λ (r : Result Stage2Permissions TrapErrorKind). (r, covered)) arm-effect.0))

  owner_of_covers : (m.owner_vm ≡ o) × (m.address_space ≡ s)
  unfolding covers
  owner_of_covers =
      let c : covers o s page m ≡ true = at_page.1 in
      ground (arith, text_eq_iff m.owner_vm o, text_eq_iff m.address_space s, c)

  trap-IsPlaced : IsPlaced covered.table (trap.id, trap)
  trap-IsPlaced = record {
    named = refl;
    owned = subst (λ x. is_blank x ≡ false) owner_of_covers.0 m-IsMade.owned;
    spaced = subst (λ x. is_blank x ≡ false) owner_of_covers.1 m-IsMade.placed;
    aligned = rw at_page.0 m-IsMade.aligned;
    guarded = allows-without m.permissions (access kind);
    mapped = set_permissions-IsMapped o s page trapped c.table o s page v.sound (m, lookup-page);
  }

  pub after-Inv : Inv after
  after-Inv = Inv-store trap.id trap covered (Inv-regrant o s page trapped c v) trap-IsPlaced

  -- A mapping that covers the page is the trapped one.
  unique :
      (o' s' : Text) (g' : ℕ) (w : Stage2Mapping)
      → lookup o' s' g' c.table ≡ some w
      → covers o s page w ≡ true
      → w ≡ m
  unique o' s' g' w e h =
      let e' : lookup o s page c.table ≡ some w =
        lookup-covers c.table v.sound o' s' o s g' page w e h in
      cc (e', lookup-page)

  back :
      (o' s' : Text) (g' : ℕ)
      → Option.map
          (regrant o s page m.permissions)
          (Option.map (regrant o s page trapped) (lookup o' s' g' c.table))
        ≡ lookup o' s' g' c.table
  back o' s' g' = elim (Option-cases (lookup o' s' g' c.table)) [
    | inl e ↦ rw e
    | inr (w, e) ↦ rw e (ap some (regrant_back o s page trapped m w (unique o' s' g' w e)))
  ]

  disable-effect :
      (o' s' : Text) (g' : ℕ)
      → lookup o' s' g' (opened trap m.permissions after.table) ≡ lookup o' s' g' c.table
  disable-effect o' s' g' =
      elim (set_permissions_lem o s page m.permissions after.table after-Inv.sound) [
        | inl (gone, _) ↦ absurd (cc (gone, trap-IsPlaced.mapped.1))
        | inr (_, _, _, every) ↦
            every o' s' g'
            ∙ ap (Option.map (regrant o s page m.permissions)) (arm-effect.1 o' s' g')
            ∙ back o' s' g'
      ]

-- Arming a trap on an unmapped address fails and changes nothing. On a mapped one it succeeds and
-- keeps the invariant: the trap is armed, every mapping that covers its page loses the trapped
-- kind of access, and no other mapping changes.
pub arm_trap_lem :
    (o s : Text) (g : ℕ) (kind : TrapKind) (c : TrapController)
    → Inv c
    → ((lookup o s g c.table ≡ none) × (arm_trap o s g kind c ≡ (err not_mapped, c)))
      ⊎ ((m : Stage2Mapping) × (lookup o s g c.table ≡ some m)
          × (let page = align_down m.page_size g in
              let (r, c') = arm_trap o s g kind c in
              (r ≡ ok (trap_id o s page kind))
              × (trap_state (trap_id o s page kind) c' ≡ some armed)
              × Inv c'
              × (allows (without_access m.permissions (access kind)) (access kind) ≡ false)
              × ((o' s' : Text) (g' : ℕ)
                  → lookup o' s' g' c'.table
                    ≡ Option.map
                        (regrant o s page (without_access m.permissions (access kind)))
                        (lookup o' s' g' c.table))))
unfolding trap_state
arm_trap_lem o s g kind c v = elim (Option-cases (lookup o s g c.table)) [
  | inl e ↦ inl (e, unfold arm_trap in rw (e, arm_trap))
  | inr (m, e) ↦
      let trap' = trap o s g kind c v m e in
      inr (
        m,
        e,
        rw (arm_trap-eq o s g kind c v m e) (
          refl,
          rw (get-insert_self trap'.id trap' c.traps, trap_state),
          after-Inv o s g kind c v m e,
          allows-without m.permissions (access kind),
          (arm-effect o s g kind c v m e).1,
        ),
      )
]

-- Disabling a trap that was just armed succeeds and puts every lookup back as it was before.
pub disable-arm_trap :
    (o s : Text) (g : ℕ) (kind : TrapKind) (c : TrapController) (m : Stage2Mapping)
    → Inv c
    → lookup o s g c.table ≡ some m
    → let id = trap_id o s (align_down m.page_size g) kind in
      let (r, c') = disable id (arm_trap o s g kind c).1 in
      (r ≡ ok tt)
      × (trap_state id c' ≡ some disabled)
      × ((o' s' : Text) (g' : ℕ) → lookup o' s' g' c'.table ≡ lookup o' s' g' c.table)
unfolding trap_state
disable-arm_trap o s g kind c m v found =
    let trap' = trap o s g kind c v m found in
    let c' = after o s g kind c v m found in
    rw
      (
        arm_trap-eq o s g kind c v m found,
        disable_lem trap'.id trap' c' (after-Inv o s g kind c v m found)
            (get-insert_self trap'.id trap' c.traps),
      )
      (
        refl,
        rw (get-insert_self trap'.id (with_state trap' disabled) c'.traps, trap_state),
        disable-effect o s g kind c v m found,
      )
