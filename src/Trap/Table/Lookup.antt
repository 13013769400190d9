-- ===== src/Trap/Table/Lookup.antt =====
-- What `lookup` finds after `map` and after `set_permissions`.
use mathlib.Core.Option
use aegis_hv.Common.{
  ℕ, true, false, none, some, [], ◌∷◌, if◌then◌else◌, ok, err, ◌≡◌, refl, arith, All, inl, inr,
  Option-cases, ◌⊎◌,
}
use aegis_hv.Common.BTreeMap.{BTreeMap, values}
use aegis_hv.Common.Text.{Text}
use aegis_hv.Trap.Errors.{not_mapped}
use aegis_hv.Trap.Stage2.{Stage2Permissions, Stage2Mapping, end, contains}
use aegis_hv.Trap.Table.{
  MappingKey, Stage2Table, covers, find, lookup, map, set_first, set_permissions,
}
use aegis_hv.Trap.Table.Apart.{
  Fits, overlaps, Avoids, Sound, IsSound, Sound-insert, map-cases, covers-overlaps, find-insert,
}

-- `map` keeps the invariant, whether it accepts the mapping or not.
pub map-IsSound : (m : Stage2Mapping) (t : Stage2Table) → IsSound t → IsSound (map m t).1
map-IsSound m t s = elim (map-cases m t) [
  | inl (e, f, a) ↦ rw e (Sound-insert m t.mappings f a s)
  | inr (_, e) ↦ rw e s
]

-- An accepted mapping is found at every address that it covers, and nothing else changes.
pub lookup-map :
    (o s : Text) (g : ℕ) (m : Stage2Mapping) (t t' : Stage2Table)
    → IsSound t
    → map m t ≡ (ok tt, t')
    → lookup o s g t' ≡ (if covers o s g m then some m else lookup o s g t)
unfolding lookup
lookup-map o s g m t t' d h = elim (map-cases m t) [
  | inl (e, f, a) ↦ ground (arith, e, h, find-insert o s g m t.mappings f a d)
  | inr (_, e) ↦ absurd (cc (e, h))
]

-- The effect of `set_permissions` on one mapping.
abbrev pub regrant : Text → Text → ℕ → Stage2Permissions → Stage2Mapping → Stage2Mapping
regrant o s g p w = if covers o s g w then record w { permissions = p } else w

module _ (o s : Text) (g : ℕ) (p : Stage2Permissions) where
  pub All-set_first {κ} :
      (P : Stage2Mapping → Type κ) (ms : BTreeMap MappingKey Stage2Mapping)
      → ((w : Stage2Mapping) → P w → P (record w { permissions = p }))
      → All P (values ms)
      → All P (values (set_first (covers o s g) p ms))
  unfolding set_first
  All-set_first P [] keep h = tt
  All-set_first P ((k, w) ∷ ms) keep h = ground (arith, keep w h.0, All-set_first P ms keep h.1)

  Sound-set_first :
      (ms : BTreeMap MappingKey Stage2Mapping) → Sound ms → Sound (set_first (covers o s g) p ms)
  unfolding set_first overlaps
  Sound-set_first [] d = tt
  Sound-set_first ((k, w) ∷ ms) d =
      ground
        (arith, Sound-set_first ms d.3, All-set_first (λ x. overlaps w x ≡ false) ms (λ _ h. h) d.2)

  regrant_apart :
      (o' s' : Text) (g' : ℕ) (m : Stage2Mapping) (ms : BTreeMap MappingKey Stage2Mapping)
      → Fits m
      → covers o s g m ≡ true
      → Avoids m (values ms)
      → Sound ms
      → Option.map (regrant o s g p) (find (covers o' s' g') (values ms))
        ≡ find (covers o' s' g') (values ms)
  unfolding find
  regrant_apart o' s' g' m [] f c a d = refl
  regrant_apart o' s' g' m ((k, w) ∷ ms) f c a d =
      ground (arith, regrant_apart o' s' g' m ms f c a.1 d.3, covers-overlaps o s g m w f d.1 c)

  pub covers_regranted :
      (o' s' : Text) (g' : ℕ) (w : Stage2Mapping)
      → covers o' s' g' (record w { permissions = p }) ≡ covers o' s' g' w
  unfolding covers contains end
  covers_regranted o' s' g' w = refl

  find-set_first :
      (o' s' : Text) (g' : ℕ) (ms : BTreeMap MappingKey Stage2Mapping)
      → Sound ms
      → find (covers o' s' g') (values (set_first (covers o s g) p ms))
        ≡ Option.map (regrant o s g p) (find (covers o' s' g') (values ms))
  unfolding set_first find
  find-set_first o' s' g' [] d = refl
  find-set_first o' s' g' ((k, w) ∷ ms) d = ground (
    arith,
    find-set_first o' s' g' ms d.3,
    regrant_apart o' s' g' w ms d.1,
    covers_regranted o' s' g' w,
  )

  pub set_permissions-cases :
      (t : Stage2Table)
      → ((lookup o s g t ≡ none) × (set_permissions o s g p t ≡ (err not_mapped, t)))
        ⊎ ((m : Stage2Mapping) × (lookup o s g t ≡ some m)
            × (set_permissions o s g p t
                ≡ (ok m.permissions, record { mappings = set_first (covers o s g) p t.mappings })))
  unfolding set_permissions
  set_permissions-cases t = elim (Option-cases (lookup o s g t)) [
    | inl e ↦ inl (e, rw (e, set_permissions))
    | inr (m, e) ↦ inr (m, e, rw (e, set_permissions))
  ]

  -- `set_permissions` keeps the invariant.
  pub set_permissions-IsSound :
      (t : Stage2Table) → IsSound t → IsSound (set_permissions o s g p t).1
  set_permissions-IsSound t d = elim (set_permissions-cases t) [
    | inl (_, e) ↦ rw e d
    | inr (_, _, e) ↦ rw e (Sound-set_first t.mappings d)
  ]

  -- `set_permissions` fails where nothing is mapped, and then changes nothing. Otherwise it returns
  -- the old permissions of the mapping that covers the address, and every later lookup sees the
  -- new permissions on the mappings that cover it and no other change.
  pub set_permissions_lem :
      (t : Stage2Table)
      → IsSound t
      → ((lookup o s g t ≡ none) × (set_permissions o s g p t ≡ (err not_mapped, t)))
        ⊎ ((m : Stage2Mapping) × (lookup o s g t ≡ some m)
            × ((set_permissions o s g p t).0 ≡ ok m.permissions)
            × ((o' s' : Text) (g' : ℕ)
                → lookup o' s' g' (set_permissions o s g p t).1
                  ≡ Option.map (regrant o s g p) (lookup o' s' g' t)))
  unfolding lookup
  set_permissions_lem t d = elim (set_permissions-cases t) [
    | inl e ↦ inl e
    | inr (m, found, e) ↦
        inr (m, found, rw e, λ o' s' g'. rw e (find-set_first o' s' g' t.mappings d))
  ]
