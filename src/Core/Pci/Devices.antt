-- ===== src/Core/Pci/Devices.antt =====
-- The devices of an inventory have addresses and ids of their own.
use aegis_hv.Common.{
  ◌≤◌, ◌<◌, Bool, true, false, ◌||◌, List, [], ◌∷◌, ◌++◌, length, length-append, leb, ◌==◌, ok, err,
  ◌≡◌, ◌≢◌, ◌⊎◌, inl, inr, refl, arith, All, Pairs, Pairs-snoc, Bool-cases, subst,
}
use aegis_hv.Core.Errors.{capacity_exceeded, overlap}
use aegis_hv.Core.Pci.{PciBdf, bdf_eq, PciDevice, PciInventory, any_clash, add_device}

-- The two devices have neither their address nor their id in common.
abbrev pub AreApart : PciDevice → PciDevice → Type 0
AreApart a b = (a.bdf ≢ b.bdf) × (a.id ≢ b.id)

abbrev pub IsInventory : PciInventory → Type 0
IsInventory inventory =
    (length inventory.devices ≤ inventory.capacity) × Pairs AreApart inventory.devices

bdf_eq_refl : (a : PciBdf) → bdf_eq a a ≡ true
bdf_eq_refl a = ground arith

bdf_eq-eq : (a b : PciBdf) → bdf_eq a b ≡ true → a ≡ b
bdf_eq-eq a b h =
    let all : (a.segment ≡ b.segment)
        × (a.bus ≡ b.bus)
        × (a.device ≡ b.device)
        × (a.function ≡ b.function) =
      ground (arith, h) in
    λ i. record { segment = all.0 i; bus = all.1 i; device = all.2 i; function = all.3 i }

or_false : (b c : Bool) → (b || c) ≡ false → (b ≡ false) × (c ≡ false)
or_false b c h = ground arith

differ : {b : Bool} → b ≡ true → b ≡ false → ⊥
differ h k = ground (arith, h, k)

clash_not : (a b : PciDevice) → (bdf_eq a.bdf b.bdf || a.id == b.id) ≡ false → AreApart a b
clash_not a b h =
    let (no_address, no_id) = or_false (bdf_eq a.bdf b.bdf) (a.id == b.id) h in
    (
      λ e. differ (subst (λ c. bdf_eq a.bdf c ≡ true) e (bdf_eq_refl a.bdf)) no_address,
      ground (arith, no_id),
    )

clash : (a b : PciDevice) → (bdf_eq a.bdf b.bdf || a.id == b.id) ≡ true → AreApart a b → ⊥
clash a b h (address, id) = elim (Bool-cases (bdf_eq a.bdf b.bdf)) [
  | inl same ↦ address (bdf_eq-eq a.bdf b.bdf same)
  | inr other ↦ let same_id : (a.id == b.id) ≡ true = rw other at h in id (ground (arith, same_id))
]

-- The search for a clash finds one exactly if there is one.
any_clash-AreApart :
    (d : PciDevice) (devices : List PciDevice)
    → any_clash d devices ≡ false
    → All (λ e. AreApart e d) devices
unfolding any_clash
any_clash-AreApart d [] h = tt
any_clash-AreApart d (e ∷ devices) h = elim (Bool-cases (bdf_eq e.bdf d.bdf || e.id == d.id)) [
  | inl hit ↦ absurd (ground (arith, rw (hit, any_clash) at h))
  | inr miss ↦ (clash_not e d miss, any_clash-AreApart d devices (rw (miss, any_clash) at h))
]

any_clash-not :
    (d : PciDevice) (devices : List PciDevice)
    → any_clash d devices ≡ true
    → All (λ e. AreApart e d) devices
    → ⊥
unfolding any_clash
any_clash-not d [] h apart = ground (arith, h)
any_clash-not d (e ∷ devices) h apart = elim (Bool-cases (bdf_eq e.bdf d.bdf || e.id == d.id)) [
  | inl hit ↦ clash e d hit apart.0
  | inr miss ↦ any_clash-not d devices (rw (miss, any_clash) at h) apart.1
]

-- A full inventory refuses every device, and any inventory one that has its address or its id in
-- common with a device that is there. Every other device is added behind all others, and the
-- devices keep addresses and ids of their own.
pub add_device_lem :
    (d : PciDevice) (inventory : PciInventory)
    → IsInventory inventory
    → ((inventory.capacity ≤ length inventory.devices)
        × (add_device d inventory ≡ err capacity_exceeded))
      ⊎ ((¬ All (λ e. AreApart e d) inventory.devices) × (add_device d inventory ≡ err overlap))
      ⊎ ((after : PciInventory) × (add_device d inventory ≡ ok after)
          × (after.devices ≡ inventory.devices ++ (d ∷ []))
          × IsInventory after)
unfolding add_device
add_device_lem d inventory (few, apart) =
    elim (Bool-cases (leb inventory.capacity (length inventory.devices))) [
      | inl full ↦ inl (ground (arith, full), rw (full, add_device) refl)
      | inr room ↦ elim (Bool-cases (any_clash d inventory.devices)) [
        | inl hit ↦
            inr (inl (any_clash-not d inventory.devices hit, rw (room, hit, add_device) refl))
        | inr miss ↦
            let room' : length inventory.devices < inventory.capacity = ground (arith, room) in
            let fresh = any_clash-AreApart d inventory.devices miss in
            inr (
              inr (
                record inventory { devices = inventory.devices ++ (d ∷ []) },
                rw (room, miss, add_device) refl,
                refl,
                (
                  omega (arith, length-append inventory.devices (d ∷ []), room'),
                  Pairs-snoc AreApart inventory.devices d apart fresh,
                ),
              ))
      ]
    ]
