-- ===== src/Core/Pci.antt =====
-- crates/aegishv-hypervisor-core/src/pci.rs: PCI devices and the list of them. The array of an
-- inventory up to `len`, whose entries are all there, is a list, and its size `N` is the field
-- `capacity`. The index of a BAR is below 6, as `PciBar::new` checks.
pub mod Devices
use aegis_hv.Common.{
  ℕ, ◌+◌, Bool, true, false, ◌&&◌, ◌||◌, not, Option, none, some, List, [], ◌∷◌, ◌++◌, length,
  get_or, set, replicate, ltb, leb, ◌==◌, if◌then◌else◌, Result, ok, err, ok_or, fail_if, ◌>>=◌,
  ◌>>◌,
}
use aegis_hv.Common.Word.{checked_add}
use aegis_hv.Core.Errors.{
  CoreErrorKind, capacity_exceeded, invalid_argument, invalid_address, overlap,
}

pub record PciBdf : Type 0 where
  pub segment : ℕ
  pub bus : ℕ
  pub device : ℕ
  pub function : ℕ

-- `PciBdf::new`
unfoldable pub new_bdf : ℕ → ℕ → ℕ → ℕ → Result PciBdf CoreErrorKind
new_bdf segment bus device function = do
  fail_if (leb 32 device) invalid_argument
  fail_if (leb 8 function) invalid_argument
  ok (record { segment = segment; bus = bus; device = device; function = function })

abbrev pub bdf_eq : PciBdf → PciBdf → Bool
bdf_eq a b =
    a.segment == b.segment && a.bus == b.bus && a.device == b.device && a.function == b.function

pub data PciBarKind : Type 0 where
  memory32 memory64 io_port : PciBarKind

pub record PciBar : Type 0 where
  pub index : ℕ
  pub base : ℕ
  pub length : ℕ
  pub kind : PciBarKind
  pub prefetchable : Bool

-- `PciBar::new`
unfoldable pub new_bar : ℕ → ℕ → ℕ → PciBarKind → Bool → Result PciBar CoreErrorKind
new_bar index base length kind prefetchable = do
  fail_if (leb 6 index || length == 0) invalid_argument
  _ ← ok_or (checked_add base length) invalid_address
  ok (record {
    index = index;
    base = base;
    length = length;
    kind = kind;
    prefetchable = prefetchable;
  })

pub record MsiCapability : Type 0 where
  pub vectors : ℕ
  pub is_msix : Bool
  pub masked : Bool

-- `MsiCapability::new`
unfoldable pub new_msi : ℕ → Bool → Bool → Result MsiCapability CoreErrorKind
new_msi vectors is_msix masked = do
  fail_if (vectors == 0) invalid_argument
  ok (record { vectors = vectors; is_msix = is_msix; masked = masked })

pub record PciDevice : Type 0 where
  pub id : ℕ
  pub bdf : PciBdf
  pub vendor_id : ℕ
  pub device_id : ℕ
  pub class_code : ℕ
  pub bars : List (Option PciBar)
  pub msi : Option MsiCapability

-- `PciDevice::new`
abbrev pub new_device : ℕ → PciBdf → ℕ → ℕ → ℕ → PciDevice
new_device id bdf vendor_id device_id class_code = record {
  id = id;
  bdf = bdf;
  vendor_id = vendor_id;
  device_id = device_id;
  class_code = class_code;
  bars = replicate 6 none;
  msi = none;
}

unfoldable pub with_bar : PciBar → PciDevice → Result PciDevice CoreErrorKind
with_bar bar d = do
  fail_if (elim (get_or d.bars bar.index none) [ none ↦ false | some _ ↦ true ]) overlap
  ok (record d { bars = set d.bars bar.index (some bar) })

abbrev pub with_msi : MsiCapability → PciDevice → PciDevice
with_msi msi d = record d { msi = some msi }

pub record PciInventory : Type 0 where
  pub capacity : ℕ
  pub devices : List PciDevice

-- `PciInventory::new`
abbrev pub new_inventory : ℕ → PciInventory
new_inventory capacity = record { capacity = capacity; devices = [] }

unfoldable pub any_clash : PciDevice → List PciDevice → Bool
any_clash device [] = false
any_clash device (existing ∷ devices) =
    if bdf_eq existing.bdf device.bdf || existing.id == device.id
    then true
    else any_clash device devices

-- `PciInventory::add`
unfoldable pub add_device : PciDevice → PciInventory → Result PciInventory CoreErrorKind
unfolding any_clash
add_device device inventory = do
  fail_if (leb inventory.capacity (length inventory.devices)) capacity_exceeded
  fail_if (any_clash device inventory.devices) overlap
  ok (record inventory { devices = inventory.devices ++ (device ∷ []) })
