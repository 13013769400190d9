-- ===== src/Devices/Virtio.antt =====
-- crates/aegishv-devices/src/virtio_mmio.rs: the state of a virtio device. The array of its queues up
-- to `queue_len`, whose entries are all there, is a list, and its size `QUEUES` is the field
-- `capacity`.
pub mod Steps
pub mod Calls
use aegis_hv.Common.{
  ℕ, zero, suc, ◌+◌, ◌*◌, ◌/◌, ◌%◌, Bool, true, false, ◌&&◌, ◌||◌, not, List, [], ◌∷◌, ◌++◌, length,
  ltb, leb, ◌==◌, if◌then◌else◌, Result, ok, err, fail_if, ◌>>=◌, ◌>>◌, Method,
}
use aegis_hv.Common.Word.{is_power_of_two}
use aegis_hv.Devices.{DeviceErrorKind, invalid_queue, capacity_exceeded, permission_denied}

pub data DeviceStatus : Type 0 where
  reset acknowledge driver features_ok driver_ok failed : DeviceStatus

-- `status == DeviceStatus::Failed`
abbrev pub is_failed : DeviceStatus → Bool
is_failed failed = true
is_failed _ = false

abbrev pub is_reset : DeviceStatus → Bool
is_reset reset = true
is_reset _ = false

pub record QueueLayout : Type 0 where
  pub index : ℕ
  pub size : ℕ
  pub descriptor : ℕ
  pub driver : ℕ
  pub device : ℕ

-- `QueueLayout::new`
unfoldable pub new_layout : ℕ → ℕ → ℕ → ℕ → ℕ → Result QueueLayout DeviceErrorKind
unfolding is_power_of_two
new_layout index size descriptor driver_ring device = do
  fail_if (size == 0 || not (is_power_of_two 16 size)) invalid_queue
  fail_if (not (descriptor % 16 == 0) || not (driver_ring % 2 == 0) || not (device % 4 == 0))
      invalid_queue
  ok (record {
    index = index;
    size = size;
    descriptor = descriptor;
    driver = driver_ring;
    device = device;
  })

-- The bit `i` of a word.
unfoldable pub test_bit : ℕ → ℕ → Bool
test_bit zero a = a % 2 == 1
test_bit (suc i) a = test_bit i (a / 2)

abbrev pub bit : Bool → ℕ
bit true = 1
bit false = 0

-- `a & b` of words of so many bits.
unfoldable pub bit_and : ℕ → ℕ → ℕ → ℕ
bit_and zero a b = 0
bit_and (suc bits) a b = bit (a % 2 == 1 && b % 2 == 1) + 2 * bit_and bits (a / 2) (b / 2)

pub record FeatureNegotiation : Type 0 where
  pub device_features : ℕ
  pub driver_features : ℕ
  pub accepted_features : ℕ

unfoldable pub negotiate : ℕ → ℕ → FeatureNegotiation
unfolding bit_and
negotiate device_features driver_features = record {
  device_features = device_features;
  driver_features = driver_features;
  accepted_features = bit_and 64 device_features driver_features;
}

-- `FeatureNegotiation::contains`
unfoldable pub contains_feature : ℕ → FeatureNegotiation → Bool
unfolding test_bit
contains_feature i features = ltb i 64 && test_bit i features.accepted_features

pub record VirtioMmioDevice : Type 0 where
  pub device_id : ℕ
  pub vendor_id : ℕ
  pub status : DeviceStatus
  pub queues : List QueueLayout
  pub capacity : ℕ
  pub features : FeatureNegotiation

-- `VirtioMmioDevice::<QUEUES>::new`
abbrev pub new_device : ℕ → ℕ → ℕ → ℕ → VirtioMmioDevice
new_device capacity device_id vendor_id device_features = record {
  device_id = device_id;
  vendor_id = vendor_id;
  status = reset;
  queues = [];
  capacity = capacity;
  features = record {
    device_features = device_features;
    driver_features = 0;
    accepted_features = 0;
  };
}

unfoldable pub set_status : DeviceStatus → Method VirtioMmioDevice DeviceErrorKind (Unit {0})
set_status status d =
    if is_failed d.status && not (is_reset status)
    then (err permission_denied, d)
    else (ok tt, record d { status = status })

unfoldable pub negotiate_features : ℕ → VirtioMmioDevice → VirtioMmioDevice
unfolding negotiate
negotiate_features driver_features d = record d {
  features = negotiate d.features.device_features driver_features;
}

-- `any` of `add_queue`
unfoldable pub any_index : ℕ → List QueueLayout → Bool
any_index index [] = false
any_index index (queue ∷ queues) = queue.index == index || any_index index queues

unfoldable pub add_queue : QueueLayout → Method VirtioMmioDevice DeviceErrorKind (Unit {0})
unfolding any_index
add_queue queue d =
    if leb d.capacity (length d.queues)
    then (err capacity_exceeded, d)
    else if any_index queue.index d.queues
    then (err invalid_queue, d)
    else (ok tt, record d { queues = d.queues ++ (queue ∷ []) })
