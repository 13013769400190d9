-- ===== src/Devices/Virtio/Calls.antt =====
-- Sequences of calls on a virtio device.
use aegis_hv.Common.{
  ℕ, zero, suc, ◌+◌, ◌*◌, ◌/◌, ◌%◌, ◌≤◌, Bool, true, false, ◌&&◌, not, List, [], ◌∷◌, length,
  length-append, ltb, leb, ◌==◌, ◌≡◌, ◌≢◌, refl, ap, ◌∙◌, inl, inr, arith, Pairs, Pairs-snoc,
  Bool-cases, subst,
}
use aegis_hv.Devices.Virtio.{
  DeviceStatus, is_failed, is_reset, QueueLayout, test_bit, bit, bit_and, FeatureNegotiation,
  negotiate, contains_feature, VirtioMmioDevice, new_device, set_status, negotiate_features,
  any_index, add_queue,
}
use aegis_hv.Devices.Virtio.Steps.{
  any_index-none, set_status-features, add_queue-features, Adds, Sets, add_queue-Adds,
  set_status-Sets,
}

pub data Call : Type 0 where
  sets : DeviceStatus → Call
  negotiates : ℕ → Call
  adds : QueueLayout → Call

unfoldable pub serve : Call → VirtioMmioDevice → VirtioMmioDevice
unfolding set_status negotiate_features add_queue
serve (sets status) d = (set_status status d).1
serve (negotiates features) d = negotiate_features features d
serve (adds queue) d = (add_queue queue d).1

unfoldable pub serve_all : List Call → VirtioMmioDevice → VirtioMmioDevice
unfolding serve
serve_all [] d = d
serve_all (call ∷ calls) d = serve_all calls (serve call d)

test_bit-zero : (i : ℕ) → test_bit i 0 ≡ false
unfolding test_bit
test_bit-zero zero = refl
test_bit-zero (suc i) = test_bit-zero i

halves : (b : Bool) (x : ℕ) → ((bit b + 2 * x) / 2 ≡ x) × (((bit b + 2 * x) % 2 == 1) ≡ b)
halves true x = (omega arith, ground arith)
halves false x = (omega arith, ground arith)

test_bit-bit_and :
    (bits i a b : ℕ) → test_bit i (bit_and bits a b) ≡ (ltb i bits && test_bit i a && test_bit i b)
unfolding test_bit bit_and
test_bit-bit_and zero i a b = test_bit-zero i ∙ ground arith
test_bit-bit_and (suc bits) zero a b =
    let low : ltb 0 (suc bits) ≡ true = ground arith in
    rw low ((halves (a % 2 == 1 && b % 2 == 1) (bit_and bits (a / 2) (b / 2))).1)
test_bit-bit_and (suc bits) (suc i) a b =
    let step : ltb (suc i) (suc bits) ≡ ltb i bits = ground arith in
    rw (step, (halves (a % 2 == 1 && b % 2 == 1) (bit_and bits (a / 2) (b / 2))).0)
      (test_bit-bit_and bits i (a / 2) (b / 2))

-- The device accepts the features that it shares with the driver.
abbrev pub AreShared : FeatureNegotiation → Type 0
AreShared f =
    (i : ℕ)
    → contains_feature i f
      ≡ (ltb i 64 && test_bit i f.device_features && test_bit i f.driver_features)

abbrev pub IsDevice : VirtioMmioDevice → Type 0
IsDevice d =
    (length d.queues ≤ d.capacity)
    × Pairs (λ a b. a.index ≢ b.index) d.queues
    × AreShared d.features

and_twice : (b c d : Bool) → (b && (b && c && d)) ≡ (b && c && d)
and_twice b c d = ground arith

negotiate-AreShared :
    (device_features driver_features : ℕ) → AreShared (negotiate device_features driver_features)
unfolding negotiate contains_feature
negotiate-AreShared device_features driver_features i =
    ap (λ b. ltb i 64 && b) (test_bit-bit_and 64 i device_features driver_features)
    ∙ and_twice (ltb i 64) (test_bit i device_features) (test_bit i driver_features)

add_queue-IsDevice :
    (queue : QueueLayout) (d : VirtioMmioDevice) → IsDevice d → IsDevice (add_queue queue d).1
unfolding add_queue
add_queue-IsDevice queue d h = elim (Bool-cases (leb d.capacity (length d.queues))) [
  | inl full ↦ rw (add_queue, full) h
  | inr room ↦ elim (Bool-cases (any_index queue.index d.queues)) [
    | inl taken ↦ rw (add_queue, room, taken) h
    | inr free ↦
        rw (add_queue, room, free)
          (
            ground (arith, length-append d.queues (queue ∷ []), room),
            Pairs-snoc (λ a b. a.index ≢ b.index) d.queues queue h.1
                (any_index-none queue d.queues free),
            h.2,
          )
  ]
]

set_status-IsDevice :
    (status : DeviceStatus) (d : VirtioMmioDevice) → IsDevice d → IsDevice (set_status status d).1
unfolding set_status
set_status-IsDevice status d h = elim (Bool-cases (is_failed d.status && not (is_reset status))) [
  | inl refused ↦ rw (set_status, refused) h
  | inr done ↦ rw (set_status, done) h
]

serve-IsDevice : (call : Call) (d : VirtioMmioDevice) → IsDevice d → IsDevice (serve call d)
unfolding serve negotiate_features
serve-IsDevice (sets status) d h = set_status-IsDevice status d h
serve-IsDevice (negotiates features) d h =
    (h.0, h.1, negotiate-AreShared d.features.device_features features)
serve-IsDevice (adds queue) d h = add_queue-IsDevice queue d h

serve_all-IsDevice :
    (calls : List Call) (d : VirtioMmioDevice) → IsDevice d → IsDevice (serve_all calls d)
unfolding serve_all
serve_all-IsDevice [] d h = h
serve_all-IsDevice (call ∷ calls) d h =
    serve_all-IsDevice calls (serve call d) (serve-IsDevice call d h)

none_shared : (b c : Bool) → (b && false) ≡ (b && c && false)
none_shared b c = ground arith

new_device-AreShared :
    (capacity device_id vendor_id features : ℕ)
    → AreShared (new_device capacity device_id vendor_id features).features
unfolding contains_feature
new_device-AreShared capacity device_id vendor_id features i =
    rw (test_bit-zero i) (none_shared (ltb i 64) (test_bit i features))

-- What the driver has asked for last.
unfoldable pub asked : ℕ → List Call → ℕ
asked features [] = features
asked features (sets status ∷ calls) = asked features calls
asked features (negotiates wanted ∷ calls) = asked wanted calls
asked features (adds queue ∷ calls) = asked features calls

-- The features that the device offers, and those that the driver has asked for.
abbrev AreFeatures : ℕ → ℕ → VirtioMmioDevice → Type 0
AreFeatures offered wanted d =
    (d.features.device_features ≡ offered) × (d.features.driver_features ≡ wanted)

serve_all-AreFeatures :
    (calls : List Call) (d : VirtioMmioDevice)
    → AreFeatures d.features.device_features
        (asked d.features.driver_features calls)
        (serve_all calls d)
unfolding serve_all serve asked negotiate_features negotiate
serve_all-AreFeatures [] d = (refl, refl)
serve_all-AreFeatures (sets status ∷ calls) d =
    subst
      (λ f.
        AreFeatures f.device_features (asked f.driver_features calls)
          (serve_all calls (set_status status d).1))
      (set_status-features status d) (serve_all-AreFeatures calls (set_status status d).1)
serve_all-AreFeatures (negotiates wanted ∷ calls) d =
    serve_all-AreFeatures calls (negotiate_features wanted d)
serve_all-AreFeatures (adds queue ∷ calls) d =
    subst
      (λ f.
        AreFeatures f.device_features (asked f.driver_features calls)
          (serve_all calls (add_queue queue d).1))
      (add_queue-features queue d) (serve_all-AreFeatures calls (add_queue queue d).1)

-- Whatever is set, negotiated and added, a device that was new has no more queues than it has room
-- for, no two of them with the same index. It still offers the features that it was made with,
-- holds those that the driver has asked for last, and accepts exactly the ones below bit 64 that
-- are among both. The next queue is refused if there is no room or if its index is in use, and is
-- added behind the others otherwise; the next status is refused if the device has failed and the
-- status is not a reset, and is set otherwise.
pub serve_all-new_device :
    (calls : List Call) (capacity device_id vendor_id features : ℕ)
    → let d = serve_all calls (new_device capacity device_id vendor_id features) in
      IsDevice d
      × (d.features.device_features ≡ features)
      × (d.features.driver_features ≡ asked 0 calls)
      × ((queue : QueueLayout) → Adds queue d)
      × ((status : DeviceStatus) → Sets status d)
serve_all-new_device calls capacity device_id vendor_id features =
    let new = new_device capacity device_id vendor_id features in
    let d = serve_all calls new in
    let (offers, wants) = serve_all-AreFeatures calls new in
    (
      serve_all-IsDevice calls new
          (omega arith, tt, new_device-AreShared capacity device_id vendor_id features),
      offers,
      wants,
      λ queue. add_queue-Adds queue d,
      λ status. set_status-Sets status d,
    )
