-- ===== src/Devices/Virtio/Steps.antt =====
-- One call on a virtio device.
use aegis_hv.Common.{
  ◌≤◌, true, false, ◌&&◌, not, List, [], ◌∷◌, ◌++◌, length, leb, ◌==◌, ◌≡◌, ◌≢◌, refl, inl, inr,
  arith, All, Bool-cases, err, ◌<◌, ◌⊎◌, ok,
}
use aegis_hv.Devices.{capacity_exceeded, permission_denied, invalid_queue}
use aegis_hv.Devices.Virtio.{
  acknowledge, driver, features_ok, driver_ok, DeviceStatus, is_failed, is_reset, QueueLayout,
  VirtioMmioDevice, set_status, any_index, add_queue, failed, reset,
}

pub any_index-none :
    (queue : QueueLayout) (queues : List QueueLayout)
    → any_index queue.index queues ≡ false
    → All (λ a. a.index ≢ queue.index) queues
unfolding any_index
any_index-none queue [] h = tt
any_index-none queue (a ∷ queues) h = elim (Bool-cases (a.index == queue.index)) [
  | inl same ↦ absurd (ground (arith, rw (any_index, same) at h))
  | inr other ↦ (ground (arith, other), any_index-none queue queues (rw (any_index, other) at h))
]

pub set_status-features :
    (status : DeviceStatus) (d : VirtioMmioDevice) → (set_status status d).1.features ≡ d.features
unfolding set_status
set_status-features status d = elim (Bool-cases (is_failed d.status && not (is_reset status))) [
  | inl refused ↦ rw (set_status, refused) refl
  | inr done ↦ rw (set_status, done) refl
]

-- What adding the queue does to the device.
abbrev pub Adds : QueueLayout → VirtioMmioDevice → Type 0
Adds queue d =
    ((d.capacity ≤ length d.queues) × (add_queue queue d ≡ (err capacity_exceeded, d)))
    ⊎ ((length d.queues < d.capacity)
        × (¬ All (λ a. a.index ≢ queue.index) d.queues)
        × (add_queue queue d ≡ (err invalid_queue, d)))
    ⊎ ((length d.queues < d.capacity)
        × All (λ a. a.index ≢ queue.index) d.queues
        × (add_queue queue d ≡ (ok tt, record d { queues = d.queues ++ (queue ∷ []) })))

any_index-some :
    (queue : QueueLayout) (queues : List QueueLayout)
    → any_index queue.index queues ≡ true
    → ¬ All (λ a. a.index ≢ queue.index) queues
unfolding any_index
any_index-some queue [] h apart = ground (arith, h)
any_index-some queue (a ∷ queues) h apart = elim (Bool-cases (a.index == queue.index)) [
  | inl same ↦ apart.0 (ground (arith, same))
  | inr other ↦ any_index-some queue queues (rw (any_index, other) at h) apart.1
]

pub add_queue-Adds : (queue : QueueLayout) (d : VirtioMmioDevice) → Adds queue d
unfolding add_queue
add_queue-Adds queue d = elim (Bool-cases (leb d.capacity (length d.queues))) [
  | inl full ↦ inl (ground (arith, full), rw (add_queue, full) refl)
  | inr room ↦
      let space : length d.queues < d.capacity = ground (arith, room) in
      elim (Bool-cases (any_index queue.index d.queues)) [
        | inl taken ↦
            inr (inl (space, any_index-some queue d.queues taken, rw (add_queue, room, taken) refl))
        | inr free ↦
            inr (inr (space, any_index-none queue d.queues free, rw (add_queue, room, free) refl))
      ]
]

pub add_queue-features :
    (queue : QueueLayout) (d : VirtioMmioDevice) → (add_queue queue d).1.features ≡ d.features
add_queue-features queue d = elim (add_queue-Adds queue d) [
  | inl (_, same) ↦ rw same refl
  | inr rest ↦ elim rest [ inl (_, _, same) ↦ rw same refl | inr (_, _, after) ↦ rw after refl ]
]

-- What setting the status does to the device.
abbrev pub Sets : DeviceStatus → VirtioMmioDevice → Type 0
Sets status d =
    ((d.status ≡ failed) × (status ≢ reset) × (set_status status d ≡ (err permission_denied, d)))
    ⊎ (((d.status ≢ failed) ⊎ (status ≡ reset))
        × (set_status status d ≡ (ok tt, record d { status = status })))

status_cases :
    (a b : DeviceStatus)
    → ((a ≡ failed) × (b ≢ reset) × ((is_failed a && not (is_reset b)) ≡ true))
      ⊎ (((a ≢ failed) ⊎ (b ≡ reset)) × ((is_failed a && not (is_reset b)) ≡ false))
status_cases failed reset = inr (inr refl, refl)
status_cases failed acknowledge = inl (refl, λ e. ground (arith, e), refl)
status_cases failed driver = inl (refl, λ e. ground (arith, e), refl)
status_cases failed features_ok = inl (refl, λ e. ground (arith, e), refl)
status_cases failed driver_ok = inl (refl, λ e. ground (arith, e), refl)
status_cases failed failed = inl (refl, λ e. ground (arith, e), refl)
status_cases reset b = inr (inl (λ e. ground (arith, e)), refl)
status_cases acknowledge b = inr (inl (λ e. ground (arith, e)), refl)
status_cases driver b = inr (inl (λ e. ground (arith, e)), refl)
status_cases features_ok b = inr (inl (λ e. ground (arith, e)), refl)
status_cases driver_ok b = inr (inl (λ e. ground (arith, e)), refl)

pub set_status-Sets : (status : DeviceStatus) (d : VirtioMmioDevice) → Sets status d
unfolding set_status
set_status-Sets status d = elim (status_cases d.status status) [
  | inl (is, other, e) ↦ inl (is, other, rw (set_status, e) refl)
  | inr (may, e) ↦ inr (may, rw (set_status, e) refl)
]
