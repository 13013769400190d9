-- ===== src/Devices/Tests.antt =====
-- The devices at concrete inputs.
use aegis_hv.Common.{ℕ, true, false, some, none, List, [], ◌∷◌, ok, err, ◌≡◌, ◌⊎◌, refl, arith}
use aegis_hv.Devices.{unsupported, out_of_bounds, capacity_exceeded, invalid_queue}
use aegis_hv.Devices.Block.{BlockRequest, ReadOnlyBlockImage, new_image, read}
use aegis_hv.Devices.Block.Read.{IsInside, Copies, read_lem}
use aegis_hv.Devices.Console.{new_queue}
use aegis_hv.Devices.Console.Fifo.{
  Use, pushes, pops, Reply, pushed, popped, replies, list_replies, replies-new_queue,
}
use aegis_hv.Devices.Net.{
  up, down, quarantined, normal, guest_data, management, allow, drop_quarantined, drop_link_down,
  decide,
}
use aegis_hv.Devices.Virtio.{
  failed, driver, acknowledge, QueueLayout, new_layout, new_device, DeviceStatus,
}
use aegis_hv.Devices.Virtio.Steps.{Adds, Sets}
use aegis_hv.Devices.Virtio.Calls.{
  asked, Call, sets, negotiates, adds, serve_all, IsDevice, serve_all-new_device,
}

-- The image "aaaabbbb" in sectors of 4 bytes.
abbrev image : ReadOnlyBlockImage
image = record { bytes = 97 ∷ 97 ∷ 97 ∷ 97 ∷ 98 ∷ 98 ∷ 98 ∷ 98 ∷ []; sector_size = 4 }

abbrev second : BlockRequest
second = record { sector = 1; sector_count = 1; write = false }

image_is_aligned : new_image image.bytes 4 ≡ ok image
unfolding new_image
image_is_aligned = refl

image_too_short : new_image (1 ∷ 2 ∷ 3 ∷ []) 4 ≡ err out_of_bounds
unfolding new_image
image_too_short = refl

read_second :
    read image second (1 ∷ 2 ∷ 3 ∷ 4 ∷ 5 ∷ [])
    ≡ (ok (98 ∷ 98 ∷ 98 ∷ 98 ∷ []), 98 ∷ 98 ∷ 98 ∷ 98 ∷ 5 ∷ [])
unfolding read
read_second = refl

read_third :
    read image (record second { sector = 2 }) (1 ∷ 2 ∷ 3 ∷ 4 ∷ [])
    ≡ (err out_of_bounds, 1 ∷ 2 ∷ 3 ∷ 4 ∷ [])
unfolding read
read_third = refl

read_lem_example :
    ((second.write ≡ true)
      × (read image second (1 ∷ 2 ∷ 3 ∷ 4 ∷ 5 ∷ []) ≡ (err unsupported, 1 ∷ 2 ∷ 3 ∷ 4 ∷ 5 ∷ [])))
    ⊎ ((second.write ≡ false)
        × IsInside image second 5
        × Copies image second (1 ∷ 2 ∷ 3 ∷ 4 ∷ 5 ∷ []))
    ⊎ ((second.write ≡ false)
        × (¬ IsInside image second 5)
        × (read image second (1 ∷ 2 ∷ 3 ∷ 4 ∷ 5 ∷ [])
            ≡ (err out_of_bounds, 1 ∷ 2 ∷ 3 ∷ 4 ∷ 5 ∷ [])))
read_lem_example = read_lem image second (1 ∷ 2 ∷ 3 ∷ 4 ∷ 5 ∷ []) (omega arith)

-- The third byte is refused; after a pop there is room again.
abbrev bytes : List Use
bytes = pushes 97 ∷ pushes 98 ∷ pushes 99 ∷ pops ∷ pushes 100 ∷ pops ∷ pops ∷ pops ∷ []

abbrev answers : List Reply
answers =
    pushed (ok tt)
    ∷ pushed (ok tt)
    ∷ pushed (err capacity_exceeded)
    ∷ popped (some 97)
    ∷ pushed (ok tt)
    ∷ popped (some 98)
    ∷ popped (some 100)
    ∷ popped none
    ∷ []

console_answers : replies bytes (new_queue 2) ≡ answers
unfolding replies
console_answers = refl

replies-new_queue_example : replies bytes (new_queue 2) ≡ list_replies 2 bytes []
replies-new_queue_example = replies-new_queue 2 bytes

decide_quarantined :
    decide guest_data
      (record { link = up; quarantine = quarantined; allow_management_traffic = true })
    ≡ drop_quarantined
unfolding decide
decide_quarantined = refl

decide_management :
    decide management
      (record { link = up; quarantine = quarantined; allow_management_traffic = true })
    ≡ allow
unfolding decide
decide_management = refl

decide_down :
    decide management (record { link = down; quarantine = normal; allow_management_traffic = true })
    ≡ drop_link_down
unfolding decide
decide_down = refl

abbrev layout : ℕ → QueueLayout
layout index = record {
  index = index;
  size = 8;
  descriptor = 0x1000;
  driver = 0x2000;
  device = 0x3000;
}

layout_of_three : new_layout 0 3 0x1000 0x2000 0x3000 ≡ err invalid_queue
unfolding new_layout
layout_of_three = refl

-- The second queue has the index of the first one, and a failed device refuses the driver.
abbrev calls : List Call
calls =
    sets acknowledge
    ∷ negotiates 6
    ∷ adds (layout 0)
    ∷ adds (layout 0)
    ∷ sets failed
    ∷ sets driver
    ∷ []

calls_shared : (serve_all calls (new_device 2 3 1 11)).features.accepted_features ≡ 2
unfolding serve_all
calls_shared = refl

calls_once : (serve_all calls (new_device 2 3 1 11)).queues ≡ layout 0 ∷ []
unfolding serve_all
calls_once = refl

calls_failed : (serve_all calls (new_device 2 3 1 11)).status ≡ failed
unfolding serve_all
calls_failed = refl

serve_all-new_device_example :
    let d = serve_all calls (new_device 2 3 1 11) in
    IsDevice d
    × (d.features.device_features ≡ 11)
    × (d.features.driver_features ≡ 6)
    × ((queue : QueueLayout) → Adds queue d)
    × ((status : DeviceStatus) → Sets status d)
unfolding asked
serve_all-new_device_example = serve_all-new_device calls 2 3 1 11
