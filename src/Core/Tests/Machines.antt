-- ===== src/Core/Tests/Machines.antt =====
-- VMs, the table of CPUs and the inventory of devices at concrete inputs.
use aegis_hv.Common.{ℕ, ◌≤◌, true, some, List, [], ◌∷◌, length, ◌≡◌, ◌⊎◌, refl, false}
use aegis_hv.Core.Vm.{VmState, configured, running, runnable, paused, stopped, Vm, new_vm}
use aegis_hv.Core.Vm.Life.{transitions, stage, has_ended, shutdown, life_lem}
use aegis_hv.Core.PerCpu.{PerCpuTable, new_table, online}
use aegis_hv.Core.PerCpu.Inv.{IsTable}
use aegis_hv.Core.PerCpu.Calls.{
  Call, reserves, attaches, goes_online, goes_offline, serve_calls, serve_calls-new_table,
}
use aegis_hv.Core.Pci.{PciBdf, PciDevice, new_device, PciInventory}

-- The second request is refused.
abbrev requests : List VmState
requests = configured ∷ (running ∷ (runnable ∷ (running ∷ (paused ∷ []))))

abbrev machine : Vm
machine = transitions requests (new_vm 7)

machine_pauses : machine.state ≡ paused
unfolding transitions
machine_pauses = refl

life_lem_example :
    (machine.id ≡ 7)
    × (0 ≤ stage machine.state)
    × (((has_ended machine.state ≡ true)
          × ((more : List VmState) → transitions more machine ≡ machine))
        ⊎ ((has_ended machine.state ≡ false)
            × (length (shutdown machine.state) ≤ 4)
            × (transitions (shutdown machine.state) machine ≡ record machine { state = stopped })))
life_lem_example = life_lem requests (new_vm 7)

-- A CPU goes online only after its ring is attached.
abbrev calls : List Call
calls =
    reserves 1 0x2000 0x4000
    ∷ (goes_online 1
        ∷ (attaches 1 0
            ∷ (goes_online 1
                ∷ (goes_offline 1 ∷ (goes_online 1 ∷ (reserves 1 0x8000 0x4000 ∷ []))))))

abbrev cpus : PerCpuTable
cpus = serve_calls calls (new_table 2)

cpu_is_online :
    cpus.slots
    ≡ record {
      cpu = 1;
      state = online;
      stack_base = 0x2000;
      stack_size = 0x4000;
      event_ring_index = some 0;
      scheduler_epoch = 3;
    }
      ∷ []
unfolding serve_calls
cpu_is_online = refl

serve_calls-new_table_example : IsTable cpus
serve_calls-new_table_example = serve_calls-new_table 2 calls

abbrev slot_of : ℕ → PciBdf
slot_of device = record { segment = 0; bus = 0; device = device; function = 0 }

abbrev disk : PciDevice
disk = new_device 1 (slot_of 3) 0x1af4 0x1001 0x1_0000

abbrev network : PciDevice
network = new_device 2 (slot_of 4) 0x1af4 0x1000 0x2_0000

abbrev one_device : PciInventory
one_device = record { capacity = 2; devices = disk ∷ [] }
