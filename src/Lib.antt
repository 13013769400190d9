-- ===== src/Lib.antt =====
-- A verification library for AegisHV: the trap engine that watches guest pages, its patterns, the
-- translation of guest addresses, the virtual devices, and the bookkeeping of the hypervisor's
-- core.
--
-- The program. A trap controller (src/trap/controller.rs) watches pages of guest memory. It holds a
-- table of stage-2 mappings (src/trap/stage2_model.rs, over the page sizes, permissions and
-- mappings of src/trap/stage2.rs), the traps by their id, a guard against trap storms
-- (src/trap/storm.rs) and a policy for JIT compilers (src/trap/jit.rs) whose rules are patterns
-- (src/pattern.rs). Arming a trap takes one kind of access away from the page's mapping; a hit is
-- counted by the guard, classified, and answered by opening the page for a step or by a denial;
-- re-arming and disabling set the permissions again. Each outcome carries the TLB invalidation that
-- the backend needs (src/trap/invalidation.rs); src/trap/singlestep.rs chooses how a step is taken.
-- Guest introspection translates the addresses of a guest: src/vmi_x86.rs walks the page tables of
-- an x86-64 guest, whose entries src/vmi/memory.rs reads (read_table_entry) from the memory that
-- the caller gives, and src/vmi_cache.rs remembers the results until they are invalidated. The
-- devices of a guest (crates/aegishv-devices/src) are a disk image (block.rs), a console
-- (console.rs), a network card under quarantine (net.rs) and the state that a virtio device keeps
-- (virtio_mmio.rs); they call nothing of the rest. The core (crates/aegishv-hypervisor-core/src)
-- stands beside all this and shares no state with it: who owns which pages of host memory
-- (ownership.rs), the firmware's memory map (memory.rs), the allocator of 4K pages that is made of
-- it (allocator.rs), splitting and merging of translation mappings (hugepage.rs), which vCPU waits,
-- runs or is halted (scheduler.rs), the life cycle of a VM (vm.rs), what is kept for each CPU
-- (percpu.rs), the PCI devices (pci.rs), and the rings through which events leave and commands
-- enter (abi.rs).
--
-- The files.
--   Common: Booleans, lists, results, machine words and their bits, texts as lists of code points,
--     BTreeMap as a list of entries in key order, with its laws.
--   Pattern: compile and is_match of src/pattern.rs; below it Matching (the greedy search) and
--     Alternatives.
--   Trap.Errors, Trap.Stage2, Trap.Table, Trap.Storm, Trap.Invalidation, Trap.SingleStep, Trap.Jit:
--     the files of src/trap/ named above; TrapErrorKind of src/trap/mod.rs is in Trap.Errors.
--   Trap.Traps, Trap.Controller: the types and the methods of src/trap/controller.rs.
--   Below a module stand its proofs: Table.Apart (the invariant: disjoint mappings), Table.Lookup,
--     Table.Tiles, Table.Split, Table.Unique, Storm.Window, Jit.Windows, Traps.Ids, Controller.Inv
--     (the controller's invariant), Controller.Effects (what each method does), Controller.States,
--     Controller.Arm, Controller.Runs (sequences of calls), Controller.Lapses. Trap.Tests holds
--     runs at concrete inputs.
--   Vmi.Errors, Vmi.X86, Vmi.Cache: src/vmi.rs with src/vmi/error.rs, src/vmi_x86.rs with
--     read_table_entry, and src/vmi_cache.rs. Below them: X86.Levels and X86.Same (the walk for two
--     addresses of one page), Cache.Keys (the equality tests), Cache.Laws (the search),
--     Cache.Insert, Cache.Invalidate, Cache.Walks and Cache.Coherent (the cache against the walk).
--     Vmi.Tests holds runs at concrete inputs.
--   Devices: the files of the devices named above, with error.rs; below them Block.Read,
--     Console.Fifo, Virtio.Steps and Virtio.Calls. Devices.Tests holds runs at concrete inputs.
--   Core.Errors, Core.Ids, Core.Ownership, Core.Memory, Core.Hugepage, Core.Rings, Core.Scheduler,
--     Core.Vm, Core.PerCpu, Core.Pci: the files of the core named above, with error.rs and ids.rs.
--     Below them: Ownership.Apart (the invariant), Ownership.Assign, Ownership.Guests, Memory.Sort,
--     Memory.Merge, Hugepage.Runs, Hugepage.RoundTrip, Rings.Events, Rings.Numbers, Rings.Commands,
--     Scheduler.Queue, Scheduler.Places, Scheduler.Once, Vm.Life, PerCpu.Inv, PerCpu.Calls,
--     Pci.Devices; Core.Window is the window of live entries that the rings share. Core.Allocator
--     is allocator.rs, with the free list in Allocator.FreeList; below it Runs (what the list
--     covers), Join and Insert, Take, Select, Trim, Counts, Pages (the allocated ones), Inv (the
--     invariant), Free, Reserve, Boot, Allocate, Reach (sequences of calls), Canonical, Fits,
--     RoundTrip and Bounds. Core.Tests holds runs at concrete inputs.
--
-- The model. A method with `&mut self` is a function of the state that returns its result and the
-- state it leaves, also when it fails. Errors keep their kind and lose their message; the names
-- that as_str methods return are kept only where the code uses them. Numbers are natural numbers:
-- an addition that the code checks has its bound written out (u64_max), a saturating one its
-- minimum, and the bounds of the other fields are not part of the types. The constructors of enums
-- and the fields of structs have the names of the source. The states Hit and Classifying, which
-- handle_hit sets one after the other, are set at once. Loops are recursions on lists; the loop of
-- validate_guest_host_mapping runs on the number of bytes, of which each round covers at least one;
-- the loop of Stage2Table::split runs on the number of children; the digits of {:#x} take 16
-- rounds, which 64-bit numbers do not exceed. An array with a length of its own is the list of its
-- live entries, with its size as a field, and while a memory map is filled it is kept from the last
-- entry to the first; the array of a ring is a list of as many slots as the ring has. The memory of
-- a guest is a parameter, a function that answers a read of 8 bytes as GuestMemoryReader does. A
-- mask of neighbouring bits is a quotient and a remainder, but for a mask whose width is a field of
-- the state. The walk of the page tables is one function for each level, which goes on to the next.
--
-- Not modelled: the collectors, detectors, actions, configuration, metrics and the command line
-- (the other files of src/ and src/detectors), the rest of guest introspection (the sources of
-- guest memory, the ARM walk, the snapshots, the profiles of guest kernels), the boot, kernel and
-- architecture crates, and the backends that would apply a TLB invalidation to hardware.
pub mod Common
pub mod Core
pub mod Devices
pub mod Pattern
pub mod Trap
pub mod Vmi
