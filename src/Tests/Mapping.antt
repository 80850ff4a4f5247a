-- ===== src/Tests/Mapping.antt =====
-- The life of a page of each device: a file is opened and mapped, the program forks, one of the two
-- areas is faulted in.
use os2016spring.Base.{refl, true, false, none, some, [], ◌∷◌}
use os2016spring.Kernel.{Kernel}
use os2016spring.Mapping.{Area}
use os2016spring.Mapping.Life.{World, opens, maps, forks, faults, unmaps, act, Reach, loaded, next}
use os2016spring.Mapping.Sound.{Sound, Keeps}
use os2016spring.Master.Device as Master
use os2016spring.Slave.Device as Slave
use os2016spring.Master.Pages.{master-Sound, master-Keeps}
use os2016spring.Slave.Pages.{slave-Sound}
use os2016spring.Tests.Transfer.{delivering}

abbrev blank : Area
blank = record {
  vm_ops = false;
  dont_expand = false;
  dont_dump = false;
  vm_private_data = none;
  entries = 0;
}

-- The area that `mmap_mmap` leaves.
abbrev mapped : Area
mapped = record {
  vm_ops = true;
  dont_expand = true;
  dont_dump = true;
  vm_private_data = some 0;
  entries = 0;
}

-- The same with the page in its page table.
abbrev faulted : Area
faulted = record mapped { entries = 1 }

abbrev k : Kernel
k = delivering []

-- A file of the master device that is open, mapped, shared with a child and faulted in there.
abbrev master_shared : (w : World) × Reach Master.driver k w
unfolding act Master.master_open Master.mmap_mmap Master.mmap_open Master.mmap_fault
master_shared = (
  _,
  next (faults [] mapped (mapped ∷ []))
      (next (forks [] mapped [])
        (next (maps 0 blank) (next opens loaded (λ a e. refl) refl) (refl, refl) refl) refl refl)
      refl refl,
)

master-Sound_example : Sound master_shared.0
master-Sound_example = master-Sound master_shared.1

-- The child unmaps its area.
master-Keeps_example :
    Keeps k
      (unmaps [] faulted (mapped ∷ []))
      master_shared.0
      (act Master.driver k (unmaps [] faulted (mapped ∷ [])) master_shared.0)
unfolding master_shared
master-Keeps_example = master-Keeps (unmaps [] faulted (mapped ∷ [])) master_shared.1 refl

-- A file of the slave device that is open, mapped, shared with a child and faulted in there.
abbrev slave_shared : (w : World) × Reach Slave.driver k w
unfolding act Slave.slave_open Slave.mmap_mmap Slave.mmap_open Slave.mmap_fault
slave_shared = (
  _,
  next (faults [] mapped (mapped ∷ []))
      (next (forks [] mapped [])
        (next (maps 0 blank) (next opens loaded (λ a e. refl) refl) (refl, refl) refl) refl refl)
      refl refl,
)

slave-Sound_example : Sound slave_shared.0
slave-Sound_example = slave-Sound slave_shared.1
