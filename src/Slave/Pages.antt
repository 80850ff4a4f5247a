-- ===== src/Slave/Pages.antt =====
-- The slave device shares its pages in the same way as the master device.
use os2016spring.Base.{◌≡◌, refl, subst}
use os2016spring.Kernel.{Kernel}
use os2016spring.Mapping.Life.{World, Act, act, Allowed, Reach}
use os2016spring.Mapping.Sound as Sharing
use os2016spring.Mapping.Sound.{Sound, Keeps, Shares}
use os2016spring.Master.Device as Master
use os2016spring.Master.Pages.{driver-Shares}
use os2016spring.Slave.Device.{
  driver, slave_open, slave_close, mmap_open, mmap_close, mmap_fault, mmap_mmap,
}

driver-master : Master.driver ≡ driver
unfolding slave_open slave_close mmap_open mmap_close mmap_fault mmap_mmap Master.master_open
    Master.master_close Master.mmap_open Master.mmap_close Master.mmap_fault Master.mmap_mmap
driver-master = refl

slave-Shares : Shares driver
slave-Shares = subst Shares driver-master driver-Shares

-- In every world that openings, mappings, forks, faults, unmappings and closings lead to from the
-- loading of the slave device, each object that `kmalloc` has given belongs to an open file; its
-- page, where it has one, is taken once for the object and once for each entry of a page table that
-- holds it, and where the object is freed, as often as it is given back; and each area has the
-- operations of the device and the bits of VM_RESERVED and points to an object that is not freed.
pub slave-Sound : {k : Kernel} {w : World} → Reach driver k w → Sound w
slave-Sound = Sharing.Reach-Sound slave-Shares

-- In every world that openings, mappings, forks, faults, unmappings and closings lead to from the
-- loading of the slave device, whatever of that the kernel does next where it may, the device uses
-- no pointer that is NULL or points to a freed object, unless a file is opened and there is no
-- memory.
pub slave-Keeps :
    {k : Kernel} {w : World} (c : Act)
    → Reach driver k w
    → Allowed k c w
    → Keeps k c w (act driver k c w)
slave-Keeps = Sharing.Reach-Keeps slave-Shares
