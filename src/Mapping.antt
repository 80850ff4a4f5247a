-- ===== src/Mapping.antt =====
-- The page that a program shares with a device, in master_device/master_device.c and
-- slave_device/slave_device.c of prj2/src/sample: the objects that both declare, the operations that
-- the kernel calls, and the life of open files and of the areas that map their page.
pub mod Life
pub mod Sound
use os2016spring.Base.{ℕ, ◌≡◌, Bool, true, Option, some}
use os2016spring.Kernel.{ℤ, Bytes, History, Kernel}

-- `struct mmap_info`: whether `data` is not NULL, and the bytes of the page there. Neither device sets
-- `reference` before it counts the mappings in it, and neither reads it.
pub record MmapInfo : Type 0 where
  pub has_data : Bool
  pub page : Bytes
  pub reference : ℤ

-- What the devices write of `struct vm_area_struct`: `vm_ops` becomes the table of the device, the
-- two bits of VM_RESERVED are set in `vm_flags`, `vm_private_data` points to an object or is NULL.
-- `entries` is the memory manager's: the entries of the page table that hold the page.
pub record Area : Type 0 where
  pub vm_ops : Bool
  pub dont_expand : Bool
  pub dont_dump : Bool
  pub vm_private_data : Option ℕ
  pub entries : ℕ

-- The two calls of `open` in a program: for the device the object that its `open` has made, or none
-- where it fails, and whether that for the file succeeds.
pub record Opens : Type 0 where
  pub device : Option MmapInfo
  pub file : Bool

-- Both succeed, and the object has a page.
abbrev pub BothOpen : Opens → MmapInfo → Type 0
BothOpen o info = (o.device ≡ some info) × (info.has_data ≡ true) × (o.file ≡ true)

-- The part of `struct file_operations` and `struct vm_operations_struct` that shares the page; an
-- object is given with its address.
pub record Driver : Type 0 where
  pub open_file : Kernel → History → Option (ℕ × MmapInfo) × History
  pub release : ℕ → MmapInfo → History → Option MmapInfo × History
  pub mmap : ℕ → MmapInfo → Area → MmapInfo × Area × ℤ
  pub vm_open : MmapInfo → MmapInfo
  pub vm_close : MmapInfo → MmapInfo
  pub vm_fault : ℕ → MmapInfo → History → Bool × ℤ × History
