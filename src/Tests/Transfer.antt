-- ===== src/Tests/Transfer.antt =====
-- Kernels for the runs of the master and the slave: one whose calls all succeed, whose socket takes
-- whole messages and delivers the given chunks, and the devices before any call.
use os2016spring.Base.{
  ◌≡◌, ℕ, ◌<◌, ◌%◌, false, ltb, ◌==◌, ◌&&◌, arith, true, none, some, List, [], length, refl,
  replicate, All,
}
use os2016spring.Kernel.{pos, negsuc, Bytes, page_size, user_ds, received, Kernel, MapsFiles}
use os2016spring.Master.Sends.{Accepts}
use os2016spring.Slave.Stream.{receipts, chunk_at, IsChunk, Delivers}
use os2016spring.Master.Device as Master
use os2016spring.Slave.Device as Slave

abbrev pub delivering : List Bytes → Kernel
delivering chunks = record {
  kmalloc = λ _. some 0;
  left_in_reference = λ _. negsuc 6;
  get_zeroed_page = λ _. true;
  misc_register = λ _. true;
  misc_code = λ _. 0;
  ksocket = λ _. some 3;
  kbind = λ _. true;
  klisten = λ _. true;
  kaccept = λ _. some 4;
  kconnect = λ _. true;
  ksend = λ _ bytes. length bytes;
  krecv = λ h _. received (chunk_at chunks (receipts h));
  kclose = λ _. true;
  copy_from_user = λ _. true;
  copy_to_user = λ _. true;
  mmap_device = λ _. true;
  mmap = λ _ size offset. ltb 0 size && offset % 4096 == 0;
}

pub delivering-Accepts : (chunks : List Bytes) → Accepts (delivering chunks)
delivering-Accepts chunks = record { takes = λ h b. refl; copies = λ h. refl }

pub delivering-Delivers :
    (chunks : List Bytes) → All IsChunk chunks → Delivers (delivering chunks) chunks
delivering-Delivers chunks all = record {
  answers = λ h. refl;
  copies = λ h. refl;
  are_chunks = all;
}

maps_files :
    (size offset : ℕ) → 0 < size → offset % 4096 ≡ 0 → (ltb 0 size && offset % 4096 == 0) ≡ true
maps_files size offset h e = ground arith

refuses_off_page :
    (size offset : ℕ) → ¬ (offset % 4096 ≡ 0) → (ltb 0 size && offset % 4096 == 0) ≡ false
refuses_off_page size offset e = ground arith

pub delivering-MapsFiles : (chunks : List Bytes) → MapsFiles (delivering chunks)
delivering-MapsFiles chunks = record {
  maps = λ h size offset. maps_files size offset;
  maps_device = λ h. refl;
  refuses_empty = λ h offset. refl;
  refuses_off_page = λ h size offset. refuses_off_page size offset;
}

abbrev pub master_device : Master.Device
master_device = record {
  registered = true;
  sockfd_srv = some 3;
  sockfd_cli = none;
  old_fs = user_ds;
  current = 1;
  fs = λ _. user_ds;
  overrun = false;
  history = [];
}

abbrev pub slave_device : Slave.Device
slave_device = record {
  registered = true;
  sockfd_cli = none;
  old_fs = user_ds;
  fs = user_ds;
  history = [];
}

abbrev pub master_page : Master.MmapInfo
master_page = record { has_data = true; page = replicate page_size 0; reference = pos 0 }

abbrev pub slave_page : Slave.MmapInfo
slave_page = record { has_data = true; page = replicate page_size 0; reference = pos 0 }
