-- ===== src/Slave/Device.antt =====
-- prj2/src/sample/slave_device/slave_device.c: the device that receives.
use os2016spring.Base.{
  ℕ, Bool, true, false, Option, none, some, [], ◌∷◌, ◌++◌, length, drop, replicate, if◌then◌else◌,
}
pub use os2016spring.Mapping.{MmapInfo}
use os2016spring.Mapping.{Area, Driver}
use os2016spring.Kernel.{
  ℤ, increment, decrement, pos, negsuc, minus_one, minus_enomem, Bytes, page_size, AddrLimit,
  kernel_ds, Socket, Call, History, received, recv_error, Kernel,
}

-- The static variables, the address limit of the thread, and the calls so far.
pub record Device : Type 0 where
  pub registered : Bool
  pub sockfd_cli : Socket
  pub old_fs : AddrLimit
  pub fs : AddrLimit
  pub history : History

-- The new object as `slave_open` leaves it, where `get_zeroed_page` answers a page or 0; `reference` is
-- as `kmalloc` has given it.
abbrev pub info_of : (page : Bool) → (reference : ℤ) → MmapInfo
info_of page reference = record {
  has_data = page;
  page = replicate page_size 0;
  reference = reference;
}

-- `slave_open`: the address that `private_data` has from then on, and the object there; none where
-- NULL is written to, since the answer of `kmalloc` is not looked at.
unfoldable pub slave_open : Kernel → History → Option (ℕ × MmapInfo) × History
slave_open k h =
    let h' = Call.kmalloc ∷ h in
    elim (k.kmalloc h) [
      | none ↦ (none, h')
      | some a ↦
          if k.get_zeroed_page h'
          then (some (a, info_of true (k.left_in_reference h)), Call.get_zeroed_page a ∷ h')
          else (some (a, info_of false (k.left_in_reference h)), h')
    ]

-- `slave_close` for the object at an address, and what is left there; `private_data` becomes NULL.
unfoldable pub slave_close : (private_data : ℕ) → MmapInfo → History → Option MmapInfo × History
slave_close a info h =
    (none, Call.kfree a ∷ Call.free_page (if info.has_data then some a else none) ∷ h)

-- `mmap_open`, `mmap_close`: the mappings of the page are counted.
unfoldable pub mmap_open : MmapInfo → MmapInfo
mmap_open info = record info { reference = increment info.reference }

unfoldable pub mmap_close : MmapInfo → MmapInfo
mmap_close info = record info { reference = decrement info.reference }

-- `mmap_fault` for the object at an address: whether `vmf->page` is set, and the answer.
unfoldable pub mmap_fault : (private_data : ℕ) → MmapInfo → History → Bool × ℤ × History
mmap_fault a info h =
    if info.has_data then (true, pos 0, Call.get_page a ∷ h) else (false, pos 0, h)

-- `mmap_mmap` for an open file, its `private_data` and the object there.
unfoldable pub mmap_mmap : (private_data : ℕ) → MmapInfo → Area → MmapInfo × Area × ℤ
unfolding mmap_open
mmap_mmap a info vma =
    let vma' = record vma {
      vm_ops = true;
      dont_expand = true;
      dont_dump = true;
      vm_private_data = some a;
    } in
    (mmap_open info, vma', pos 0)

-- The tables of operations: what the kernel calls for an open file and for an area.
abbrev pub driver : Driver
driver = record {
  open_file = slave_open;
  release = slave_close;
  mmap = mmap_mmap;
  vm_open = mmap_open;
  vm_close = mmap_close;
  vm_fault = mmap_fault;
}

-- `slave_init`; a failed registration answers the negative result of `misc_register`.
unfoldable pub slave_init : Kernel → Device → Device × ℤ
slave_init k d =
    let debug = Call.debugfs_create_file ∷ d.history in
    let h = Call.misc_register ∷ debug in
    if k.misc_register debug
    then (record d { registered = true; history = h }, pos 0)
    else (record d { history = h }, negsuc (k.misc_code debug))

-- `slave_exit`
unfoldable pub slave_exit : Device → Device
slave_exit d = record d {
  registered = false;
  history = Call.debugfs_remove ∷ Call.misc_deregister ∷ d.history;
}

-- The cases of `slave_ioctl`; the last one prints a page table entry.
pub data Ioctl : Type 0 where
  create_sock : Ioctl
  mmap_receive : Ioctl
  exit_sock : Ioctl
  other : Ioctl

-- What `slave_ioctl` does before it looks at the number.
unfoldable pub enter : Device → Device
enter d = record d { old_fs = d.fs; fs = kernel_ds }

-- `slave_IOCTL_CREATESOCK`, behind the copy of the address.
unfoldable pub connect : Kernel → Device → Device × ℤ
connect k d =
    let s = k.ksocket d.history in
    let opened = record d { sockfd_cli = s; history = Call.ksocket ∷ d.history } in
    let connected = record opened { history = Call.kconnect s ∷ opened.history } in
    elim s [
      | none ↦ (opened, minus_one)
      | some _ ↦ if k.kconnect opened.history then (connected, pos 0) else (connected, minus_one)
    ]

-- The bytes that are received stand at the front of the page.
unfoldable pub receive_into : Bytes → MmapInfo → MmapInfo
receive_into bytes info = record info { page = bytes ++ drop (length bytes) info.page }

unfoldable pub slave_ioctl : Kernel → Ioctl → MmapInfo → Device → MmapInfo × Device × ℤ
unfolding enter connect receive_into
slave_ioctl k create_sock info d0 =
    let d = enter d0 in
    let copied = record d { history = Call.copy_from_user ∷ d.history } in
    let (d', ret) = connect k copied in
    if k.copy_from_user d.history then (info, d', ret) else (info, copied, minus_enomem)
slave_ioctl k mmap_receive info d0 =
    let d = enter d0 in
    let d' = record d { history = Call.krecv d.sockfd_cli page_size ∷ d.history } in
    elim (k.krecv d.history page_size) [
      | received bytes ↦ (receive_into bytes info, d', pos (length bytes))
      | recv_error code ↦ (info, d', negsuc code)
    ]
slave_ioctl k exit_sock info d0 =
    let d = enter d0 in
    let closed = record d { history = Call.kclose d.sockfd_cli ∷ d.history } in
    if k.kclose d.history
    then (info, record closed { fs = closed.old_fs }, pos 0)
    else (info, closed, minus_one)
slave_ioctl k other info d0 = (info, enter d0, pos 0)

-- `receive_msg`: a `read` from the device; the bytes that reach the reader, and the answer. A
-- negative answer of `krecv` goes on as a length.
unfoldable pub receive_msg : Kernel → Device → Device × Bytes × ℤ
receive_msg k d =
    let d' = record d { history = Call.krecv d.sockfd_cli page_size ∷ d.history } in
    let d'' = record d' { history = Call.copy_to_user ∷ d'.history } in
    if k.copy_to_user d'.history
    then elim (k.krecv d.history page_size) [
      | received bytes ↦ (d'', bytes, pos (length bytes))
      | recv_error code ↦ (d'', [], negsuc code)
    ]
    else (d'', [], minus_enomem)
