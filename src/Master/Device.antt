-- ===== src/Master/Device.antt =====
-- prj2/src/sample/master_device/master_device.c: the device that sends.
use os2016spring.Base.{
  ℕ, Bool, true, false, Option, none, some, ◌∷◌, length, take, replicate, ltb, ◌==◌, if◌then◌else◌,
}
pub use os2016spring.Mapping.{MmapInfo}
use os2016spring.Mapping.{Area, Driver}
use os2016spring.Kernel.{
  ℤ, increment, decrement, pos, negsuc, minus_one, minus_enomem, Bytes, page_size, AddrLimit,
  kernel_ds, Socket, Call, History, Kernel,
}

-- The static variables, the threads, and the calls so far: `current` is the thread that makes the
-- next call, `fs` the address limit of each. `overrun` is set where the device goes on behind the end
-- of a buffer of a page; what that reads or overwrites there is not modelled.
pub record Device : Type 0 where
  pub registered : Bool
  pub sockfd_srv : Socket
  pub sockfd_cli : Socket
  pub old_fs : AddrLimit
  pub current : ℕ
  pub fs : ℕ → AddrLimit
  pub overrun : Bool
  pub history : History

-- The new object as `master_open` leaves it, where `get_zeroed_page` answers a page or 0; `reference` is
-- as `kmalloc` has given it.
abbrev pub info_of : (page : Bool) → (reference : ℤ) → MmapInfo
info_of page reference = record {
  has_data = page;
  page = replicate page_size 0;
  reference = reference;
}

-- `master_open`: the address that `private_data` has from then on, and the object there; none where
-- NULL is written to, since the answer of `kmalloc` is not looked at.
unfoldable pub master_open : Kernel → History → Option (ℕ × MmapInfo) × History
master_open k h =
    let h' = Call.kmalloc ∷ h in
    elim (k.kmalloc h) [
      | none ↦ (none, h')
      | some a ↦
          if k.get_zeroed_page h'
          then (some (a, info_of true (k.left_in_reference h)), Call.get_zeroed_page a ∷ h')
          else (some (a, info_of false (k.left_in_reference h)), h')
    ]

-- `master_close` for the object at an address, and what is left there; `private_data` becomes NULL.
unfoldable pub master_close : (private_data : ℕ) → MmapInfo → History → Option MmapInfo × History
master_close a info h =
    (none, Call.kfree a ∷ Call.free_page (if info.has_data then some a else none) ∷ h)

-- `mmap_open`, `mmap_close`: the mappings of the page are counted.
unfoldable pub mmap_open : MmapInfo → MmapInfo
mmap_open info = record info { reference = increment info.reference }

unfoldable pub mmap_close : MmapInfo → MmapInfo
mmap_close info = record info { reference = decrement info.reference }

-- `mmap_fault` for the object at an address: whether `vmf->page` is set, and the answer.
unfoldable pub mmap_fault : (private_data : ℕ) → MmapInfo → History → Bool × ℤ × History
mmap_fault a info h =
    if info.has_data then (true, pos 0, Call.get_page a ∷ h) else (false, pos 0, h)

-- `mmap_mmap` for an open file, its `private_data` and the object there.
unfoldable pub mmap_mmap : (private_data : ℕ) → MmapInfo → Area → MmapInfo × Area × ℤ
unfolding mmap_open
mmap_mmap a info vma =
    let vma' = record vma {
      vm_ops = true;
      dont_expand = true;
      dont_dump = true;
      vm_private_data = some a;
    } in
    (mmap_open info, vma', pos 0)

-- The tables of operations: what the kernel calls for an open file and for an area.
abbrev pub driver : Driver
driver = record {
  open_file = master_open;
  release = master_close;
  mmap = mmap_mmap;
  vm_open = mmap_open;
  vm_close = mmap_close;
  vm_fault = mmap_fault;
}

-- `set_fs` in a thread.
abbrev pub set_limit : (thread : ℕ) → AddrLimit → (ℕ → AddrLimit) → ℕ → AddrLimit
set_limit thread limit fs other = if other == thread then limit else fs other

-- `kbind` and `klisten` of `master_init`.
unfoldable pub master_listen : Kernel → Device → Device × ℤ
master_listen k d =
    let bound = record d { history = Call.kbind d.sockfd_srv ∷ d.history } in
    let listening = record bound { history = Call.klisten d.sockfd_srv 10 ∷ bound.history } in
    if k.kbind d.history
    then (if k.klisten bound.history then (listening, pos 0) else (listening, minus_one))
    else (bound, minus_one)

-- `master_init`; a failed registration answers the negative result of `misc_register`.
unfoldable pub master_init : Kernel → Device → Device × ℤ
unfolding master_listen
master_init k d =
    let debug = Call.debugfs_create_file ∷ d.history in
    let sockets = Call.misc_register ∷ debug in
    let s = k.ksocket sockets in
    let opened = record d {
      registered = true;
      sockfd_srv = s;
      sockfd_cli = none;
      old_fs = d.fs d.current;
      fs = set_limit d.current kernel_ds d.fs;
      history = Call.ksocket ∷ sockets;
    } in
    if k.misc_register debug
    then elim s [ none ↦ (opened, minus_one) | some _ ↦ master_listen k opened ]
    else (record d { history = sockets }, negsuc (k.misc_code debug))

-- `master_exit`; `buffer` is NULL from first to last.
unfoldable pub master_exit : Kernel → Device → Device
master_exit k d =
    let h = Call.kclose d.sockfd_srv ∷ Call.misc_deregister ∷ d.history in
    if k.kclose (Call.misc_deregister ∷ d.history)
    then record d {
      registered = false;
      fs = set_limit d.current d.old_fs d.fs;
      history = Call.debugfs_remove ∷ h;
    }
    else record d { registered = false; history = h }

-- A buffer of a page is used up to this size.
abbrev pub reach : (size : ℕ) → Device → Device
reach size d = record d { overrun = if ltb page_size size then true else d.overrun }

-- The cases of `master_ioctl`; the last one prints a page table entry.
pub data Ioctl : Type 0 where
  create_sock : Ioctl
  mmap_send : (size : ℕ) → Ioctl
  exit_sock : Ioctl
  other : Ioctl

-- `ksend` of these bytes to the slave: its result is not looked at.
unfoldable pub send : Kernel → Bytes → Device → Device
send k bytes d = record d {
  history = Call.ksend d.sockfd_cli (take (k.ksend d.history bytes) bytes) ∷ d.history;
}

unfoldable pub master_ioctl : Kernel → MmapInfo → Ioctl → Device → Device × ℤ
unfolding send
master_ioctl k info create_sock d =
    let s = k.kaccept d.history in
    let accepted = record d { sockfd_cli = s; history = Call.kaccept d.sockfd_srv ∷ d.history } in
    elim s [ none ↦ (accepted, minus_one) | some _ ↦ (accepted, pos 0) ]
master_ioctl k info (mmap_send size) d = (send k (take size info.page) (reach size d), pos 0)
master_ioctl k info exit_sock d =
    let closed = record d { history = Call.kclose d.sockfd_cli ∷ d.history } in
    if k.kclose d.history then (closed, pos 0) else (closed, minus_one)
master_ioctl k info other d = (d, pos 0)

-- `send_msg`: a `write` to the device, by way of `msg`, which is a page long whatever the count. It
-- answers the count whatever `ksend` has taken.
unfoldable pub send_msg : Kernel → Bytes → Device → Device × ℤ
unfolding send
send_msg k buf d =
    let copied = reach (length buf) (record d { history = Call.copy_from_user ∷ d.history }) in
    if k.copy_from_user d.history
    then (send k buf copied, pos (length buf))
    else (copied, minus_enomem)
