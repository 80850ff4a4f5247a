-- ===== src/Master/Program.antt =====
-- prj2/src/sample/user_program/master.c: the program that reads the file and hands it to the device.
use os2016spring.Base.{
  ℕ, zero, suc, ◌+◌, ◌-◌, ◌++◌, none, some, ◌≡◌, refl, ◌==◌, length, take, drop, ltb, if◌then◌else◌,
}
use os2016spring.Kernel.{ℤ, pos, negsuc, minus_one, Bytes, page_size, Kernel}
use os2016spring.Mapping.{Opens, BothOpen}
use os2016spring.Master.Device.{
  Device, MmapInfo, mmap_open, create_sock, mmap_send, exit_sock, master_ioctl, send_msg,
}

-- What the program has come to: it goes on, it has returned from `main`, or the fuel of a loop has
-- run out, which is no end of the program.
pub data Progress : Type 0 where
  going : Device → Progress
  returned : ℤ → Device → Progress
  out_of_fuel : Progress

-- `method[0]`
pub data Method : Type 0 where
  by_fcntl : Method
  by_mmap : Method
  no_method : Method

-- The `do` loop of method `f`: a chunk of the file is read and written, up to one of length 0.
-- `read` of a regular file answers all that is left, at most the size of the buffer.
unfoldable pub fcntl_loop : Kernel → (fuel : ℕ) → (rest : Bytes) → Device → Progress
fcntl_loop k zero rest d = out_of_fuel
fcntl_loop k (suc fuel) rest d =
    let chunk = take page_size rest in
    let sent = (send_msg k chunk d).0 in
    let more = fcntl_loop k fuel (drop page_size rest) sent in
    if ltb 0 (length chunk) then more else going sent

-- `memcpy` to the front of the page of the device.
unfoldable pub copy_to_page : Bytes → MmapInfo → MmapInfo
copy_to_page bytes info = record info { page = bytes ++ drop (length bytes) info.page }

-- The next part of the file: what remains, at most a page.
unfoldable pub part_size : (remain : ℕ) → ℕ
part_size remain = if ltb remain page_size then remain else page_size

-- The `do` loop of method `m`.
unfoldable pub mmap_loop :
    Kernel → (fuel : ℕ) → (file : Bytes) → (offset remain : ℕ) → MmapInfo → Device → Progress
mmap_loop k zero file offset remain info d = out_of_fuel
mmap_loop k (suc fuel) file offset remain info d =
    let size = part_size remain in
    let info' = copy_to_page (take size (drop offset file)) info in
    let (sent, ret) = master_ioctl k info' (mmap_send size) d in
    let more = mmap_loop k fuel file (offset + size) (remain - size) info' sent in
    if k.mmap d.history size offset
    then elim ret [
      | negsuc _ ↦ returned (pos 1) sent
      | pos _ ↦ if ltb 0 (remain - size) then more else going sent
    ]
    else returned minus_one d

-- Behind the loops: the connection is closed.
unfoldable pub finish : Kernel → MmapInfo → Device → Progress
finish k info d =
    let (closed, ret) = master_ioctl k info exit_sock d in
    elim ret [ negsuc _ ↦ returned (pos 1) closed | pos _ ↦ returned (pos 0) closed ]

-- What follows the `switch`, where a loop has not returned.
unfoldable pub close_up : Kernel → MmapInfo → Progress → Progress
unfolding finish
close_up k info (going d) = finish k info d
close_up k info (returned r d) = returned r d
close_up k info out_of_fuel = out_of_fuel

-- The `switch`, for a file of these bytes and an object with a page. The `mmap` of the device calls
-- `mmap_mmap`, where it does not fail.
unfoldable pub transfer : Kernel → Method → Bytes → MmapInfo → Device → Progress
unfolding fcntl_loop mmap_loop part_size copy_to_page
transfer k by_fcntl file info d = fcntl_loop k (length file + 2) file d
transfer k by_mmap file info d =
    let copied = mmap_loop k (length file + 1) file 0 (length file) (mmap_open info) d in
    if k.mmap_device d.history then copied else returned minus_one d
transfer k no_method file info d = going d

-- `main`, from the creation of the socket on.
unfoldable pub main : Kernel → Method → Bytes → MmapInfo → Device → Progress
unfolding transfer close_up
main k method file info d =
    let (connected, ret) = master_ioctl k info create_sock d in
    elim ret [
      | negsuc _ ↦ returned (pos 1) connected
      | pos _ ↦ close_up k info (transfer k method file info connected)
    ]

-- The character by which the `switch` goes: 'f', 'm' or another one.
unfoldable pub method_of : ℕ → Method
method_of c = if c == 102 then by_fcntl else if c == 109 then by_mmap else no_method

-- The whole of `main`, for a file of these bytes. The object is that of the device's
-- `open`, which calls `master_open`. The test of
-- the answer of `get_filesize` never fails, since that is a `size_t`.
unfoldable pub program : Opens → Kernel → (method : ℕ) → Bytes → Device → Progress
unfolding main method_of
program o k c file d = elim o.device [
  | none ↦ returned (pos 1) d
  | some info ↦ if o.file then main k (method_of c) file info d else returned (pos 1) d
]

pub program-opened :
    (o : Opens) (k : Kernel) (c : ℕ) (file : Bytes) (d : Device) (info : MmapInfo)
    → BothOpen o info
    → program o k c file d ≡ main k (method_of c) file info d
unfolding program
program-opened o k c file d info (device, _, opened) = rw (device, opened, program) refl
