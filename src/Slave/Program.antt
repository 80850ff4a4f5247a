-- ===== src/Slave/Program.antt =====
-- prj2/src/sample/user_program/slave.c: the program that writes what the device receives.
use os2016spring.Base.{
  ℕ, zero, suc, ◌+◌, ◌-◌, ◌%◌, ◌^◌, Bool, true, false, none, some, ◌&&◌, [], ◌∷◌, ◌++◌, ◌≡◌, refl,
  ◌==◌, length, take, drop, replicate, ltb, if◌then◌else◌,
}
use os2016spring.Kernel.{ℤ, pos, negsuc, minus_one, Bytes, Kernel}
use os2016spring.Mapping.{Opens, BothOpen}
use os2016spring.Slave.Device.{
  Device, MmapInfo, mmap_open, create_sock, mmap_receive, exit_sock, slave_ioctl, receive_msg,
}

-- The variables of `main`, and the bytes of the file that it writes. `offset` is an `int`, as its 32
-- bits: from 2^31 on it stands for a negative number.
pub record State : Type 0 where
  pub file : Bytes
  pub offset : ℕ
  pub file_size : ℕ
  pub info : MmapInfo
  pub device : Device

-- What the program has come to: it goes on, it has returned from `main`, or the fuel of a loop has
-- run out, which is no end of the program.
pub data Progress : Type 0 where
  going : State → Progress
  returned : ℤ → State → Progress
  out_of_fuel : Progress

-- `method[0]`
pub data Method : Type 0 where
  by_fcntl : Method
  by_mmap : Method
  no_method : Method

abbrev pub size_mod : ℕ
size_mod = 2 ^ 64

abbrev pub int_mod : ℕ
int_mod = 2 ^ 32

-- One round of method `f`, and whether `ret > 0`. A failed `read` makes `ret` the greatest
-- `size_t`; nothing of that size can be written.
unfoldable pub fcntl_round : Kernel → State → State × Bool
fcntl_round k s =
    let (d, bytes, ret) = receive_msg k s.device in
    elim ret [
      | pos n ↦ (
        record s { file = s.file ++ bytes; file_size = (s.file_size + n) % size_mod; device = d },
        ltb 0 n,
      )
      | negsuc _ ↦
          (record s { file_size = (s.file_size + (size_mod - 1)) % size_mod; device = d }, true)
    ]

unfoldable pub fcntl_loop : Kernel → (fuel : ℕ) → State → Progress
unfolding fcntl_round
fcntl_loop k zero s = out_of_fuel
fcntl_loop k (suc fuel) s =
    let (s', again) = fcntl_round k s in
    let more = fcntl_loop k fuel s' in if again then more else going s'

-- `lseek` to `len - 1` behind the end and a `write` of "0" there: the file grows by `len`.
unfoldable pub extend : ℕ → Bytes → Bytes
extend len file = file ++ (replicate (len - 1) 0 ++ 48 ∷ [])

-- `memcpy` to the mapping of the file at the offset.
unfoldable pub overwrite : ℕ → Bytes → Bytes → Bytes
overwrite offset bytes file = take offset file ++ (bytes ++ drop (offset + length bytes) file)

-- What follows the `ioctl` that has received `len` bytes, and whether the loop goes on: no file is
-- mapped from a negative offset.
unfoldable pub store : Kernel → ℕ → State → State × Bool
unfolding extend overwrite
store k len s =
    let grown = record s { file = extend len s.file } in
    if ltb s.offset (2 ^ 31) && k.mmap s.device.history len s.offset
    then (
      record grown {
        file = overwrite s.offset (take len s.info.page) grown.file;
        offset = (s.offset + len) % int_mod;
        file_size = (s.file_size + len) % size_mod;
      },
      true,
    )
    else (grown, false)

unfoldable pub mmap_loop : Kernel → (fuel : ℕ) → State → Progress
unfolding store
mmap_loop k zero s = out_of_fuel
mmap_loop k (suc fuel) s =
    let (info, d, ret) = slave_ioctl k mmap_receive s.info s.device in
    let s' = record s { info = info; device = d } in
    elim ret [
      | negsuc _ ↦ returned (pos 1) s'
      | pos zero ↦ going s'
      | pos (suc n) ↦
          let (s'', again) = store k (suc n) s' in
          let more = mmap_loop k fuel s'' in if again then more else going s''
    ]

-- The `switch`, for an object with a page. The `mmap` of the device calls `mmap_mmap`, where it does
-- not fail.
unfoldable pub transfer : Kernel → Method → (fuel : ℕ) → State → Progress
unfolding fcntl_loop mmap_loop
transfer k by_fcntl fuel s = fcntl_loop k fuel s
transfer k by_mmap fuel s =
    let copied = mmap_loop k fuel (record s { info = mmap_open s.info }) in
    if k.mmap_device s.device.history then copied else returned minus_one s
transfer k no_method fuel s = going s

-- Behind the loops: the connection is closed.
unfoldable pub close_up : Kernel → Progress → Progress
close_up k (going s) =
    let (info, d, ret) = slave_ioctl k exit_sock s.info s.device in
    let s' = record s { device = d } in
    elim ret [ negsuc _ ↦ returned (pos 1) s' | pos _ ↦ returned (pos 0) s' ]
close_up k (returned r s) = returned r s
close_up k out_of_fuel = out_of_fuel

-- `main`, from the connection to the master on, with the new file empty.
unfoldable pub main : Kernel → Method → (fuel : ℕ) → MmapInfo → Device → Progress
unfolding transfer close_up
main k method fuel info0 d0 =
    let (info, d, ret) = slave_ioctl k create_sock info0 d0 in
    let s : State = record { file = []; offset = 0; file_size = 0; info = info; device = d } in
    elim ret [ negsuc _ ↦ returned (pos 1) s | pos _ ↦ close_up k (transfer k method fuel s) ]

-- The character by which the `switch` goes: 'f', 'm' or another one.
unfoldable pub method_of : ℕ → Method
method_of c = if c == 102 then by_fcntl else if c == 109 then by_mmap else no_method

-- What has become of the program: it could not open the device or the file, or it is at work.
pub data Run : Type 0 where
  not_opened : ℤ → Device → Run
  opened : Progress → Run

-- The whole of `main`. The object is that of the device's `open`, which calls `slave_open`; to open
-- the file makes it empty.
unfoldable pub program : Opens → Kernel → (method : ℕ) → (fuel : ℕ) → Device → Run
unfolding main method_of
program o k c fuel d = elim o.device [
  | none ↦ not_opened (pos 1) d
  | some info ↦ if o.file then opened (main k (method_of c) fuel info d) else not_opened (pos 1) d
]

pub program-opened :
    (o : Opens) (k : Kernel) (c fuel : ℕ) (d : Device) (info : MmapInfo)
    → BothOpen o info
    → program o k c fuel d ≡ opened (main k (method_of c) fuel info d)
unfolding program
program-opened o k c fuel d info (device, _, file) = rw (device, file, program) refl
