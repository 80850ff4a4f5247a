-- ===== src/Tests/Slave.antt =====
-- The slave program on streams of one page and a short end, and of two short chunks.
use os2016spring.Base.{
  ℕ, ◌≡◌, refl, List, [], ◌∷◌, ◌++◌, All, length, length-replicate, replicate, arith,
}
use os2016spring.Kernel.{Bytes, page_size, kernel_ds, recv_error, Kernel}
use os2016spring.Slave.Device.{create_sock, exit_sock, mmap_receive}
use os2016spring.Slave.Program.{State, out_of_fuel, by_fcntl, by_mmap, transfer}
use os2016spring.Slave.Stream.{IsChunk}
use os2016spring.Slave.Rounds.{filler}
use os2016spring.Slave.Saves.{Saved, transfer_mmap-short}
use os2016spring.Slave.Whole.{Connects}
use os2016spring.Slave.Failing.{transfer_fcntl-loops}
use os2016spring.Slave.Limit.{serve, ioctl, read, serve-kernel_ds}
use os2016spring.Tests.Transfer.{
  delivering, delivering-Delivers, delivering-MapsFiles, slave_device, slave_page,
}

abbrev pub start : State
start = record { file = []; offset = 0; file_size = 0; info = slave_page; device = slave_device }

abbrev pub hello : Bytes
hello = 104 ∷ 101 ∷ 108 ∷ 108 ∷ 111 ∷ []

abbrev short_chunks : List Bytes
short_chunks = hello ∷ (33 ∷ []) ∷ []

short_chunks-IsChunk : All IsChunk short_chunks
short_chunks-IsChunk = ((omega arith, omega arith), ((omega arith, omega arith), tt))

abbrev pub page : Bytes
page = replicate page_size 33

abbrev pub page_and_more : List Bytes
page_and_more = page ∷ hello ∷ []

pub length-page : length page ≡ 4096
length-page = length-replicate {A = ℕ} 4096 33

pub page_and_more-IsChunk : All IsChunk page_and_more
page_and_more-IsChunk =
    ((omega (arith, length-page), omega (arith, length-page)), ((omega arith, omega arith), tt))

transfer_mmap-short_example :
    Saved (hello ++ filler 1) start (transfer (delivering short_chunks) by_mmap 3 start)
transfer_mmap-short_example =
    transfer_mmap-short (delivering short_chunks) (delivering-MapsFiles short_chunks) hello
      (33 ∷ []) [] (delivering-Delivers short_chunks short_chunks-IsChunk) 3 start refl refl refl
      (omega arith) (omega arith)

serve-kernel_ds_example :
    (serve
      (delivering page_and_more)
      (ioctl create_sock ∷ ioctl mmap_receive ∷ read ∷ ioctl exit_sock ∷ [])
      slave_page
      slave_device).fs
    ≡ kernel_ds
serve-kernel_ds_example =
    serve-kernel_ds (delivering page_and_more) (ioctl mmap_receive ∷ read ∷ ioctl exit_sock ∷ [])
      slave_page slave_device

-- A connection that has failed.
abbrev broken : Kernel
broken = record (delivering []) { krecv = λ _ _. recv_error 103 }

transfer_fcntl-loops_example : transfer broken by_fcntl 9 start ≡ out_of_fuel
transfer_fcntl-loops_example = transfer_fcntl-loops broken 103 (λ h. refl) 9 start

pub delivering-Connects : (chunks : List Bytes) → Connects (delivering chunks) slave_device 3
delivering-Connects chunks = record { address = refl; socket = refl; answered = refl }
