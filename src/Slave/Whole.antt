-- ===== src/Slave/Whole.antt =====
-- A whole run of the slave program, from the connection to its closing.
use os2016spring.Base.{ℕ, ◌<◌, ◌≡◌, refl, true, some, List, [], ◌∷◌, length, arith}
use os2016spring.Kernel.{pos, Bytes, kernel_ds, Call, History, Kernel, MapsFiles}
use os2016spring.Slave.Device.{Device, MmapInfo, create_sock, connect, slave_ioctl}
use os2016spring.Slave.Program.{State, Progress, returned, by_fcntl, by_mmap, close_up, main}
use os2016spring.Slave.Stream.{receipts, joined, Delivers}
use os2016spring.Slave.Saves.{Saved, PageAligned, transfer_fcntl-Saved, transfer_mmap-Saved}

-- The program has returned 0, its file is this one, and the last call has closed the connection.
pub record Finished (file : Bytes) (p : Progress) : Type 0 where
  pub state : State
  pub before : History
  pub returns_0 : p ≡ returned (pos 0) state
  pub file_saved : state.file ≡ file
  pub closed : state.device.history ≡ Call.kclose state.device.sockfd_cli ∷ before

-- The device behind the connection.
abbrev connected : Device → ℕ → Device
connected d s = record d {
  sockfd_cli = some s;
  old_fs = d.fs;
  fs = kernel_ds;
  history = Call.kconnect (some s) ∷ Call.ksocket ∷ Call.copy_from_user ∷ d.history;
}

-- The address is copied, a socket is made and connected.
pub record Connects (k : Kernel) (d : Device) (s : ℕ) : Type 0 where
  pub address : k.copy_from_user d.history ≡ true
  pub socket : k.ksocket (Call.copy_from_user ∷ d.history) ≡ some s
  pub answered : k.kconnect (Call.ksocket ∷ Call.copy_from_user ∷ d.history) ≡ true

slave_ioctl-connect :
    (k : Kernel) (info : MmapInfo) (d : Device) (s : ℕ)
    → Connects k d s
    → slave_ioctl k create_sock info d ≡ (info, connected d s, pos 0)
unfolding slave_ioctl connect
slave_ioctl-connect k info d s c = rw (c.address, c.socket, connect, c.answered, c.socket)

module _ (k : Kernel) (closes : (h : History) → k.kclose h ≡ true) (chunks : List Bytes)
    (dl : Delivers k chunks) (info : MmapInfo) (d : Device) (s : ℕ) (c : Connects k d s)
    (none_yet : receipts d.history ≡ 0) (fuel : ℕ) (enough : length chunks < fuel) where
  -- The variables of `main` behind the connection.
  abbrev begun : State
  begun = record { file = []; offset = 0; file_size = 0; info = info; device = connected d s }

  close_up-Finished :
      (bytes : Bytes) (p : Progress) → Saved bytes begun p → Finished bytes (close_up k p)
  unfolding close_up slave_ioctl
  close_up-Finished bytes p saved =
      let e = saved.state in
      let last = closes e.device.history in
      let left : Device = record e.device {
        old_fs = e.device.fs;
        fs = e.device.fs;
        history = Call.kclose e.device.sockfd_cli ∷ e.device.history;
      } in
      rw (saved.goes_on, close_up, last)
        (record {
          state = record e { device = left };
          before = e.device.history;
          returns_0 = rw last refl;
          file_saved = saved.file_saved;
          closed = refl;
        })

  -- With a socket that connects, delivers the chunks one by one and then its end, and closes, the
  -- program with method `f` leaves their bytes in its file, in order, closes the connection and
  -- returns 0.
  pub slave_fcntl-Finished : Finished (joined chunks) (main k by_fcntl fuel info d)
  unfolding main
  slave_fcntl-Finished =
      rw (slave_ioctl-connect k info d s c, main, slave_ioctl-connect k info d s c)
        (close_up-Finished (joined chunks) _
          (transfer_fcntl-Saved k chunks dl fuel begun none_yet enough))

  -- With a socket that connects, delivers chunks that each begin at a page of the file one by one
  -- and then its end, and closes, the program with method `m` leaves their bytes in its file, in
  -- order, closes the connection and returns 0.
  pub slave_mmap-Finished :
      MapsFiles k
      → PageAligned 0 chunks
      → length (joined chunks) < 2147483648
      → Finished (joined chunks) (main k by_mmap fuel info d)
  unfolding main
  slave_mmap-Finished mf aligned small =
      rw (slave_ioctl-connect k info d s c, main, slave_ioctl-connect k info d s c)
        (close_up-Finished (joined chunks) _ (
          transfer_mmap-Saved k chunks dl mf fuel begun none_yet aligned refl (omega (arith, small))
            enough))
