-- ===== src/Master/Whole.antt =====
-- A whole run of the master program, from the accepted connection to the closed one.
use os2016spring.Base.{ℕ, ◌<◌, ◌≡◌, refl, true, some, ◌∷◌, ◌++◌, length}
use os2016spring.Kernel.{pos, Bytes, Call, History, Kernel, MapsFiles, wire}
use os2016spring.Master.Device.{Device, MmapInfo, master_ioctl}
use os2016spring.Master.Program.{Progress, returned, by_fcntl, by_mmap, close_up, finish, main}
use os2016spring.Master.Sends.{
  Accepts, Sent, connected, master_ioctl-accept, transfer_fcntl-wire, transfer_mmap-wire,
}

-- The program has returned 0, the file is on the wire, no buffer of the device is overrun, and the
-- last call has closed the connection.
pub record Finished (file : Bytes) (d : Device) (p : Progress) : Type 0 where
  pub device : Device
  pub before : History
  pub returns_0 : p ≡ returned (pos 0) device
  pub bytes_sent : wire device.history ≡ wire d.history ++ file
  pub in_bounds : device.overrun ≡ d.overrun
  pub closed : device.history ≡ Call.kclose device.sockfd_cli ∷ before

module _ (k : Kernel) (a : Accepts k) (closes : (h : History) → k.kclose h ≡ true) (file : Bytes)
    (info : MmapInfo) (d : Device) (s : ℕ) (accepts : k.kaccept d.history ≡ some s) where
  close_up-Finished :
      (p : Progress) → Sent file (connected d s) p → Finished file d (close_up k info p)
  unfolding close_up finish master_ioctl
  close_up-Finished p sent =
      let e = sent.device in
      rw (sent.goes_on, close_up, finish, closes e.history)
        (record {
          device = record e { history = Call.kclose e.sockfd_cli ∷ e.history };
          before = e.history;
          returns_0 = rw (closes e.history) refl;
          bytes_sent = sent.bytes_sent;
          in_bounds = sent.in_bounds;
          closed = refl;
        })

  -- With a socket that takes whole messages and closes, once the connection is accepted, the program
  -- with method `f` puts every file on the wire whole, closes the connection and returns 0.
  pub main_fcntl-Finished : Finished file d (main k by_fcntl file info d)
  unfolding main
  main_fcntl-Finished =
      rw (master_ioctl-accept k info d s accepts, main, master_ioctl-accept k info d s accepts)
        (close_up-Finished _ (transfer_fcntl-wire k a file info (connected d s)))

  -- With a socket that takes whole messages and closes, once the connection is accepted, the program
  -- with method `m` puts every file that is not empty on the wire whole, closes the connection and
  -- returns 0.
  pub main_mmap-Finished :
      MapsFiles k → 0 < length file → Finished file d (main k by_mmap file info d)
  unfolding main
  main_mmap-Finished mf some_bytes =
      rw (master_ioctl-accept k info d s accepts, main, master_ioctl-accept k info d s accepts)
        (close_up-Finished _ (transfer_mmap-wire k a mf file info (connected d s) some_bytes))
