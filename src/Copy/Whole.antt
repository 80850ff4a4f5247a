-- ===== src/Copy/Whole.antt =====
-- Both programs of prj2/src/sample/user_program, each from its first call to its end.
use os2016spring.Base.{ℕ, ◌<◌, ◌≡◌, refl, arith, ap, ◌∙◌, subst, true, some, List, [], ◌++◌, length}
use os2016spring.Kernel.{ℤ, pos, Bytes, History, Kernel, MapsFiles, wire}
use os2016spring.Mapping.{MmapInfo, Opens, BothOpen}
use os2016spring.Master.Device as MasterDevice
use os2016spring.Master.Program as Master
use os2016spring.Master.Sends.{Accepts}
use os2016spring.Master.Whole as MasterWhole
use os2016spring.Slave.Device as SlaveDevice
use os2016spring.Slave.Program as Slave
use os2016spring.Slave.Stream.{receipts, joined, Delivers}
use os2016spring.Slave.Saves.{PageAligned}
use os2016spring.Slave.Whole as SlaveWhole

-- The socket delivers the bytes that the master has put on the wire when it has returned.
pub record Carries (p : Master.Progress) (chunks : List Bytes) : Type 0 where
  pub same_bytes :
      (r : ℤ) (d : MasterDevice.Device) → p ≡ Master.returned r d → joined chunks ≡ wire d.history

-- Both programs have returned 0 with the connection closed, no buffer of the master device is
-- overrun, and the slave's file is this one.
pub record BothDone (file : Bytes) (d : MasterDevice.Device) (pm : Master.Progress) (ps : Slave.Run)
    : Type 0 where
  pub device : MasterDevice.Device
  pub in_bounds : device.overrun ≡ d.overrun
  pub returns_0 : pm ≡ Master.returned (pos 0) device
  pub progress : Slave.Progress
  pub opened : ps ≡ Slave.opened progress
  pub slave : SlaveWhole.Finished file progress

-- What the socket delivers is the file.
all_carried :
    (file : Bytes) (chunks : List Bytes) (d : MasterDevice.Device) (pm : Master.Progress)
    → wire d.history ≡ []
    → MasterWhole.Finished file d pm
    → Carries pm chunks
    → joined chunks ≡ file
all_carried file chunks d pm clear m c =
    c.same_bytes (pos 0) m.device m.returns_0 ∙ m.bytes_sent ∙ ap (λ w. w ++ file) clear

both_done :
    (file : Bytes) (chunks : List Bytes) (d : MasterDevice.Device) (pm : Master.Progress)
    (ps : Slave.Progress)
    → MasterWhole.Finished file d pm
    → joined chunks ≡ file
    → SlaveWhole.Finished (joined chunks) ps
    → BothDone file d pm (Slave.opened ps)
both_done file chunks d pm ps m sent s = record {
  device = m.device;
  in_bounds = m.in_bounds;
  returns_0 = m.returns_0;
  progress = ps;
  opened = refl;
  slave = subst (λ f. SlaveWhole.Finished f ps) sent s;
}

module _ (om os : Opens) (im is : MmapInfo) (all_open : BothOpen om im) (all_open' : BothOpen os is)
    (km ks : Kernel) (a : Accepts km) (closes : (h : History) → km.kclose h ≡ true)
    (closes' : (h : History) → ks.kclose h ≡ true) (chunks : List Bytes) (dl : Delivers ks chunks)
    (file : Bytes) (d : MasterDevice.Device) (s : ℕ) (accepts : km.kaccept d.history ≡ some s)
    (clear : wire d.history ≡ []) (d' : SlaveDevice.Device) (s' : ℕ)
    (c : SlaveWhole.Connects ks d' s') (none_yet : receipts d'.history ≡ 0) (fuel : ℕ)
    (enough : length chunks < fuel) where
  -- With 'f' on both sides, where the devices and the files can be opened and both devices have got
  -- a page, over a socket that connects, takes whole messages, delivers the bytes in chunks of any
  -- size up to a page, and closes: both programs return 0 without an overrun in the master device,
  -- and the slave's file has become the master's.
  pub program_fcntl-BothDone :
      Carries (Master.program om km 102 file d) chunks
      → BothDone file d (Master.program om km 102 file d) (Slave.program os ks 102 fuel d')
  unfolding Master.method_of Slave.method_of
  program_fcntl-BothDone carries =
      let master = Master.program-opened om km 102 file d im all_open in
      let slave = Slave.program-opened os ks 102 fuel d' is all_open' in
      let m = MasterWhole.main_fcntl-Finished km a closes file im d s accepts in
      let sent = all_carried file chunks d _ clear m (rw master at carries) in
      rw (master, slave)
        (both_done file chunks d _ _ m sent
          (SlaveWhole.slave_fcntl-Finished ks closes' chunks dl is d' s' c none_yet fuel enough))

  -- With 'm' on both sides, where the devices and the files can be opened and both devices have got
  -- a page, on kernels that map the device, and a file but for a length of 0 or an offset that is
  -- no page's, over a socket that connects, takes whole messages, delivers the bytes in chunks that
  -- each begin at a page of the file, and closes: both programs return 0 without an overrun in the
  -- master device, and the slave's file has become the master's, if that is not empty and shorter
  -- than 2^31 bytes.
  pub program_mmap-BothDone :
      MapsFiles km
      → MapsFiles ks
      → 0 < length file
      → length file < 2147483648
      → PageAligned 0 chunks
      → Carries (Master.program om km 109 file d) chunks
      → BothDone file d (Master.program om km 109 file d) (Slave.program os ks 109 fuel d')
  unfolding Master.method_of Slave.method_of
  program_mmap-BothDone mm ms some_bytes small aligned carries =
      let master = Master.program-opened om km 109 file d im all_open in
      let slave = Slave.program-opened os ks 109 fuel d' is all_open' in
      let m = MasterWhole.main_mmap-Finished km a closes file im d s accepts mm some_bytes in
      let sent = all_carried file chunks d _ clear m (rw master at carries) in
      let bound : length (joined chunks) < 2147483648 = omega (arith, small, ap length sent) in
      rw (master, slave)
        (both_done file chunks d _ _ m sent (
          SlaveWhole.slave_mmap-Finished ks closes' chunks dl is d' s' c none_yet fuel enough ms
            aligned bound))
