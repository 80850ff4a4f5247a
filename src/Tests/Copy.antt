-- ===== src/Tests/Copy.antt =====
-- A copy of a page and five bytes by each method, over a socket that delivers them as two chunks.
use os2016spring.Base.{
  ◌<◌, true, some, ◌≡◌, refl, sym, ap, ◌∙◌, List, [], ◌∷◌, length, length-append, arith,
}
use os2016spring.Kernel.{ℤ, pos, Bytes, wire}
use os2016spring.Mapping.{Opens}
use os2016spring.Master.Device as MasterDevice
use os2016spring.Master.Program as Master
use os2016spring.Master.Whole as MasterWhole
use os2016spring.Slave.Program as Slave
use os2016spring.Slave.Stream.{joined}
use os2016spring.Copy.Whole.{Carries, BothDone, program_fcntl-BothDone, program_mmap-BothDone}
use os2016spring.Tests.Slave.{
  delivering-Connects, hello, page, length-page, page_and_more, page_and_more-IsChunk,
}
use os2016spring.Tests.Transfer.{
  delivering, delivering-Accepts, delivering-Delivers, delivering-MapsFiles, master_device,
  slave_device, master_page, slave_page,
}

abbrev file : Bytes
file = joined page_and_more

size : length file ≡ 4101
size = length-append page (joined (hello ∷ [])) ∙ omega (arith, length-page)

length-file : 0 < length file
length-file = omega (arith, size)

returned-injective :
    (r r' : ℤ) (d d' : MasterDevice.Device) → Master.returned r d ≡ Master.returned r' d' → d ≡ d'
returned-injective r r' d d' e = cc

Finished-Carries :
    (chunks : List Bytes) (p : Master.Progress)
    → MasterWhole.Finished (joined chunks) master_device p
    → Carries p chunks
Finished-Carries chunks p m = record {
  same_bytes = λ r d e.
      sym m.bytes_sent
      ∙ ap (λ d'. wire d'.history) (returned-injective (pos 0) r m.device d (sym m.returns_0 ∙ e));
}

abbrev opens : Opens
opens = record { device = some master_page; file = true }

fcntl-Carries : Carries (Master.program opens (delivering []) 102 file master_device) page_and_more
unfolding Master.program Master.method_of
fcntl-Carries = Finished-Carries page_and_more _ (
    MasterWhole.main_fcntl-Finished (delivering []) (delivering-Accepts []) (λ h. refl) file
      master_page master_device 4 refl)

mmap-Carries : Carries (Master.program opens (delivering []) 109 file master_device) page_and_more
unfolding Master.program Master.method_of
mmap-Carries = Finished-Carries page_and_more _ (
    MasterWhole.main_mmap-Finished (delivering []) (delivering-Accepts []) (λ h. refl) file
      master_page master_device 4 refl (delivering-MapsFiles []) length-file)

program_fcntl-BothDone_example :
    BothDone file master_device
      (Master.program opens (delivering []) 102 file master_device)
      (Slave.program opens (delivering page_and_more) 102 3 slave_device)
program_fcntl-BothDone_example =
    program_fcntl-BothDone opens opens master_page slave_page (refl, refl, refl) (refl, refl, refl)
      (delivering []) (delivering page_and_more) (delivering-Accepts []) (λ h. refl) (λ h. refl)
      page_and_more (delivering-Delivers page_and_more page_and_more-IsChunk) file master_device 4
      refl refl slave_device 3 (delivering-Connects page_and_more) refl 3 (omega arith)
      fcntl-Carries

program_mmap-BothDone_example :
    BothDone file master_device
      (Master.program opens (delivering []) 109 file master_device)
      (Slave.program opens (delivering page_and_more) 109 3 slave_device)
program_mmap-BothDone_example =
    program_mmap-BothDone opens opens master_page slave_page (refl, refl, refl) (refl, refl, refl)
      (delivering []) (delivering page_and_more) (delivering-Accepts []) (λ h. refl) (λ h. refl)
      page_and_more (delivering-Delivers page_and_more page_and_more-IsChunk) file master_device 4
      refl refl slave_device 3 (delivering-Connects page_and_more) refl 3 (omega arith)
      (delivering-MapsFiles []) (delivering-MapsFiles page_and_more) length-file
      (omega (arith, size)) (refl, (omega (arith, length-page), tt)) mmap-Carries
