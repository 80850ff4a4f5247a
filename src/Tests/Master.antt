-- ===== src/Tests/Master.antt =====
-- The master program on a file of five bytes and on an empty one.
use os2016spring.Base.{◌≡◌, refl, [], ◌∷◌}
use os2016spring.Kernel.{Bytes, minus_one}
use os2016spring.Master.Program.{by_mmap, returned, main}
use os2016spring.Master.Sends.{connected, main_mmap-empty}
use os2016spring.Tests.Transfer.{delivering, delivering-MapsFiles, master_device, master_page}

abbrev hello : Bytes
hello = 104 ∷ 101 ∷ 108 ∷ 108 ∷ 111 ∷ []

main_mmap-empty_example :
    main (delivering []) by_mmap [] master_page master_device
    ≡ returned minus_one (connected master_device 4)
main_mmap-empty_example =
    main_mmap-empty (delivering []) (delivering-MapsFiles []) master_page master_device 4 refl
