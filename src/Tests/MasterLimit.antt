-- ===== src/Tests/MasterLimit.antt =====
-- The loading, the use and the unloading of the master device.
use os2016spring.Base.{ℕ, All, arith, ◌≡◌, refl, false, none, List, [], ◌∷◌}
use os2016spring.Kernel.{user_ds, kernel_ds, Kernel}
use os2016spring.Master.Device.{Device, create_sock, exit_sock, master_init, master_exit}
use os2016spring.Master.Limit.{
  Request, Fits, ioctl, write, serve, Loaded, master_init-Loaded, master_exit-leaves,
}
use os2016spring.Tests.Transfer.{delivering, master_page}

abbrev unloaded : Device
unloaded = record {
  registered = false;
  sockfd_srv = none;
  sockfd_cli = none;
  old_fs = user_ds;
  current = 1;
  fs = λ _. user_ds;
  overrun = false;
  history = [];
}

abbrev requests : List (ℕ × Request)
requests =
    (2, ioctl master_page create_sock) ∷ (2, write (7 ∷ [])) ∷ (2, ioctl master_page exit_sock) ∷ []

requests-Fits : All Fits requests
requests-Fits = (tt, (omega arith, (tt, tt)))

-- A kernel on which the address is taken.
abbrev occupied : Kernel
occupied = record (delivering []) { kbind = λ _. false }

master_init-Loaded_example :
    Loaded 1 user_ds (λ _. user_ds) (serve occupied requests (master_init occupied unloaded).0)
master_init-Loaded_example = master_init-Loaded occupied requests unloaded refl refl requests-Fits

abbrev removed : Device
removed =
    master_exit (delivering [])
      (record (serve (delivering []) requests (master_init (delivering []) unloaded).0) {
        current = 3;
      })

master_exit-leaves_example : (removed.fs 3 ≡ user_ds) × (removed.fs 1 ≡ kernel_ds)
master_exit-leaves_example =
    master_exit-leaves (delivering []) requests unloaded 3 refl refl requests-Fits refl
      (omega arith)
