-- ===== src/Master/Limit.antt =====
-- The address limits of the threads that load, use and unload the master device.
use os2016spring.Base.{
  ℕ, ◌≤◌, ◌≡◌, ◌≢◌, refl, sym, true, false, none, inl, inr, List, [], ◌∷◌, length, Bool-cases,
  Option-cases, ltb, arith, All,
}
use os2016spring.Kernel.{Bytes, AddrLimit, kernel_ds, Call, History, Socket, Kernel}
use os2016spring.Served.Writing.{self, differs}
use os2016spring.Master.Device.{
  Device, MmapInfo, Ioctl, create_sock, mmap_send, exit_sock, other, master_listen, master_init,
  master_exit, master_ioctl, reach, send, send_msg, set_limit,
}

-- The requests of programs, one after the other, each `ioctl` with the page of its file.
pub data Request : Type 0 where
  ioctl : MmapInfo → Ioctl → Request
  write : Bytes → Request

abbrev pub serve_one : Kernel → Request → Device → Device
serve_one k (ioctl info c) d = (master_ioctl k info c d).0
serve_one k (write bytes) d = (send_msg k bytes d).0

-- Each request comes from a thread.
abbrev pub serve : Kernel → List (ℕ × Request) → Device → Device
serve k [] d = d
serve k ((thread, request) ∷ rest) d =
    serve k rest (serve_one k request (record d { current = thread }))

-- A request that stays within a buffer of a page.
abbrev pub Fits : ℕ × Request → Type 0
Fits (_, ioctl _ (mmap_send size)) = size ≤ 4096
Fits (_, ioctl _ _) = Unit
Fits (_, write bytes) = length bytes ≤ 4096

-- The device is registered, and holds the limit `before` of the thread that has loaded it, which now
-- has that of the kernel; each other thread has its own limit; no buffer has been overrun.
pub record Loaded (loader : ℕ) (before : AddrLimit) (limits : ℕ → AddrLimit) (d : Device)
    : Type 0 where
  pub registered : d.registered ≡ true
  pub limit : d.fs loader ≡ kernel_ds
  pub own : (thread : ℕ) → thread ≢ loader → d.fs thread ≡ limits thread
  pub saved : d.old_fs ≡ before
  pub in_bounds : d.overrun ≡ false

module _ (k : Kernel) (loader : ℕ) (before : AddrLimit) (limits : ℕ → AddrLimit) where
  abbrev IsLoaded : Device → Type 0
  IsLoaded = Loaded loader before limits

  -- Calls, another socket and another thread change nothing of that.
  kept :
      (d : Device) (s : Socket) (h : History) (thread : ℕ)
      → IsLoaded d
      → IsLoaded (record d { sockfd_cli = s; history = h; current = thread })
  kept d s h thread l = record {
    registered = l.registered;
    limit = l.limit;
    own = l.own;
    saved = l.saved;
    in_bounds = l.in_bounds;
  }

  reach-Loaded : (size : ℕ) (d : Device) → size ≤ 4096 → IsLoaded d → IsLoaded (reach size d)
  reach-Loaded size d fits l =
      let within : ltb 4096 size ≡ false = ground arith in
      record {
        registered = l.registered;
        limit = l.limit;
        own = l.own;
        saved = l.saved;
        in_bounds = rw within l.in_bounds;
      }

  master_listen-Loaded : (d : Device) → IsLoaded d → IsLoaded (master_listen k d).0
  unfolding master_listen
  master_listen-Loaded d l = elim (Bool-cases (k.kbind d.history)) [
    | inr e ↦ rw e (kept d _ _ _ l)
    | inl e ↦ elim (Bool-cases (k.klisten (Call.kbind d.sockfd_srv ∷ d.history))) [
      | inl f ↦ rw (e, f) (kept d _ _ _ l)
      | inr f ↦ rw (e, f) (kept d _ _ _ l)
    ]
  ]

  serve_one-Loaded :
      (thread : ℕ) (r : Request) (d : Device)
      → Fits (thread, r)
      → IsLoaded d
      → IsLoaded (serve_one k r d)
  unfolding master_ioctl send_msg send
  serve_one-Loaded t (ioctl info create_sock) d h l = elim (Option-cases (k.kaccept d.history)) [
    | inl e ↦ rw (e, serve_one, master_ioctl) (kept d _ _ _ l)
    | inr (s, e) ↦ rw (e, serve_one, master_ioctl) (kept d _ _ _ l)
  ]
  serve_one-Loaded t (ioctl info (mmap_send size)) d h l =
      kept (reach size d) _ _ _ (reach-Loaded size d h l)
  serve_one-Loaded t (ioctl info exit_sock) d h l = elim (Bool-cases (k.kclose d.history)) [
    | inl e ↦ rw (e, serve_one, master_ioctl) (kept d _ _ _ l)
    | inr e ↦ rw (e, serve_one, master_ioctl) (kept d _ _ _ l)
  ]
  serve_one-Loaded t (ioctl info other) d h l = l
  serve_one-Loaded t (write bytes) d h l =
      let d' = reach (length bytes) d in
      let l' = reach-Loaded (length bytes) d h l in
      elim (Bool-cases (k.copy_from_user d.history)) [
        | inl e ↦ rw (e, serve_one, send_msg) (kept d' _ _ _ l')
        | inr e ↦ rw (e, serve_one, send_msg) (kept d' _ _ _ l')
      ]

  serve-Loaded :
      (rest : List (ℕ × Request)) (d : Device)
      → All Fits rest
      → IsLoaded d
      → IsLoaded (serve k rest d)
  serve-Loaded [] d h l = l
  serve-Loaded ((thread, r) ∷ rest) d h l = serve-Loaded rest _ h.1 (
      serve_one-Loaded thread r (record d { current = thread }) h.0
        (kept d d.sockfd_cli d.history thread l))

opened-Loaded :
    (k : Kernel) (d : Device)
    → k.misc_register (Call.debugfs_create_file ∷ d.history) ≡ true
    → d.overrun ≡ false
    → Loaded d.current (d.fs d.current) d.fs (master_init k d).0
unfolding master_init
opened-Loaded k d e within =
    let sockets = Call.misc_register ∷ Call.debugfs_create_file ∷ d.history in
    let opened : Device = record d {
      registered = true;
      sockfd_srv = k.ksocket sockets;
      sockfd_cli = none;
      old_fs = d.fs d.current;
      fs = set_limit d.current kernel_ds d.fs;
      history = Call.ksocket ∷ sockets;
    } in
    let l : Loaded d.current (d.fs d.current) d.fs opened = record {
      registered = refl;
      limit = rw (self d.current) refl;
      own = λ thread away. rw (differs thread d.current (λ same. away (sym same))) refl;
      saved = refl;
      in_bounds = within;
    } in
    elim (Option-cases (k.ksocket sockets)) [
      | inl f ↦ rw (e, f, master_init) l
      | inr (s, f) ↦
          rw (e, f, master_init) (master_listen-Loaded k d.current (d.fs d.current) d.fs opened l)
    ]

-- Once the device is registered, the loading leaves it registered, the loading thread with the
-- kernel's address limit and its former one saved, also where it answers -1 because the socket cannot
-- be made, bound or put to listen; and no request of any thread that stays within a page changes that
-- or the limit of another thread.
pub master_init-Loaded :
    (k : Kernel) (rest : List (ℕ × Request)) (d : Device)
    → k.misc_register (Call.debugfs_create_file ∷ d.history) ≡ true
    → d.overrun ≡ false
    → All Fits rest
    → Loaded d.current (d.fs d.current) d.fs (serve k rest (master_init k d).0)
unfolding master_init
master_init-Loaded k rest d e within fits =
    serve-Loaded k d.current (d.fs d.current) d.fs rest _ fits (opened-Loaded k d e within)

-- When the device was registered, whatever threads have asked of it since within a page, an unloading
-- by another thread than the loading one, which closes the socket, sets the address limit of the
-- unloading thread to the one that the loading thread has had before, and leaves the loading thread
-- with that of the kernel.
pub master_exit-leaves :
    (k : Kernel) (rest : List (ℕ × Request)) (d : Device) (thread : ℕ)
    → k.misc_register (Call.debugfs_create_file ∷ d.history) ≡ true
    → d.overrun ≡ false
    → All Fits rest
    → k.kclose (Call.misc_deregister ∷ (serve k rest (master_init k d).0).history) ≡ true
    → thread ≢ d.current
    → let unloaded =
        master_exit k (record (serve k rest (master_init k d).0) { current = thread }) in
      (unloaded.fs thread ≡ d.fs d.current) × (unloaded.fs d.current ≡ kernel_ds)
unfolding master_exit
master_exit-leaves k rest d thread e within fits closes away =
    let l = master_init-Loaded k rest d e within fits in
    (rw (closes, self thread) l.saved, rw (closes, differs d.current thread away) l.limit)
