-- ===== src/Slave/Rounds.antt =====
-- One round of each loop of the slave program.
use os2016spring.Base.{
  ℕ, zero, suc, ◌+◌, ◌-◌, ◌%◌, ◌<◌, ◌≡◌, refl, ap, ◌∙◌, true, false, List, [], ◌∷◌, ◌++◌,
  append-nil, length, length-append, length-replicate, take, drop, replicate, take-length, drop-all,
  ltb, Bool-cases, inl, inr, arith,
}
use os2016spring.Kernel.{pos, Bytes, page_size, Call, Kernel, MapsFiles, received, kernel_ds}
use os2016spring.Slave.Device.{Device, mmap_receive, slave_ioctl, receive_msg, receive_into}
use os2016spring.Slave.Program.{
  State, going, size_mod, int_mod, fcntl_round, extend, overwrite, store, mmap_loop,
}
use os2016spring.Slave.Stream.{receipts, chunk_at, Delivers, chunk_at-drop}

-- What is to come from a state on.
abbrev pub ToCome : List Bytes → State → List Bytes → Type 0
ToCome chunks s rest = drop (receipts s.device.history) chunks ≡ rest

-- The file behind an extension and a `memcpy` at its old end: the bytes are appended.
overwrite-extend :
    (offset : ℕ) (c file : Bytes)
    → offset ≡ length file
    → 0 < length c
    → overwrite offset c (extend (length c) file) ≡ file ++ c
unfolding overwrite extend
overwrite-extend offset c file e some_bytes =
    let tail = replicate (length c - 1) 0 ++ 48 ∷ [] in
    let size : length tail ≡ length c = omega (
      arith,
      length-append {A = ℕ} (replicate (length c - 1) 0) (48 ∷ []),
      length-replicate (length c - 1) zero,
    ) in
    let front : take offset (file ++ tail) ≡ file = rw e (take-length file tail) in
    let back : drop (offset + length c) (file ++ tail) ≡ [] =
      drop-all (offset + length c) (file ++ tail) (omega (arith, length-append file tail)) in
    rw (front, back, append-nil c)

-- The bytes by which the file is extended before it is mapped.
abbrev pub filler : ℕ → Bytes
filler len = replicate (len - 1) 0 ++ 48 ∷ []

store-filler :
    (k : Kernel) (mf : MapsFiles k) (len : ℕ) (s : State)
    → ¬ (s.offset % 4096 ≡ 0)
    → store k len s ≡ (record s { file = s.file ++ filler len }, false)
unfolding store extend
store-filler k mf len s off_page = elim (Bool-cases (ltb s.offset 2147483648)) [
  | inl e ↦ rw (e, mf.refuses_off_page s.device.history len s.offset off_page) refl
  | inr e ↦ rw e refl
]

module _ (k : Kernel) (chunks : List Bytes) (dl : Delivers k chunks) where
  next_chunk :
      (s : State) (rest : List Bytes)
      → ToCome chunks s rest
      → k.krecv s.device.history page_size ≡ received (chunk_at rest 0)
  next_chunk s rest e =
      dl.answers s.device.history
      ∙ ap received (chunk_at-drop (receipts s.device.history) chunks)
      ∙ ap (λ r. received (chunk_at r 0)) e

  -- The device after a `read`.
  abbrev pub read_device : Device → Device
  read_device d = record d {
    history = Call.copy_to_user ∷ Call.krecv d.sockfd_cli page_size ∷ d.history;
  }

  receive_msg-chunk :
      (s : State) (rest : List Bytes)
      → ToCome chunks s rest
      → receive_msg k s.device
        ≡ (read_device s.device, chunk_at rest 0, pos (length (chunk_at rest 0)))
  unfolding receive_msg
  receive_msg-chunk s rest e =
      rw (
        dl.copies (Call.krecv s.device.sockfd_cli page_size ∷ s.device.history),
        next_chunk s rest e,
      )

  -- The state after a round of method `f`.
  abbrev pub written : State → Bytes → State
  written s c = record s {
    file = s.file ++ c;
    file_size = (s.file_size + length c) % size_mod;
    device = read_device s.device;
  }

  pub fcntl_round-written :
      (s : State) (rest : List Bytes)
      → ToCome chunks s rest
      → fcntl_round k s ≡ (written s (chunk_at rest 0), ltb 0 (length (chunk_at rest 0)))
  unfolding fcntl_round
  fcntl_round-written s rest e =
      rw (receive_msg-chunk s rest e, fcntl_round, receive_msg-chunk s rest e)

  -- The device after the `ioctl` that receives.
  abbrev pub received_device : Device → Device
  received_device d = record d {
    old_fs = d.fs;
    fs = kernel_ds;
    history = Call.krecv d.sockfd_cli page_size ∷ d.history;
  }

  pub slave_ioctl-chunk :
      (s : State) (rest : List Bytes)
      → ToCome chunks s rest
      → slave_ioctl k mmap_receive s.info s.device ≡ (
        receive_into (chunk_at rest 0) s.info,
        received_device s.device,
        pos (length (chunk_at rest 0)),
      )
  unfolding slave_ioctl
  slave_ioctl-chunk s rest e = rw (next_chunk s rest e, slave_ioctl)

  -- The state behind the receipt of a chunk, and the one behind its storing.
  abbrev pub holding : State → Bytes → State
  holding s c = record s { info = receive_into c s.info; device = received_device s.device }

  abbrev pub stored : State → Bytes → State
  stored s c = record (holding s c) {
    file = s.file ++ c;
    offset = (s.offset + length c) % int_mod;
    file_size = (s.file_size + length c) % size_mod;
  }

  store-stored :
      (mf : MapsFiles k) (s : State) (c : Bytes)
      → s.offset ≡ length s.file
      → s.offset % 4096 ≡ 0
      → s.offset < 2147483648
      → 0 < length c
      → store k (length c) (holding s c) ≡ (stored s c, true)
  unfolding store receive_into
  store-stored mf s c at_end aligned small some_bytes =
      let positive : ltb s.offset 2147483648 ≡ true = ground arith in
      let can = mf.maps (received_device s.device).history (length c) s.offset some_bytes aligned in
      let page : take (length c) (c ++ drop (length c) s.info.page) ≡ c =
        take-length c (drop (length c) s.info.page) in
      rw (positive, can, page, overwrite-extend s.offset c s.file at_end some_bytes)

  -- A round stores its chunk and goes on, or leaves a filler and is the last one.
  pub mmap_loop-stored :
      (mf : MapsFiles k) (fuel : ℕ) (c : Bytes) (rest : List Bytes) (s : State)
      → ToCome chunks s (c ∷ rest)
      → 0 < length c
      → s.offset ≡ length s.file
      → s.offset % 4096 ≡ 0
      → s.offset < 2147483648
      → mmap_loop k (suc fuel) s ≡ mmap_loop k fuel (stored s c)
  unfolding mmap_loop
  mmap_loop-stored mf fuel [] rest s e some_bytes at_end aligned small = absurd (omega arith)
  mmap_loop-stored mf fuel (x ∷ c) rest s e some_bytes at_end aligned small = rw (
    slave_ioctl-chunk s ((x ∷ c) ∷ rest) e,
    mmap_loop,
    slave_ioctl-chunk s ((x ∷ c) ∷ rest) e,
    store-stored mf s (x ∷ c) at_end aligned small some_bytes,
  )

  pub mmap_loop-filler :
      (mf : MapsFiles k) (fuel : ℕ) (c : Bytes) (rest : List Bytes) (s : State)
      → ToCome chunks s (c ∷ rest)
      → 0 < length c
      → ¬ (s.offset % 4096 ≡ 0)
      → mmap_loop k (suc fuel) s
        ≡ going (record (holding s c) { file = s.file ++ filler (length c) })
  unfolding mmap_loop
  mmap_loop-filler mf fuel [] rest s e some_bytes off_page = absurd (omega arith)
  mmap_loop-filler mf fuel (x ∷ c) rest s e some_bytes off_page = rw (
    slave_ioctl-chunk s ((x ∷ c) ∷ rest) e,
    mmap_loop,
    slave_ioctl-chunk s ((x ∷ c) ∷ rest) e,
    store-filler k mf (length (x ∷ c)) (holding s (x ∷ c)) off_page,
  )
