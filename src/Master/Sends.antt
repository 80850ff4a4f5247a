-- ===== src/Master/Sends.antt =====
-- With a socket that takes all that it is given, the program puts the bytes of the file on the wire.
use os2016spring.Base.{
  ℕ, zero, suc, ◌+◌, ◌-◌, ◌%◌, ◌≤◌, ◌<◌, ◌≡◌, refl, sym, ap, ◌∙◌, true, false, some, inl, inr, [],
  ◌∷◌, ◌++◌, append_assoc, length, take, drop, length-take, length-drop, take-append-drop,
  take-length, take-all, drop-drop, ltb, Bool-cases, arith,
}
use os2016spring.Kernel.{pos, minus_one, Bytes, page_size, Call, Kernel, MapsFiles, History, wire}
use os2016spring.Master.Device.{
  Device, MmapInfo, mmap_open, create_sock, mmap_send, reach, send, send_msg, master_ioctl,
}
use os2016spring.Master.Program.{
  Progress, going, returned, by_fcntl, by_mmap, fcntl_loop, mmap_loop, part_size, copy_to_page,
  transfer, main,
}

-- The kernel copies from the program, and the socket takes whole messages.
pub record Accepts (k : Kernel) : Type 0 where
  pub takes : (h : History) (b : Bytes) → k.ksend h b ≡ length b
  pub copies : (h : History) → k.copy_from_user h ≡ true

-- The bytes of a device's history grow by `bytes`, and no buffer is overrun.
pub record Sent (bytes : Bytes) (d : Device) (p : Progress) : Type 0 where
  pub device : Device
  pub goes_on : p ≡ going device
  pub bytes_sent : wire device.history ≡ wire d.history ++ bytes
  pub in_bounds : device.overrun ≡ d.overrun

module _ (k : Kernel) (a : Accepts k) where
  wire-send : (bytes : Bytes) (d : Device) → wire (send k bytes d).history ≡ wire d.history ++ bytes
  unfolding send
  wire-send bytes d = rw (a.takes d.history bytes, take-all (length bytes) bytes (omega arith))

  wire-send_msg :
      (bytes : Bytes) (d : Device) → wire (send_msg k bytes d).0.history ≡ wire d.history ++ bytes
  unfolding send_msg
  wire-send_msg bytes d = rw (a.copies d.history) (
      wire-send bytes
        (reach (length bytes) (record d { history = Call.copy_from_user ∷ d.history })))

  fits_page : (size : ℕ) → size ≤ 4096 → ltb 4096 size ≡ false
  fits_page size h = ground arith

  overrun-send_msg :
      (bytes : Bytes) (d : Device)
      → length bytes ≤ 4096
      → (send_msg k bytes d).0.overrun ≡ d.overrun
  unfolding send_msg send
  overrun-send_msg bytes d h = rw (a.copies d.history, fits_page (length bytes) h) refl

  take-nil : (n : ℕ) (bytes : Bytes) → 0 < n → ltb 0 (length (take n bytes)) ≡ false → bytes ≡ []
  take-nil zero bytes h e = absurd (omega arith)
  take-nil (suc n) [] h e = refl
  take-nil (suc n) (x ∷ bytes) h e = absurd (ground arith)

  longer : (rest : Bytes) → ltb 0 (length (take page_size rest)) ≡ true → 0 < length rest
  longer [] e = absurd (cc)
  longer (x ∷ rest) e = omega arith

  -- A chunk is sent, then what is behind it.
  chunk_first :
      (n : ℕ) (rest : Bytes) (d d' : Device) (p : Progress)
      → wire d'.history ≡ wire d.history ++ take n rest
      → d'.overrun ≡ d.overrun
      → Sent (drop n rest) d' p
      → Sent rest d p
  chunk_first n rest d d' p first within s = record {
    device = s.device;
    goes_on = s.goes_on;
    bytes_sent =
        s.bytes_sent
        ∙ ap (λ w. w ++ drop n rest) first
        ∙ append_assoc (wire d.history) (take n rest) (drop n rest)
        ∙ ap (◌++◌ (wire d.history)) (take-append-drop n rest);
    in_bounds = s.in_bounds ∙ within;
  }

  fcntl_loop-Sent :
      (fuel : ℕ) (rest : Bytes) (d : Device)
      → length rest < fuel
      → Sent rest d (fcntl_loop k fuel rest d)
  unfolding fcntl_loop
  fcntl_loop-Sent zero rest d h = absurd (omega arith)
  fcntl_loop-Sent (suc fuel) rest d h =
      let chunk = take page_size rest in
      let d' = (send_msg k chunk d).0 in
      let within = overrun-send_msg chunk d (omega (arith, length-take page_size rest)) in
      elim (Bool-cases (ltb 0 (length chunk))) [
        | inr last ↦
            let empty = take-nil page_size rest (omega arith) last in
            record {
              device = d';
              goes_on = rw last;
              bytes_sent =
                  wire-send_msg chunk d
                  ∙ ap (λ b. wire d.history ++ take page_size b) empty
                  ∙ ap (◌++◌ (wire d.history)) (sym empty);
              in_bounds = within;
            }
        | inl more ↦
            let shorter : length (drop page_size rest) < fuel =
              omega
                (arith, length-drop page_size rest, length-take page_size rest, longer rest more) in
            rw more (
              chunk_first page_size rest d d' _ (wire-send_msg chunk d) within
                (fcntl_loop-Sent fuel (drop page_size rest) d' shorter))
      ]

  part_size_bounds :
      (remain : ℕ) → 0 < remain → (0 < part_size remain) × (part_size remain ≤ remain)
  unfolding part_size
  part_size_bounds remain h = ground arith

  nothing_left : (remain size : ℕ) → ltb 0 (remain - size) ≡ false → remain ≤ size
  nothing_left remain size e = ground arith

  some_more : (remain size : ℕ) → ltb 0 (remain - size) ≡ true → 0 < remain - size
  some_more remain size e = ground arith

  part_size_aligned :
      (offset remain : ℕ)
      → offset % 4096 ≡ 0
      → 0 < remain - part_size remain
      → (offset + part_size remain) % 4096 ≡ 0
  unfolding part_size
  part_size_aligned offset remain e h = elim (Bool-cases (ltb remain page_size)) [
    | inl less ↦ absurd (ground arith)
    | inr full ↦ rw full (omega arith)
  ]

  -- The page holds the chunk in front, so the chunk is what is sent.
  wire-page :
      (size : ℕ) (chunk : Bytes) (info : MmapInfo) (d : Device)
      → length chunk ≡ size
      → wire (master_ioctl k (copy_to_page chunk info) (mmap_send size) d).0.history
        ≡ wire d.history ++ chunk
  unfolding master_ioctl copy_to_page
  wire-page size chunk info d e =
      rw (← e, take-length chunk (drop (length chunk) info.page))
        (wire-send chunk (reach (length chunk) d))

  part_size_page : (remain : ℕ) → part_size remain ≤ 4096
  unfolding part_size
  part_size_page remain = ground arith

  overrun-page :
      (size : ℕ) (info : MmapInfo) (d : Device)
      → size ≤ 4096
      → (master_ioctl k info (mmap_send size) d).0.overrun ≡ d.overrun
  unfolding master_ioctl send
  overrun-page size info d h = rw (fits_page size h) refl

  mmap_loop-Sent :
      MapsFiles k
      → (fuel : ℕ) (file : Bytes) (offset remain : ℕ) (info : MmapInfo) (d : Device)
      → offset + remain ≡ length file
      → offset % 4096 ≡ 0
      → 0 < remain
      → remain < fuel
      → Sent (drop offset file) d (mmap_loop k fuel file offset remain info d)
  unfolding mmap_loop master_ioctl
  mmap_loop-Sent mf zero file offset remain info d len aligned some_left h = absurd (omega arith)
  mmap_loop-Sent mf (suc fuel) file offset remain info d len aligned some_left h =
      let size = part_size remain in
      let chunk = take size (drop offset file) in
      let fits : length chunk ≡ size = omega (
        arith,
        length-take size (drop offset file),
        length-drop offset file,
        part_size_bounds remain some_left,
      ) in
      let can =
        mf.maps d.history size offset (omega (arith, part_size_bounds remain some_left)) aligned in
      let first = wire-page size chunk info d fits in
      let within = overrun-page size (copy_to_page chunk info) d (part_size_page remain) in
      let d' = (master_ioctl k (copy_to_page chunk info) (mmap_send size) d).0 in
      elim (Bool-cases (ltb 0 (remain - size))) [
        | inr last ↦
            let all : chunk ≡ drop offset file =
              take-all size (drop offset file)
                (omega (arith, length-drop offset file, nothing_left remain size last)) in
            rw (can, last)
              (record {
                device = d';
                goes_on = refl;
                bytes_sent = first ∙ ap (◌++◌ (wire d.history)) all;
                in_bounds = within;
              })
        | inl more ↦
            rw (can, more)
              (chunk_first size (drop offset file) d d' _ first within (
                rw (drop-drop offset size file) (
                  mmap_loop-Sent mf fuel file (offset + size) (remain - size)
                    (copy_to_page chunk info) d'
                    (omega (arith, part_size_bounds remain some_left, some_more remain size more))
                    (part_size_aligned offset remain aligned (some_more remain size more))
                    (some_more remain size more)
                    (omega (arith, part_size_bounds remain some_left)))))
      ]

  -- With a socket that takes whole messages, method `f` puts every file on the wire whole, and goes
  -- on behind the loop.
  pub transfer_fcntl-wire :
      (file : Bytes) (info : MmapInfo) (d : Device) → Sent file d (transfer k by_fcntl file info d)
  unfolding transfer
  transfer_fcntl-wire file info d = fcntl_loop-Sent (length file + 2) file d (omega arith)

  -- With a socket that takes whole messages, method `m` puts every file that is not empty on the
  -- wire whole, and goes on behind the loop.
  pub transfer_mmap-wire :
      MapsFiles k
      → (file : Bytes) (info : MmapInfo) (d : Device) → 0 < length file
      → Sent file d (transfer k by_mmap file info d)
  unfolding transfer
  transfer_mmap-wire mf file info d some_bytes = rw (mf.maps_device d.history) (
      mmap_loop-Sent mf (length file + 1) file 0 (length file) (mmap_open info) d (omega arith)
        (omega arith) some_bytes (omega arith))

-- The device after an accepted connection.
abbrev pub connected : Device → ℕ → Device
connected d s = record d { sockfd_cli = some s; history = Call.kaccept d.sockfd_srv ∷ d.history }

pub master_ioctl-accept :
    (k : Kernel) (info : MmapInfo) (d : Device) (s : ℕ)
    → k.kaccept d.history ≡ some s
    → master_ioctl k info create_sock d ≡ (connected d s, pos 0)
unfolding master_ioctl
master_ioctl-accept k info d s e = rw (e, master_ioctl, e)

-- An empty file cannot be mapped: on every kernel that accepts the connection and maps files and the
-- device as documented, the program with method `m` returns -1 and leaves the connection open.
pub main_mmap-empty :
    (k : Kernel)
    → MapsFiles k
    → (info : MmapInfo) (d : Device) (s : ℕ) → k.kaccept d.history ≡ some s
    → main k by_mmap [] info d ≡ returned minus_one (connected d s)
unfolding main
main_mmap-empty k mf info d s e =
    rw
      (
        master_ioctl-accept k info d s e,
        main,
        master_ioctl-accept k info d s e,
        mf.maps_device (connected d s).history,
        mf.refuses_empty (connected d s).history 0,
      )
      refl
