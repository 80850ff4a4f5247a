-- ===== src/Slave/Saves.antt =====
-- The slave program writes what the socket delivers.
use os2016spring.Base.{
  ℕ, zero, suc, ◌+◌, ◌%◌, ◌<◌, ◌≡◌, refl, sym, ap, ◌∙◌, true, List, [], ◌∷◌, ◌++◌, append_assoc,
  append-nil, length, length-append, All, ltb, arith,
}
use os2016spring.Kernel.{Bytes, Kernel, MapsFiles}
use os2016spring.Slave.Device.{mmap_open}
use os2016spring.Slave.Program.{
  State, Progress, going, by_fcntl, by_mmap, fcntl_loop, mmap_loop, transfer,
}
use os2016spring.Slave.Rounds.{
  ToCome, filler, fcntl_round-written, written, slave_ioctl-chunk, holding, stored,
  mmap_loop-stored, mmap_loop-filler,
}
use os2016spring.Slave.Stream.{receipts, joined, IsChunk, Delivers, drop-suc}

-- The loop has gone to its end, and the file has grown by `bytes`.
pub record Saved (bytes : Bytes) (s : State) (p : Progress) : Type 0 where
  pub state : State
  pub goes_on : p ≡ going state
  pub file_saved : state.file ≡ s.file ++ bytes

-- Every chunk begins at a page of the file.
abbrev pub PageAligned : (offset : ℕ) → List Bytes → Type 0
PageAligned offset [] = Unit
PageAligned offset (c ∷ rest) = (offset % 4096 ≡ 0) × PageAligned (offset + length c) rest

module _ (k : Kernel) (chunks : List Bytes) (dl : Delivers k chunks) where
  -- A chunk is written, then what is behind it.
  chunk_first :
      (c r : Bytes) (s s' : State) (p : Progress)
      → s'.file ≡ s.file ++ c
      → Saved r s' p
      → Saved (c ++ r) s p
  chunk_first c r s s' p first v = record {
    state = v.state;
    goes_on = v.goes_on;
    file_saved = v.file_saved ∙ ap (λ f. f ++ r) first ∙ append_assoc s.file c r;
  }

  fcntl_loop-Saved :
      (fuel : ℕ) (rest : List Bytes) (s : State)
      → ToCome chunks s rest
      → All IsChunk rest
      → length rest < fuel
      → Saved (joined rest) s (fcntl_loop k fuel s)
  unfolding fcntl_loop
  fcntl_loop-Saved zero rest s e h enough = absurd (omega arith)
  fcntl_loop-Saved (suc fuel) [] s e h enough =
      rw (fcntl_round-written k chunks dl s [] e, fcntl_loop)
        (record { state = written k chunks dl s []; goes_on = refl; file_saved = refl })
  fcntl_loop-Saved (suc fuel) (c ∷ rest) s e h enough =
      let some_bytes : ltb 0 (length c) ≡ true = ground (arith, h.0.0) in
      rw (fcntl_round-written k chunks dl s (c ∷ rest) e, fcntl_loop, some_bytes)
        (chunk_first c (joined rest) s (written k chunks dl s c) _ refl (
          fcntl_loop-Saved fuel rest (written k chunks dl s c)
            (drop-suc (receipts s.device.history) chunks c rest e) h.1 (omega arith)))

  mmap_loop-Saved :
      (mf : MapsFiles k) (fuel : ℕ) (rest : List Bytes) (s : State)
      → ToCome chunks s rest
      → All IsChunk rest
      → PageAligned s.offset rest
      → s.offset ≡ length s.file
      → length s.file + length (joined rest) < 2147483648
      → length rest < fuel
      → Saved (joined rest) s (mmap_loop k fuel s)
  unfolding mmap_loop
  mmap_loop-Saved mf zero rest s e h al at_end small enough = absurd (omega arith)
  mmap_loop-Saved mf (suc fuel) [] s e h al at_end small enough =
      rw (slave_ioctl-chunk k chunks dl s [] e, mmap_loop)
        (record {
          state = holding k chunks dl s [];
          goes_on = rw (slave_ioctl-chunk k chunks dl s [] e);
          file_saved = sym (append-nil s.file);
        })
  mmap_loop-Saved mf (suc fuel) (c ∷ rest) s e h al at_end small enough =
      let longer = length-append s.file c in
      let joined_size = length-append c (joined rest) in
      let no_wrap : (s.offset + length c) % 4294967296 ≡ s.offset + length c =
        omega (arith, joined_size) in
      let next_end : (s.offset + length c) % 4294967296 ≡ length (s.file ++ c) =
        no_wrap ∙ omega (arith, longer) in
      let rest_saved =
        mmap_loop-Saved mf fuel rest (stored k chunks dl s c)
          (drop-suc (receipts s.device.history) chunks c rest e) h.1 (rw no_wrap al.1) next_end
          (omega (arith, longer, joined_size)) (omega arith) in
      rw (mmap_loop-stored k chunks dl mf fuel c rest s e h.0.0 at_end al.0 (omega (arith, small)))
        (chunk_first c (joined rest) s (stored k chunks dl s c) _ refl rest_saved)

  -- The mapping of the device's page leaves the file alone.
  mapped :
      (s : State) (bytes : Bytes) (p : Progress)
      → Saved bytes (record s { info = mmap_open s.info }) p
      → Saved bytes s p
  mapped s bytes p v = record { state = v.state; goes_on = v.goes_on; file_saved = v.file_saved }

  -- When the socket delivers the chunks one by one and then its end, method `f` writes all their
  -- bytes to the file, in order, and goes on behind the loop, with one round for each chunk and one
  -- for the end.
  pub transfer_fcntl-Saved :
      (fuel : ℕ) (s : State)
      → receipts s.device.history ≡ 0
      → length chunks < fuel
      → Saved (joined chunks) s (transfer k by_fcntl fuel s)
  unfolding transfer
  transfer_fcntl-Saved fuel s none_yet enough =
      fcntl_loop-Saved fuel chunks s (rw none_yet) dl.are_chunks enough

  -- When the socket delivers the chunks one by one and then its end, each chunk begins at a page of
  -- the file, and the file stays below 2^31 bytes, method `m` writes all their bytes to the file,
  -- in order, and goes on behind the loop, with one round for each chunk and one for the end.
  pub transfer_mmap-Saved :
      (mf : MapsFiles k) (fuel : ℕ) (s : State)
      → receipts s.device.history ≡ 0
      → PageAligned s.offset chunks
      → s.offset ≡ length s.file
      → length s.file + length (joined chunks) < 2147483648
      → length chunks < fuel
      → Saved (joined chunks) s (transfer k by_mmap fuel s)
  unfolding transfer
  transfer_mmap-Saved mf fuel s none_yet al at_end small enough =
      rw (mf.maps_device s.device.history) (
        mapped s (joined chunks) _ (
          mmap_loop-Saved mf fuel chunks (record s { info = mmap_open s.info }) (rw none_yet)
            dl.are_chunks al at_end small enough))

-- On a kernel that maps the device, and a file but for a length of 0 or an offset that is no page's:
-- when the first chunk does not fill whole pages and another one follows it, method `m` leaves the
-- loop at the second chunk: the file holds the first chunk, then zeros and the digit 0 in place of
-- the second one, and nothing of what is behind it.
pub transfer_mmap-short :
    (k : Kernel) (mf : MapsFiles k) (c d : Bytes) (rest : List Bytes)
    (dl : Delivers k (c ∷ d ∷ rest)) (fuel : ℕ) (s : State)
    → receipts s.device.history ≡ 0
    → s.offset ≡ 0
    → s.file ≡ []
    → ¬ (length c % 4096 ≡ 0)
    → 1 < fuel
    → Saved (c ++ filler (length d)) s (transfer k by_mmap fuel s)
unfolding transfer
transfer_mmap-short k mf c d rest dl zero s none_yet start empty short enough = absurd (omega arith)
transfer_mmap-short k mf c d rest dl (suc zero) s none_yet start empty short enough =
    absurd (omega arith)
transfer_mmap-short k mf c d rest dl (suc (suc fuel)) s none_yet start empty short enough =
    let chunks = c ∷ d ∷ rest in
    let s1 = record s { info = mmap_open s.info } in
    let first =
      mmap_loop-stored k chunks dl mf (suc fuel) c (d ∷ rest) s1 (rw none_yet) dl.are_chunks.0.0
        (rw (start, empty)) (rw start) (omega (arith, start)) in
    let s2 = stored k chunks dl s1 c in
    let second =
      mmap_loop-filler k chunks dl mf fuel d rest s2 (rw none_yet) dl.are_chunks.1.0.0
        (omega (arith, start, short, dl.are_chunks.0.1)) in
    record {
      state = record (holding k chunks dl s2 d) { file = s2.file ++ filler (length d) };
      goes_on = rw (mf.maps_device s.device.history) (first ∙ second);
      file_saved = append_assoc s.file c (filler (length d));
    }
