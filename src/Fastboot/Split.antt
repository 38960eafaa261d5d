-- ===== src/Fastboot/Split.antt =====
-- A write that does not fit in one download: `write` keeps appending at the offset of the request.
use boardswarm.Prelude.{
  ℕ, suc, ◌+◌, ◌-◌, ◌*◌, ◌/◌, ◌%◌, ◌^◌, ◌≤◌, ◌<◌, ◌≡◌, refl, ap, ◌∙◌, true, false, some, [], ◌∷◌,
  arith, min, length, take, drop, take-length, drop-length, length-take, length-drop, is_empty,
  Bytes, sub_usize_lem, ok, ltb,
}
use boardswarm.Fastboot.Data.{
  SparseFormat, FastbootData, Appended, no_data, blocksize, flash_size, append, start_chunk,
  chunk_take,
}
use boardswarm.Fastboot.Target.{
  FastbootVolumeTarget, FastbootDevice, flash, send, written_after, threshold, must_flash,
  write_loop, write,
}
use boardswarm.Fastboot.Write.{IsRoomy}

-- The data that one download takes from a write into an empty buffer.
unfoldable pub room : SparseFormat → ℕ → ℕ
room format max_download =
    ((max_download - format.file_header_len - 2 * format.chunk_header_len) / blocksize) * blocksize

abbrev pub one_chunk : ℕ → Bytes → FastbootData
one_chunk block bytes = record { chunks = record { offset = block; pieces = bytes ∷ [] } ∷ [] }

module _ (format : SparseFormat) where
  append_fresh :
      (offset : ℕ) (bytes : Bytes) (max_size : ℕ)
      → IsRoomy format max_size
      → offset % blocksize ≡ 0
      → offset / blocksize < 2 ^ 32
      → append format no_data offset bytes max_size ≡ record {
        taken = true;
        buffer =
            one_chunk (offset / blocksize) (take (min (length bytes) (room format max_size)) bytes);
        rest = drop (min (length bytes) (room format max_size)) bytes;
      }
  unfolding append start_chunk chunk_take room flash_size
  append_fresh offset bytes max_size r aligned low =
      let w = r.word in let b = r.two_blocks in let h = r.headers in ground arith

  flash_size-room :
      (block : ℕ) (bytes : Bytes) (max_size : ℕ)
      → IsRoomy format max_size
      → room format max_size < length bytes
      → ltb
          (threshold max_size)
          (flash_size format (one_chunk block (take (room format max_size) bytes)))
        ≡ true
  unfolding flash_size room threshold
  flash_size-room block bytes max_size r more =
      let w = r.word in
      let b = r.two_blocks in
      let h = r.headers in
      ground (
        arith,
        length-take (room format max_size) bytes,
        sub_usize_lem max_size (2 * blocksize) b w,
      )

  -- One round of the loop, by what `append` and the channel answer.
  flash_round :
      (fuel : ℕ) (t : FastbootVolumeTarget) (offset : ℕ) (bytes : Bytes) (len flashes : ℕ)
      (a : Appended) (d : FastbootDevice)
      → is_empty bytes ≡ false
      → append format t.buffered offset bytes t.max_download ≡ a
      → must_flash format t.max_download a ≡ true
      → send t.device (flash t.target a.buffer) ≡ ok d
      → write_loop format (suc fuel) t offset bytes len flashes
        ≡ write_loop format fuel
            (record t { device = d; buffered = no_data })
            offset
            a.rest
            len
            (flashes + 1)
  unfolding write_loop
  flash_round fuel t offset bytes len flashes a d more e full sent = ground arith

  keep_round :
      (fuel : ℕ) (t : FastbootVolumeTarget) (offset : ℕ) (bytes : Bytes) (len flashes : ℕ)
      (a : Appended)
      → is_empty bytes ≡ false
      → append format t.buffered offset bytes t.max_download ≡ a
      → must_flash format t.max_download a ≡ false
      → write_loop format (suc fuel) t offset bytes len flashes
        ≡ write_loop format fuel (record t { buffered = a.buffer }) offset a.rest len flashes
  unfolding write_loop
  keep_round fuel t offset bytes len flashes a more e fits = ground arith

  must_flash-room :
      (block : ℕ) (bytes left : Bytes) (max_size : ℕ)
      → IsRoomy format max_size
      → room format max_size < length bytes
      → must_flash format max_size (record {
        taken = true;
        buffer = one_chunk block (take (room format max_size) bytes);
        rest = left;
      })
        ≡ true
  unfolding must_flash
  must_flash-room block bytes left max_size r more = flash_size-room block bytes max_size r more

  must_flash-small :
      (max_size : ℕ) (d : FastbootData) (left : Bytes)
      → flash_size format d ≤ threshold max_size
      → must_flash format max_size (record { taken = true; buffer = d; rest = left }) ≡ false
  unfolding must_flash
  must_flash-small max_size d left h = ground arith

  append_fresh_all :
      (offset : ℕ) (bytes : Bytes) (max_size : ℕ)
      → IsRoomy format max_size
      → offset % blocksize ≡ 0
      → offset / blocksize < 2 ^ 32
      → length bytes ≤ room format max_size
      → append format no_data offset bytes max_size
        ≡ record { taken = true; buffer = one_chunk (offset / blocksize) bytes; rest = [] }
  append_fresh_all offset bytes max_size r aligned low fits =
      let e : min (length bytes) (room format max_size) ≡ length bytes = omega arith in
      cc (append_fresh offset bytes max_size r aligned low, e, take-length bytes, drop-length bytes)

  append_fresh_room :
      (offset : ℕ) (bytes : Bytes) (max_size : ℕ)
      → IsRoomy format max_size
      → offset % blocksize ≡ 0
      → offset / blocksize < 2 ^ 32
      → room format max_size < length bytes
      → append format no_data offset bytes max_size ≡ record {
        taken = true;
        buffer = one_chunk (offset / blocksize) (take (room format max_size) bytes);
        rest = drop (room format max_size) bytes;
      }
  append_fresh_room offset bytes max_size r aligned low more =
      let e : min (length bytes) (room format max_size) ≡ room format max_size = omega arith in
      cc (append_fresh offset bytes max_size r aligned low, e)

  is_empty-pos : (bytes : Bytes) → 0 < length bytes → is_empty bytes ≡ false
  is_empty-pos [] h = absurd (omega arith)
  is_empty-pos (b ∷ bs) h = refl

  -- A write of more than one download into an empty buffer, at a block boundary, whose second part
  -- stays below the threshold: the first part is sent at the block of the offset, and the second
  -- part is buffered at that same block, where it will overwrite the first; yet the write reports
  -- its whole length as written. The device's limit has room for two blocks, the headers fit in
  -- one, the write is at most two downloads, its block number fits in 32 bits, and the first part
  -- can be sent.
  pub split_write_misplaced :
      (t : FastbootVolumeTarget) (d : FastbootDevice) (bytes : Bytes) (offset : ℕ)
      → IsRoomy format t.max_download
      → t.buffered ≡ no_data
      → offset % blocksize ≡ 0
      → offset / blocksize < 2 ^ 32
      → room format t.max_download < length bytes
      → length bytes ≤ 2 * room format t.max_download
      → flash_size format (one_chunk (offset / blocksize) (drop (room format t.max_download) bytes))
        ≤ threshold t.max_download
      → send t.device (
          flash t.target (one_chunk (offset / blocksize) (take (room format t.max_download) bytes)))
        ≡ ok d
      → write format t bytes offset
        ≡ some (
          record t {
            device = d;
            buffered = one_chunk (offset / blocksize) (drop (room format t.max_download) bytes);
          },
          written_after 1 (length bytes),
        )
  unfolding write
  split_write_misplaced t d bytes offset r e aligned low more twice small sent =
      let left = drop (room format t.max_download) bytes in
      let fuel : 2 * length bytes + 2 ≡ suc (suc (suc (2 * length bytes - 1))) = omega arith in
      let t1 : FastbootVolumeTarget = record t { device = d; buffered = no_data } in
      let t2 : FastbootVolumeTarget = record t {
        device = d;
        buffered = one_chunk (offset / blocksize) left;
      } in
      let n = length-drop (room format t.max_download) bytes in
      let first =
        flash_round (suc (suc (2 * length bytes - 1))) t offset bytes (length bytes) 0 _ d
          (is_empty-pos bytes (omega arith))
          (ap (λ b. append format b offset bytes t.max_download) e
            ∙ append_fresh_room offset bytes t.max_download r aligned low more)
          (must_flash-room (offset / blocksize) bytes left t.max_download r more) sent in
      let second =
        keep_round (suc (2 * length bytes - 1)) t1 offset left (length bytes) 1 _
          (is_empty-pos left (omega (arith, n)))
          (append_fresh_all offset left t.max_download r aligned low (omega (arith, n)))
          (must_flash-small t.max_download (one_chunk (offset / blocksize) left) [] small) in
      let third : write_loop format (suc (2 * length bytes - 1)) t2 offset [] (length bytes) 1
          ≡ some (t2, written_after 1 (length bytes)) =
        unfold write_loop in refl in
      ap (λ f. write_loop format f t offset bytes (length bytes) 0) fuel ∙ first ∙ second ∙ third
