-- ===== src/Fastboot/Write.antt =====
-- The write loop ends, and how it leaves the buffer.
use boardswarm.Prelude.{
  ℕ, zero, suc, ◌+◌, ◌*◌, ◌^◌, ◌≤◌, ◌<◌, ◌≡◌, ◌≢◌, refl, true, false, Option, some, List, [], ◌∷◌,
  inl, inr, ◌⊎◌, ap, arith, Bool-cases, length, is_empty, Bytes, sub_usize_lem, Outcome-cases,
}
use boardswarm.Fastboot.Data.{
  SparseFormat, FastbootChunk, FastbootData, Appended, no_data, blocksize, flash_size, append,
}
use boardswarm.Fastboot.Bounds.{Progress, Advances, append-Advances}
use boardswarm.Fastboot.Target.{
  FastbootVolumeTarget, FastbootDevice, flash, send, WriteReply, failed, written_after, threshold,
  must_flash, write_loop, write,
}

-- The buffer is empty, or within the threshold past which the loop flashes.
abbrev pub IsBuffered : SparseFormat → ℕ → FastbootData → Type 0
IsBuffered format max_download d = (d.chunks ≡ []) ⊎ (flash_size format d ≤ threshold max_download)

-- The device's limit leaves room for two blocks, and the headers fit in one.
pub record IsRoomy (format : SparseFormat) (max_download : ℕ) : Type 0 where
  pub word : max_download < 2 ^ 64
  pub two_blocks : 2 * blocksize ≤ max_download
  pub headers : format.file_header_len + 2 * format.chunk_header_len ≤ blocksize

-- The rounds that a buffer and the data left can still take.
abbrev rounds : List FastbootChunk → Bytes → ℕ
rounds [] bytes = 2 * length bytes
rounds (c ∷ cs) bytes = 2 * length bytes + 1

rounds-le : (cs : List FastbootChunk) (bytes : Bytes) → rounds cs bytes ≤ 2 * length bytes + 1
rounds-le [] bytes = omega arith
rounds-le (c ∷ cs) bytes = omega arith

rounds-nonempty :
    (cs : List FastbootChunk) (bytes : Bytes) → cs ≢ [] → rounds cs bytes ≡ 2 * length bytes + 1
rounds-nonempty [] bytes h = absurd (h refl)
rounds-nonempty (c ∷ cs) bytes h = refl

length-pos : (bytes : Bytes) → is_empty bytes ≡ false → 0 < length bytes
length-pos [] h = cc
length-pos (b ∷ bs) h = omega arith

module _ (format : SparseFormat) where
  room-IsBuffered :
      (d : FastbootData) (max_download : ℕ)
      → IsRoomy format max_download
      → IsBuffered format max_download d
      → flash_size format d + 2 * format.chunk_header_len + blocksize ≤ max_download
  unfolding threshold flash_size
  room-IsBuffered d max_download r (inl empty) =
      let h = r.headers in let w = r.two_blocks in ground arith
  room-IsBuffered d max_download r (inr small) = omega (
    arith,
    sub_usize_lem max_download (2 * blocksize) r.two_blocks r.word,
    r.headers,
    r.two_blocks,
  )

  -- The loop returned, with a buffer that the next write can go on with.
  abbrev pub Returned : FastbootVolumeTarget → Option (FastbootVolumeTarget × WriteReply) → Type 0
  Returned t o =
      (r : FastbootVolumeTarget × WriteReply) × (o ≡ some r)
      × IsBuffered format t.max_download r.0.buffered
      × (r.0.max_download ≡ t.max_download)

  -- One more round, given that the rounds after it return.
  write_loop-step :
      (fuel : ℕ) (t : FastbootVolumeTarget) (offset : ℕ) (bytes : Bytes) (len flashes : ℕ)
      → is_empty bytes ≡ false
      → let a = append format t.buffered offset bytes t.max_download in
        (must_flash format t.max_download a ≡ true
          → (d : FastbootDevice)
          → Returned t (
              write_loop format fuel
                (record t { device = d; buffered = no_data })
                offset
                a.rest
                len
                (flashes + 1)))
        → (must_flash format t.max_download a ≡ false
            → Returned t (
                write_loop format fuel
                  (record t { buffered = a.buffer })
                  offset
                  a.rest
                  len
                  flashes))
        → Returned t (write_loop format (suc fuel) t offset bytes len flashes)
  unfolding write_loop
  write_loop-step fuel t offset bytes len flashes more flashed kept =
      let a = append format t.buffered offset bytes t.max_download in
      elim (Bool-cases (must_flash format t.max_download a)) [
        | inl full ↦ elim (Outcome-cases (send t.device (flash t.target a.buffer))) [
          | inl (d, sent) ↦ rw (more, full, sent, write_loop) (flashed full d)
          | inr (e, gone) ↦
              rw (more, full, gone, write_loop)
                ((record t { buffered = no_data }, failed e), refl, inl refl, refl)
        ]
        | inr fits ↦ rw (more, fits, write_loop) (kept fits)
      ]

  -- After a flash, and after data was kept, fewer rounds are left.
  flashed-rounds :
      (cs : List FastbootChunk) (bytes : Bytes) (a : Appended)
      → Advances cs bytes a
      → rounds [] a.rest < rounds cs bytes
  flashed-rounds [] bytes a (inl p) = omega (arith, p.less)
  flashed-rounds (c ∷ cs) bytes a (inl p) = omega (arith, p.less)
  flashed-rounds [] bytes a (inr (no_data_taken, same, kept, some_chunks)) =
      absurd (some_chunks refl)
  flashed-rounds (c ∷ cs) bytes a (inr (no_data_taken, same, kept, some_chunks)) =
      omega (arith, ap length same)

  kept-rounds :
      (cs : List FastbootChunk) (bytes : Bytes) (a : Appended)
      → Progress bytes a
      → rounds a.buffer.chunks a.rest < rounds cs bytes
  kept-rounds [] bytes a p = omega (arith, p.less, rounds-le a.buffer.chunks a.rest)
  kept-rounds (c ∷ cs) bytes a p = omega (arith, p.less, rounds-le a.buffer.chunks a.rest)

  kept-Progress :
      (cs : List FastbootChunk) (bytes : Bytes) (max_download : ℕ) (a : Appended)
      → must_flash format max_download a ≡ false
      → Advances cs bytes a
      → Progress bytes a × (flash_size format a.buffer ≤ threshold max_download)
  unfolding must_flash
  kept-Progress cs bytes max_download a fits (inl p) = (p, ground (arith, p.took))
  kept-Progress cs bytes max_download a fits (inr (none_taken, same, kept, some_chunks)) =
      absurd (ground arith)

  write_loop_total :
      (fuel : ℕ) (t : FastbootVolumeTarget) (offset : ℕ) (bytes : Bytes) (len flashes : ℕ)
      → IsRoomy format t.max_download
      → IsBuffered format t.max_download t.buffered
      → rounds t.buffered.chunks bytes < fuel
      → Returned t (write_loop format fuel t offset bytes len flashes)
  unfolding write_loop
  write_loop_total zero t offset bytes len flashes roomy b enough = absurd (omega arith)
  write_loop_total (suc fuel) t offset bytes len flashes roomy b enough =
      let a = append format t.buffered offset bytes t.max_download in
      elim (Bool-cases (is_empty bytes)) [
        | inl done ↦ rw (done, write_loop) ((t, written_after flashes len), refl, b, refl)
        | inr more ↦
            let adv : Advances t.buffered.chunks bytes a =
              append-Advances format t.buffered offset bytes t.max_download roomy.word
                (room-IsBuffered t.buffered t.max_download roomy b) (length-pos bytes more) in
            write_loop-step fuel t offset bytes len flashes more
              (λ full d.
                write_loop_total fuel (record t { device = d; buffered = no_data }) offset a.rest
                  len (flashes + 1) roomy (inl refl)
                  (omega (arith, flashed-rounds t.buffered.chunks bytes a adv)))
              (λ fits.
                let (p, small) = kept-Progress t.buffered.chunks bytes t.max_download a fits adv in
                write_loop_total fuel (record t { buffered = a.buffer }) offset a.rest len flashes
                  roomy (inr small) (omega (arith, kept-rounds t.buffered.chunks bytes a p)))
      ]

  -- A fastboot write returns, whatever the data, its offset and the device's answers, and leaves a
  -- buffer from which the next write returns too: if the device's limit has room for two blocks
  -- and the headers fit in one, and the buffer is empty or within the threshold.
  pub write_total :
      (t : FastbootVolumeTarget) (bytes : Bytes) (offset : ℕ)
      → IsRoomy format t.max_download
      → IsBuffered format t.max_download t.buffered
      → Returned t (write format t bytes offset)
  unfolding write
  write_total t bytes offset roomy b =
      write_loop_total (2 * length bytes + 2) t offset bytes (length bytes) 0 roomy b
        (omega (arith, rounds-le t.buffered.chunks bytes))
