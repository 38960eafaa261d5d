-- ===== src/Fastboot/Bounds.antt =====
-- How `append` uses the room that the device leaves, and that it makes progress.
use boardswarm.Prelude.{
  ℕ, ◌+◌, ◌-◌, ◌*◌, ◌/◌, ◌%◌, ◌^◌, ◌≤◌, ◌<◌, ◌≡◌, ◌≢◌, refl, true, false, List, [], ◌∷◌, ◌++◌,
  arith, min, length, take, length-take, length-drop, Bytes, sub_usize, sub_usize_lem, Bool-cases,
  ◌⊎◌, inl, inr, ltb, nat_beq,
}
use boardswarm.Fastboot.Data.{
  chunk_take, SparseFormat, FastbootChunk, FastbootData, Appended, no_data, blocksize, flash_size,
  padded_lengths, sum_lengths, append, start_chunk, extend_chunk, end_bytes, next_multiple_of_block,
}

pub padded_lengths-append :
    (ds es : List Bytes) → padded_lengths (ds ++ es) ≡ padded_lengths ds + padded_lengths es
padded_lengths-append [] es = omega arith
padded_lengths-append (d ∷ ds) es = omega (arith, padded_lengths-append ds es)

pub sum_lengths-append :
    (ds es : List Bytes) → sum_lengths (ds ++ es) ≡ sum_lengths ds + sum_lengths es
sum_lengths-append [] es = omega arith
sum_lengths-append (d ∷ ds) es = omega (arith, sum_lengths-append ds es)

-- A whole number of blocks holds what is cut to it, padding included.
next_multiple-min-le : (l r : ℕ) → next_multiple_of_block (min l ((r / 4096) * 4096)) ≤ r
next_multiple-min-le l r = omega arith

chunk_take_aligned : (l room rem : ℕ) → rem ≡ 0 → chunk_take l room rem ≡ min l room
unfolding chunk_take
chunk_take_aligned l room rem h = ground arith

chunk_take_pos :
    (l room rem : ℕ)
    → 0 < l
    → rem < blocksize
    → blocksize ≤ room
    → room < 2 ^ 64
    → 0 < chunk_take l room rem
unfolding chunk_take
chunk_take_pos l room rem h r a b = ground arith

-- Some data was taken: less is left, and the buffer is not empty.
pub record Progress (bytes : Bytes) (a : Appended) : Type 0 where
  pub took : a.taken ≡ true
  pub less : length a.rest < length bytes
  pub kept : a.buffer.chunks ≢ []

-- Data was taken, or nothing was and the buffer stands as it was, not empty.
abbrev pub Advances : List FastbootChunk → Bytes → Appended → Type 0
Advances cs bytes a =
    Progress bytes a ⊎ ((a.taken ≡ false) × (a.rest ≡ bytes) × (a.buffer.chunks ≡ cs) × (cs ≢ []))

module _ (format : SparseFormat) where
  -- With an aligned offset a new chunk costs at most the room that it was given.
  start_chunk-size :
      (d : FastbootData) (offset : ℕ) (bytes : Bytes) (remaining : ℕ)
      → offset % blocksize ≡ 0
      → flash_size format (start_chunk format d offset bytes remaining).buffer
        ≤ flash_size format d + remaining
  unfolding start_chunk flash_size
  start_chunk-size d offset bytes remaining aligned =
      let room = ((remaining - 2 * format.chunk_header_len) / blocksize) * blocksize in
      ground (
        arith,
        chunk_take_aligned (length bytes) room (offset % blocksize) aligned,
        length-take (chunk_take (length bytes) room (offset % blocksize)) bytes,
        next_multiple-min-le (length bytes) (remaining - 2 * format.chunk_header_len),
      )

  extend_chunk-size :
      (last : FastbootChunk) (before : List FastbootChunk) (offset : ℕ) (bytes : Bytes)
      (remaining : ℕ)
      → offset % blocksize ≡ 0
      → flash_size format (extend_chunk format last before offset bytes remaining).buffer
        ≤ flash_size format (record { chunks = last ∷ before }) + remaining
  unfolding extend_chunk flash_size
  extend_chunk-size last before offset bytes remaining aligned =
      let n = min (length bytes) ((remaining / blocksize) * blocksize) in
      ground (
        arith,
        length-take n bytes,
        padded_lengths-append last.pieces (take n bytes ∷ []),
        next_multiple-min-le (length bytes) remaining,
        start_chunk-size (record { chunks = last ∷ before }) offset bytes remaining aligned,
      )

  append-size_of_chunks :
      (cs : List FastbootChunk) (offset : ℕ) (bytes : Bytes) (max_size : ℕ)
      → max_size < 2 ^ 64
      → offset % blocksize ≡ 0
      → flash_size format (record { chunks = cs }) ≤ max_size
      → flash_size format (append format (record { chunks = cs }) offset bytes max_size).buffer
        ≤ max_size
  unfolding append
  append-size_of_chunks [] offset bytes max_size word aligned fits =
      let d : FastbootData = no_data in
      let room = sub_usize max_size (flash_size format d) in
      omega (
        arith,
        sub_usize_lem max_size (flash_size format d) fits word,
        start_chunk-size d offset bytes room aligned,
      )
  append-size_of_chunks (last ∷ before) offset bytes max_size word aligned fits =
      let d : FastbootData = record { chunks = last ∷ before } in
      let room = sub_usize max_size (flash_size format d) in
      omega (
        arith,
        sub_usize_lem max_size (flash_size format d) fits word,
        extend_chunk-size last before offset bytes room aligned,
      )

  -- Data at a block boundary never makes the buffer's download larger than the device allows, if
  -- it was not before and the limit fits in 64 bits.
  pub append-size :
      (d : FastbootData) (offset : ℕ) (bytes : Bytes) (max_size : ℕ)
      → max_size < 2 ^ 64
      → offset % blocksize ≡ 0
      → flash_size format d ≤ max_size
      → flash_size format (append format d offset bytes max_size).buffer ≤ max_size
  append-size d = append-size_of_chunks d.chunks

  -- A chunk of its own takes at least one byte where there is room for a block.
  start_chunk-Progress :
      (d : FastbootData) (offset : ℕ) (bytes : Bytes) (remaining : ℕ)
      → 2 * format.chunk_header_len + blocksize ≤ remaining
      → remaining < 2 ^ 64
      → 0 < length bytes
      → Progress bytes (start_chunk format d offset bytes remaining)
  unfolding start_chunk
  start_chunk-Progress d offset bytes remaining room word some_bytes = record {
    took = ground arith;
    less =
        let free = ((remaining - 2 * format.chunk_header_len) / blocksize) * blocksize in
        let rem = offset % blocksize in
        ground (
          arith,
          length-drop (chunk_take (length bytes) free rem) bytes,
          chunk_take_pos (length bytes) free rem some_bytes (omega arith) (omega arith)
              (omega arith),
        );
    kept = ground arith;
  }

  extend_chunk-Advances :
      (last : FastbootChunk) (before : List FastbootChunk) (offset : ℕ) (bytes : Bytes)
      (remaining : ℕ)
      → 2 * format.chunk_header_len + blocksize ≤ remaining
      → remaining < 2 ^ 64
      → 0 < length bytes
      → Advances (last ∷ before) bytes (extend_chunk format last before offset bytes remaining)
  unfolding extend_chunk
  extend_chunk-Advances last before offset bytes remaining room word some_bytes =
      elim (Bool-cases (nat_beq (end_bytes last) offset)) [
        | inl same ↦
            rw (same, extend_chunk)
              (inl (record {
                took = refl;
                less = omega (
                  arith,
                  length-drop (min (length bytes) ((remaining / blocksize) * blocksize)) bytes,
                );
                kept = ground arith;
              }))
        | inr other ↦ elim (Bool-cases (ltb offset (end_bytes last))) [
          | inl behind ↦ rw (other, behind, extend_chunk) (inr (refl, refl, refl, λ e. cc))
          | inr past ↦
              rw (other, past, extend_chunk)
                (inl (
                  start_chunk-Progress (record { chunks = last ∷ before }) offset bytes remaining
                    room word some_bytes))
        ]
      ]

  append-Advances_of_chunks :
      (cs : List FastbootChunk) (offset : ℕ) (bytes : Bytes) (max_size : ℕ)
      → max_size < 2 ^ 64
      → flash_size format (record { chunks = cs }) + 2 * format.chunk_header_len + blocksize
        ≤ max_size
      → 0 < length bytes
      → Advances cs bytes (append format (record { chunks = cs }) offset bytes max_size)
  unfolding append
  append-Advances_of_chunks [] offset bytes max_size word fits some_bytes =
      let d : FastbootData = no_data in
      let room = sub_usize_lem max_size (flash_size format d) (omega arith) word in
      inl (
        start_chunk-Progress d offset bytes (sub_usize max_size (flash_size format d))
          (omega (arith, room)) (omega (arith, room)) some_bytes)
  append-Advances_of_chunks (last ∷ before) offset bytes max_size word fits some_bytes =
      let d : FastbootData = record { chunks = last ∷ before } in
      let room = sub_usize_lem max_size (flash_size format d) (omega arith) word in
      extend_chunk-Advances last before offset bytes (sub_usize max_size (flash_size format d))
        (omega (arith, room)) (omega (arith, room)) some_bytes

  -- Where the buffer leaves room for two headers and a block, and the limit fits in 64 bits,
  -- append takes at least one byte of data that is not empty, or it takes none, changes nothing,
  -- and there was something in the buffer.
  pub append-Advances :
      (d : FastbootData) (offset : ℕ) (bytes : Bytes) (max_size : ℕ)
      → max_size < 2 ^ 64
      → flash_size format d + 2 * format.chunk_header_len + blocksize ≤ max_size
      → 0 < length bytes
      → Advances d.chunks bytes (append format d offset bytes max_size)
  append-Advances d = append-Advances_of_chunks d.chunks
