-- ===== src/Fastboot/Aligned.antt =====
-- Writes of whole blocks at block boundaries keep the buffer's image consistent.
use boardswarm.Prelude.{
  ℕ, zero, suc, ◌+◌, ◌-◌, ◌*◌, ◌/◌, ◌%◌, ◌^◌, ◌≤◌, ◌<◌, ◌≡◌, refl, true, List, [], ◌∷◌, ◌++◌, All,
  All-append, ◌⊎◌, inl, inr, arith, length, take, length-take, Bytes, nat_beq, Bool-cases, ltb, min,
}
use boardswarm.Fastboot.Data.{
  SparseFormat, FastbootChunk, FastbootData, blocksize, div_ceil_block, sum_lengths, end_bytes,
  expanded_blocks, append, start_chunk, extend_chunk, chunk_take,
}
use boardswarm.Fastboot.Bounds.{sum_lengths-append}
use boardswarm.Fastboot.Image.{Blocky, buffer_of}
use boardswarm.Fastboot.Consistent.{Follows, IsSparse}

abbrev pub IsWholePiece : Bytes → Type 0
IsWholePiece b = length b % blocksize ≡ 0

-- The pieces of the last chunk are as told, those of the older chunks of whole blocks.
abbrev pub Laid : (List Bytes → Type 0) → List FastbootChunk → Type 0
Laid P [] = Unit {0}
Laid P (c ∷ before) =
    P c.pieces
    × Follows before c
    × (c.offset + div_ceil_block (sum_lengths c.pieces) < 2 ^ 32)
    × Laid (All IsWholePiece) before

abbrev pub IsWhole : List FastbootChunk → Type 0
IsWhole = Laid (All IsWholePiece)

Blocky-whole : (ds : List Bytes) → All IsWholePiece ds → Blocky ds
Blocky-whole [] h = tt
Blocky-whole (b ∷ []) h = tt
Blocky-whole (b ∷ c ∷ rest) h = (h.0, Blocky-whole (c ∷ rest) h.1)

IsSparse-whole : (cs : List FastbootChunk) → IsWhole cs → IsSparse cs
IsSparse-whole [] h = tt
IsSparse-whole (c ∷ before) h = (Blocky-whole c.pieces h.0, h.1, h.2, IsSparse-whole before h.3)

pub IsSparse-Laid : (cs : List FastbootChunk) → Laid Blocky cs → IsSparse cs
IsSparse-Laid [] h = tt
IsSparse-Laid (c ∷ before) h = (h.0, h.1, h.2, IsSparse-whole before h.3)

sum_lengths-whole : (ds : List Bytes) → All IsWholePiece ds → sum_lengths ds % blocksize ≡ 0
sum_lengths-whole [] h = refl
sum_lengths-whole (d ∷ ds) h = omega (arith, h.0, sum_lengths-whole ds h.1)

Blocky-append_last : (ds : List Bytes) (b : Bytes) → All IsWholePiece ds → Blocky (ds ++ b ∷ [])
Blocky-append_last [] b h = tt
Blocky-append_last (d ∷ []) b h = (h.0, tt)
Blocky-append_last (d ∷ e ∷ rest) b h = (h.0, Blocky-append_last (e ∷ rest) b h.1)

-- A length that `append` takes: whole blocks, or all that there is.
abbrev Taken : Bytes → ℕ → Type 0
Taken bytes n = (n ≤ length bytes) × ((n % blocksize ≡ 0) ⊎ (n ≡ length bytes))

Taken-min : (bytes : Bytes) (r : ℕ) → Taken bytes (min (length bytes) ((r / blocksize) * blocksize))
Taken-min bytes r = omega arith

-- A new chunk past a whole last one leaves a gap.
Follows-past :
    (last : FastbootChunk) (before : List FastbootChunk) (offset : ℕ)
    → IsWhole (last ∷ before)
    → offset % blocksize ≡ 0
    → end_bytes last < offset
    → (bytes : List Bytes)
    → Follows (last ∷ before) (record { offset = offset / blocksize; pieces = bytes })
unfolding end_bytes expanded_blocks
Follows-past last before offset h aligned past bytes =
    inr (omega (arith, sum_lengths-whole last.pieces h.0, h.2))

Follows-first : (block : ℕ) (ps : List Bytes) → Follows [] (record { offset = block; pieces = ps })
unfolding expanded_blocks
Follows-first zero ps = inl (refl, refl)
Follows-first (suc b) ps = inr (omega arith)

-- What holds of the pieces once data is taken.
module _ (format : SparseFormat) (P : List Bytes → Type 0) (bytes : Bytes)
    (grow : (ds : List Bytes) (n : ℕ)
      → Taken bytes n
      → All IsWholePiece ds
      → P (ds ++ take n bytes ∷ []))
    (offset : ℕ) (aligned : offset % blocksize ≡ 0)
    (low : (offset + length bytes) / blocksize + 1 < 2 ^ 32) where
  start_chunk-Laid :
      (cs : List FastbootChunk) (remaining : ℕ)
      → IsWhole cs
      → ((ps : List Bytes) → Follows cs (record { offset = offset / blocksize; pieces = ps }))
      → (start_chunk format (buffer_of cs) offset bytes remaining).taken ≡ true
      → Laid P (start_chunk format (buffer_of cs) offset bytes remaining).buffer.chunks
  unfolding start_chunk chunk_take
  start_chunk-Laid cs remaining whole follows took =
      let r = remaining - 2 * format.chunk_header_len in
      let n = min (length bytes) ((r / blocksize) * blocksize) in
      let block : (offset / blocksize) % 2 ^ 32 ≡ offset / blocksize = omega arith in
      elim (Bool-cases (ltb r blocksize)) [
        | inl small ↦ absurd (ground (arith, small, took))
        | inr large ↦
            rw (large, aligned, block, start_chunk)
              (
                grow [] n (Taken-min bytes r) tt,
                follows (take n bytes ∷ []),
                omega (arith, length-take n bytes),
                whole,
              )
      ]

  extend_chunk-Laid :
      (last : FastbootChunk) (before : List FastbootChunk) (remaining : ℕ)
      → IsWhole (last ∷ before)
      → (extend_chunk format last before offset bytes remaining).taken ≡ true
      → Laid P (extend_chunk format last before offset bytes remaining).buffer.chunks
  unfolding extend_chunk
  extend_chunk-Laid last before remaining whole took =
      let n = min (length bytes) ((remaining / blocksize) * blocksize) in
      elim (Bool-cases (nat_beq (end_bytes last) offset)) [
        | inl same ↦
            let ends : end_bytes last ≡ offset = ground arith in
            rw (same, extend_chunk)
              (
                grow last.pieces n (Taken-min bytes remaining) whole.0,
                whole.1,
                unfold end_bytes in
                    omega (
                      arith,
                      ends,
                      sum_lengths-append last.pieces (take n bytes ∷ []),
                      length-take n bytes,
                    ),
                whole.3,
              )
        | inr other ↦ elim (Bool-cases (ltb offset (end_bytes last))) [
          | inl behind ↦ absurd (ground (arith, other, behind, took))
          | inr past ↦
              rw (other, past, extend_chunk)
                (start_chunk-Laid (last ∷ before) remaining whole
                  (Follows-past last before offset whole aligned (ground (arith, other, past)))
                  (ground (arith, other, past, took)))
        ]
      ]

  append-Laid :
      (cs : List FastbootChunk) (max_size : ℕ)
      → IsWhole cs
      → (append format (buffer_of cs) offset bytes max_size).taken ≡ true
      → Laid P (append format (buffer_of cs) offset bytes max_size).buffer.chunks
  unfolding append
  append-Laid [] max_size whole took =
      start_chunk-Laid [] _ whole (Follows-first (offset / blocksize)) took
  append-Laid (last ∷ before) max_size whole took = extend_chunk-Laid last before _ whole took

module _ (format : SparseFormat) (d : FastbootData) (offset : ℕ) (bytes : Bytes) (max_size : ℕ)
    (aligned : offset % blocksize ≡ 0) (low : (offset + length bytes) / blocksize + 1 < 2 ^ 32)
    (whole : IsWhole d.chunks) (took : (append format d offset bytes max_size).taken ≡ true) where
  -- Data of any length, taken at a block boundary into a buffer of whole blocks, leaves a buffer
  -- whose sparse image is consistent: whole blocks but for the end, gaps between the chunks. Block
  -- numbers fit in 32 bits.
  pub append-IsSparse : IsSparse (append format d offset bytes max_size).buffer.chunks
  append-IsSparse = IsSparse-Laid _ (
      append-Laid format Blocky bytes (λ ds n t w. Blocky-append_last ds (take n bytes) w) offset
        aligned low d.chunks max_size whole took)

  -- If the data is of whole blocks too, so is the buffer, and the next write can follow.
  pub append-IsWhole :
      length bytes % blocksize ≡ 0 → IsWhole (append format d offset bytes max_size).buffer.chunks
  append-IsWhole blocks_only =
      append-Laid format (All IsWholePiece) bytes
        (λ ds n t w.
          All-append IsWholePiece ds (take n bytes ∷ []) w
            (omega (arith, length-take n bytes, t, blocks_only), tt))
        offset aligned low d.chunks max_size whole took
