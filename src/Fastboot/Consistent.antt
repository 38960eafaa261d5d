-- ===== src/Fastboot/Consistent.antt =====
-- What the device is told of a download, against what is sent to it.
use boardswarm.Prelude.{
  ℕ, ◌+◌, ◌*◌, ◌^◌, ◌≤◌, ◌<◌, ◌≡◌, refl, List, [], ◌∷◌, ◌++◌, map, ◌⊎◌, inl, inr, arith, length,
  replicate, length-replicate, nat_beq, if◌then◌else◌, Bool-cases, ltb, some, sub_u32,
}
use boardswarm.Fastboot.Data.{
  SparseFormat, FastbootChunk, blocksize, div_ceil_block, next_multiple_of_block, sum_lengths,
  blocks, end_blocks, end_padding, expanded_blocks, chunk_flash_size, chunks_flash_size,
  flash_chunks, first_of_chunks,
}
use boardswarm.Fastboot.Encode.{Part, dontcare_chunk, raw_chunk, content, chunk_parts, data_parts}
use boardswarm.Fastboot.Image.{
  total, total-append, total-data_parts, header_count, block_count, byte_count, buffer_of, Blocky,
  padded_lengths-Blocky, total-content, byte_count-content,
}

-- A chunk starts the image, or leaves a gap behind what stands before it.
abbrev pub Follows : List FastbootChunk → FastbootChunk → Type 0
Follows before c =
    ((before ≡ []) × (c.offset ≡ 0)) ⊎ (expanded_blocks (buffer_of before) < c.offset)

-- Whole blocks but for the end of each chunk, gaps between the chunks, and block numbers of 32 bits.
abbrev pub IsSparse : List FastbootChunk → Type 0
IsSparse [] = Unit {0}
IsSparse (c ∷ before) =
    Blocky c.pieces
    × Follows before c
    × (c.offset + div_ceil_block (sum_lengths c.pieces) < 2 ^ 32)
    × IsSparse before

-- Whether a gap is encoded.
abbrev pub gap : ℕ → FastbootChunk → ℕ
gap o c = if nat_beq c.offset o then 0 else 1

module _ (f : Part → ℕ) where
  total-chunk_parts :
      (o : ℕ) (c : FastbootChunk)
      → total f (chunk_parts o c)
        ≡ (if nat_beq c.offset o then 0 else f (dontcare_chunk (sub_u32 c.offset o)))
          + f (raw_chunk (blocks c))
          + total f (map content c.pieces)
          + (if nat_beq (end_padding c) 0 then 0 else f (content (replicate (end_padding c) 0)))
  unfolding chunk_parts
  total-chunk_parts o c = elim (Bool-cases (nat_beq c.offset o)) [
    | inl joins ↦ rw joins (omega (arith, tail))
    | inr gaps ↦ rw gaps (omega (arith, tail))
  ]
    where
      padding : List Part
      padding = if nat_beq (end_padding c) 0 then [] else content (replicate (end_padding c) 0) ∷ []

      tail :
          total f (map content c.pieces ++ padding)
          ≡ total f (map content c.pieces)
            + (if nat_beq (end_padding c) 0 then 0 else f (content (replicate (end_padding c) 0)))
      tail = ground (arith, total-append f (map content c.pieces) padding)

header_count-chunk :
    (o : ℕ) (c : FastbootChunk) → total header_count (chunk_parts o c) ≡ gap o c + 1
unfolding header_count
header_count-chunk o c =
    ground
      (arith, total-chunk_parts header_count o c, total-content header_count c.pieces (λ b. refl))

block_count-chunk :
    (o : ℕ) (c : FastbootChunk)
    → o ≤ c.offset
    → c.offset + div_ceil_block (sum_lengths c.pieces) < 2 ^ 32
    → o + total block_count (chunk_parts o c) ≡ end_blocks c
unfolding block_count end_blocks
block_count-chunk o c le low =
    ground
      (arith, total-chunk_parts block_count o c, total-content block_count c.pieces (λ b. refl))

pub byte_count-padded :
    (format : SparseFormat) (o : ℕ) (c : FastbootChunk)
    → total (byte_count format) (chunk_parts o c)
      ≡ gap o c * format.chunk_header_len
        + format.chunk_header_len
        + next_multiple_of_block (sum_lengths c.pieces)
unfolding byte_count end_padding
byte_count-padded format o c = ground (
  arith,
  total-chunk_parts (byte_count format) o c,
  byte_count-content format c.pieces,
  format.length-dontcare (sub_u32 c.offset o),
  format.length-raw (blocks c) blocksize,
  length-replicate (end_padding c) zero_byte,
)
  where
    zero_byte : ℕ
    zero_byte = 0

-- The chunk after a gap has a positive offset, and the first one of an image may have none.
gap-Follows :
    (before : List FastbootChunk) (c : FastbootChunk)
    → Follows before c
    → (gap (expanded_blocks (buffer_of before)) c ≡ (if ltb 0 c.offset then 1 else 0))
      × (expanded_blocks (buffer_of before) ≤ c.offset)
unfolding expanded_blocks
gap-Follows [] c (inl h) = ground (arith, h.1)
gap-Follows (b ∷ bs) c (inl h) = absurd (ground (arith, h.0))
gap-Follows [] c (inr h) = ground arith
gap-Follows (b ∷ bs) c (inr h) = ground arith

pub bytes_sent :
    (format : SparseFormat) (cs : List FastbootChunk)
    → IsSparse cs
    → total (byte_count format) (data_parts (buffer_of cs)) ≡ chunks_flash_size format cs
unfolding data_parts chunk_flash_size
bytes_sent format [] h = refl
bytes_sent format (c ∷ before) h = ground (
  arith,
  total-data_parts (byte_count format) c before,
  byte_count-padded format (expanded_blocks (buffer_of before)) c,
  padded_lengths-Blocky c.pieces h.0,
  gap-Follows before c h.1,
  bytes_sent format before h.3,
)

pub blocks_sent :
    (cs : List FastbootChunk)
    → IsSparse cs
    → total block_count (data_parts (buffer_of cs)) ≡ expanded_blocks (buffer_of cs)
unfolding data_parts expanded_blocks
blocks_sent [] h = refl
blocks_sent (c ∷ before) h = omega (
  arith,
  total-data_parts block_count c before,
  block_count-chunk (expanded_blocks (buffer_of before)) c (gap-Follows before c h.1).1 h.2,
  blocks_sent before h.3,
)

-- The gap that the first chunk does without.
abbrev pub first_gap : List FastbootChunk → ℕ
first_gap [] = 0
first_gap (c ∷ []) = if ltb 0 c.offset then 0 else 1
first_gap (c ∷ b ∷ rest) = first_gap (b ∷ rest)

pub headers_sent :
    (cs : List FastbootChunk)
    → IsSparse cs
    → total header_count (data_parts (buffer_of cs)) + first_gap cs ≡ 2 * length cs
unfolding data_parts
headers_sent [] h = omega arith
headers_sent (c ∷ []) h = ground (
  arith,
  total-data_parts header_count c [],
  header_count-chunk (expanded_blocks (buffer_of [])) c,
  gap-Follows [] c h.1,
  headers_sent [] tt,
)
headers_sent (c ∷ b ∷ rest) h = ground (
  arith,
  total-data_parts header_count c (b ∷ rest),
  header_count-chunk (expanded_blocks (buffer_of (b ∷ rest))) c,
  gap-Follows (b ∷ rest) c h.1,
  headers_sent (b ∷ rest) h.3,
)

first_gap-first :
    (c : FastbootChunk) (rest : List FastbootChunk)
    → (f : FastbootChunk) × (first_of_chunks (c ∷ rest) ≡ some f)
      × (first_gap (c ∷ rest) ≡ (if ltb 0 f.offset then 0 else 1))
first_gap-first c [] = (c, refl, refl)
first_gap-first c (b ∷ rest) = first_gap-first b rest

pub flash_chunks-first_gap :
    (cs : List FastbootChunk)
    → 2 * length cs < 2 ^ 32
    → flash_chunks (buffer_of cs) + first_gap cs ≡ 2 * length cs
unfolding flash_chunks
flash_chunks-first_gap [] h = omega arith
flash_chunks-first_gap (c ∷ rest) h =
    let (f, first, gap_) = first_gap-first c rest in ground (arith, first, gap_)
