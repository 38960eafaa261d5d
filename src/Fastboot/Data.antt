-- ===== src/Fastboot/Data.antt =====
-- `FastbootChunk` and `FastbootData` of boardswarm/src/fastboot.rs.
use boardswarm.Prelude.{
  ℕ, ◌+◌, ◌-◌, ◌*◌, ◌/◌, ◌%◌, ◌≡◌, Bool, true, false, Option, none, some, List, [], ◌∷◌, ◌++◌, min,
  ltb, nat_beq, if◌then◌else◌, length, take, drop, replicate, is_empty, Bytes, as_u32, add_u32,
  sub_usize,
}

-- What the server uses of the `android_sparse_image` crate: its headers and their lengths.
pub record SparseFormat : Type 0 where
  pub file_header_len : ℕ
  pub chunk_header_len : ℕ
  -- block size, blocks, chunks, checksum
  pub file_header : ℕ → ℕ → ℕ → ℕ → Bytes
  pub dontcare : ℕ → Bytes
  pub raw : ℕ → ℕ → Bytes
  pub length-file_header : (b n c s : ℕ) → length (file_header b n c s) ≡ file_header_len
  pub length-dontcare : (n : ℕ) → length (dontcare n) ≡ chunk_header_len
  pub length-raw : (n b : ℕ) → length (raw n b) ≡ chunk_header_len

abbrev pub blocksize : ℕ
blocksize = 4096

-- `div_ceil` and `next_multiple_of` at the block size.
abbrev pub div_ceil_block : ℕ → ℕ
div_ceil_block n = (n + 4095) / 4096

abbrev pub next_multiple_of_block : ℕ → ℕ
next_multiple_of_block n = div_ceil_block n * 4096

pub record FastbootChunk : Type 0 where
  -- in blocks
  pub offset : ℕ
  pub pieces : List Bytes

abbrev pub sum_lengths : List Bytes → ℕ
sum_lengths [] = 0
sum_lengths (d ∷ ds) = length d + sum_lengths ds

unfoldable pub offset_bytes : FastbootChunk → ℕ
offset_bytes c = c.offset * blocksize

unfoldable pub data_bytes : FastbootChunk → ℕ
data_bytes c = sum_lengths c.pieces

unfoldable pub end_bytes : FastbootChunk → ℕ
unfolding offset_bytes data_bytes
end_bytes c = offset_bytes c + data_bytes c

unfoldable pub blocks : FastbootChunk → ℕ
unfolding data_bytes
blocks c = as_u32 (div_ceil_block (data_bytes c))

unfoldable pub end_blocks : FastbootChunk → ℕ
unfolding blocks
end_blocks c = add_u32 c.offset (blocks c)

unfoldable pub end_padding : FastbootChunk → ℕ
unfolding data_bytes
end_padding c = let rem = data_bytes c % blocksize in if ltb 0 rem then blocksize - rem else 0

-- The vector of chunks with its last one first.
pub record FastbootData : Type 0 where
  pub chunks : List FastbootChunk

abbrev pub no_data : FastbootData
no_data = record { chunks = [] }

unfoldable pub data_is_empty : FastbootData → Bool
data_is_empty d = is_empty d.chunks

unfoldable pub can_write_raw : FastbootData → Bool
can_write_raw d = elim d.chunks [
  | [] ↦ false
  | c ∷ before ↦ if is_empty before then nat_beq c.offset 0 else false
]

unfoldable pub n_chunks : FastbootData → ℕ
n_chunks d = length d.chunks

unfoldable pub expanded_blocks : FastbootData → ℕ
unfolding end_blocks
expanded_blocks d = elim d.chunks [ [] ↦ 0 | last ∷ before ↦ end_blocks last ]

abbrev pub padded_lengths : List Bytes → ℕ
padded_lengths [] = 0
padded_lengths (d ∷ ds) = next_multiple_of_block (length d) + padded_lengths ds

module _ (format : SparseFormat) where
  unfoldable pub chunk_flash_size : FastbootChunk → ℕ
  chunk_flash_size c =
      (if ltb 0 c.offset then 2 * format.chunk_header_len else format.chunk_header_len)
      + padded_lengths c.pieces

  abbrev pub chunks_flash_size : List FastbootChunk → ℕ
  chunks_flash_size [] = 0
  chunks_flash_size (c ∷ cs) = chunk_flash_size c + chunks_flash_size cs

  unfoldable pub flash_size : FastbootData → ℕ
  unfolding chunk_flash_size
  flash_size d = format.file_header_len + chunks_flash_size d.chunks

abbrev pub first_of_chunks : List FastbootChunk → Option FastbootChunk
first_of_chunks [] = none
first_of_chunks (c ∷ []) = some c
first_of_chunks (c ∷ b ∷ rest) = first_of_chunks (b ∷ rest)

unfoldable pub flash_chunks : FastbootData → ℕ
unfolding n_chunks
flash_chunks d = elim (first_of_chunks d.chunks) [
  | none ↦ as_u32 (n_chunks d * 2)
  | some first ↦
      if nat_beq first.offset 0 then as_u32 (n_chunks d * 2 - 1) else as_u32 (n_chunks d * 2)
]

-- `append`: whether it took data, the buffer, and the data that is left.
pub record Appended : Type 0 where
  pub taken : Bool
  pub buffer : FastbootData
  pub rest : Bytes

-- How much a new chunk takes of the data, behind the padding up to its offset in the block.
unfoldable pub chunk_take : ℕ → ℕ → ℕ → ℕ
chunk_take len room rem = if ltb 0 rem then min len (sub_usize room rem) else min len room

-- The second half of `append`: a chunk of its own.
unfoldable pub start_chunk : SparseFormat → FastbootData → ℕ → Bytes → ℕ → Appended
start_chunk format d offset bytes remaining0 =
    let remaining = remaining0 - 2 * format.chunk_header_len in
    let room = (remaining / blocksize) * blocksize in
    let rem = offset % blocksize in
    let n = chunk_take (length bytes) room rem in
    let pieces : List Bytes =
      if ltb 0 rem then replicate rem 0 ∷ take n bytes ∷ [] else take n bytes ∷ [] in
    if ltb remaining blocksize then record { taken = false; buffer = d; rest = bytes } else record {
      taken = true;
      buffer = record {
        chunks = record { offset = as_u32 (offset / blocksize); pieces = pieces } ∷ d.chunks;
      };
      rest = drop n bytes;
    }

-- The first half, when there is a last chunk.
unfoldable pub extend_chunk :
    SparseFormat → FastbootChunk → List FastbootChunk → ℕ → Bytes → ℕ → Appended
unfolding start_chunk end_bytes
extend_chunk format last before offset bytes remaining =
    let d : FastbootData = record { chunks = last ∷ before } in
    let n = min (length bytes) ((remaining / blocksize) * blocksize) in
    if nat_beq (end_bytes last) offset
    then record {
      taken = true;
      buffer = record {
        chunks = record last { pieces = last.pieces ++ take n bytes ∷ [] } ∷ before;
      };
      rest = drop n bytes;
    }
    else if ltb offset (end_bytes last)
    then record { taken = false; buffer = d; rest = bytes }
    else start_chunk format d offset bytes remaining

unfoldable pub append : SparseFormat → FastbootData → ℕ → Bytes → ℕ → Appended
unfolding start_chunk extend_chunk flash_size
append format d offset bytes max_size =
    let remaining = sub_usize max_size (flash_size format d) in
    elim d.chunks [
      | [] ↦ start_chunk format d offset bytes remaining
      | last ∷ before ↦ extend_chunk format last before offset bytes remaining
    ]
