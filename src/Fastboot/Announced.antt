-- ===== src/Fastboot/Announced.antt =====
-- What the device is told of a download, against what is sent to it: the statements.
use boardswarm.Prelude.{ℕ, ◌+◌, ◌*◌, ◌%◌, ◌^◌, ◌≤◌, ◌<◌, ◌≡◌, ap, [], ◌∷◌, arith, length, Bytes}
use boardswarm.Fastboot.Data.{
  SparseFormat, FastbootChunk, FastbootData, blocksize, expanded_blocks, flash_size, flash_chunks,
}
use boardswarm.Fastboot.Encode.{data_parts}
use boardswarm.Fastboot.Image.{
  total, total-data_parts, header_count, block_count, byte_count, buffer_of,
}
use boardswarm.Fastboot.Consistent.{
  IsSparse, bytes_sent, blocks_sent, headers_sent, flash_chunks-first_gap, byte_count-padded,
}

-- The image of a buffer of whole blocks with gaps between its chunks: the bytes that are sent are as
-- many as the download announces, and the file header's numbers of chunks and of blocks are those
-- of the chunk headers that follow it.
pub record IsConsistent (format : SparseFormat) (d : FastbootData) : Type 0 where
  pub bytes :
      format.file_header_len + total (byte_count format) (data_parts d) ≡ flash_size format d
  pub chunk_headers : total header_count (data_parts d) ≡ flash_chunks d
  pub image_blocks : total block_count (data_parts d) ≡ expanded_blocks d

-- The sparse image of a buffer agrees with what announces it, in bytes, chunk headers and blocks,
-- where the pieces of each chunk but the last are of whole blocks, the chunks have gaps between
-- them, and the counts fit in 32 bits.
pub sparse_image-IsConsistent :
    (format : SparseFormat) (d : FastbootData)
    → IsSparse d.chunks
    → 2 * length d.chunks < 2 ^ 32
    → IsConsistent format d
unfolding flash_size
sparse_image-IsConsistent format d h few = record {
  bytes = ap (λ n. format.file_header_len + n) (bytes_sent format d.chunks h);
  chunk_headers = omega (arith, headers_sent d.chunks h, flash_chunks-first_gap d.chunks few);
  image_blocks = blocks_sent d.chunks h;
}

-- Two pieces in one chunk behind the first block, whose parts of blocks fit in one block: the
-- download announces a block more than is sent.
pub split_block_announced_twice :
    (format : SparseFormat) (offset : ℕ) (a b : Bytes)
    → 0 < length a % blocksize
    → 0 < length b % blocksize
    → length a % blocksize + length b % blocksize ≤ blocksize
    → 0 < offset
    → let d = buffer_of (record { offset = offset; pieces = a ∷ b ∷ [] } ∷ []) in
      format.file_header_len + total (byte_count format) (data_parts d) + blocksize
      ≡ flash_size format d
unfolding flash_size data_parts expanded_blocks
split_block_announced_twice format offset a b ha hb hab pos =
    let c : FastbootChunk = record { offset = offset; pieces = a ∷ b ∷ [] } in
    ground (arith, total-data_parts (byte_count format) c [], byte_count-padded format 0 c)
