-- ===== src/Fastboot/Examples.antt =====
-- Runs of the fastboot buffer and of its target at concrete inputs.
use boardswarm.Prelude.{
  Outcome, err, Option, none, String, ◌==◌, string_eq, if◌then◌else◌, ℕ, ◌+◌, ◌*◌, ◌≤◌, ◌<◌, ◌≡◌,
  refl, [], ◌∷◌, arith, inl, inr, length, take, drop, replicate, some, length-replicate,
  length-drop, Bytes, ok,
}
use boardswarm.Fastboot.Data.{
  SparseFormat, FastbootData, no_data, blocksize, flash_size, append, start_chunk, expanded_blocks,
  end_blocks, blocks, data_bytes,
}
use boardswarm.Fastboot.Target.{
  FastbootVolumeTarget, FastbootDevice, flash, send, written_after, write, threshold,
}
use boardswarm.Fastboot.Bounds.{append-size}
use boardswarm.Fastboot.Write.{IsRoomy, Returned, write_total}
use boardswarm.Fastboot.Placement.{Placed, append-Placed}
use boardswarm.Fastboot.Split.{room, one_chunk, split_write_misplaced}
use boardswarm.Fastboot.Image.{total, byte_count, buffer_of}
use boardswarm.Fastboot.Consistent.{IsSparse}
use boardswarm.Fastboot.Encode.{data_parts, FastbootRequest}
use boardswarm.Fastboot.Announced.{
  IsConsistent, sparse_image-IsConsistent, split_block_announced_twice,
}
use boardswarm.VolumeIo.Replies.{VolumeTargetInfo}
use boardswarm.Fastboot.Volume.{FastbootVolume}
use boardswarm.Fastboot.Aligned.{append-IsSparse}

-- Headers of the lengths that the sparse format has.
abbrev format : SparseFormat
format = record {
  file_header_len = 28;
  chunk_header_len = 12;
  file_header = λ b n c s. replicate 28 0;
  dontcare = λ n. replicate 12 0;
  raw = λ n b. replicate 12 0;
  length-file_header = λ b n c s. length-replicate {A = ℕ} 28 0;
  length-dontcare = λ n. length-replicate {A = ℕ} 12 0;
  length-raw = λ n b. length-replicate {A = ℕ} 12 0;
}

abbrev max_download : ℕ
max_download = 16384

abbrev small : Bytes
small = 1 ∷ 2 ∷ 3 ∷ []

abbrev device : FastbootDevice
device = record { sent = []; accepts = 4 }

abbrev target : FastbootVolumeTarget
target = record {
  device = device;
  target = "userdata";
  max_download = max_download;
  buffered = no_data;
}

roomy : IsRoomy format max_download
roomy = record { word = omega arith; two_blocks = omega arith; headers = omega arith }

append-size_example :
    flash_size format (append format no_data 8192 small max_download).buffer ≤ max_download
unfolding flash_size
append-size_example =
    append-size format no_data 8192 small max_download (omega arith) (omega arith) (omega arith)

append-Placed_example : Placed [] 8193 small (append format no_data 8193 small max_download)
unfolding append start_chunk flash_size
append-Placed_example = append-Placed format no_data 8193 small max_download (omega arith) refl

write_total_example : Returned format target (write format target small 4096)
write_total_example = write_total format target small 4096 roomy (inl refl)

-- More than one download takes, but less than two downloads.
abbrev large : Bytes
large = replicate 13000 7

large-length : length large ≡ 13000
large-length = length-replicate {A = ℕ} 13000 7

abbrev sent_device : FastbootDevice
sent_device = record {
  sent = flash "userdata" (one_chunk 1 (take (room format max_download) large)) ∷ [];
  accepts = 3;
}

room_less : room format max_download < length large
unfolding room
room_less = rw large-length (omega arith)

room_twice : length large ≤ 2 * room format max_download
unfolding room
room_twice = rw large-length (omega arith)

rest_small :
    flash_size format (one_chunk 1 (drop (room format max_download) large)) ≤ threshold max_download
unfolding room flash_size threshold
rest_small = omega (arith, length-drop (room format max_download) large, large-length)

sent_first :
    send device (flash "userdata" (one_chunk 1 (take (room format max_download) large)))
    ≡ ok sent_device
unfolding send
sent_first = refl

split_write_misplaced_example :
    write format target large 4096
    ≡ some (
      record target {
        device = sent_device;
        buffered = one_chunk 1 (drop (room format max_download) large);
      },
      written_after 1 (length large),
    )
split_write_misplaced_example =
    split_write_misplaced format target sent_device large 4096 roomy refl refl (omega arith)
      room_less room_twice rest_small sent_first

-- Two chunks with a gap between them and before them.
abbrev gapped : FastbootData
gapped = record {
  chunks =
      record { offset = 9; pieces = small ∷ [] } ∷ record { offset = 2; pieces = small ∷ [] } ∷ [];
}

gapped-IsSparse : IsSparse gapped.chunks
unfolding expanded_blocks end_blocks blocks data_bytes
gapped-IsSparse = (tt, inr (omega arith), omega arith, (tt, inr (omega arith), omega arith, tt))

sparse_image-IsConsistent_example : IsConsistent format gapped
sparse_image-IsConsistent_example =
    sparse_image-IsConsistent format gapped gapped-IsSparse (omega arith)

split_block_announced_twice_example :
    28
      + total
          (byte_count format)
          (data_parts (buffer_of (record { offset = 1; pieces = small ∷ small ∷ [] } ∷ [])))
      + blocksize
    ≡ flash_size format (buffer_of (record { offset = 1; pieces = small ∷ small ∷ [] } ∷ []))
split_block_announced_twice_example =
    split_block_announced_twice format 1 small small (omega arith) (omega arith) (omega arith)
      (omega arith)

append-IsSparse_example : IsSparse (append format no_data 8192 small max_download).buffer.chunks
unfolding append start_chunk flash_size
append-IsSparse_example =
    append-IsSparse format no_data 8192 small max_download refl (omega arith) tt refl

-- A device that has one request after the other refused: a probe by a flash finds nothing.
abbrev refuse : ℕ → FastbootRequest → ℕ × Outcome (Unit {0}) String
refuse d r = (d + 1, err "FAIL")

abbrev sizes : ℕ → String → ℕ × Option ℕ
sizes d name = (d + 1, if name == "boot" then some 4096 else none)

abbrev volume : FastbootVolume
volume = record { targets = []; device = device; max_download = max_download }

abbrev no_answer : String → Outcome VolumeTargetInfo String
no_answer name = err "no answer"
