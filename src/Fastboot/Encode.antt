-- ===== src/Fastboot/Encode.antt =====
-- `do_download_raw` and `do_download_aimg` of boardswarm/src/fastboot.rs: what the task that owns the
-- device asks of it for one buffer.
use boardswarm.Prelude.{
  ℕ, Bool, not, ◌||◌, List, [], ◌∷◌, ◌++◌, map, nat_beq, if◌then◌else◌, replicate, ◌==◌, string_eq,
  String, Bytes, as_u32, sub_u32, Outcome, ok, err,
}
use mathlib.Core.List.{reverse}
use boardswarm.Fastboot.Data.{
  SparseFormat, FastbootChunk, FastbootData, blocksize, data_bytes, blocks, end_blocks, end_padding,
  can_write_raw, flash_size, flash_chunks, expanded_blocks,
}

-- The requests of `NusbFastBoot` that the server makes for a flash.
pub data FastbootRequest : Type 0 where
  download : ℕ → FastbootRequest
  extend_from_slice : Bytes → FastbootRequest
  finish : FastbootRequest
  flash_target : String → FastbootRequest

-- The pieces of a sparse image, before they are bytes.
pub data Part : Type 0 where
  dontcare_chunk : ℕ → Part
  raw_chunk : ℕ → Part
  content : Bytes → Part

abbrev pub target_stage : String
target_stage = "stage"

-- The body of the loop over the chunks: the gap, the header, the pieces and the padding.
unfoldable pub chunk_parts : ℕ → FastbootChunk → List Part
chunk_parts offset c =
    (if nat_beq c.offset offset then [] else dontcare_chunk (sub_u32 c.offset offset) ∷ [])
    ++ raw_chunk (blocks c) ∷ map content c.pieces
    ++ (if nat_beq (end_padding c) 0 then [] else content (replicate (end_padding c) 0) ∷ [])

-- The loop, whose `offset` is the block after the last chunk.
unfoldable pub sparse_parts : ℕ → List FastbootChunk → List Part
unfolding chunk_parts
sparse_parts offset [] = []
sparse_parts offset (c ∷ cs) = chunk_parts offset c ++ sparse_parts (end_blocks c) cs

unfoldable pub part_bytes : SparseFormat → Part → Bytes
part_bytes format (dontcare_chunk n) = format.dontcare n
part_bytes format (raw_chunk n) = format.raw n blocksize
part_bytes format (content b) = b

unfoldable pub data_parts : FastbootData → List Part
unfolding sparse_parts
data_parts d = sparse_parts 0 (reverse d.chunks)

unfoldable pub flash_requests : Bool → String → List FastbootRequest
flash_requests has_stage target =
    if not has_stage || not (target == target_stage) then flash_target target ∷ [] else []

-- The requests of `do_download_raw`, for the one chunk that it writes.
unfoldable pub download_raw : FastbootChunk → Bool → String → List FastbootRequest
unfolding flash_requests
download_raw c has_stage target =
    download (as_u32 (data_bytes c)) ∷ map extend_from_slice c.pieces
    ++ finish ∷ flash_requests has_stage target

unfoldable pub download_aimg : SparseFormat → FastbootData → Bool → String → List FastbootRequest
unfolding flash_requests data_parts
download_aimg format d has_stage target =
    download (as_u32 (flash_size format d))
      ∷ extend_from_slice (format.file_header blocksize (expanded_blocks d) (flash_chunks d) 0)
      ∷ map (λ p. extend_from_slice (part_bytes format p)) (data_parts d)
    ++ finish ∷ flash_requests has_stage target

-- What the task does for `FastbootCommand::Flash`.
unfoldable pub flash_plan : SparseFormat → FastbootData → Bool → String → List FastbootRequest
flash_plan format d has_stage target = elim d.chunks [
  | [] ↦ []
  | c ∷ before ↦
      if can_write_raw d
      then download_raw c has_stage target
      else download_aimg format d has_stage target
]

-- The requests are made in order; the first that fails ends them.
unfoldable pub run_requests {ℓ} :
    {D E : Type ℓ}
    → (D → FastbootRequest → D × Outcome (Unit {0}) E)
    → D
    → List FastbootRequest
    → D × Outcome (Unit {0}) E
run_requests step dev [] = (dev, ok tt)
run_requests step dev (r ∷ rs) =
    let (dev', outcome) = step dev r in
    let rest = run_requests step dev' rs in elim outcome [ ok _ ↦ rest | err e ↦ (dev', err e) ]
