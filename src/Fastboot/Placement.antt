-- ===== src/Fastboot/Placement.antt =====
-- Where `append` puts the data, and what it leaves of the older chunks.
use boardswarm.Prelude.{
  ℕ, ◌+◌, ◌-◌, ◌*◌, ◌/◌, ◌%◌, ◌^◌, ◌≤◌, ◌<◌, ◌≡◌, refl, sym, ap, ◌∙◌, true, List, [], ◌∷◌, ◌++◌,
  append_assoc, append-nil, inl, inr, arith, Bool-cases, min, length, take, drop, replicate,
  length-append, length-take, length-replicate, Bytes, nat_beq, ltb, if◌then◌else◌,
}
use boardswarm.Fastboot.Data.{
  SparseFormat, FastbootChunk, FastbootData, Appended, blocksize, append, start_chunk, extend_chunk,
  chunk_take, end_bytes, sum_lengths,
}
use boardswarm.Fastboot.Bounds.{sum_lengths-append}

-- The bytes of a chunk, its pieces one after the other.
abbrev pub joined : List Bytes → Bytes
joined [] = []
joined (d ∷ ds) = d ++ joined ds

pub joined-append : (ds es : List Bytes) → joined (ds ++ es) ≡ joined ds ++ joined es
joined-append [] es = refl
joined-append (d ∷ ds) es =
    ap (λ r. d ++ r) (joined-append ds es) ∙ sym (append_assoc d (joined ds) (joined es))

pub length-joined : (ds : List Bytes) → length (joined ds) ≡ sum_lengths ds
length-joined [] = refl
length-joined (d ∷ ds) = omega (arith, length-append d (joined ds), length-joined ds)

-- The chunk that holds the data: a new one behind the padding up to the offset, or the last one
-- grown.
pub data Holds (cs : List FastbootChunk) (offset : ℕ) (c : FastbootChunk) (front : Bytes)
    (rest : List FastbootChunk) : Type 0 where
  fresh : rest ≡ cs → front ≡ replicate (offset % blocksize) 0 → Holds cs offset c front rest
  grown :
      (last : FastbootChunk)
      → cs ≡ last ∷ rest
      → c.offset ≡ last.offset
      → front ≡ joined last.pieces
      → Holds cs offset c front rest

-- The first `n` bytes of the data end the last chunk, and end at their place behind the offset;
-- the others are left, and the older chunks stay as they were.
pub record Placed (cs : List FastbootChunk) (offset : ℕ) (bytes : Bytes) (a : Appended)
    : Type 0 where
  pub n : ℕ
  pub chunk : FastbootChunk
  pub front : Bytes
  pub older : List FastbootChunk
  pub in_buffer : a.buffer.chunks ≡ chunk ∷ older
  pub at_end : end_bytes chunk ≡ offset + n
  pub holds_data : joined chunk.pieces ≡ front ++ take n bytes
  pub left : a.rest ≡ drop n bytes
  pub bounded : n ≤ length bytes
  pub holds : Holds cs offset chunk front older

chunk_take-le : (l room rem : ℕ) → chunk_take l room rem ≤ l
unfolding chunk_take
chunk_take-le l room rem = ground arith

-- What a new chunk holds.
abbrev new_pieces : ℕ → ℕ → Bytes → List Bytes
new_pieces n rem bytes =
    if ltb 0 rem then replicate rem 0 ∷ take n bytes ∷ [] else take n bytes ∷ []

joined-new_pieces :
    (n rem : ℕ) (bytes : Bytes) → joined (new_pieces n rem bytes) ≡ replicate rem 0 ++ take n bytes
joined-new_pieces n rem bytes = elim (Bool-cases (ltb 0 rem)) [
  | inl some_padding ↦ rw some_padding (ap (λ r. replicate rem 0 ++ r) (append-nil (take n bytes)))
  | inr aligned ↦ let e : rem ≡ 0 = ground arith in rw (aligned, e) (append-nil (take n bytes))
]

sum_lengths-new_pieces :
    (n rem : ℕ) (bytes : Bytes) → n ≤ length bytes → sum_lengths (new_pieces n rem bytes) ≡ rem + n
sum_lengths-new_pieces n rem bytes h =
    ground (arith, length-replicate rem (zero_byte), length-take n bytes)
  where
    zero_byte : ℕ
    zero_byte = 0

module _ (format : SparseFormat) where
  start_chunk-Placed :
      (d : FastbootData) (offset : ℕ) (bytes : Bytes) (remaining : ℕ)
      → offset / blocksize < 2 ^ 32
      → (start_chunk format d offset bytes remaining).taken ≡ true
      → Placed d.chunks offset bytes (start_chunk format d offset bytes remaining)
  unfolding start_chunk end_bytes
  start_chunk-Placed d offset bytes remaining low took =
      let free = ((remaining - 2 * format.chunk_header_len) / blocksize) * blocksize in
      let rem = offset % blocksize in
      let m = chunk_take (length bytes) free rem in
      elim (Bool-cases (ltb (remaining - 2 * format.chunk_header_len) blocksize)) [
        | inl small ↦ absurd (ground (arith, small, took))
        | inr large ↦
            rw (large, start_chunk)
              (record {
                n = m;
                chunk = record {
                  offset = (offset / blocksize) % 2 ^ 32;
                  pieces = new_pieces m rem bytes;
                };
                front = replicate rem 0;
                older = d.chunks;
                in_buffer = refl;
                at_end = omega (
                  arith,
                  sum_lengths-new_pieces m rem bytes (chunk_take-le (length bytes) free rem),
                );
                holds_data = joined-new_pieces m rem bytes;
                left = refl;
                bounded = chunk_take-le (length bytes) free rem;
                holds = fresh refl refl;
              })
      ]

  extend_chunk-Placed :
      (last : FastbootChunk) (before : List FastbootChunk) (offset : ℕ) (bytes : Bytes)
      (remaining : ℕ)
      → offset / blocksize < 2 ^ 32
      → (extend_chunk format last before offset bytes remaining).taken ≡ true
      → Placed (last ∷ before) offset bytes (extend_chunk format last before offset bytes remaining)
  unfolding extend_chunk end_bytes
  extend_chunk-Placed last before offset bytes remaining low took =
      let m = min (length bytes) ((remaining / blocksize) * blocksize) in
      elim (Bool-cases (nat_beq (end_bytes last) offset)) [
        | inl same ↦
            rw (same, extend_chunk)
              (record {
                n = m;
                chunk = record last { pieces = last.pieces ++ take m bytes ∷ [] };
                front = joined last.pieces;
                older = before;
                in_buffer = refl;
                at_end =
                    let e : end_bytes last ≡ offset = ground arith in
                    omega (
                      arith,
                      e,
                      sum_lengths-append last.pieces (take m bytes ∷ []),
                      length-take m bytes,
                    );
                holds_data =
                    joined-append last.pieces (take m bytes ∷ [])
                    ∙ ap (λ r. joined last.pieces ++ r) (append-nil (take m bytes));
                left = refl;
                bounded = omega arith;
                holds = grown last refl refl refl;
              })
        | inr other ↦ elim (Bool-cases (ltb offset (end_bytes last))) [
          | inl behind ↦ absurd (ground (arith, other, behind, took))
          | inr past ↦
              rw (other, past, extend_chunk)
                (start_chunk-Placed (record { chunks = last ∷ before }) offset bytes remaining low
                  (ground (arith, other, past, took)))
        ]
      ]

  append-Placed_of_chunks :
      (cs : List FastbootChunk) (offset : ℕ) (bytes : Bytes) (max_size : ℕ)
      → offset / blocksize < 2 ^ 32
      → (append format (record { chunks = cs }) offset bytes max_size).taken ≡ true
      → Placed cs offset bytes (append format (record { chunks = cs }) offset bytes max_size)
  unfolding append
  append-Placed_of_chunks [] offset bytes max_size low took =
      start_chunk-Placed (record { chunks = [] }) offset bytes _ low took
  append-Placed_of_chunks (last ∷ before) offset bytes max_size low took =
      extend_chunk-Placed last before offset bytes _ low took

  -- When append takes data, the first bytes of it end the last chunk, which ends that many bytes
  -- behind the offset; what it leaves is the data behind them; and the older chunks, and what the
  -- last chunk held before, are as they were. The block number of the offset fits in 32 bits.
  pub append-Placed :
      (d : FastbootData) (offset : ℕ) (bytes : Bytes) (max_size : ℕ)
      → offset / blocksize < 2 ^ 32
      → (append format d offset bytes max_size).taken ≡ true
      → Placed d.chunks offset bytes (append format d offset bytes max_size)
  append-Placed d = append-Placed_of_chunks d.chunks
