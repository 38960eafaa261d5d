-- ===== src/Fastboot/Image.antt =====
-- The sparse image of a buffer agrees with the sizes and counts that announce it.
use boardswarm.Prelude.{
  ℕ, ◌+◌, ◌%◌, ◌≡◌, refl, sym, ap, ◌∙◌, List, [], ◌∷◌, ◌++◌, append_assoc, append-nil, map, arith,
  length, Bytes,
}
use mathlib.Core.List.{reverse, reverse-cons}
use boardswarm.Fastboot.Data.{
  SparseFormat, FastbootChunk, FastbootData, blocksize, next_multiple_of_block, sum_lengths,
  padded_lengths, end_blocks, expanded_blocks,
}
use boardswarm.Fastboot.Encode.{
  Part, dontcare_chunk, raw_chunk, content, chunk_parts, sparse_parts, part_bytes, data_parts,
}

abbrev pub total : (Part → ℕ) → List Part → ℕ
total f [] = 0
total f (p ∷ ps) = f p + total f ps

pub total-append : (f : Part → ℕ) (ps qs : List Part) → total f (ps ++ qs) ≡ total f ps + total f qs
total-append f [] qs = omega arith
total-append f (p ∷ ps) qs = omega (arith, total-append f ps qs)

-- A chunk header, and the blocks that a header stands for.
unfoldable pub header_count : Part → ℕ
header_count (content b) = 0
header_count _ = 1

unfoldable pub block_count : Part → ℕ
block_count (dontcare_chunk n) = n
block_count (raw_chunk n) = n
block_count (content b) = 0

unfoldable pub byte_count : SparseFormat → Part → ℕ
unfolding part_bytes
byte_count format p = length (part_bytes format p)

end_after : ℕ → List FastbootChunk → ℕ
end_after offset [] = offset
end_after offset (c ∷ cs) = end_after (end_blocks c) cs

sparse_parts-append :
    (offset : ℕ) (cs ds : List FastbootChunk)
    → sparse_parts offset (cs ++ ds)
      ≡ sparse_parts offset cs ++ sparse_parts (end_after offset cs) ds
unfolding sparse_parts end_after
sparse_parts-append offset [] ds = refl
sparse_parts-append offset (c ∷ cs) ds =
    ap (λ r. chunk_parts offset c ++ r) (sparse_parts-append (end_blocks c) cs ds)
    ∙ sym (
        append_assoc (chunk_parts offset c) (sparse_parts (end_blocks c) cs)
          (sparse_parts (end_after (end_blocks c) cs) ds))

end_after-append :
    (offset : ℕ) (cs ds : List FastbootChunk)
    → end_after offset (cs ++ ds) ≡ end_after (end_after offset cs) ds
unfolding end_after
end_after-append offset [] ds = refl
end_after-append offset (c ∷ cs) ds = end_after-append (end_blocks c) cs ds

abbrev pub buffer_of : List FastbootChunk → FastbootData
buffer_of cs = record { chunks = cs }

end_after-reverse :
    (cs : List FastbootChunk) → end_after 0 (reverse cs) ≡ expanded_blocks (buffer_of cs)
unfolding end_after expanded_blocks
end_after-reverse [] = refl
end_after-reverse (c ∷ cs) =
    ap (end_after 0) (reverse-cons c cs) ∙ end_after-append 0 (reverse cs) (c ∷ [])

-- One more chunk adds its parts, from where the image ended.
data_parts-cons :
    (c : FastbootChunk) (before : List FastbootChunk)
    → data_parts (buffer_of (c ∷ before))
      ≡ data_parts (buffer_of before) ++ chunk_parts (expanded_blocks (buffer_of before)) c
unfolding data_parts
data_parts-cons c before =
    ap (sparse_parts 0) (reverse-cons c before)
    ∙ sparse_parts-append 0 (reverse before) (c ∷ [])
    ∙ ap (λ o. sparse_parts 0 (reverse before) ++ o)
        (append-nil (chunk_parts (end_after 0 (reverse before)) c)
          ∙ ap (λ o. chunk_parts o c) (end_after-reverse before))

pub total-data_parts :
    (f : Part → ℕ) (c : FastbootChunk) (before : List FastbootChunk)
    → total f (data_parts (buffer_of (c ∷ before)))
      ≡ total f (data_parts (buffer_of before))
        + total f (chunk_parts (expanded_blocks (buffer_of before)) c)
total-data_parts f c before =
    ap (total f) (data_parts-cons c before)
    ∙ total-append f (data_parts (buffer_of before))
        (chunk_parts (expanded_blocks (buffer_of before)) c)

-- Every piece but the last is of whole blocks.
abbrev pub Blocky : List Bytes → Type 0
Blocky [] = Unit {0}
Blocky (b ∷ []) = Unit {0}
Blocky (b ∷ c ∷ rest) = (length b % blocksize ≡ 0) × Blocky (c ∷ rest)

pub padded_lengths-Blocky :
    (ds : List Bytes) → Blocky ds → padded_lengths ds ≡ next_multiple_of_block (sum_lengths ds)
padded_lengths-Blocky [] h = refl
padded_lengths-Blocky (b ∷ []) h = omega arith
padded_lengths-Blocky (b ∷ c ∷ rest) h = omega (arith, h.0, padded_lengths-Blocky (c ∷ rest) h.1)

pub total-content :
    (f : Part → ℕ) (ds : List Bytes)
    → ((b : Bytes) → f (content b) ≡ 0)
    → total f (map content ds) ≡ 0
total-content f [] h = refl
total-content f (d ∷ ds) h = omega (arith, h d, total-content f ds h)

pub byte_count-content :
    (format : SparseFormat) (ds : List Bytes)
    → total (byte_count format) (map content ds) ≡ sum_lengths ds
unfolding byte_count
byte_count-content format [] = refl
byte_count-content format (d ∷ ds) = omega (arith, byte_count-content format ds)
