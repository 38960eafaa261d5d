-- ===== src/Dfu/Writes.antt =====
-- What a download takes of the writes of a client, and what they are answered.
use boardswarm.Prelude.{
  ℕ, ◌≡◌, refl, sym, ap, ◌∙◌, Bool, true, false, some, List, [], ◌∷◌, ◌++◌, append_assoc,
  append-nil, Bytes, ok, length, Bool-cases, inl, inr, ◌⊎◌,
}
use boardswarm.VolumeIo.Replies.{Queued, queued_write}
use boardswarm.VolumeIo.Serve.{write_request, Received, serve, serve_request}
use boardswarm.Dfu.Targets.{Download, DfuTarget, write, volume_target}

-- Writes at any offsets, their data, and an answer to each with its length.
abbrev pub write_requests : List (Bytes × ℕ) → List Received
write_requests [] = []
write_requests ((b, offset) ∷ ws) = ok (some (write_request b offset)) ∷ write_requests ws

abbrev pub data_of : List (Bytes × ℕ) → List Bytes
data_of [] = []
data_of ((b, offset) ∷ ws) = b ∷ data_of ws

abbrev pub all_acknowledged : List (Bytes × ℕ) → List Queued
all_acknowledged [] = []
all_acknowledged ((b, offset) ∷ ws) = queued_write (some (ok (length b))) ∷ all_acknowledged ws

module _ (takes : Download → Bool) where
  write-deaf :
      (t : DfuTarget) (b : Bytes) (offset : ℕ) → t.listens ≡ false → (write takes t b offset).0 ≡ t
  unfolding write
  write-deaf t b offset e = rw (e, write) refl

  write-taken :
      (t : DfuTarget) (b : Bytes) (offset : ℕ)
      → t.listens ≡ true
      → takes t.download ≡ true
      → (write takes t b offset).0
        ≡ record t { download = record t.download { taken = t.download.taken ++ b ∷ [] } }
  unfolding write
  write-taken t b offset e e' = rw (write, e, e') refl

  write-ends :
      (t : DfuTarget) (b : Bytes) (offset : ℕ)
      → t.listens ≡ true
      → takes t.download ≡ false
      → (write takes t b offset).0 ≡ record t { listens = false }
  unfolding write
  write-ends t b offset e e' = rw (write, e, e') refl

  -- What became of writes: how they were answered, and what of their data was taken.
  abbrev pub Became : DfuTarget → List (Bytes × ℕ) → DfuTarget → List Queued → Type 0
  Became t ws t' answers =
      (answers ≡ all_acknowledged ws)
      × (new : List Bytes) × (lost : List Bytes) × (t'.download.taken ≡ t.download.taken ++ new)
      × (data_of ws ≡ new ++ lost)
      × ((lost ≡ []) ⊎ (t'.listens ≡ false))

  deaf-Became :
      (t : DfuTarget) (ws : List (Bytes × ℕ))
      → t.listens ≡ false
      → serve (volume_target takes) t (write_requests ws) ≡ (t, all_acknowledged ws)
  unfolding serve serve_request volume_target
  deaf-Became t [] deaf = refl
  deaf-Became t ((b, offset) ∷ ws) deaf =
      rw (write-deaf t b offset deaf)
        (ap (λ x. (x.0, queued_write (some (ok (length b))) ∷ x.1)) (deaf-Became t ws deaf))

  -- The writes that a download which has ended does not take.
  lost-Became :
      (t : DfuTarget) (w : Bytes × ℕ) (ws : List (Bytes × ℕ)) (t' : DfuTarget)
      → t'.download ≡ t.download
      → t'.listens ≡ false
      → Became t (w ∷ ws) t' (all_acknowledged (w ∷ ws))
  lost-Became t w ws t' same deaf = (
    refl,
    [],
    data_of (w ∷ ws),
    ap (λ d. d.taken) same ∙ sym (append-nil t.download.taken),
    refl,
    inr deaf,
  )

  -- Whatever a DFU download does, each write to it is answered with its whole length, and what it
  -- takes is the data of the first of the writes, in their order and whatever their offsets: all
  -- of them, unless the download has ended.
  pub writes_acknowledged :
      (t : DfuTarget) (ws : List (Bytes × ℕ))
      → Became t ws
          (serve (volume_target takes) t (write_requests ws)).0
          (serve (volume_target takes) t (write_requests ws)).1
  unfolding serve serve_request volume_target
  writes_acknowledged t [] = (refl, [], [], sym (append-nil t.download.taken), refl, inl refl)
  writes_acknowledged t ((b, offset) ∷ ws) = elim (Bool-cases t.listens) [
    | inr deaf ↦
        rw (write-deaf t b offset deaf, deaf-Became t ws deaf)
          (lost-Became t (b, offset) ws t refl deaf)
    | inl hears ↦ elim (Bool-cases (takes t.download)) [
      | inr over ↦
          rw (write-ends t b offset hears over, deaf-Became (record t { listens = false }) ws refl)
            (lost-Became t (b, offset) ws (record t { listens = false }) refl refl)
      | inl taken ↦
          let t' : DfuTarget = record t {
            download = record t.download { taken = t.download.taken ++ b ∷ [] };
          } in
          let (acks, new, lost, kept, split, how) = writes_acknowledged t' ws in
          rw (write-taken t b offset hears taken) (
            ap (λ l. queued_write (some (ok (length b))) ∷ l) acks,
            b ∷ new,
            lost,
            kept ∙ append_assoc t.download.taken (b ∷ []) new,
            ap (λ l. b ∷ l) split,
            how,
          )
    ]
  ]
