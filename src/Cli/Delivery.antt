-- ===== src/Cli/Delivery.antt =====
-- What a `BatchWriter` does with the bytes that it is given.
use boardswarm.Prelude.{
  ℕ, zero, suc, ◌+◌, ◌-◌, ◌≤◌, ◌<◌, ◌≡◌, refl, sym, ap, ◌∙◌, Option, some, [], ◌∷◌, ◌++◌, Bytes,
  arith, append_assoc, append-nil, ltb, leb, length, take, drop, take-length, take-append-drop,
  Bool-cases, inl, inr, length-drop, Poll, ready, failed, pending, Poll-cases,
}
use boardswarm.Cli.BatchWriter.{
  VolumeIoRw, BatchState, empty, batched, BatchWriter, flush_batch, poll_flush_data, poll_write,
  after_full,
}

-- What a write took of the data.
abbrev pub accepted : {E : Type 0} → Poll ℕ E → Bytes → Bytes
accepted (ready n) b = take n b
accepted (failed e) b = []
accepted pending b = []

-- The writer appends to what it was given before exactly what it says that it took, and it takes at
-- least a byte where there is one.
pub record IsFaithful {V E : Type 0} (io : VolumeIoRw V E) (log : V → Bytes) : Type 0 where
  pub appends :
      (v : V) (b : Bytes) → log (io.poll_write v b).0 ≡ log v ++ accepted (io.poll_write v b).1 b
  pub takes : (v : V) (b : Bytes) (n : ℕ) → (io.poll_write v b).1 ≡ ready n → 0 < length b → 0 < n

abbrev pub batch : BatchState → Bytes
batch empty = []
batch (batched b) = b

take_all : (n : ℕ) (b : Bytes) → length b ≤ n → take n b ≡ b
take_all zero [] h = refl
take_all zero (x ∷ b) h = absurd (omega arith)
take_all (suc n) [] h = refl
take_all (suc n) (x ∷ b) h = ap (λ r. x ∷ r) (take_all n b (omega arith))

-- A flush that is done leaves no batch.
abbrev pub Emptied : {E : Type 0} → Poll (Unit {0}) E → BatchState → Type 0
Emptied (ready _) s = s ≡ empty
Emptied (failed e) s = Unit {0}
Emptied pending s = Unit {0}

module _ {V E : Type 0} (io : VolumeIoRw V E) (log : V → Bytes) where
  -- All that was accepted so far: given to the writer, or in the batch.
  abbrev pub delivered : BatchWriter V → Bytes
  delivered w = log w.writer ++ batch w.state

  after_full_delivers :
      (w : BatchWriter V) (b buf : Bytes) (remaining : ℕ) (r : V × Poll ℕ E)
      → log r.0 ≡ log w.writer ++ accepted r.1 (b ++ take remaining buf)
      → delivered (after_full io w b (b ++ take remaining buf) remaining r).0
        ≡ (log w.writer ++ b)
          ++ accepted (after_full io w b (b ++ take remaining buf) remaining r).1 buf
  unfolding after_full
  after_full_delivers w b buf remaining (v, ready written) h =
      let full = b ++ take remaining buf in
      elim (Bool-cases (leb (length full) written)) [
        | inl all ↦
            rw (all, after_full)
              (append-nil (log v)
                ∙ h
                ∙ ap (λ x. log w.writer ++ x) (take_all written full (ground arith))
                ∙ sym (append_assoc (log w.writer) b (take remaining buf)))
        | inr part ↦
            rw (part, after_full)
              (ap (λ x. x ++ drop written full) h
                ∙ append_assoc (log w.writer) (take written full) (drop written full)
                ∙ ap (λ x. log w.writer ++ x) (take-append-drop written full)
                ∙ sym (append_assoc (log w.writer) b (take remaining buf)))
      ]
  after_full_delivers w b buf remaining (v, failed e) h =
      ap (λ x. x ++ b) (h ∙ append-nil (log w.writer)) ∙ sym (append-nil (log w.writer ++ b))
  after_full_delivers w b buf remaining (v, pending) h =
      ap (λ x. x ++ b) (h ∙ append-nil (log w.writer)) ∙ sym (append-nil (log w.writer ++ b))

  write_state :
      (w : BatchWriter V) (s : BatchState) (buf : Bytes)
      → IsFaithful io log
      → delivered (poll_write io (record w { state = s }) buf).0
        ≡ (log w.writer ++ batch s) ++ accepted (poll_write io (record w { state = s }) buf).1 buf
  unfolding poll_write
  write_state w empty buf law = elim (Bool-cases (leb w.buffer_size (length buf))) [
    | inl large ↦
        rw (large, poll_write)
          (append-nil _
            ∙ law.appends w.writer buf
            ∙ ap (λ x. x ++ accepted (io.poll_write w.writer buf).1 buf)
                (sym (append-nil (log w.writer))))
    | inr small ↦ rw (small, poll_write) (cc (take-length buf, append-nil (log w.writer)))
  ]
  write_state w (batched b) buf law =
      elim (Bool-cases (ltb (length buf + length b) w.buffer_size)) [
        | inl fits ↦ rw (fits, poll_write) (cc (take-length buf, append_assoc (log w.writer) b buf))
        | inr fills ↦
            let remaining = w.buffer_size - length b in
            rw (fills, poll_write)
              (after_full_delivers w b buf remaining
                (io.poll_write w.writer (b ++ take remaining buf))
                (law.appends w.writer (b ++ take remaining buf)))
      ]

  -- If the writer below a BatchWriter appends what it takes, then of a write exactly the bytes
  -- that it reports as written follow what was accepted before, in the writer below or in the
  -- batch: none is lost, doubled or moved, also where the write below fails, is pending, or takes
  -- a part of a full batch.
  pub poll_write_delivers :
      (w : BatchWriter V) (buf : Bytes)
      → IsFaithful io log
      → delivered (poll_write io w buf).0 ≡ delivered w ++ accepted (poll_write io w buf).1 buf
  poll_write_delivers w buf law = write_state w w.state buf law

  -- The loop came to an end, and has kept what was accepted.
  abbrev Flushes : Bytes → Option ((V × BatchState) × Poll (Unit {0}) E) → Type 0
  Flushes before o =
      (out : (V × BatchState) × Poll (Unit {0}) E) × (o ≡ some out)
      × (log out.0.0 ++ batch out.0.1 ≡ before)
      × Emptied out.1 out.0.1

  flush_batch-Flushes :
      (fuel : ℕ) (v : V) (b : Bytes)
      → IsFaithful io log
      → length b < fuel
      → Flushes (log v ++ b) (flush_batch io fuel v b)
  unfolding flush_batch
  flush_batch-Flushes zero v b law enough = absurd (omega arith)
  flush_batch-Flushes (suc fuel) v b law enough =
      let v' = (io.poll_write v b).0 in
      let took : (r : Poll ℕ E) → (io.poll_write v b).1 ≡ r → log v' ≡ log v ++ accepted r b =
        λ r e. law.appends v b ∙ ap (λ r. log v ++ accepted r b) e in
      let kept : log v' ≡ log v ++ [] → log v' ++ b ≡ log v ++ b =
        λ e. ap (λ x. x ++ b) (e ∙ append-nil (log v)) in
      elim (Poll-cases (io.poll_write v b).1) [
        | inr stays ↦ elim stays [
          | inr waits ↦
              rw (waits, flush_batch)
                (((v', batched b), pending), refl, kept (took pending waits), tt)
          | inl (e, broken) ↦
              rw (broken, flush_batch)
                (((v', batched b), failed e), refl, kept (took (failed e) broken), tt)
        ]
        | inl (n, written) ↦ elim (Bool-cases (leb (length b) n)) [
          | inl all ↦
              rw (written, all, flush_batch)
                (
                  ((v', empty), ready tt),
                  refl,
                  append-nil (log v')
                      ∙ took (ready n) written
                      ∙ ap (λ x. log v ++ x) (take_all n b (ground arith)),
                  refl,
                )
          | inr part ↦
              let again : Flushes (log v' ++ drop n b) (flush_batch io fuel v' (drop n b)) =
                flush_batch-Flushes fuel v' (drop n b) law (
                  ground (
                    arith,
                    length-drop n b,
                    law.takes v b n written (ground (arith, part)),
                    enough,
                    part,
                  )) in
              rw (written, part, flush_batch)
                (
                  again.0,
                  again.1,
                  again.2
                      ∙ ap (λ x. x ++ drop n b) (took (ready n) written)
                      ∙ append_assoc (log v) (take n b) (drop n b)
                      ∙ ap (λ x. log v ++ x) (take-append-drop n b),
                  again.3,
                )
        ]
      ]

  -- Flushing a BatchWriter's batch comes to an end, whatever the writer below answers, if it
  -- appends what it takes and takes at least a byte: nothing that was accepted is lost, and a
  -- flush that reports that it is done has given all of it to the writer below.
  pub poll_flush_data_total :
      (w : BatchWriter V)
      → IsFaithful io log
      → (out : BatchWriter V × Poll (Unit {0}) E) × (poll_flush_data io w ≡ some out)
        × (delivered out.0 ≡ delivered w)
        × Emptied out.1 out.0.state
  unfolding poll_flush_data
  poll_flush_data_total w law = flush_state w.state refl
    where
      flush_state :
          (s : BatchState)
          → w.state ≡ s
          → (out : BatchWriter V × Poll (Unit {0}) E) × (poll_flush_data io w ≡ some out)
            × (delivered out.0 ≡ delivered w)
            × Emptied out.1 out.0.state
      flush_state empty e = rw (e, poll_flush_data) ((w, ready tt), refl, rw e, e)
      flush_state (batched b) e =
          let f = flush_batch-Flushes (length b + 1) w.writer b law (omega arith) in
          rw (e, f.1, poll_flush_data)
            ((record w { writer = f.0.0.0; state = f.0.0.1 }, f.0.1), refl, f.2, f.3)
