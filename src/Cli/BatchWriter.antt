-- ===== src/Cli/BatchWriter.antt =====
-- `BatchWriter` of boardswarm-cli/src/utils.rs. The `VolumeIoRW` that it writes to is a parameter: its
-- polls, with the errors as `E`.
use boardswarm.Prelude.{
  ℕ, zero, suc, ◌+◌, ◌-◌, ◌%◌, Bool, true, false, Option, none, some, ◌++◌, Bytes, Outcome, ok, err,
  ltb, leb, if◌then◌else◌, length, take, drop, Poll, ready, failed, pending, SeekFrom,
}
use boardswarm.Client.ReadWrite.{max_write_size}

-- The polls of `VolumeIoRW`, on its state.
pub record VolumeIoRw (V E : Type 0) : Type 0 where
  pub poll_write : V → Bytes → V × Poll ℕ E
  pub poll_flush : V → V × Poll (Unit {0}) E
  pub poll_shutdown : V → V × Poll (Unit {0}) E
  pub start_seek : V → SeekFrom → V × Outcome (Unit {0}) E
  pub poll_complete : V → V × Poll ℕ E

pub data BatchState : Type 0 where
  empty : BatchState
  batched : Bytes → BatchState

pub record BatchWriter (V : Type 0) : Type 0 where
  pub buffer_size : ℕ
  pub writer : V
  pub state : BatchState
  pub discard_flush : Bool
  pub pending_seek : Option SeekFrom

module _ {V : Type 0} where
  -- `blocksize` is what the writer says, where it says one.
  unfoldable pub new : Option ℕ → V → BatchWriter V
  new blocksize writer = record {
    buffer_size =
        let block : ℕ = elim blocksize [ none ↦ 4096 | some b ↦ b ] in
        max_write_size - (max_write_size % block);
    writer = writer;
    state = empty;
    discard_flush = false;
    pending_seek = none;
  }

  unfoldable pub set_discard_flush : BatchWriter V → BatchWriter V
  set_discard_flush w = record w { discard_flush = true }

module _ {V E : Type 0} (io : VolumeIoRw V E) where
  -- The loop of `poll_flush_data`: each round writes at least a byte of the batch, so the batch's length
  -- is fuel enough; `none` is more rounds than that.
  unfoldable pub flush_batch : ℕ → V → Bytes → Option ((V × BatchState) × Poll (Unit {0}) E)
  flush_batch zero v b = none
  flush_batch (suc fuel) v b =
      let (v', r) = io.poll_write v b in
      elim r [
        | pending ↦ some ((v', batched b), pending)
        | failed e ↦ some ((v', batched b), failed e)
        | ready written ↦
            let again = flush_batch fuel v' (drop written b) in
            if leb (length b) written then some ((v', empty), ready tt) else again
      ]

  unfoldable pub poll_flush_data : BatchWriter V → Option (BatchWriter V × Poll (Unit {0}) E)
  unfolding flush_batch
  poll_flush_data w = elim w.state [
    | empty ↦ some (w, ready tt)
    | batched b ↦ elim (flush_batch (length b + 1) w.writer b) [
      | none ↦ none
      | some ((v, s), r) ↦ some (record w { writer = v; state = s }, r)
    ]
  ]

  -- The batch, filled up with `remaining` bytes of the data, was written.
  unfoldable pub after_full :
      BatchWriter V → Bytes → Bytes → ℕ → V × Poll ℕ E → BatchWriter V × Poll ℕ E
  after_full w b full remaining (v, ready written) =
      if leb (length full) written
      then (record w { writer = v; state = empty }, ready remaining)
      else (record w { writer = v; state = batched (drop written full) }, ready remaining)
  after_full w b full remaining (v, failed e) =
      (record w { writer = v; state = batched b }, failed e)
  after_full w b full remaining (v, pending) = (record w { writer = v; state = batched b }, pending)

  unfoldable pub poll_write : BatchWriter V → Bytes → BatchWriter V × Poll ℕ E
  unfolding after_full
  poll_write w buf = elim w.state [
    | empty ↦
        if leb w.buffer_size (length buf)
        then (let (v, r) = io.poll_write w.writer buf in (record w { writer = v }, r))
        else (record w { state = batched buf }, ready (length buf))
    | batched b ↦
        let cached = length b in
        let remaining = w.buffer_size - cached in
        let full = b ++ take remaining buf in
        if ltb (length buf + cached) w.buffer_size
        then (record w { state = batched (b ++ buf) }, ready (length buf))
        else after_full w b full remaining (io.poll_write w.writer full)
  ]

  -- `ready!` and `?` on the flush of the batch, and what follows it.
  abbrev pub then_poll :
      {A : Type 0}
      → Option (BatchWriter V × Poll (Unit {0}) E)
      → (BatchWriter V → BatchWriter V × Poll A E)
      → Option (BatchWriter V × Poll A E)
  then_poll none k = none
  then_poll (some (w, ready _)) k = some (k w)
  then_poll (some (w, failed e)) k = some (w, failed e)
  then_poll (some (w, pending)) k = some (w, pending)

  unfoldable pub poll_flush : BatchWriter V → Option (BatchWriter V × Poll (Unit {0}) E)
  unfolding poll_flush_data
  poll_flush w =
      let flushed =
        then_poll (poll_flush_data w)
          (λ w'. let (v, r) = io.poll_flush w'.writer in (record w' { writer = v }, r)) in
      if w.discard_flush then some (w, ready tt) else flushed

  unfoldable pub poll_shutdown : BatchWriter V → Option (BatchWriter V × Poll (Unit {0}) E)
  unfolding poll_flush_data
  poll_shutdown w =
      then_poll (poll_flush_data w)
        (λ w'. let (v, r) = io.poll_shutdown w'.writer in (record w' { writer = v }, r))

  -- `none` is the error "Seek in progress".
  unfoldable pub start_seek :
      BatchWriter V → SeekFrom → BatchWriter V × Option (Outcome (Unit {0}) E)
  start_seek w position = elim w.state [
    | empty ↦ let (v, r) = io.start_seek w.writer position in (record w { writer = v }, some r)
    | batched b ↦ elim w.pending_seek [
      | some p ↦ (w, none)
      | none ↦ (record w { pending_seek = some position }, some (ok tt))
    ]
  ]

  unfoldable pub complete_seek : BatchWriter V → BatchWriter V × Poll ℕ E
  complete_seek w = let (v, r) = io.poll_complete w.writer in (record w { writer = v }, r)

  unfoldable pub poll_complete : BatchWriter V → Option (BatchWriter V × Poll ℕ E)
  unfolding poll_flush_data complete_seek
  poll_complete w = then_poll (poll_flush_data w) (λ w'. elim w'.pending_seek [
    | none ↦ complete_seek w'
    | some position ↦
        let (v, r) = io.start_seek w'.writer position in
        let taken : BatchWriter V = record w' { writer = v; pending_seek = none } in
        elim r [ ok _ ↦ complete_seek taken | err e ↦ (taken, failed e) ]
  ])
