-- ===== src/Client/ReadWrite.antt =====
-- `VolumeIoRW` of boardswarm-client/src/client.rs: its state, its helpers and its seeks. The channels of
-- tokio, with what the other side does to them, are the state `W`; `F` is the type of the futures that
-- `VolumeIo` gives. There is one future of a reservation at a time.
use boardswarm.Prelude.{
  ℕ, ltb, ◌-◌, ◌*◌, Option, none, some, List, [], ◌∷◌, String, Bytes, Outcome, ok, err, length,
  take, drop, min, saturating_add, Poll, ready, failed, pending, SeekFrom, from_start, from_end,
  from_end_back, from_current, from_current_back, if◌then◌else◌,
}
use boardswarm.Status.{Status}
use boardswarm.VolumeIo.Replies.{VolumeTargetInfo}
use boardswarm.VolumeIo.Serve.{TargetOrRequest}

-- `VolumeIoRW::MAX_WRITE_SIZE`
abbrev pub max_write_size : ℕ
max_write_size = 3 * 1024 * 1024

-- How a poll fails: with a `std::io::Error`, by its kind; or it does not come back, but panics.
pub data PollFailure : Type 0 where
  unsupported invalid_input : String → PollFailure
  not_connected panicked : PollFailure
  other_error : Status → PollFailure

-- The polls of the channels: of a reserved place in the queue of requests, and of the futures of a
-- write, a read, and a flush or shutdown. `send` puts a request into the reserved place.
pub record Channels (W F : Type 0) : Type 0 where
  pub poll_reserve : W → W × Poll (Unit {0}) (Unit {0})
  pub send : W → TargetOrRequest → W × F
  pub poll_written : W → F → W × Poll ℕ Status
  pub poll_data : W → F → W × Poll Bytes Status
  pub poll_done : W → F → W × Poll (Unit {0}) Status

-- `reserve_failed` is `ReserveRequest` with a future that has given its error: it is an `async fn`, which
-- panics when it is polled after that.
pub data IoWrapperState (F : Type 0) : Type 0 where
  idle reserve_request reserve_failed flushing shutting_down : IoWrapperState F
  reading : F → IoWrapperState F

pub data Pending (F : Type 0) : Type 0 where
  pending_write pending_flush pending_shutdown : F → Pending F

pub record VolumeIoRw (F : Type 0) : Type 0 where
  pub info : VolumeTargetInfo
  pub pos : ℕ
  pub state : IoWrapperState F
  pub pending_seek : Option SeekFrom
  -- The oldest first.
  pub pending_requests : List (Pending F)
  pub buffered_read : Bytes

-- `u64::saturating_sub` stops at 0, as `-` does.
abbrev pub moved : ℕ → Outcome ℕ ℕ → ℕ
moved base (ok offset) = if ltb 0 offset then saturating_add base offset else base - offset
moved base (err offset) = base - offset

-- `map_ok(|_| ())`
abbrev pub without_count : {E : Type 0} → Poll ℕ E → Poll (Unit {0}) E
without_count (ready n) = ready tt
without_count (failed e) = failed e
without_count pending = pending

module _ {F : Type 0} where
  unfoldable pub new : VolumeTargetInfo → VolumeIoRw F
  new info = record {
    info = info;
    pos = 0;
    state = idle;
    pending_seek = none;
    pending_requests = [];
    buffered_read = [];
  }

  -- `none` is that nothing was buffered; `n` is what remains of the reader's buffer.
  unfoldable pub copy_buffered_read : VolumeIoRw F → ℕ → Option (VolumeIoRw F × Bytes)
  copy_buffered_read me n = elim me.buffered_read [
    | [] ↦ none
    | x ∷ b ↦
        let available = min n (length (x ∷ b)) in
        let tocopy = take available (x ∷ b) in
        some (
          record me {
            buffered_read = drop available (x ∷ b);
            pos = saturating_add me.pos (length tocopy);
          },
          tocopy,
        )
  ]

  unfoldable pub invalidate_read_buffer : VolumeIoRw F → VolumeIoRw F
  invalidate_read_buffer me = record me { buffered_read = [] }

  unfoldable pub start_seek :
      VolumeIoRw F → SeekFrom → VolumeIoRw F × Outcome (Unit {0}) PollFailure
  start_seek me position =
      if me.info.seekable
      then (record me { pending_seek = some position }, ok tt)
      else (me, err (unsupported "Target doesn't support seek"))

  -- The base of a position and its offset, forward or back; `none` where the size is not known.
  unfoldable pub base_of : VolumeIoRw F → SeekFrom → Option (ℕ × Outcome ℕ ℕ)
  base_of me (from_start s) = some (s, ok 0)
  base_of me (from_end e) = elim me.info.size [ none ↦ none | some size ↦ some (size, ok e) ]
  base_of me (from_end_back e) = elim me.info.size [ none ↦ none | some size ↦ some (size, err e) ]
  base_of me (from_current offset) = some (me.pos, ok offset)
  base_of me (from_current_back offset) = some (me.pos, err offset)

  unfoldable pub poll_complete : VolumeIoRw F → VolumeIoRw F × Poll ℕ PollFailure
  unfolding base_of
  poll_complete me =
      if me.info.seekable
      then (elim me.pending_seek [
        | none ↦ (me, ready me.pos)
        | some position ↦ elim (base_of me position) [
          | none ↦
              (record me { pending_seek = none }, failed (unsupported "Target has no known size"))
          | some (base, offset) ↦ (
            record me { pending_seek = none; pos = moved base offset },
            ready (moved base offset),
          )
        ]
      ])
      else (me, failed (unsupported "Target doesn't support seek"))

module _ {W F : Type 0} (io : Channels W F) where
  unfoldable pub poll_pending : W → Pending F → W × Poll (Unit {0}) Status
  poll_pending w (pending_write f) = let (w', r) = io.poll_written w f in (w', without_count r)
  poll_pending w (pending_flush f) = io.poll_done w f
  poll_pending w (pending_shutdown f) = io.poll_done w f

  -- The queue from its front, up to a request that waits or failed.
  unfoldable pub cleanup :
      W → List (Pending F) → (W × List (Pending F)) × Outcome (Unit {0}) PollFailure
  unfolding poll_pending
  cleanup w [] = ((w, []), ok tt)
  cleanup w (p ∷ ps) =
      let (w', r) = poll_pending w p in
      let rest = cleanup w' ps in
      elim r [
        | pending ↦ ((w', p ∷ ps), ok tt)
        | failed e ↦ ((w', ps), err (other_error e))
        | ready _ ↦ rest
      ]

  unfoldable pub cleanup_pending_requests :
      W × VolumeIoRw F → (W × VolumeIoRw F) × Outcome (Unit {0}) PollFailure
  unfolding cleanup
  cleanup_pending_requests (w, me) =
      let ((w', ps), r) = cleanup w me.pending_requests in
      ((w', record me { pending_requests = ps }), r)
