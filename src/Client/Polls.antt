-- ===== src/Client/Polls.antt =====
-- The polls of `VolumeIoRW` of boardswarm-client/src/client.rs: AsyncWrite and AsyncRead. Each loop is
-- on fuel of its longest way through the states: it drops what an earlier poll began, reserves, sends,
-- and waits.
use boardswarm.Prelude.{
  ℕ, Option, none, some, [], ◌∷◌, ◌++◌, Bytes, ok, err, length, take, min, saturating_add, is_empty,
  Poll, ready, failed, pending, Round, again, done, run_rounds, if◌then◌else◌, Outcome,
}
use boardswarm.Status.{Status}
use boardswarm.VolumeIo.Serve.{read_request, write_request, flush_request, shutdown_request}
use boardswarm.Client.ReadWrite.{
  max_write_size, PollFailure, unsupported, invalid_input, not_connected, panicked, other_error,
  Channels, idle, reserve_request, reserve_failed, flushing, shutting_down, reading, pending_write,
  pending_flush, pending_shutdown, VolumeIoRw, copy_buffered_read, invalidate_read_buffer,
  cleanup_pending_requests,
}

abbrev pub Client : Type 0 → Type 0 → Type 0
Client W F = W × VolumeIoRw F

-- `ready!` on the reservation, and its error, behind which the future stays in the state; `k` is what is done with the permit.
abbrev pub with_permit :
    {W F A : Type 0}
    → VolumeIoRw F
    → W × Poll (Unit {0}) (Unit {0})
    → (W → Round (Client W F) (Poll A PollFailure))
    → Round (Client W F) (Poll A PollFailure)
with_permit me (w, ready _) k = k w
with_permit me (w, failed _) k =
    done (w, record me { state = reserve_failed }) (failed not_connected)
with_permit me (w, pending) k = done (w, me) pending

module _ {W F : Type 0} (io : Channels W F) where
  -- What `poll_write` does with a permit.
  unfoldable pub send_write : VolumeIoRw F → Bytes → W → Round (Client W F) (Poll ℕ PollFailure)
  send_write me buf w =
      let len = min (length buf) max_write_size in
      let (w', write) = io.send w (write_request (take len buf) me.pos) in
      done
        (
          w',
          record me {
            pending_requests = me.pending_requests ++ pending_write write ∷ [];
            pos = saturating_add me.pos len;
            state = idle;
          },
        )
        (ready len)

  unfoldable pub write_round : Bytes → Client W F → Round (Client W F) (Poll ℕ PollFailure)
  unfolding send_write
  write_round buf (w, me) = elim me.state [
    | idle ↦ again (w, record me { state = reserve_request })
    | reserve_request ↦ with_permit me (io.poll_reserve w) (send_write me buf)
    | reserve_failed ↦ done (w, me) (failed panicked)
    | flushing ↦ again (w, record me { state = idle })
    | shutting_down ↦ again (w, record me { state = idle })
    | reading f ↦ again (w, record me { state = idle })
  ]

  -- The loop, behind the cleanup.
  unfoldable pub write_after :
      Bytes → Client W F × Outcome (Unit {0}) PollFailure → Option (Client W F × Poll ℕ PollFailure)
  unfolding write_round run_rounds
  write_after buf (c, err e) = some (c, failed e)
  write_after buf (c, ok _) = run_rounds 3 (write_round buf) c

  unfoldable pub poll_write : Client W F → Bytes → Option (Client W F × Poll ℕ PollFailure)
  unfolding write_after
  poll_write (w, me) buf =
      if me.info.writable
      then write_after buf (cleanup_pending_requests io (w, invalidate_read_buffer me))
      else some ((w, me), failed (unsupported "Target doesn't support writing"))

  -- A flush or shutdown that was sent is over once no request is pending.
  abbrev pub when_pushed_through : Client W F → Round (Client W F) (Poll (Unit {0}) PollFailure)
  when_pushed_through (w, me) =
      if is_empty me.pending_requests
      then done (w, record me { state = idle }) (ready tt)
      else done (w, me) pending

  unfoldable pub send_flush : VolumeIoRw F → W → Round (Client W F) (Poll (Unit {0}) PollFailure)
  send_flush me w =
      let (w', flush) = io.send w flush_request in
      again (
        w',
        record me {
          pending_requests = me.pending_requests ++ pending_flush flush ∷ [];
          state = flushing;
        },
      )

  -- A round of `poll_flush` behind its cleanup.
  unfoldable pub flush_step :
      Client W F × Outcome (Unit {0}) PollFailure → Round (Client W F) (Poll (Unit {0}) PollFailure)
  unfolding send_flush
  flush_step ((w, me), err e) = done (w, record me { state = idle }) (failed e)
  flush_step ((w, me), ok _) = elim me.state [
    | idle ↦ again (w, record me { state = reserve_request })
    | reserve_request ↦ with_permit me (io.poll_reserve w) (send_flush me)
    | reserve_failed ↦ done (w, me) (failed panicked)
    | flushing ↦ when_pushed_through (w, me)
    | reading f ↦ again (w, record me { state = idle })
    | shutting_down ↦ done (w, me) (failed (invalid_input "Flush after shutdown"))
  ]

  unfoldable pub flush_round : Client W F → Round (Client W F) (Poll (Unit {0}) PollFailure)
  unfolding flush_step
  flush_round c = flush_step (cleanup_pending_requests io c)

  unfoldable pub poll_flush : Client W F → Option (Client W F × Poll (Unit {0}) PollFailure)
  unfolding flush_round run_rounds
  poll_flush c = run_rounds 4 flush_round c

  unfoldable pub send_shutdown : VolumeIoRw F → W → Round (Client W F) (Poll (Unit {0}) PollFailure)
  send_shutdown me w =
      let (w', shutdown) = io.send w shutdown_request in
      again (
        w',
        record me {
          pending_requests = me.pending_requests ++ pending_shutdown shutdown ∷ [];
          state = shutting_down;
        },
      )

  unfoldable pub shutdown_step :
      Client W F × Outcome (Unit {0}) PollFailure → Round (Client W F) (Poll (Unit {0}) PollFailure)
  unfolding send_shutdown
  shutdown_step ((w, me), err e) = done (w, record me { state = idle }) (failed e)
  shutdown_step ((w, me), ok _) = elim me.state [
    | idle ↦ again (w, record me { state = reserve_request })
    | reserve_request ↦ with_permit me (io.poll_reserve w) (send_shutdown me)
    | reserve_failed ↦ done (w, me) (failed panicked)
    | shutting_down ↦ when_pushed_through (w, me)
    | reading f ↦ again (w, record me { state = idle })
    | flushing ↦ again (w, record me { state = idle })
  ]

  unfoldable pub shutdown_round : Client W F → Round (Client W F) (Poll (Unit {0}) PollFailure)
  unfolding shutdown_step
  shutdown_round c = shutdown_step (cleanup_pending_requests io c)

  unfoldable pub poll_shutdown : Client W F → Option (Client W F × Poll (Unit {0}) PollFailure)
  unfolding shutdown_round run_rounds
  poll_shutdown c = run_rounds 4 shutdown_round c

  unfoldable pub send_read : VolumeIoRw F → ℕ → W → Round (Client W F) (Poll Bytes PollFailure)
  send_read me remaining w =
      let (w', read) = io.send w (read_request remaining me.pos) in
      again (w', record me { state = reading read })

  -- A read's future was polled, `me` its reader, which is idle if it is done.
  unfoldable pub take_read :
      VolumeIoRw F → ℕ → W × Poll Bytes Status → Round (Client W F) (Poll Bytes PollFailure)
  unfolding copy_buffered_read
  take_read me remaining (w, pending) = done (w, me) pending
  take_read me remaining (w, failed e) =
      done (w, record me { state = idle }) (failed (other_error e))
  take_read me remaining (w, ready b) =
      let me' : VolumeIoRw F = record me { state = idle; buffered_read = b } in
      elim (copy_buffered_read me' remaining) [
        | none ↦ done (w, me') (ready [])
        | some (me'', copied) ↦ done (w, me'') (ready copied)
      ]

  unfoldable pub read_round : ℕ → Client W F → Round (Client W F) (Poll Bytes PollFailure)
  unfolding send_read take_read
  read_round remaining (w, me) = elim me.state [
    | idle ↦ again (w, record me { state = reserve_request })
    | reserve_request ↦ with_permit me (io.poll_reserve w) (send_read me remaining)
    | reserve_failed ↦ done (w, me) (failed panicked)
    | reading f ↦ take_read me remaining (io.poll_data w f)
    | flushing ↦ again (w, record me { state = idle })
    | shutting_down ↦ again (w, record me { state = idle })
  ]

  -- What is put into the reader's buffer, of which `remaining` bytes are free.
  unfoldable pub poll_read : Client W F → ℕ → Option (Client W F × Poll Bytes PollFailure)
  unfolding copy_buffered_read read_round run_rounds
  poll_read (w, me) remaining =
      if me.info.readable
      then (elim (copy_buffered_read me remaining) [
        | some (me', copied) ↦ some ((w, me'), ready copied)
        | none ↦ run_rounds 4 (read_round remaining) (w, me)
      ])
      else some ((w, me), failed (unsupported "Target doesn't support reading"))
