-- ===== src/Client/Following.antt =====
-- The polls of `VolumeIoRW` follow a file with a cursor.
use boardswarm.Prelude.{
  ℕ, suc, ◌≡◌, refl, sym, ap, ◌∙◌, Option, none, some, List, [], ◌∷◌, Bytes, arith, length, take,
  min, saturating_add, Poll, ready, failed, pending, Poll-cases, Proceeds, run_rounds,
  run_rounds_total, inl, inr, Bool-cases, Outcome-cases, subst,
}
use boardswarm.Status.{Status}
use boardswarm.VolumeIo.Serve.{TargetOrRequest, read_request}
use boardswarm.Client.ReadWrite.{
  Channels, PollFailure, IoWrapperState, idle, reserve_request, reserve_failed, flushing,
  shutting_down, reading, VolumeIoRw, copy_buffered_read, cleanup, cleanup_pending_requests,
  invalidate_read_buffer,
}
use boardswarm.Client.Polls.{
  Client, poll_write, poll_read, write_after, write_round, send_write, read_round, send_read,
  take_read,
}
use boardswarm.Client.Sending.{IsChannels, cleanup_sends, write_rounds, write_rounds-lt}
use boardswarm.Client.Flushing.{writes, Begun, Stands, sent_last}
use boardswarm.Client.Reading.{copied, copied_lem, read_rounds, read_rounds-lt}
use boardswarm.Client.Cursor.{Event, FileView, view_event, read_event}

module _ {W F : Type 0} (io : Channels W F) (sent : W → List TargetOrRequest) where
  -- A client as a file shows it.
  abbrev pub Shows : FileView → Client W F → Type 0
  Shows f c = Stands io sent f.cursor f.written c

  -- A poll that reports an event leaves the client as the event leaves the file.
  abbrev pub Follows : FileView → Option (Client W F × Event) → Type 0
  Follows f o = (out : Client W F × Event) × (o ≡ some out) × Shows (view_event f out.1) out.0

  unfoldable pub ReadStands : FileView → Client W F → Poll Bytes PollFailure → Type 0
  ReadStands f c r = Shows (view_event f (read_event r)) c

  abbrev rounds_to_read : Client W F → ℕ
  rounds_to_read (w, me) = read_rounds me.state

  -- What is copied of a buffer that is not empty moves the cursor behind it.
  copied-Shows :
      (f : FileView) (n : ℕ) (w : W) (me : VolumeIoRw F) (x : ℕ) (b : Bytes)
      → Shows f (w, me)
      → ReadStands f (w, (copied me (suc n) x b).0) (ready (copied me (suc n) x b).1)
  unfolding ReadStands view_event
  copied-Shows f n w me x b h =
      let e : min (suc n) (suc (length b)) ≡ suc (min n (length b)) = omega arith in
      rw e (h.0, h.1, ap (λ p. saturating_add p (suc (length (take (min n (length b)) b)))) h.2)

  -- What was answered to a read moves the cursor behind what is copied of it.
  take_read-Shows :
      (f : FileView) (n : ℕ) (w : W) (me : VolumeIoRw F) (r : Poll Bytes Status)
      → Shows f (w, me)
      → Proceeds (Shows f) (ReadStands f) rounds_to_read 0 (take_read io me (suc n) (w, r))
  unfolding take_read copy_buffered_read ReadStands view_event
  take_read-Shows f n w me pending h = h
  take_read-Shows f n w me (failed e) h = (tt, h.1, h.2)
  take_read-Shows f n w me (ready []) h = (tt, h.1, h.2)
  take_read-Shows f n w me (ready (x ∷ b)) h =
      copied-Shows f n w (record me { state = idle }) x b (tt, h.1, h.2)

  read_round-Shows :
      (f : FileView) (n : ℕ) (w : W) (me : VolumeIoRw F) (st : IoWrapperState F)
      → IsChannels io sent
      → Shows f (w, record me { state = st })
      → Proceeds
          (Shows f)
          (ReadStands f)
          rounds_to_read
          (read_rounds st)
          (read_round io (suc n) (w, record me { state = st }))
  unfolding read_round send_read ReadStands view_event
  read_round-Shows f n w me idle law h = ((tt, h.1, h.2), omega arith)
  read_round-Shows f n w me flushing law h = ((tt, h.1, h.2), omega arith)
  read_round-Shows f n w me shutting_down law h = ((tt, h.1, h.2), omega arith)
  read_round-Shows f n w me (reading r) law h =
      let kept : writes (sent (io.poll_data w r).0) ≡ f.written =
        ap writes (law.awaits_data w r) ∙ h.1 in
      take_read-Shows f n (io.poll_data w r).0 (record me { state = reading r })
        (io.poll_data w r).1 (subst (Begun (reading r)) (sym (law.awaits_data w r)) h.0, kept, h.2)
  read_round-Shows f n w me reserve_failed law h = h
  read_round-Shows f n w me reserve_request law h =
      let w' = (io.poll_reserve w).0 in
      let kept : writes (sent w') ≡ f.written = ap writes (law.reserves w) ∙ h.1 in
      elim (Poll-cases (io.poll_reserve w).1) [
        | inl (u, e) ↦
            let done_ =
              sent_last io sent w' (read_request (suc n) me.pos) f.written law refl kept in
            rw (e, read_round) (((suc n, me.pos, done_.0), done_.1, h.2), omega arith)
        | inr (inl (x, e)) ↦ rw (e, read_round) (tt, kept, h.2)
        | inr (inr e) ↦ rw (e, read_round) (tt, kept, h.2)
      ]

  pub poll_read-Shows :
      (f : FileView) (n : ℕ) (w : W) (me : VolumeIoRw F)
      → IsChannels io sent
      → Shows f (w, me)
      → (out : Client W F × Poll Bytes PollFailure) × (poll_read io (w, me) (suc n) ≡ some out)
        × ReadStands f out.0 out.1
  unfolding poll_read ReadStands view_event
  poll_read-Shows f n w me law h = elim (Bool-cases me.info.readable) [
    | inr refused ↦ rw (refused, poll_read) (_, refl, h)
    | inl allowed ↦ rw (allowed, poll_read) (from_buffer me.buffered_read refl)
  ]
    where
      from_buffer :
          (b : Bytes)
          → me.buffered_read ≡ b
          → (out : Client W F × Poll Bytes PollFailure) × ((elim (copy_buffered_read me (suc n)) [
            | some (me', copied) ↦ some ((w, me'), ready copied)
            | none ↦ run_rounds 4 (read_round io (suc n)) (w, me)
          ])
              ≡ some out)
            × ReadStands f out.0 out.1
      from_buffer [] e =
          let none_ : copy_buffered_read me (suc n) ≡ none = unfold copy_buffered_read in rw e in
          rw none_ (
            run_rounds_total (Shows f) (ReadStands f) rounds_to_read (read_round io (suc n))
              (λ (s : Client W F) p. read_round-Shows f n s.0 s.1 s.1.state law p) 4 (w, me)
              (read_rounds-lt me.state) h)
      from_buffer (x ∷ b) e = rw (copied_lem me (suc n) x b e) (
        ((w, (copied me (suc n) x b).0), ready (copied me (suc n) x b).1),
        refl,
        copied-Shows f n w me x b h,
      )

  -- A write that goes on, or ends, waits for nothing but a place in the queue.
  abbrev pub HasBegun : Client W F → Type 0
  HasBegun (w, me) = Begun me.state (sent w)

  abbrev rounds_to_write : Client W F → ℕ
  rounds_to_write (w, me) = write_rounds me.state

  write_round-Begun :
      (b : Bytes) (w : W) (me : VolumeIoRw F) (st : IoWrapperState F)
      → Proceeds HasBegun
          (λ c (r : Poll ℕ PollFailure). HasBegun c)
          rounds_to_write
          (write_rounds st)
          (write_round io b (w, record me { state = st }))
  unfolding write_round send_write
  write_round-Begun b w me idle = (tt, omega arith)
  write_round-Begun b w me flushing = (tt, omega arith)
  write_round-Begun b w me shutting_down = (tt, omega arith)
  write_round-Begun b w me (reading f) = (tt, omega arith)
  write_round-Begun b w me reserve_failed = tt
  write_round-Begun b w me reserve_request = elim (Poll-cases (io.poll_reserve w).1) [
    | inl (u, e) ↦ rw (e, write_round) tt
    | inr (inl (x, e)) ↦ rw (e, write_round) tt
    | inr (inr e) ↦ rw (e, write_round) tt
  ]

  pub poll_write-Begun :
      (b : Bytes) (w : W) (me : VolumeIoRw F)
      → IsChannels io sent
      → HasBegun (w, me)
      → (out : Client W F × Poll ℕ PollFailure) × (poll_write io (w, me) b ≡ some out)
        × HasBegun out.0
  unfolding poll_write write_after cleanup_pending_requests invalidate_read_buffer
  poll_write-Begun b w me law h =
      let kept : Begun me.state (sent (cleanup io w me.pending_requests).0.0) =
        subst (Begun me.state) (sym (cleanup_sends io sent w me.pending_requests law)) h in
      elim (Bool-cases me.info.writable) [
        | inr refused ↦ rw (refused, poll_write) (_, refl, h)
        | inl allowed ↦ elim (Outcome-cases (cleanup io w me.pending_requests).1) [
          | inr (x, e) ↦ rw (allowed, e, poll_write, write_after) (_, refl, kept)
          | inl (u, e) ↦
              rw (allowed, e, poll_write, write_after)
                (run_rounds_total HasBegun (λ c (r : Poll ℕ PollFailure). HasBegun c)
                  rounds_to_write (write_round io b)
                  (λ (s : Client W F) p. write_round-Begun b s.0 s.1 s.1.state) 3 _
                  (write_rounds-lt me.state) kept)
        ]
      ]
