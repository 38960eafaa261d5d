-- ===== src/Client/AliveReads.antt =====
-- When a read of `VolumeIoRW` panics.
use boardswarm.Prelude.{
  ℕ, ◌≡◌, refl, true, none, some, [], ◌∷◌, Bytes, arith, Poll, ready, failed, pending, Poll-cases,
  Proceeds, run_rounds, run_rounds_total, inl, inr, Bool-cases,
}
use boardswarm.Status.{Status}
use boardswarm.Client.ReadWrite.{
  PollFailure, Channels, IoWrapperState, idle, reserve_request, reserve_failed, flushing,
  shutting_down, reading, VolumeIoRw, copy_buffered_read,
}
use boardswarm.Client.Polls.{Client, send_read, take_read, read_round, poll_read}
use boardswarm.Client.Reading.{read_rounds, read_rounds-lt, copied, copied_lem}
use boardswarm.Client.Alive.{is_live, IsLive, LeavesLive}

module _ {W F : Type 0} (io : Channels W F) where
  take_read-Live :
      (n : ℕ) (w : W) (me : VolumeIoRw F) (f : F) (r : Poll Bytes Status)
      → Proceeds
          (IsLive io)
          (λ c (r : Poll Bytes PollFailure). LeavesLive io c r)
          (λ (c : Client W F). read_rounds c.1.state)
          0
          (take_read io (record me { state = reading f }) n (w, r))
  unfolding take_read copy_buffered_read
  take_read-Live n w me f pending = refl
  take_read-Live n w me f (failed e) = refl
  take_read-Live n w me f (ready []) = refl
  take_read-Live n w me f (ready (x ∷ b)) = refl

  read_round-Live :
      (n : ℕ) (w : W) (me : VolumeIoRw F) (st : IoWrapperState F)
      → is_live st ≡ true
      → Proceeds
          (IsLive io)
          (λ c (r : Poll Bytes PollFailure). LeavesLive io c r)
          (λ (c : Client W F). read_rounds c.1.state)
          (read_rounds st)
          (read_round io n (w, record me { state = st }))
  unfolding read_round send_read
  read_round-Live n w me idle h = (refl, omega arith)
  read_round-Live n w me flushing h = (refl, omega arith)
  read_round-Live n w me shutting_down h = (refl, omega arith)
  read_round-Live n w me reserve_failed h = absurd (let no : ⊥ = cc in no)
  read_round-Live n w me (reading f) h =
      take_read-Live n (io.poll_data w f).0 me f (io.poll_data w f).1
  read_round-Live n w me reserve_request h = elim (Poll-cases (io.poll_reserve w).1) [
    | inl (u, e) ↦ rw (e, read_round) (refl, omega arith)
    | inr (inl (x, e)) ↦ rw (e, read_round) tt
    | inr (inr e) ↦ rw (e, read_round) refl
  ]

  pub poll_read-Live :
      (n : ℕ) (w : W) (me : VolumeIoRw F)
      → is_live me.state ≡ true
      → (out : Client W F × Poll Bytes PollFailure) × (poll_read io (w, me) n ≡ some out)
        × LeavesLive io out.0 out.1
  unfolding poll_read
  poll_read-Live n w me h = elim (Bool-cases me.info.readable) [
    | inr refused ↦ rw (refused, poll_read) (_, refl, h)
    | inl allowed ↦ rw (allowed, poll_read) (from_buffer me.buffered_read refl)
  ]
    where
      from_buffer :
          (b : Bytes)
          → me.buffered_read ≡ b
          → (out : Client W F × Poll Bytes PollFailure) × ((elim (copy_buffered_read me n) [
            | some (me', copied) ↦ some ((w, me'), ready copied)
            | none ↦ run_rounds 4 (read_round io n) (w, me)
          ])
              ≡ some out)
            × LeavesLive io out.0 out.1
      from_buffer [] e =
          let none_ : copy_buffered_read me n ≡ none = unfold copy_buffered_read in rw e in
          rw none_ (
            run_rounds_total (IsLive io) (λ c (r : Poll Bytes PollFailure). LeavesLive io c r)
              (λ (c : Client W F). read_rounds c.1.state) (read_round io n)
              (λ (s : Client W F) p. read_round-Live n s.0 s.1 s.1.state p) 4 (w, me)
              (read_rounds-lt me.state) h)
      from_buffer (x ∷ b) e =
          rw (copied_lem me n x b e)
            (((w, (copied me n x b).0), ready (copied me n x b).1), refl, h)
