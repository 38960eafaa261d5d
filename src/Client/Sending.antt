-- ===== src/Client/Sending.antt =====
-- What the polls of `VolumeIoRW` send, and what a write reports.
use boardswarm.Prelude.{
  ℕ, ◌<◌, ◌≡◌, refl, ap, ◌∙◌, Option, none, some, List, [], ◌∷◌, ◌++◌, Bytes, arith, length, take,
  min, saturating_add, Poll, ready, failed, pending, Poll-cases, Proceeds, run_rounds,
  run_rounds_total, inl, inr, Bool-cases, Outcome-cases,
}
use boardswarm.VolumeIo.Serve.{TargetOrRequest, write_request}
use boardswarm.Client.ReadWrite.{
  max_write_size, PollFailure, Channels, IoWrapperState, idle, reserve_request, reserve_failed,
  flushing, shutting_down, reading, Pending, pending_write, pending_flush, pending_shutdown,
  VolumeIoRw, invalidate_read_buffer, poll_pending, cleanup, cleanup_pending_requests,
}
use boardswarm.Client.Polls.{Client, send_write, write_round, write_after, poll_write}

-- Only `send` sends, and it sends the one request.
pub record IsChannels {W F : Type 0} (io : Channels W F) (sent : W → List TargetOrRequest)
    : Type 0 where
  pub reserves : (w : W) → sent (io.poll_reserve w).0 ≡ sent w
  pub sends : (w : W) (r : TargetOrRequest) → sent (io.send w r).0 ≡ sent w ++ r ∷ []
  pub awaits_written : (w : W) (f : F) → sent (io.poll_written w f).0 ≡ sent w
  pub awaits_data : (w : W) (f : F) → sent (io.poll_data w f).0 ≡ sent w
  pub awaits_done : (w : W) (f : F) → sent (io.poll_done w f).0 ≡ sent w

abbrev pub last : List TargetOrRequest → Option TargetOrRequest
last [] = none
last (r ∷ []) = some r
last (r ∷ q ∷ rs) = last (q ∷ rs)

pub last-append : (rs : List TargetOrRequest) (r : TargetOrRequest) → last (rs ++ r ∷ []) ≡ some r
last-append [] r = refl
last-append (q ∷ []) r = refl
last-append (q ∷ p ∷ rs) r = last-append (p ∷ rs) r

-- How many rounds a write takes from a state.
abbrev pub write_rounds : {F : Type 0} → IoWrapperState F → ℕ
write_rounds reserve_request = 0
write_rounds reserve_failed = 0
write_rounds idle = 1
write_rounds _ = 2

pub write_rounds-lt : {F : Type 0} (st : IoWrapperState F) → write_rounds st < 3
write_rounds-lt idle = omega arith
write_rounds-lt reserve_request = omega arith
write_rounds-lt reserve_failed = omega arith
write_rounds-lt flushing = omega arith
write_rounds-lt shutting_down = omega arith
write_rounds-lt (reading f) = omega arith

module _ {W F : Type 0} (io : Channels W F) (sent : W → List TargetOrRequest) where
  poll_pending_sends :
      (w : W) (p : Pending F) → IsChannels io sent → sent (poll_pending io w p).0 ≡ sent w
  unfolding poll_pending
  poll_pending_sends w (pending_write f) law = law.awaits_written w f
  poll_pending_sends w (pending_flush f) law = law.awaits_done w f
  poll_pending_sends w (pending_shutdown f) law = law.awaits_done w f

  pub cleanup_sends :
      (w : W) (ps : List (Pending F)) → IsChannels io sent → sent (cleanup io w ps).0.0 ≡ sent w
  unfolding cleanup
  cleanup_sends w [] law = refl
  cleanup_sends w (p ∷ ps) law =
      let w' = (poll_pending io w p).0 in
      let here = poll_pending_sends w p law in
      elim (Poll-cases (poll_pending io w p).1) [
        | inl (u, e) ↦ rw (e, cleanup) (cleanup_sends w' ps law ∙ here)
        | inr (inl (x, e)) ↦ rw (e, cleanup) here
        | inr (inr e) ↦ rw (e, cleanup) here
      ]

  -- How a write ends: what it sent behind the log, and where the position is then.
  abbrev pub Wrote : List TargetOrRequest → ℕ → Bytes → Client W F → Poll ℕ PollFailure → Type 0
  Wrote log pos buf (w, me) (ready n) =
      (n ≡ min (length buf) max_write_size)
      × (sent w ≡ log ++ write_request (take n buf) pos ∷ [])
      × (me.pos ≡ saturating_add pos n)
  Wrote log pos buf (w, me) (failed e) = (sent w ≡ log) × (me.pos ≡ pos)
  Wrote log pos buf (w, me) pending = (sent w ≡ log) × (me.pos ≡ pos)

  abbrev Unwritten : List TargetOrRequest → ℕ → Client W F → Type 0
  Unwritten log pos (w, me) = (sent w ≡ log) × (me.pos ≡ pos)

  abbrev rounds_left : Client W F → ℕ
  rounds_left (w, me) = write_rounds me.state

  write_round-Proceeds :
      (log : List TargetOrRequest) (pos : ℕ) (buf : Bytes) (w : W) (me : VolumeIoRw F)
      (st : IoWrapperState F)
      → IsChannels io sent
      → Unwritten log pos (w, me)
      → Proceeds
          (Unwritten log pos)
          (Wrote log pos buf)
          rounds_left
          (write_rounds st)
          (write_round io buf (w, record me { state = st }))
  unfolding write_round send_write
  write_round-Proceeds log pos buf w me idle law h = (h, omega arith)
  write_round-Proceeds log pos buf w me flushing law h = (h, omega arith)
  write_round-Proceeds log pos buf w me shutting_down law h = (h, omega arith)
  write_round-Proceeds log pos buf w me (reading f) law h = (h, omega arith)
  write_round-Proceeds log pos buf w me reserve_failed law h = h
  write_round-Proceeds log pos buf w me reserve_request law h =
      let w' = (io.poll_reserve w).0 in
      let kept : sent w' ≡ log = law.reserves w ∙ h.0 in
      elim (Poll-cases (io.poll_reserve w).1) [
        | inl (u, e) ↦
            rw (e, write_round)
              (
                refl,
                cc (
                  law.sends w' (write_request (take (min (length buf) max_write_size) buf) me.pos),
                  kept,
                  h.1,
                ),
                ap (λ p. saturating_add p (min (length buf) max_write_size)) h.1,
              )
        | inr (inl (x, e)) ↦ rw (e, write_round) (kept, h.1)
        | inr (inr e) ↦ rw (e, write_round) (kept, h.1)
      ]

  write_loop_sends :
      (log : List TargetOrRequest) (pos : ℕ) (buf : Bytes) (c : Client W F)
      → IsChannels io sent
      → Unwritten log pos c
      → (out : Client W F × Poll ℕ PollFailure) × (run_rounds 3 (write_round io buf) c ≡ some out)
        × Wrote log pos buf out.0 out.1
  write_loop_sends log pos buf c law h =
      run_rounds_total (Unwritten log pos) (Wrote log pos buf) rounds_left (write_round io buf)
        (λ (s : Client W F) p. write_round-Proceeds log pos buf s.0 s.1 s.1.state law p) 3 c
        (write_rounds-lt c.1.state) h

  pub poll_write_sends :
      (w : W) (me : VolumeIoRw F) (buf : Bytes)
      → IsChannels io sent
      → (out : Client W F × Poll ℕ PollFailure) × (poll_write io (w, me) buf ≡ some out)
        × Wrote (sent w) me.pos buf out.0 out.1
  unfolding poll_write write_after cleanup_pending_requests invalidate_read_buffer
  poll_write_sends w me buf law = elim (Bool-cases me.info.writable) [
    | inr refused ↦ rw (refused, poll_write) (_, refl, (refl, refl))
    | inl allowed ↦
        let kept = cleanup_sends w me.pending_requests law in
        elim (Outcome-cases (cleanup io w me.pending_requests).1) [
          | inr (x, e) ↦ rw (allowed, e, poll_write, write_after) (_, refl, (kept, refl))
          | inl (u, e) ↦
              rw (allowed, e, poll_write, write_after)
                (write_loop_sends (sent w) me.pos buf _ law (kept, refl))
        ]
  ]
