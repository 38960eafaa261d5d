-- ===== src/Client/Closing.antt =====
-- What a shutdown of `VolumeIoRW` has done when it reports that it is done.
use boardswarm.Prelude.{
  ℕ, ◌<◌, ◌≡◌, refl, ap, ◌∙◌, some, List, Bytes, arith, Poll, Poll-cases, Proceeds,
  run_rounds_total, inl, inr, Outcome, ok, err,
}
use boardswarm.VolumeIo.Serve.{TargetOrRequest, shutdown_request}
use boardswarm.Client.ReadWrite.{
  PollFailure, Channels, IoWrapperState, idle, reserve_request, reserve_failed, flushing,
  shutting_down, reading, VolumeIoRw, cleanup, cleanup_pending_requests,
}
use boardswarm.Client.Polls.{Client, send_shutdown, shutdown_step, shutdown_round, poll_shutdown}
use boardswarm.Client.Sending.{IsChannels}
use boardswarm.Client.Flushing.{
  writes, Begun, Stands, Ends, sent_last, when_pushed_through-Proceeds, cleanup-Stands,
}

abbrev pub shutdown_rounds : {F : Type 0} → IoWrapperState F → ℕ
shutdown_rounds shutting_down = 0
shutdown_rounds reserve_request = 1
shutdown_rounds reserve_failed = 0
shutdown_rounds idle = 2
shutdown_rounds (reading f) = 3
shutdown_rounds flushing = 3

pub shutdown_rounds-lt : {F : Type 0} (st : IoWrapperState F) → shutdown_rounds st < 4
shutdown_rounds-lt idle = omega arith
shutdown_rounds-lt reserve_request = omega arith
shutdown_rounds-lt reserve_failed = omega arith
shutdown_rounds-lt flushing = omega arith
shutdown_rounds-lt shutting_down = omega arith
shutdown_rounds-lt (reading f) = omega arith

module _ {W F : Type 0} (io : Channels W F) (sent : W → List TargetOrRequest) where
  abbrev rounds_to_shutdown : Client W F → ℕ
  rounds_to_shutdown (w, me) = shutdown_rounds me.state

  shutdown_step-Proceeds :
      (pos : ℕ) (ws : List (ℕ × Bytes)) (w : W) (me : VolumeIoRw F) (st : IoWrapperState F)
      (r : Outcome (Unit {0}) PollFailure)
      → IsChannels io sent
      → Stands io sent pos ws (w, record me { state = st })
      → Proceeds
          (Stands io sent pos ws)
          (Ends io sent shutdown_request pos ws)
          rounds_to_shutdown
          (shutdown_rounds st)
          (shutdown_step io ((w, record me { state = st }), r))
  unfolding shutdown_step send_shutdown
  shutdown_step-Proceeds pos ws w me st (err e) law h = ((tt, h.1, h.2), tt)
  shutdown_step-Proceeds pos ws w me idle (ok u) law h = ((tt, h.1, h.2), omega arith)
  shutdown_step-Proceeds pos ws w me (reading f) (ok u) law h = ((tt, h.1, h.2), omega arith)
  shutdown_step-Proceeds pos ws w me flushing (ok u) law h = ((tt, h.1, h.2), omega arith)
  shutdown_step-Proceeds pos ws w me shutting_down (ok u) law h =
      when_pushed_through-Proceeds io sent shutdown_request pos ws w
        (record me { state = shutting_down }) rounds_to_shutdown me.pending_requests h h.0
  shutdown_step-Proceeds pos ws w me reserve_failed (ok u) law h = (h, tt)
  shutdown_step-Proceeds pos ws w me reserve_request (ok u) law h =
      let w' = (io.poll_reserve w).0 in
      let kept : writes (sent w') ≡ ws = ap writes (law.reserves w) ∙ h.1 in
      elim (Poll-cases (io.poll_reserve w).1) [
        | inl (v, e) ↦
            let done_ = sent_last io sent w' shutdown_request ws law refl kept in
            rw (e, shutdown_step) ((done_.0, done_.1, h.2), omega arith)
        | inr (inl (x, e)) ↦ rw (e, shutdown_step) ((tt, kept, h.2), tt)
        | inr (inr e) ↦ rw (e, shutdown_step) ((tt, kept, h.2), tt)
      ]

  -- A shutdown returns, whatever the channels answer. It moves nothing and writes nothing; when it is
  -- done, the last request is a shutdown, and none is pending.
  pub poll_shutdown_pushes :
      (c : Client W F)
      → IsChannels io sent
      → Begun c.1.state (sent c.0)
      → (out : Client W F × Poll (Unit {0}) PollFailure) × (poll_shutdown io c ≡ some out)
        × Ends io sent shutdown_request c.1.pos (writes (sent c.0)) out.0 out.1
  unfolding poll_shutdown
  poll_shutdown_pushes c law begun =
      run_rounds_total (Stands io sent c.1.pos (writes (sent c.0)))
        (Ends io sent shutdown_request c.1.pos (writes (sent c.0))) rounds_to_shutdown
        (shutdown_round io) step 4 c (shutdown_rounds-lt c.1.state) (begun, refl, refl)
    where
      step :
          (s : Client W F)
          → Stands io sent c.1.pos (writes (sent c.0)) s
          → Proceeds
              (Stands io sent c.1.pos (writes (sent c.0)))
              (Ends io sent shutdown_request c.1.pos (writes (sent c.0)))
              rounds_to_shutdown
              (rounds_to_shutdown s)
              (shutdown_round io s)
      step (w, me) h =
          unfold shutdown_round cleanup_pending_requests in
          shutdown_step-Proceeds c.1.pos (writes (sent c.0)) (cleanup io w me.pending_requests).0.0
            (record me { pending_requests = (cleanup io w me.pending_requests).0.1 }) me.state
            (cleanup io w me.pending_requests).1 law
            (cleanup-Stands io sent c.1.pos (writes (sent c.0)) w me law h)
