-- ===== src/Client/AlivePushes.antt =====
-- When a flush or a shutdown of `VolumeIoRW` panics.
use boardswarm.Prelude.{
  ℕ, ◌≡◌, refl, true, some, List, [], ◌∷◌, arith, Poll, Poll-cases, Proceeds, run_rounds_total, inl,
  inr, Outcome, ok, err,
}
use boardswarm.Client.ReadWrite.{
  PollFailure, Channels, IoWrapperState, idle, reserve_request, reserve_failed, flushing,
  shutting_down, reading, Pending, VolumeIoRw, cleanup, cleanup_pending_requests,
}
use boardswarm.Client.Polls.{
  Client, when_pushed_through, send_flush, flush_step, flush_round, poll_flush, send_shutdown,
  shutdown_step, shutdown_round, poll_shutdown,
}
use boardswarm.Client.Flushing.{flush_rounds, flush_rounds-lt}
use boardswarm.Client.Closing.{shutdown_rounds, shutdown_rounds-lt}
use boardswarm.Client.Alive.{is_live, cleanup-IsStatus, cleanup_fails, IsStatus, IsLive, LeavesLive}

module _ {W F : Type 0} (io : Channels W F) where
  pushed_through-Live :
      (w : W) (me : VolumeIoRw F) (measure : Client W F → ℕ) (ps : List (Pending F))
      → is_live me.state ≡ true
      → Proceeds
          (IsLive io)
          (λ c (r : Poll (Unit {0}) PollFailure). LeavesLive io c r)
          measure
          0
          (when_pushed_through io (w, record me { pending_requests = ps }))
  pushed_through-Live w me measure [] h = refl
  pushed_through-Live w me measure (p ∷ ps) h = h

  flush_step-Live :
      (w : W) (me : VolumeIoRw F) (st : IoWrapperState F) (r : Outcome (Unit {0}) PollFailure)
      → is_live st ≡ true
      → IsStatus r
      → Proceeds
          (IsLive io)
          (λ c (r : Poll (Unit {0}) PollFailure). LeavesLive io c r)
          (λ (c : Client W F). flush_rounds c.1.state)
          (flush_rounds st)
          (flush_step io ((w, record me { state = st }), r))
  unfolding flush_step send_flush
  flush_step-Live w me st (err x) h tame = cleanup_fails io (Unit {0}) true (err x) x tame refl refl
  flush_step-Live w me reserve_failed (ok u) h tame = absurd (let no : ⊥ = cc in no)
  flush_step-Live w me idle (ok u) h tame = (refl, omega arith)
  flush_step-Live w me (reading f) (ok u) h tame = (refl, omega arith)
  flush_step-Live w me shutting_down (ok u) h tame = refl
  flush_step-Live w me flushing (ok u) h tame =
      pushed_through-Live w (record me { state = flushing })
        (λ (c : Client W F). flush_rounds c.1.state) me.pending_requests refl
  flush_step-Live w me reserve_request (ok u) h tame = elim (Poll-cases (io.poll_reserve w).1) [
    | inl (v, e) ↦ rw (e, flush_step) (refl, omega arith)
    | inr (inl (x, e)) ↦ rw (e, flush_step) tt
    | inr (inr e) ↦ rw (e, flush_step) refl
  ]

  pub poll_flush-Live :
      (c : Client W F)
      → is_live c.1.state ≡ true
      → (out : Client W F × Poll (Unit {0}) PollFailure) × (poll_flush io c ≡ some out)
        × LeavesLive io out.0 out.1
  unfolding poll_flush
  poll_flush-Live c h =
      run_rounds_total (IsLive io) (λ c (r : Poll (Unit {0}) PollFailure). LeavesLive io c r)
        (λ (c : Client W F). flush_rounds c.1.state) (flush_round io) step 4 c
        (flush_rounds-lt c.1.state) h
    where
      step :
          (s : Client W F)
          → IsLive io s
          → Proceeds
              (IsLive io)
              (λ c (r : Poll (Unit {0}) PollFailure). LeavesLive io c r)
              (λ (c : Client W F). flush_rounds c.1.state)
              (flush_rounds s.1.state)
              (flush_round io s)
      step (w, me) p =
          unfold flush_round cleanup_pending_requests in
          flush_step-Live (cleanup io w me.pending_requests).0.0
            (record me { pending_requests = (cleanup io w me.pending_requests).0.1 }) me.state
            (cleanup io w me.pending_requests).1 p (cleanup-IsStatus io w me.pending_requests)

  shutdown_step-Live :
      (w : W) (me : VolumeIoRw F) (st : IoWrapperState F) (r : Outcome (Unit {0}) PollFailure)
      → is_live st ≡ true
      → IsStatus r
      → Proceeds
          (IsLive io)
          (λ c (r : Poll (Unit {0}) PollFailure). LeavesLive io c r)
          (λ (c : Client W F). shutdown_rounds c.1.state)
          (shutdown_rounds st)
          (shutdown_step io ((w, record me { state = st }), r))
  unfolding shutdown_step send_shutdown
  shutdown_step-Live w me st (err x) h tame =
      cleanup_fails io (Unit {0}) true (err x) x tame refl refl
  shutdown_step-Live w me reserve_failed (ok u) h tame = absurd (let no : ⊥ = cc in no)
  shutdown_step-Live w me idle (ok u) h tame = (refl, omega arith)
  shutdown_step-Live w me (reading f) (ok u) h tame = (refl, omega arith)
  shutdown_step-Live w me flushing (ok u) h tame = (refl, omega arith)
  shutdown_step-Live w me shutting_down (ok u) h tame =
      pushed_through-Live w (record me { state = shutting_down })
        (λ (c : Client W F). shutdown_rounds c.1.state) me.pending_requests refl
  shutdown_step-Live w me reserve_request (ok u) h tame = elim (Poll-cases (io.poll_reserve w).1) [
    | inl (v, e) ↦ rw (e, shutdown_step) (refl, omega arith)
    | inr (inl (x, e)) ↦ rw (e, shutdown_step) tt
    | inr (inr e) ↦ rw (e, shutdown_step) refl
  ]

  pub poll_shutdown-Live :
      (c : Client W F)
      → is_live c.1.state ≡ true
      → (out : Client W F × Poll (Unit {0}) PollFailure) × (poll_shutdown io c ≡ some out)
        × LeavesLive io out.0 out.1
  unfolding poll_shutdown
  poll_shutdown-Live c h =
      run_rounds_total (IsLive io) (λ c (r : Poll (Unit {0}) PollFailure). LeavesLive io c r)
        (λ (c : Client W F). shutdown_rounds c.1.state) (shutdown_round io) step 4 c
        (shutdown_rounds-lt c.1.state) h
    where
      step :
          (s : Client W F)
          → IsLive io s
          → Proceeds
              (IsLive io)
              (λ c (r : Poll (Unit {0}) PollFailure). LeavesLive io c r)
              (λ (c : Client W F). shutdown_rounds c.1.state)
              (shutdown_rounds s.1.state)
              (shutdown_round io s)
      step (w, me) p =
          unfold shutdown_round cleanup_pending_requests in
          shutdown_step-Live (cleanup io w me.pending_requests).0.0
            (record me { pending_requests = (cleanup io w me.pending_requests).0.1 }) me.state
            (cleanup io w me.pending_requests).1 p (cleanup-IsStatus io w me.pending_requests)
