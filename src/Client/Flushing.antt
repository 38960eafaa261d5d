-- ===== src/Client/Flushing.antt =====
-- What a flush and a shutdown of `VolumeIoRW` have done when they report that they are done.
use boardswarm.Prelude.{
  ℕ, ◌<◌, ◌≡◌, refl, sym, ap, ◌∙◌, some, List, [], ◌∷◌, ◌++◌, append-nil, Bytes, arith, subst, Poll,
  ready, failed, pending, Poll-cases, Proceeds, run_rounds_total, inl, inr, Outcome, ok, err,
}
use boardswarm.VolumeIo.Serve.{
  TargetOrRequest, target_request, read_request, write_request, flush_request, shutdown_request,
}
use boardswarm.Client.ReadWrite.{
  PollFailure, Channels, IoWrapperState, idle, reserve_request, reserve_failed, flushing,
  shutting_down, reading, Pending, VolumeIoRw, cleanup, cleanup_pending_requests,
}
use boardswarm.Client.Polls.{
  Client, when_pushed_through, send_flush, flush_step, flush_round, poll_flush,
}
use boardswarm.Client.Sending.{IsChannels, last, last-append, cleanup_sends}

-- The writes among the requests: their offsets and data.
abbrev pub writes : List TargetOrRequest → List (ℕ × Bytes)
writes [] = []
writes (write_request data_ offset ∷ rs) = (offset, data_) ∷ writes rs
writes (target_request t ∷ rs) = writes rs
writes (read_request n offset ∷ rs) = writes rs
writes (flush_request ∷ rs) = writes rs
writes (shutdown_request ∷ rs) = writes rs

pub writes-append : (rs qs : List TargetOrRequest) → writes (rs ++ qs) ≡ writes rs ++ writes qs
writes-append [] qs = refl
writes-append (write_request data_ offset ∷ rs) qs = rw (writes-append rs qs)
writes-append (target_request t ∷ rs) qs = writes-append rs qs
writes-append (read_request n offset ∷ rs) qs = writes-append rs qs
writes-append (flush_request ∷ rs) qs = writes-append rs qs
writes-append (shutdown_request ∷ rs) qs = writes-append rs qs

-- What a state waits for was the last thing that was sent.
abbrev pub Begun : {F : Type 0} → IoWrapperState F → List TargetOrRequest → Type 0
Begun idle log = Unit
Begun reserve_request log = Unit
Begun reserve_failed log = Unit
Begun flushing log = last log ≡ some flush_request
Begun shutting_down log = last log ≡ some shutdown_request
Begun (reading f) log = (n : ℕ) × (p : ℕ) × (last log ≡ some (read_request n p))

abbrev pub flush_rounds : {F : Type 0} → IoWrapperState F → ℕ
flush_rounds flushing = 0
flush_rounds shutting_down = 0
flush_rounds reserve_request = 1
flush_rounds reserve_failed = 0
flush_rounds idle = 2
flush_rounds (reading f) = 3

pub flush_rounds-lt : {F : Type 0} (st : IoWrapperState F) → flush_rounds st < 4
flush_rounds-lt idle = omega arith
flush_rounds-lt reserve_request = omega arith
flush_rounds-lt reserve_failed = omega arith
flush_rounds-lt flushing = omega arith
flush_rounds-lt shutting_down = omega arith
flush_rounds-lt (reading f) = omega arith

module _ {W F : Type 0} (io : Channels W F) (sent : W → List TargetOrRequest) where
  -- A client at a position, after some writes.
  abbrev pub Stands : ℕ → List (ℕ × Bytes) → Client W F → Type 0
  Stands pos ws (w, me) = Begun me.state (sent w) × (writes (sent w) ≡ ws) × (me.pos ≡ pos)

  -- When it is done, no request is pending, and `r` was the last that was sent.
  abbrev pub PushedThrough : TargetOrRequest → Client W F → Poll (Unit {0}) PollFailure → Type 0
  PushedThrough r (w, me) (ready u) = (me.pending_requests ≡ []) × (last (sent w) ≡ some r)
  PushedThrough r c (failed e) = Unit
  PushedThrough r c pending = Unit

  abbrev pub Ends :
      TargetOrRequest → ℕ → List (ℕ × Bytes) → Client W F → Poll (Unit {0}) PollFailure → Type 0
  Ends r pos ws c p = Stands pos ws c × PushedThrough r c p

  -- A request that writes nothing, when it is sent.
  pub sent_last :
      (w : W) (r : TargetOrRequest) (ws : List (ℕ × Bytes))
      → IsChannels io sent
      → writes (r ∷ []) ≡ []
      → writes (sent w) ≡ ws
      → (last (sent (io.send w r).0) ≡ some r) × (writes (sent (io.send w r).0) ≡ ws)
  sent_last w r ws law silent h = (
    ap last (law.sends w r) ∙ last-append (sent w) r,
    ap writes (law.sends w r)
        ∙ writes-append (sent w) (r ∷ [])
        ∙ ap (λ l. writes (sent w) ++ l) silent
        ∙ append-nil (writes (sent w))
        ∙ h,
  )

  pub when_pushed_through-Proceeds :
      (r : TargetOrRequest) (pos : ℕ) (ws : List (ℕ × Bytes)) (w : W) (me : VolumeIoRw F)
      (measure : Client W F → ℕ) (ps : List (Pending F))
      → Stands pos ws (w, me)
      → last (sent w) ≡ some r
      → Proceeds
          (Stands pos ws)
          (Ends r pos ws)
          measure
          0
          (when_pushed_through io (w, record me { pending_requests = ps }))
  when_pushed_through-Proceeds r pos ws w me measure [] h begun = ((tt, h.1, h.2), (refl, begun))
  when_pushed_through-Proceeds r pos ws w me measure (p ∷ ps) h begun = (h, tt)

  abbrev rounds_to_flush : Client W F → ℕ
  rounds_to_flush (w, me) = flush_rounds me.state

  pub cleanup-Stands :
      (pos : ℕ) (ws : List (ℕ × Bytes)) (w : W) (me : VolumeIoRw F)
      → IsChannels io sent
      → Stands pos ws (w, me)
      → Stands pos ws (cleanup_pending_requests io (w, me)).0
  unfolding cleanup_pending_requests
  cleanup-Stands pos ws w me law h =
      let e = cleanup_sends io sent w me.pending_requests law in
      (subst (Begun me.state) (sym e) h.0, ap writes e ∙ h.1, h.2)

  flush_step-Proceeds :
      (pos : ℕ) (ws : List (ℕ × Bytes)) (w : W) (me : VolumeIoRw F) (st : IoWrapperState F)
      (r : Outcome (Unit {0}) PollFailure)
      → IsChannels io sent
      → Stands pos ws (w, record me { state = st })
      → Proceeds
          (Stands pos ws)
          (Ends flush_request pos ws)
          rounds_to_flush
          (flush_rounds st)
          (flush_step io ((w, record me { state = st }), r))
  unfolding flush_step send_flush
  flush_step-Proceeds pos ws w me st (err e) law h = ((tt, h.1, h.2), tt)
  flush_step-Proceeds pos ws w me idle (ok u) law h = ((tt, h.1, h.2), omega arith)
  flush_step-Proceeds pos ws w me (reading f) (ok u) law h = ((tt, h.1, h.2), omega arith)
  flush_step-Proceeds pos ws w me shutting_down (ok u) law h = (h, tt)
  flush_step-Proceeds pos ws w me flushing (ok u) law h =
      when_pushed_through-Proceeds flush_request pos ws w (record me { state = flushing })
        rounds_to_flush me.pending_requests h h.0
  flush_step-Proceeds pos ws w me reserve_failed (ok u) law h = (h, tt)
  flush_step-Proceeds pos ws w me reserve_request (ok u) law h =
      let w' = (io.poll_reserve w).0 in
      let kept : writes (sent w') ≡ ws = ap writes (law.reserves w) ∙ h.1 in
      elim (Poll-cases (io.poll_reserve w).1) [
        | inl (v, e) ↦
            let done_ = sent_last w' flush_request ws law refl kept in
            rw (e, flush_step) ((done_.0, done_.1, h.2), omega arith)
        | inr (inl (x, e)) ↦ rw (e, flush_step) ((tt, kept, h.2), tt)
        | inr (inr e) ↦ rw (e, flush_step) ((tt, kept, h.2), tt)
      ]

  pub poll_flush_pushes :
      (c : Client W F)
      → IsChannels io sent
      → Begun c.1.state (sent c.0)
      → (out : Client W F × Poll (Unit {0}) PollFailure) × (poll_flush io c ≡ some out)
        × Ends flush_request c.1.pos (writes (sent c.0)) out.0 out.1
  unfolding poll_flush
  poll_flush_pushes c law begun =
      run_rounds_total (Stands c.1.pos (writes (sent c.0)))
        (Ends flush_request c.1.pos (writes (sent c.0))) rounds_to_flush (flush_round io) step 4 c
        (flush_rounds-lt c.1.state) (begun, refl, refl)
    where
      step :
          (s : Client W F)
          → Stands c.1.pos (writes (sent c.0)) s
          → Proceeds
              (Stands c.1.pos (writes (sent c.0)))
              (Ends flush_request c.1.pos (writes (sent c.0)))
              rounds_to_flush
              (rounds_to_flush s)
              (flush_round io s)
      step (w, me) h =
          unfold flush_round cleanup_pending_requests in
          flush_step-Proceeds c.1.pos (writes (sent c.0)) (cleanup io w me.pending_requests).0.0
            (record me { pending_requests = (cleanup io w me.pending_requests).0.1 }) me.state
            (cleanup io w me.pending_requests).1 law
            (cleanup-Stands c.1.pos (writes (sent c.0)) w me law h)
