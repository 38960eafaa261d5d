-- ===== src/Client/Alive.antt =====
-- When the polls of `VolumeIoRW` panic: what is said of it, and its writes.
use boardswarm.Prelude.{
  ℕ, ◌≡◌, refl, Bool, true, false, some, List, [], ◌∷◌, Bytes, arith, Poll, ready, failed, pending,
  Poll-cases, Proceeds, run_rounds_total, subst, inl, inr, Bool-cases, Outcome-cases, Outcome, ok,
  err,
}
use boardswarm.Client.ReadWrite.{
  PollFailure, unsupported, invalid_input, not_connected, panicked, other_error, Channels,
  IoWrapperState, idle, reserve_request, reserve_failed, flushing, shutting_down, reading, Pending,
  VolumeIoRw, invalidate_read_buffer, poll_pending, cleanup, cleanup_pending_requests,
}
use boardswarm.Client.Polls.{Client, send_write, write_round, write_after, poll_write}
use boardswarm.Client.Sending.{write_rounds, write_rounds-lt}

-- No reservation has failed.
abbrev pub is_live : {F : Type 0} → IoWrapperState F → Bool
is_live reserve_failed = false
is_live idle = true
is_live reserve_request = true
is_live flushing = true
is_live shutting_down = true
is_live (reading f) = true

-- How a poll of a live client ends: not by a panic, and live, unless it failed as the reservation did.
abbrev pub Survives : {A : Type 0} → Poll A PollFailure → Bool → Type 0
Survives (ready a) live = live ≡ true
Survives pending live = live ≡ true
Survives (failed panicked) live = ⊥
Survives (failed not_connected) live = Unit {0}
Survives (failed (unsupported m)) live = live ≡ true
Survives (failed (invalid_input m)) live = live ≡ true
Survives (failed (other_error e)) live = live ≡ true

-- A cleanup fails by a status.
abbrev pub IsStatus : Outcome (Unit {0}) PollFailure → Type 0
IsStatus (ok u) = Unit {0}
IsStatus (err (other_error e)) = Unit {0}
IsStatus (err panicked) = ⊥
IsStatus (err not_connected) = ⊥
IsStatus (err (unsupported m)) = ⊥
IsStatus (err (invalid_input m)) = ⊥

module _ {W F : Type 0} (io : Channels W F) where
  pub cleanup-IsStatus : (w : W) (ps : List (Pending F)) → IsStatus (cleanup io w ps).1
  unfolding cleanup
  cleanup-IsStatus w [] = tt
  cleanup-IsStatus w (p ∷ ps) = elim (Poll-cases (poll_pending io w p).1) [
    | inl (u, e) ↦ rw (e, cleanup) (cleanup-IsStatus (poll_pending io w p).0 ps)
    | inr (inl (x, e)) ↦ rw (e, cleanup) tt
    | inr (inr e) ↦ rw (e, cleanup) tt
  ]

  abbrev pub IsLive : Client W F → Type 0
  IsLive (w, me) = is_live me.state ≡ true

  abbrev pub LeavesLive : {A : Type 0} → Client W F → Poll A PollFailure → Type 0
  LeavesLive (w, me) r = Survives r (is_live me.state)

  write_round-Live :
      (b : Bytes) (w : W) (me : VolumeIoRw F) (st : IoWrapperState F)
      → is_live st ≡ true
      → Proceeds IsLive
          (λ c (r : Poll ℕ PollFailure). LeavesLive c r)
          (λ (c : Client W F). write_rounds c.1.state)
          (write_rounds st)
          (write_round io b (w, record me { state = st }))
  unfolding write_round send_write
  write_round-Live b w me idle h = (refl, omega arith)
  write_round-Live b w me flushing h = (refl, omega arith)
  write_round-Live b w me shutting_down h = (refl, omega arith)
  write_round-Live b w me (reading f) h = (refl, omega arith)
  write_round-Live b w me reserve_failed h = absurd (let no : ⊥ = cc in no)
  write_round-Live b w me reserve_request h = elim (Poll-cases (io.poll_reserve w).1) [
    | inl (u, e) ↦ rw (e, write_round) refl
    | inr (inl (x, e)) ↦ rw (e, write_round) tt
    | inr (inr e) ↦ rw (e, write_round) refl
  ]

  pub cleanup_fails :
      (A : Type 0) (live : Bool) (r : Outcome (Unit {0}) PollFailure) (x : PollFailure)
      → IsStatus r
      → r ≡ err x
      → live ≡ true
      → Survives {A = A} (failed x) live
  cleanup_fails A live (ok u) x tame e h = absurd (let no : ⊥ = cc in no)
  cleanup_fails A live (err (other_error s)) x tame e h =
      let same : other_error s ≡ x = cc in subst (λ y. Survives {A = A} (failed y) live) same h
  cleanup_fails A live (err (unsupported m)) x tame e h = elim tame [ ]
  cleanup_fails A live (err (invalid_input m)) x tame e h = elim tame [ ]
  cleanup_fails A live (err not_connected) x tame e h = elim tame [ ]
  cleanup_fails A live (err panicked) x tame e h = elim tame [ ]

  pub poll_write-Live :
      (b : Bytes) (w : W) (me : VolumeIoRw F)
      → is_live me.state ≡ true
      → (out : Client W F × Poll ℕ PollFailure) × (poll_write io (w, me) b ≡ some out)
        × LeavesLive out.0 out.1
  unfolding poll_write write_after cleanup_pending_requests invalidate_read_buffer
  poll_write-Live b w me h = elim (Bool-cases me.info.writable) [
    | inr refused ↦ rw (refused, poll_write) (_, refl, h)
    | inl allowed ↦ elim (Outcome-cases (cleanup io w me.pending_requests).1) [
      | inr (x, e) ↦
          rw (allowed, e, poll_write, write_after)
            (
              _,
              refl,
              cleanup_fails ℕ (is_live me.state) (cleanup io w me.pending_requests).1 x
                  (cleanup-IsStatus w me.pending_requests) e h,
            )
      | inl (u, e) ↦
          rw (allowed, e, poll_write, write_after)
            (run_rounds_total IsLive (λ c (r : Poll ℕ PollFailure). LeavesLive c r)
              (λ (c : Client W F). write_rounds c.1.state) (write_round io b)
              (λ (s : Client W F) p. write_round-Live b s.0 s.1 s.1.state p) 3 _
              (write_rounds-lt me.state) h)
    ]
  ]
