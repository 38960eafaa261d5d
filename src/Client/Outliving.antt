-- ===== src/Client/Outliving.antt =====
-- What the polls of `VolumeIoRW` report of their panics.
use boardswarm.Prelude.{
  ℕ, suc, Bool, true, ◌≡◌, refl, ◌∙◌, some, [], ◌∷◌, Bytes, Poll, ready, failed, pending, inl, inr,
  Bool-cases, Option-cases, subst, SeekFrom,
}
use boardswarm.Client.ReadWrite.{
  unsupported, invalid_input, not_connected, panicked, other_error, Channels, PollFailure,
  VolumeIoRw, start_seek, poll_complete, base_of,
}
use boardswarm.Client.Polls.{Client}
use boardswarm.Client.Cursor.{
  Op, op_write, op_read, op_start_seek, op_flush, op_shutdown, op_complete_seek, Event, wrote_event,
  read_event, seek_event, silent_event, failure_event, Outlives, do_op,
}
use boardswarm.Client.Alive.{is_live, Survives, poll_write-Live}
use boardswarm.Client.AlivePushes.{poll_flush-Live, poll_shutdown-Live}
use boardswarm.Client.AliveReads.{poll_read-Live}

failure-Outlives :
    (A : Type 0) (e : PollFailure) (live : Bool)
    → Survives {A = A} (failed e) live
    → Outlives (failure_event e) live
failure-Outlives A (unsupported m) live h = h
failure-Outlives A (invalid_input m) live h = h
failure-Outlives A not_connected live h = h
failure-Outlives A panicked live h = h
failure-Outlives A (other_error e) live h = h

wrote-Outlives :
    (b : Bytes) (r : Poll ℕ PollFailure) (live : Bool)
    → Survives r live
    → Outlives (wrote_event b r) live
wrote-Outlives b (ready n) live h = h
wrote-Outlives b (failed e) live h = failure-Outlives ℕ e live h
wrote-Outlives b pending live h = h

pub read-Outlives :
    (r : Poll Bytes PollFailure) (live : Bool) → Survives r live → Outlives (read_event r) live
read-Outlives (ready []) live h = h
read-Outlives (ready (x ∷ b)) live h = h
read-Outlives (failed e) live h = failure-Outlives Bytes e live h
read-Outlives pending live h = h

silent-Outlives :
    (r : Poll (Unit {0}) PollFailure) (live : Bool)
    → Survives r live
    → Outlives (silent_event r) live
silent-Outlives (ready u) live h = h
silent-Outlives (failed e) live h = failure-Outlives (Unit {0}) e live h
silent-Outlives pending live h = h

module _ {W F : Type 0} (io : Channels W F) where
  started-state :
      (me : VolumeIoRw F) (p : SeekFrom) → is_live (start_seek me p).0.state ≡ is_live me.state
  unfolding start_seek
  started-state me p = elim (Bool-cases me.info.seekable) [
    | inr refused ↦ rw (refused, start_seek) refl
    | inl allowed ↦ rw (allowed, start_seek) refl
  ]

  sought-Outlives :
      (me : VolumeIoRw F)
      → is_live me.state ≡ true
      → Outlives (seek_event (poll_complete me).1) (is_live (poll_complete me).0.state)
  unfolding poll_complete
  sought-Outlives me h = elim (Bool-cases me.info.seekable) [
    | inr refused ↦ rw (refused, poll_complete) h
    | inl allowed ↦ elim (Option-cases me.pending_seek) [
      | inl none_ ↦ rw (allowed, none_, poll_complete) h
      | inr (position, some_) ↦ elim (Option-cases (base_of me position)) [
        | inl unknown ↦ rw (allowed, some_, unknown, poll_complete) h
        | inr (base, known) ↦ rw (allowed, some_, known, poll_complete) h
      ]
    ]
  ]

  -- A poll that came to a live client, by what it reported.
  do_op-Outlives :
      (c : Client W F) (o : Op)
      → is_live c.1.state ≡ true
      → (out : Client W F × Event) × (do_op io c o ≡ some out)
        × Outlives out.1 (is_live out.0.1.state)
  unfolding do_op
  do_op-Outlives (w, me) (op_write b) h =
      let (out, polled, lives) = poll_write-Live io b w me h in
      rw polled ((out.0, wrote_event b out.1), refl, wrote-Outlives b out.1 _ lives)
  do_op-Outlives (w, me) (op_read n) h =
      let (out, polled, lives) = poll_read-Live io (suc n) w me h in
      rw polled ((out.0, read_event out.1), refl, read-Outlives out.1 _ lives)
  do_op-Outlives c op_flush h =
      let (out, polled, lives) = poll_flush-Live io c h in
      rw polled ((out.0, silent_event out.1), refl, silent-Outlives out.1 _ lives)
  do_op-Outlives c op_shutdown h =
      let (out, polled, lives) = poll_shutdown-Live io c h in
      rw polled ((out.0, silent_event out.1), refl, silent-Outlives out.1 _ lives)
  do_op-Outlives (w, me) (op_start_seek p) h = (_, refl, started-state me p ∙ h)
  do_op-Outlives (w, me) op_complete_seek h = (_, refl, sought-Outlives me h)

  pub do_op_known :
      (c : Client W F) (o : Op) (out : Client W F × Event)
      → do_op io c o ≡ some out
      → is_live c.1.state ≡ true
      → Outlives out.1 (is_live out.0.1.state)
  do_op_known c o out polled h =
      let (out', polled', lives) = do_op-Outlives c o h in
      let same : out' ≡ out = cc in subst (λ x. Outlives x.1 (is_live x.0.1.state)) same lives
