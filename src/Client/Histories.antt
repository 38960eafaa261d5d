-- ===== src/Client/Histories.antt =====
-- Any history of polls of `VolumeIoRW` follows a file with a cursor.
use boardswarm.Prelude.{
  ℕ, true, ◌≡◌, refl, sym, ap, ◌∙◌, some, List, [], ◌∷◌, ◌++◌, Bytes, arith, length, take,
  length-take, saturating_add, Poll, ready, failed, pending, inl, inr, Bool-cases, Option-cases,
  subst, SeekFrom,
}
use boardswarm.VolumeIo.Serve.{TargetOrRequest, write_request}
use boardswarm.Client.ReadWrite.{
  unsupported, invalid_input, not_connected, panicked, other_error, Channels, PollFailure,
  VolumeIoRw, start_seek, poll_complete, base_of,
}
use boardswarm.Client.Polls.{Client}
use boardswarm.Client.Sending.{IsChannels, Wrote, poll_write_sends}
use boardswarm.Client.Flushing.{writes, writes-append, Begun, poll_flush_pushes}
use boardswarm.Client.Closing.{poll_shutdown_pushes}
use boardswarm.Client.Cursor.{
  Op, op_write, op_read, op_start_seek, op_flush, op_shutdown, op_complete_seek, Event, FileView,
  view_event, view_events, wrote_event, read_event, seek_event, silent_event, failure_event,
  is_panic, IsOrderly, Outlives, IsOrderly-cons, do_op, do_ops,
}
use boardswarm.Client.Alive.{is_live}
use boardswarm.Client.Outliving.{do_op_known}
use boardswarm.Client.Following.{
  Shows, Follows, ReadStands, poll_read-Shows, poll_write-Begun, HasBegun,
}

module _ {W F : Type 0} (io : Channels W F) (sent : W → List TargetOrRequest) where
  view-failure : (f : FileView) (e : PollFailure) → view_event f (failure_event e) ≡ f
  unfolding view_event
  view-failure f (unsupported m) = refl
  view-failure f (invalid_input m) = refl
  view-failure f not_connected = refl
  view-failure f panicked = refl
  view-failure f (other_error e) = refl

  Wrote-Shows :
      (f : FileView) (w : W) (me : VolumeIoRw F) (buf : Bytes) (c : Client W F)
      (r : Poll ℕ PollFailure)
      → Shows io sent f (w, me)
      → Begun c.1.state (sent c.0)
      → Wrote io sent (sent w) me.pos buf c r
      → Shows io sent (view_event f (wrote_event buf r)) c
  unfolding view_event
  Wrote-Shows f w me buf c (ready n) h begun (size, added, moved) =
      let taken : length (take n buf) ≡ n = omega (arith, length-take n buf, size) in
      (
        begun,
        ap writes added
            ∙ writes-append (sent w) (write_request (take n buf) me.pos ∷ [])
            ∙ ap (λ l. l ++ (me.pos, take n buf) ∷ []) h.1
            ∙ ap (λ p. f.written ++ (p, take n buf) ∷ []) h.2,
        moved ∙ ap (λ p. saturating_add p n) h.2 ∙ ap (saturating_add f.cursor) (sym taken),
      )
  Wrote-Shows f w me buf c (failed e) h begun (kept, moved) =
      subst (λ g. Shows io sent g c) (sym (view-failure f e))
        (begun, ap writes kept ∙ h.1, moved ∙ h.2)
  Wrote-Shows f w me buf c pending h begun (kept, moved) =
      (begun, ap writes kept ∙ h.1, moved ∙ h.2)

  sought-Shows :
      (f : FileView) (w : W) (me : VolumeIoRw F)
      → Shows io sent f (w, me)
      → Shows io sent (view_event f (seek_event (poll_complete me).1)) (w, (poll_complete me).0)
  unfolding view_event poll_complete
  sought-Shows f w me h = elim (Bool-cases me.info.seekable) [
    | inr refused ↦ rw (refused, poll_complete) h
    | inl allowed ↦ elim (Option-cases me.pending_seek) [
      | inl none_ ↦ rw (allowed, none_, poll_complete) (h.0, h.1, refl)
      | inr (position, some_) ↦ elim (Option-cases (base_of me position)) [
        | inl unknown ↦ rw (allowed, some_, unknown, poll_complete) h
        | inr (base, known) ↦ rw (allowed, some_, known, poll_complete) (h.0, h.1, refl)
      ]
    ]
  ]

  started-Shows :
      (f : FileView) (w : W) (me : VolumeIoRw F) (p : SeekFrom)
      → Shows io sent f (w, me)
      → Shows io sent f (w, (start_seek me p).0)
  unfolding start_seek
  started-Shows f w me p h = elim (Bool-cases me.info.seekable) [
    | inr refused ↦ rw (refused, start_seek) h
    | inl allowed ↦ rw (allowed, start_seek) h
  ]

  view-silent : (f : FileView) (r : Poll (Unit {0}) PollFailure) → view_event f (silent_event r) ≡ f
  unfolding view_event
  view-silent f (ready u) = refl
  view-silent f (failed e) = view-failure f e
  view-silent f pending = refl

  do_op-Follows :
      (f : FileView) (c : Client W F) (o : Op)
      → IsChannels io sent
      → Shows io sent f c
      → Follows io sent f (do_op io c o)
  unfolding do_op ReadStands view_event
  do_op-Follows f (w, me) (op_write b) law h =
      let (out, polled, wrote_) = poll_write_sends io sent w me b law in
      let (out', polled', begins) = poll_write-Begun io sent b w me law h.0 in
      let same : out' ≡ out = cc in
      rw polled (
        (out.0, wrote_event b out.1),
        refl,
        Wrote-Shows f w me b out.0 out.1 h (subst (λ o. HasBegun io sent o.0) same begins) wrote_,
      )
  do_op-Follows f (w, me) (op_read n) law h =
      let (out, polled, reads) = poll_read-Shows io sent f n w me law h in
      rw polled ((out.0, read_event out.1), refl, reads)
  do_op-Follows f c op_flush law h =
      let (out, polled, ends) = poll_flush_pushes io sent c law h.0 in
      rw polled (
        (out.0, silent_event out.1),
        refl,
        subst (λ g. Shows io sent g out.0) (sym (view-silent f out.1))
            (ends.0.0, ends.0.1 ∙ h.1, ends.0.2 ∙ h.2),
      )
  do_op-Follows f c op_shutdown law h =
      let (out, polled, ends) = poll_shutdown_pushes io sent c law h.0 in
      rw polled (
        (out.0, silent_event out.1),
        refl,
        subst (λ g. Shows io sent g out.0) (sym (view-silent f out.1))
            (ends.0.0, ends.0.1 ∙ h.1, ends.0.2 ∙ h.2),
      )
  do_op-Follows f (w, me) (op_start_seek p) law h = (_, refl, started-Shows f w me p h)
  do_op-Follows f (w, me) op_complete_seek law h = (_, refl, sought-Shows f w me h)

  -- A history of polls of a VolumeIoRW, up to a panic, comes back, whatever its channels answer,
  -- and is that of a file with a cursor: the writes sent are the data that each poll reports as
  -- taken, each at the cursor, which writes, reads and seeks move as they report. What a flush, a
  -- shutdown or a read waits for is the last request that was sent, if it was so at the start. A
  -- poll panics only behind one that failed since no request can be sent, if none had failed so
  -- before the history.
  pub do_ops_follow :
      (f : FileView) (c : Client W F) (os : List Op)
      → IsChannels io sent
      → Shows io sent f c
      → (out : Client W F × List Event) × (do_ops io c os ≡ some out)
        × Shows io sent (view_events f out.1) out.0
        × IsOrderly (is_live c.1.state) out.1
  unfolding do_ops view_events
  do_ops_follow f c [] law h = ((c, []), refl, h, tt)
  do_ops_follow f c (o ∷ os) law h =
      let ((c', e), polled, shows) = do_op-Follows f c o law h in
      let survives : is_live c.1.state ≡ true → Outlives e (is_live c'.1.state) =
        λ alive. do_op_known io c o (c', e) polled alive in
      elim (Bool-cases (is_panic e)) [
        | inl over ↦
            rw (polled, over, do_ops)
              ((c', e ∷ []), refl, shows, IsOrderly-cons _ _ e [] survives tt)
        | inr on ↦
            let ((c'', es), more, shows', orderly) =
              do_ops_follow (view_event f e) c' os law shows in
            rw (polled, on, more, do_ops)
              ((c'', e ∷ es), refl, shows', IsOrderly-cons _ _ e es survives orderly)
      ]
