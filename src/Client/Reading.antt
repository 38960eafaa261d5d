-- ===== src/Client/Reading.antt =====
-- What a reader of `VolumeIoRW` is given, where the server answers with the bytes of a volume.
use boardswarm.Prelude.{
  ℕ, ◌+◌, ◌^◌, ◌≤◌, ◌<◌, ◌≡◌, refl, sym, ap, ◌∙◌, none, some, [], ◌∷◌, Bytes, arith, length, take,
  drop, min, saturating_add, length-take, Poll, ready, failed, pending, Poll-cases, Proceeds,
  run_rounds, run_rounds_total, inl, inr, Bool-cases, subst,
}
use boardswarm.Status.{Status}
use boardswarm.VolumeIo.Serve.{read_request}
use boardswarm.Client.ReadWrite.{
  PollFailure, Channels, IoWrapperState, idle, reserve_request, reserve_failed, flushing,
  shutting_down, reading, VolumeIoRw, copy_buffered_read,
}
use boardswarm.Client.Segments.{Segment, Segment-take, Segment-drop, saturating_within}
use boardswarm.Client.Polls.{Client, send_read, take_read, read_round, poll_read}

-- A read is answered with bytes of the volume, from the offset that it asked for.
pub record IsVolume {W F : Type 0} (io : Channels W F) (volume : Bytes) (asked : F → ℕ)
    : Type 0 where
  pub asks : (w : W) (n offset : ℕ) → asked (io.send w (read_request n offset)).1 ≡ offset
  pub answers :
      (w : W) (f : F) (b : Bytes) → (io.poll_data w f).1 ≡ ready b → Segment volume (asked f) b
  pub fits : length volume < 2 ^ 64

abbrev pub read_rounds : {F : Type 0} → IoWrapperState F → ℕ
read_rounds (reading f) = 0
read_rounds reserve_request = 1
read_rounds reserve_failed = 0
read_rounds idle = 2
read_rounds flushing = 3
read_rounds shutting_down = 3

pub read_rounds-lt : {F : Type 0} (st : IoWrapperState F) → read_rounds st < 4
read_rounds-lt idle = omega arith
read_rounds-lt reserve_request = omega arith
read_rounds-lt reserve_failed = omega arith
read_rounds-lt flushing = omega arith
read_rounds-lt shutting_down = omega arith
read_rounds-lt (reading f) = omega arith

module _ {F : Type 0} where
  -- What `copy_buffered_read` gives where there is something to copy.
  abbrev pub copied : VolumeIoRw F → ℕ → ℕ → Bytes → VolumeIoRw F × Bytes
  copied me n x b =
      let k = min n (length (x ∷ b)) in
      let tocopy = take k (x ∷ b) in
      (
        record me { buffered_read = drop k (x ∷ b); pos = saturating_add me.pos (length tocopy) },
        tocopy,
      )

  pub copied_lem :
      (me : VolumeIoRw F) (n x : ℕ) (b : Bytes)
      → me.buffered_read ≡ x ∷ b
      → copy_buffered_read me n ≡ some (copied me n x b)
  unfolding copy_buffered_read
  copied_lem me n x b e = rw e

module _ {W F : Type 0} (io : Channels W F) (volume : Bytes) (asked : F → ℕ) where
  -- A future that is waited for asked at the position, and nothing is buffered then.
  abbrev pub Asks : IoWrapperState F → ℕ → Bytes → Type 0
  Asks (reading f) pos buffered = (asked f ≡ pos) × (buffered ≡ [])
  Asks idle pos buffered = Unit
  Asks reserve_request pos buffered = Unit
  Asks reserve_failed pos buffered = Unit
  Asks flushing pos buffered = Unit
  Asks shutting_down pos buffered = Unit

  -- What is buffered stands in the volume from the position on.
  abbrev pub IsCurrent : Client W F → Type 0
  IsCurrent (w, me) =
      Segment volume me.pos me.buffered_read
      × (me.pos < 2 ^ 64)
      × Asks me.state me.pos me.buffered_read

  -- A read gives the bytes of the volume at the position, and moves behind them.
  abbrev pub Reads : ℕ → ℕ → Client W F → Poll Bytes PollFailure → Type 0
  Reads pos n (w, me) (ready b) =
      IsCurrent (w, me) × Segment volume pos b × (length b ≤ n) × (me.pos ≡ pos + length b)
  Reads pos n (w, me) (failed e) = IsCurrent (w, me) × (me.pos ≡ pos)
  Reads pos n (w, me) pending = IsCurrent (w, me) × (me.pos ≡ pos)

  -- `copy_buffered_read`, where there is something to copy, in a state that waits for no read.
  copied-Reads :
      (w : W) (me : VolumeIoRw F) (n : ℕ) (x : ℕ) (b : Bytes)
      → length volume < 2 ^ 64
      → me.pos < 2 ^ 64
      → Segment volume me.pos (x ∷ b)
      → Asks me.state me.pos (x ∷ b)
      → Reads me.pos n (w, (copied me n x b).0) (ready (copied me n x b).1)
  copied-Reads w me n x b fits h s asks =
      let k = min n (length (x ∷ b)) in
      let taken : length (take k (x ∷ b)) ≡ k = omega (arith, length-take k (x ∷ b)) in
      let within = saturating_within volume me.pos (x ∷ b) fits h s k (omega arith) in
      let at : saturating_add me.pos (length (take k (x ∷ b))) ≡ me.pos + k =
        ap (saturating_add me.pos) taken ∙ within.0 in
      (
        (
          rw at (Segment-drop volume me.pos k (x ∷ b) (omega arith) s),
          rw at within.1,
          still me.state asks _ _,
        ),
        Segment-take volume me.pos k (x ∷ b) s,
        omega (arith, taken),
        at ∙ ap (λ l. me.pos + l) (sym taken),
      )
    where
      still : (st : IoWrapperState F) → Asks st me.pos (x ∷ b) → (p : ℕ) (c : Bytes) → Asks st p c
      still idle a p c = tt
      still reserve_request a p c = tt
      still reserve_failed a p c = tt
      still flushing a p c = tt
      still shutting_down a p c = tt
      still (reading f) a p c = absurd (let h : ⊥ = cc (a.1) in h)

  -- The reader's loop: nothing is buffered, and the position has not moved.
  abbrev Waits : ℕ → Client W F → Type 0
  Waits pos (w, me) = IsCurrent (w, me) × (me.buffered_read ≡ []) × (me.pos ≡ pos)

  abbrev rounds_to_read : Client W F → ℕ
  rounds_to_read (w, me) = read_rounds me.state

  taken-Reads :
      (pos n : ℕ) (w : W) (me : VolumeIoRw F) (f : F) (r : Poll Bytes Status)
      → length volume < 2 ^ 64
      → ((b : Bytes) → r ≡ ready b → Segment volume (asked f) b)
      → Waits pos (w, record me { state = reading f })
      → Proceeds
          (Waits pos)
          (Reads pos n)
          rounds_to_read
          0
          (take_read io (record me { state = reading f }) n (w, r))
  unfolding take_read copy_buffered_read
  taken-Reads pos n w me f pending fits data_ ((s, h, a), e, at) = ((s, h, a), at)
  taken-Reads pos n w me f (failed x) fits data_ ((s, h, a), e, at) = ((s, h, tt), at)
  taken-Reads pos n w me f (ready []) fits data_ ((s, h, a), e, at) =
      (((drop me.pos volume, refl), h, tt), (drop pos volume, refl), omega arith, omega (arith, at))
  taken-Reads pos n w me f (ready (x ∷ b)) fits data_ ((s, h, a), e, at) =
      let s' : Segment volume me.pos (x ∷ b) =
        subst (λ p. Segment volume p (x ∷ b)) a.0 (data_ (x ∷ b) refl) in
      subst
        (λ p.
          Reads p n (w, (copied (record me { state = idle }) n x b).0)
            (ready (copied (record me { state = idle }) n x b).1))
        at (copied-Reads w (record me { state = idle }) n x b fits h s' tt)

  read_round-Proceeds :
      (pos n : ℕ) (w : W) (me : VolumeIoRw F) (st : IoWrapperState F)
      → IsVolume io volume asked
      → Waits pos (w, record me { state = st })
      → Proceeds
          (Waits pos)
          (Reads pos n)
          rounds_to_read
          (read_rounds st)
          (read_round io n (w, record me { state = st }))
  unfolding read_round send_read
  read_round-Proceeds pos n w me idle law ((s, h, a), e, at) = (((s, h, tt), e, at), omega arith)
  read_round-Proceeds pos n w me flushing law ((s, h, a), e, at) =
      (((s, h, tt), e, at), omega arith)
  read_round-Proceeds pos n w me shutting_down law ((s, h, a), e, at) =
      (((s, h, tt), e, at), omega arith)
  read_round-Proceeds pos n w me (reading f) law h =
      taken-Reads pos n (io.poll_data w f).0 me f (io.poll_data w f).1 law.fits (law.answers w f) h
  read_round-Proceeds pos n w me reserve_failed law ((s, h, a), e, at) = ((s, h, tt), at)
  read_round-Proceeds pos n w me reserve_request law ((s, h, a), e, at) =
      elim (Poll-cases (io.poll_reserve w).1) [
        | inl (u, r) ↦
            rw (r, read_round)
              (((s, h, (law.asks (io.poll_reserve w).0 n me.pos, e)), e, at), omega arith)
        | inr (inl (x, r)) ↦ rw (r, read_round) ((s, h, tt), at)
        | inr (inr r) ↦ rw (r, read_round) ((s, h, tt), at)
      ]

  read_loop-Reads :
      (n : ℕ) (c : Client W F)
      → IsVolume io volume asked
      → Waits c.1.pos c
      → (out : Client W F × Poll Bytes PollFailure) × (run_rounds 4 (read_round io n) c ≡ some out)
        × Reads c.1.pos n out.0 out.1
  read_loop-Reads n c law h =
      run_rounds_total (Waits c.1.pos) (Reads c.1.pos n) rounds_to_read (read_round io n)
        (λ (s : Client W F) p. read_round-Proceeds c.1.pos n s.0 s.1 s.1.state law p) 4 c
        (read_rounds-lt c.1.state) h

  pub poll_read-Reads :
      (w : W) (me : VolumeIoRw F) (n : ℕ)
      → IsVolume io volume asked
      → IsCurrent (w, me)
      → (out : Client W F × Poll Bytes PollFailure) × (poll_read io (w, me) n ≡ some out)
        × Reads me.pos n out.0 out.1
  unfolding poll_read
  poll_read-Reads w me n law h = elim (Bool-cases me.info.readable) [
    | inr refused ↦ rw (refused, poll_read) (_, refl, (h, refl))
    | inl allowed ↦ rw (allowed, poll_read) (from_buffer me.buffered_read refl)
  ]
    where
      from_buffer :
          (b : Bytes)
          → me.buffered_read ≡ b
          → (out : Client W F × Poll Bytes PollFailure) × ((elim (copy_buffered_read me n) [
            | some (me', copied) ↦ some ((w, me'), ready copied)
            | none ↦ run_rounds 4 (read_round io n) (w, me)
          ])
              ≡ some out)
            × Reads me.pos n out.0 out.1
      from_buffer [] e =
          let none_ : copy_buffered_read me n ≡ none = unfold copy_buffered_read in rw e in
          rw none_ (read_loop-Reads n (w, me) law (h, e, refl))
      from_buffer (x ∷ b) e =
          let s : Segment volume me.pos (x ∷ b) = subst (Segment volume me.pos) e h.0 in
          rw (copied_lem me n x b e) (
            ((w, (copied me n x b).0), ready (copied me n x b).1),
            refl,
            copied-Reads w me n x b law.fits h.1 s (subst (Asks me.state me.pos) e h.2),
          )
