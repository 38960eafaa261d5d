-- ===== src/Client/Seeking.antt =====
-- Reads that follow one another, and reads behind a seek.
use boardswarm.Prelude.{
  ℕ, ◌+◌, ◌≡◌, refl, true, false, map, Bool-cases, inl, inr, Option, none, some, List, [], ◌∷◌,
  ◌++◌, Bytes, arith, length, take, drop, min, length-append, Poll, ready, failed, pending, subst,
  SeekFrom, from_start,
}
use boardswarm.Client.ReadWrite.{
  Channels, PollFailure, VolumeIoRw, start_seek, poll_complete, base_of,
}
use boardswarm.Client.Polls.{Client, poll_read}
use boardswarm.Client.Cursor.{read_event, is_panic, IsOrderly, Outlives, IsOrderly-cons}
use boardswarm.Client.Alive.{is_live, Survives}
use boardswarm.Client.AliveReads.{poll_read-Live}
use boardswarm.Client.Outliving.{read-Outlives}
use boardswarm.Client.Segments.{Segment, Segment-append}
use boardswarm.Client.Reading.{copied, copied_lem, IsVolume, IsCurrent, Reads, poll_read-Reads}

-- What a poll put into the reader's buffer.
abbrev pub given : {E : Type 0} → Poll Bytes E → Bytes
given (ready b) = b
given (failed e) = []
given pending = []

abbrev pub all_given : List (Poll Bytes PollFailure) → Bytes
all_given [] = []
all_given (r ∷ rs) = given r ++ all_given rs

module _ {W F : Type 0} (io : Channels W F) where
  -- One poll after another, with buffers of these sizes, up to one that panics, and what each gave.
  unfoldable pub read_all :
      Client W F → List ℕ → Option (Client W F × List (Poll Bytes PollFailure))
  read_all c [] = some (c, [])
  read_all c (n ∷ ns) = elim (poll_read io c n) [
    | none ↦ none
    | some (c', r) ↦ elim (is_panic (read_event r)) [
      | true ↦ some (c', r ∷ [])
      | false ↦ elim (read_all c' ns) [ none ↦ none | some (c'', rs) ↦ some (c'', r ∷ rs) ]
    ]
  ]

  module _ (volume : Bytes) (asked : F → ℕ) where
    Reads-IsCurrent :
        (n : ℕ) (c : Client W F) (r : Poll Bytes PollFailure) (pos : ℕ)
        → Reads io volume asked pos n c r
        → IsCurrent io volume asked c
    Reads-IsCurrent n c (ready d) pos h = h.0
    Reads-IsCurrent n c (failed e) pos h = h.0
    Reads-IsCurrent n c pending pos h = h.0

    Reads-given :
        (n : ℕ) (c : Client W F) (r : Poll Bytes PollFailure) (pos : ℕ) (b : Bytes)
        → Reads io volume asked pos n c r
        → Segment volume c.1.pos b
        → Segment volume pos (given r ++ b) × (c.1.pos ≡ pos + length (given r))
    Reads-given n c (ready d) pos b (current, s, fits, at) s' =
        (Segment-append volume pos d b s (subst (λ p. Segment volume p b) at s'), at)
    Reads-given n c (failed e) pos b (current, at) s' =
        (subst (λ p. Segment volume p b) at s', omega (arith, at))
    Reads-given n c pending pos b (current, at) s' =
        (subst (λ p. Segment volume p b) at s', omega (arith, at))

    read_known :
        (w : W) (me : VolumeIoRw F) (n : ℕ) (out : Client W F × Poll Bytes PollFailure)
        → poll_read io (w, me) n ≡ some out
        → is_live me.state ≡ true
        → Outlives (read_event out.1) (is_live out.0.1.state)
    read_known w me n out polled alive =
        let (out', polled', lives) = poll_read-Live io n w me alive in
        let same : out' ≡ out = cc in
        read-Outlives out.1 _ (subst (λ x. Survives x.1 (is_live x.0.1.state)) same lives)

    -- Reads that follow one another, with buffers of any sizes, up to one that panics, come back
    -- and give the bytes of the volume from the position on, one piece behind the other, and leave
    -- the position behind them, whatever is pending or fails in between: if the server answers
    -- each read with bytes of the volume from where it asked, and what is buffered or waited for
    -- stands at the position. A read panics only behind one that failed since no request can be
    -- sent, if none had failed so before.
    pub sequential_reads :
        (c : Client W F) (ns : List ℕ)
        → IsVolume io volume asked
        → IsCurrent io volume asked c
        → (out : Client W F × List (Poll Bytes PollFailure)) × (read_all c ns ≡ some out)
          × Segment volume c.1.pos (all_given out.1)
          × (out.0.1.pos ≡ c.1.pos + length (all_given out.1))
          × IsCurrent io volume asked out.0
          × IsOrderly (is_live c.1.state) (map read_event out.1)
    unfolding read_all
    sequential_reads c [] law h = ((c, []), refl, (drop c.1.pos volume, refl), omega arith, h, tt)
    sequential_reads (w, me) (n ∷ ns) law h =
        let ((c', r), polled, reads) = poll_read-Reads io volume asked w me n law h in
        let survives : is_live me.state ≡ true → Outlives (read_event r) (is_live c'.1.state) =
          read_known w me n (c', r) polled in
        elim (Bool-cases (is_panic (read_event r))) [
          | inl over ↦
              let joined = Reads-given n c' r me.pos [] reads (drop c'.1.pos volume, refl) in
              rw (polled, over, read_all)
                (
                  (c', r ∷ []),
                  refl,
                  joined.0,
                  omega (arith, joined.1, length-append (given r) []),
                  Reads-IsCurrent n c' r me.pos reads,
                  IsOrderly-cons _ _ (read_event r) [] survives tt,
                )
          | inr on ↦
              let ((c'', rs), more, s, at, last_, orderly) =
                sequential_reads c' ns law (Reads-IsCurrent n c' r me.pos reads) in
              let joined = Reads-given n c' r me.pos (all_given rs) reads s in
              rw (polled, on, more, read_all)
                (
                  (c'', r ∷ rs),
                  refl,
                  joined.0,
                  omega (arith, at, joined.1, length-append (given r) (all_given rs)),
                  last_,
                  IsOrderly-cons _ _ (read_event r) (map read_event rs) survives orderly,
                )
        ]

  started :
      (me : VolumeIoRw F) (position : SeekFrom)
      → me.info.seekable ≡ true
      → (start_seek me position).0 ≡ record me { pending_seek = some position }
  unfolding start_seek
  started me position seekable = ground arith

  sought_start :
      (me : VolumeIoRw F) (p : ℕ)
      → me.info.seekable ≡ true
      → poll_complete (record me { pending_seek = some (from_start p) })
        ≡ (record me { pending_seek = none; pos = p }, ready p)
  unfolding poll_complete base_of
  sought_start me p seekable = ground arith

  read_buffered :
      (w : W) (me : VolumeIoRw F) (n x : ℕ) (b : Bytes)
      → me.info.readable ≡ true
      → me.buffered_read ≡ x ∷ b
      → (me' : VolumeIoRw F) × (poll_read io (w, me) n
          ≡ some ((w, me'), ready (take (min n (length (x ∷ b))) (x ∷ b))))
  unfolding poll_read
  read_buffered w me n x b readable e =
      rw (copied_lem me n x b e) ((copied me n x b).0, ground arith)

  -- A seek to a position from the start, on a VolumeIoRW that holds buffered bytes: the position
  -- is reported and kept, yet the next read gives the bytes that were buffered at the old
  -- position.
  pub seek_reads_stale :
      (w : W) (me : VolumeIoRw F) (n p x : ℕ) (b : Bytes)
      → me.info.seekable ≡ true
      → me.info.readable ≡ true
      → me.buffered_read ≡ x ∷ b
      → let sought = poll_complete (start_seek me (from_start p)).0 in
        (sought.1 ≡ ready p)
        × (sought.0.pos ≡ p)
        × ((me' : VolumeIoRw F) × (poll_read io (w, sought.0) n
              ≡ some ((w, me'), ready (take (min n (length (x ∷ b))) (x ∷ b)))))
  seek_reads_stale w me n p x b seekable readable e =
      rw (started me (from_start p) seekable, sought_start me p seekable)
        (refl, refl, read_buffered w (record me { pending_seek = none; pos = p }) n x b readable e)
