-- ===== src/Client/Cursor.antt =====
-- `VolumeIoRW` as a file with a cursor: what a history of polls sends to be written.
use boardswarm.Prelude.{
  ℕ, suc, ◌≡◌, refl, subst, Bool, true, false, Option, none, some, List, [], ◌∷◌, ◌++◌, Bytes,
  length, take, saturating_add, Poll, ready, failed, pending, SeekFrom,
}
use boardswarm.Client.ReadWrite.{
  Channels, PollFailure, unsupported, invalid_input, not_connected, panicked, other_error,
  start_seek, poll_complete,
}
use boardswarm.Client.Polls.{Client, poll_write, poll_flush, poll_shutdown, poll_read}

-- What the owner of a `VolumeIoRW` may poll; `op_read n` has room for `n + 1` bytes.
pub data Op : Type 0 where
  op_write : Bytes → Op
  op_read : ℕ → Op
  op_start_seek : SeekFrom → Op
  op_flush op_shutdown op_complete_seek : Op

-- What a poll reported: data that was taken, bytes that were read, a new position, that no request can
-- be sent any more; or that it panicked.
pub data Event : Type 0 where
  wrote : Bytes → Event
  passed sought : ℕ → Event
  nothing disconnected panics : Event

-- A file, by its cursor and by what was written where.
pub record FileView : Type 0 where
  pub cursor : ℕ
  pub written : List (ℕ × Bytes)

unfoldable pub view_event : FileView → Event → FileView
view_event f (wrote b) = record {
  cursor = saturating_add f.cursor (length b);
  written = f.written ++ (f.cursor, b) ∷ [];
}
view_event f (passed n) = record f { cursor = saturating_add f.cursor n }
view_event f (sought p) = record f { cursor = p }
view_event f nothing = f
view_event f disconnected = f
view_event f panics = f

unfoldable pub view_events : FileView → List Event → FileView
unfolding view_event
view_events f [] = f
view_events f (e ∷ es) = view_events (view_event f e) es

abbrev pub failure_event : PollFailure → Event
failure_event not_connected = disconnected
failure_event panicked = panics
failure_event (unsupported m) = nothing
failure_event (invalid_input m) = nothing
failure_event (other_error e) = nothing

abbrev pub wrote_event : Bytes → Poll ℕ PollFailure → Event
wrote_event buf (ready n) = wrote (take n buf)
wrote_event buf (failed e) = failure_event e
wrote_event buf pending = nothing

abbrev pub silent_event : Poll (Unit {0}) PollFailure → Event
silent_event (ready u) = nothing
silent_event (failed e) = failure_event e
silent_event pending = nothing

abbrev pub read_event : Poll Bytes PollFailure → Event
read_event (ready []) = nothing
read_event (ready (x ∷ b)) = passed (length (x ∷ b))
read_event (failed e) = failure_event e
read_event pending = nothing

abbrev pub seek_event : Poll ℕ PollFailure → Event
seek_event (ready p) = sought p
seek_event (failed e) = failure_event e
seek_event pending = nothing

abbrev pub is_panic : Event → Bool
is_panic panics = true
is_panic disconnected = false
is_panic nothing = false
is_panic (wrote b) = false
is_panic (passed n) = false
is_panic (sought p) = false

-- No poll panics but behind one that found that no request can be sent; `live` is that none found it yet.
abbrev pub IsOrderly : Bool → List Event → Type 0
IsOrderly live [] = Unit {0}
IsOrderly false (e ∷ es) = Unit {0}
IsOrderly true (panics ∷ es) = ⊥
IsOrderly true (disconnected ∷ es) = IsOrderly false es
IsOrderly true (nothing ∷ es) = IsOrderly true es
IsOrderly true (wrote b ∷ es) = IsOrderly true es
IsOrderly true (passed n ∷ es) = IsOrderly true es
IsOrderly true (sought p ∷ es) = IsOrderly true es

-- How a poll that came to a live client leaves it, by what it reported.
abbrev pub Outlives : Event → Bool → Type 0
Outlives panics live = ⊥
Outlives disconnected live = Unit {0}
Outlives nothing live = live ≡ true
Outlives (wrote b) live = live ≡ true
Outlives (passed n) live = live ≡ true
Outlives (sought p) live = live ≡ true

IsOrderly-false : (es : List Event) → IsOrderly false es
IsOrderly-false [] = tt
IsOrderly-false (e ∷ es) = tt

IsOrderly-after :
    (e : Event) (live : Bool) (es : List Event)
    → Outlives e live
    → IsOrderly live es
    → IsOrderly true (e ∷ es)
IsOrderly-after panics live es h rest = h
IsOrderly-after disconnected live es h rest = IsOrderly-false es
IsOrderly-after nothing live es h rest = subst (λ l. IsOrderly l es) h rest
IsOrderly-after (wrote b) live es h rest = subst (λ l. IsOrderly l es) h rest
IsOrderly-after (passed n) live es h rest = subst (λ l. IsOrderly l es) h rest
IsOrderly-after (sought p) live es h rest = subst (λ l. IsOrderly l es) h rest

pub IsOrderly-cons :
    (before after : Bool) (e : Event) (es : List Event)
    → (before ≡ true → Outlives e after)
    → IsOrderly after es
    → IsOrderly before (e ∷ es)
IsOrderly-cons false after e es h rest = tt
IsOrderly-cons true after e es h rest = IsOrderly-after e after es (h refl) rest

abbrev pub reported :
    {C A : Type 0}
    → Option (C × Poll A PollFailure)
    → (Poll A PollFailure → Event)
    → Option (C × Event)
reported none event = none
reported (some (c, r)) event = some (c, event r)

module _ {W F : Type 0} (io : Channels W F) where
  unfoldable pub do_op : Client W F → Op → Option (Client W F × Event)
  do_op c (op_write b) = reported (poll_write io c b) (wrote_event b)
  do_op c op_flush = reported (poll_flush io c) silent_event
  do_op c op_shutdown = reported (poll_shutdown io c) silent_event
  do_op c (op_read n) = reported (poll_read io c (suc n)) read_event
  do_op (w, me) (op_start_seek p) = some ((w, (start_seek me p).0), nothing)
  do_op (w, me) op_complete_seek =
      (let (me', r) = poll_complete me in some ((w, me'), seek_event r))

  -- A history of polls, up to one that panics.
  unfoldable pub do_ops : Client W F → List Op → Option (Client W F × List Event)
  unfolding do_op
  do_ops c [] = some (c, [])
  do_ops c (o ∷ os) = elim (do_op c o) [
    | none ↦ none
    | some (c', e) ↦ elim (is_panic e) [
      | true ↦ some (c', e ∷ [])
      | false ↦ elim (do_ops c' os) [ none ↦ none | some (c'', es) ↦ some (c'', e ∷ es) ]
    ]
  ]
