-- ===== src/Client/Requests.antt =====
-- `VolumeIo` of boardswarm-client/src/client.rs: the requests that a client sends, what waits for their
-- replies, and the task that pairs the two. A oneshot channel is what it is given in the end, `none`
-- when its sender is dropped.
use boardswarm.Prelude.{
  ℕ, Option, none, some, List, [], ◌∷◌, map, Bytes, String, Outcome, ok, err, ◌>>=◌,
}
use boardswarm.Status.{Status, internal, failed_precondition, aborted}
use boardswarm.VolumeIo.Replies.{
  Completion, VolumeTargetInfo, Reply, target_reply, read_reply, write_reply, flush_reply,
  shutdown_reply,
}
use boardswarm.VolumeIo.Serve.{
  TargetOrRequest, TargetRequest, Received, target_request, read_request, write_request,
  flush_request, shutdown_request,
}

-- A call of `request_write`, `request_read`, `request_flush` or `request_shutdown`.
pub data Call : Type 0 where
  call_write : Bytes → ℕ → Call
  call_read : ℕ → ℕ → Call
  call_flush call_shutdown : Call

-- `Outstanding`: which kind of sender waits.
pub data Outstanding : Type 0 where
  outstanding_write outstanding_read outstanding_flush outstanding_shutdown : Outstanding

-- What a sender was given.
pub data Settled : Type 0 where
  settled_write : Completion ℕ → Settled
  settled_read : Completion Bytes → Settled
  settled_flush settled_shutdown : Completion (Unit {0}) → Settled

-- The functions `prepare_write`, `prepare_read`, `prepare_flush`, `prepare_shutdown`.
unfoldable pub prepare : Call → TargetOrRequest × Outstanding
prepare (call_write data_ offset) = (write_request data_ offset, outstanding_write)
prepare (call_read length offset) = (read_request length offset, outstanding_read)
prepare call_flush = (flush_request, outstanding_flush)
prepare call_shutdown = (shutdown_request, outstanding_shutdown)

unfoldable pub fail : Outstanding → Status → Settled
fail outstanding_write s = settled_write (some (err s))
fail outstanding_read s = settled_read (some (err s))
fail outstanding_flush s = settled_flush (some (err s))
fail outstanding_shutdown s = settled_shutdown (some (err s))

unfoldable pub dropped : Outstanding → Settled
dropped outstanding_write = settled_write none
dropped outstanding_read = settled_read none
dropped outstanding_flush = settled_flush none
dropped outstanding_shutdown = settled_shutdown none

abbrev pub unmatched : Status
unmatched = failed_precondition "Unmatched client request and server reply"

-- What `replies.message()` gives before the end of the stream: a message, whose reply may be missing,
-- or an error.
abbrev pub Message : Type 0
Message = Outcome (Option Reply) Status

-- The match on a waiting sender and a reply; `none` where they are of different kinds.
unfoldable pub settle : Outstanding → Reply → Option Settled
settle outstanding_read (read_reply b) = some (settled_read (some (ok b)))
settle outstanding_write (write_reply n) = some (settled_write (some (ok n)))
settle outstanding_flush flush_reply = some (settled_flush (some (ok tt)))
settle outstanding_shutdown shutdown_reply = some (settled_shutdown (some (ok tt)))
settle _ _ = none

-- Where the task ends: the sender at hand fails, the others are dropped with the task.
unfoldable pub give_up : List Outstanding → List Settled
unfolding fail dropped
give_up [] = []
give_up (o ∷ os) = fail o unmatched ∷ map dropped os

-- The task: one message for each sender, until the stream ends or a reply is of another kind.
unfoldable pub monitor_task : List Message → List Outstanding → List Settled
unfolding fail settle give_up
monitor_task ms [] = []
monitor_task [] (o ∷ os) = give_up (o ∷ os)
monitor_task (err e ∷ ms) (o ∷ os) = fail o e ∷ monitor_task ms os
monitor_task (ok none ∷ ms) (o ∷ os) =
    fail o (internal "Reply didn't have reply data") ∷ monitor_task ms os
monitor_task (ok (some r) ∷ ms) (o ∷ os) =
    let later = monitor_task ms os in
    elim (settle o r) [ none ↦ give_up (o ∷ os) | some s ↦ s ∷ later ]

-- The futures of a write, a read and a flush, when they are done.
unfoldable pub request_result : {A : Type 0} → Completion A → Outcome A Status
request_result none = err (aborted "Request not received")
request_result (some r) = r

-- A shutdown's future; `text` is its message, with the channel's error written out.
unfoldable pub shutdown_result : String → Completion (Unit {0}) → Outcome (Unit {0}) Status
shutdown_result text none = err (aborted text)
shutdown_result text (some r) = r

-- The messages that `Boardswarm::volume_io` sends: the target, and then the requests.
unfoldable pub request_stream : TargetRequest → List (TargetOrRequest × Outstanding) → List Received
request_stream request sent = ok (some (target_request request)) ∷ map (λ p. ok (some p.0)) sent

-- The first message of the server, with the messages behind it.
unfoldable pub opening : List Message → Outcome (VolumeTargetInfo × List Message) Status
opening [] = err (failed_precondition "Didn't get Target reply as expected")
opening (err e ∷ ms) = err e
opening (ok (some (target_reply (some t))) ∷ ms) = ok (t, ms)
opening (ok (some (target_reply none)) ∷ ms) = err (failed_precondition "Empty target reply")
opening (ok _ ∷ ms) = err (failed_precondition "Didn't get Target reply as expected")

-- `Boardswarm::volume_io` on what the server's call gave, and what becomes of the requests.
unfoldable pub volume_io :
    Outcome (List Message) Status
    → List Outstanding
    → Outcome (VolumeTargetInfo × List Settled) Status
unfolding opening monitor_task
volume_io answer outstanding = do
  messages ← answer
  opened ← opening messages
  ok (opened.0, monitor_task opened.1 outstanding)
