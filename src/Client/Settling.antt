-- ===== src/Client/Settling.antt =====
-- What the client's futures are given in the end, from the client's calls to the server's target and
-- back: `volume_io` of boardswarm-client/src/client.rs and of boardswarm/src/main.rs together.
use boardswarm.Prelude.{
  ℕ, zero, suc, ◌≤◌, ◌<◌, ◌≡◌, refl, ap, ◌∙◌, ◌⊎◌, Bytes, Option, none, some, List, [], ◌∷◌, map,
  arith, String, Outcome, ok, err, ◌>>=◌, length, Outcome-cases, inl, inr,
}
use boardswarm.Status.{Status}
use boardswarm.Server.Items.{Server}
use boardswarm.VolumeIo.Replies.{
  Completion, VolumeTarget, VolumeError, VolumeTargetInfo, Reply, replies, reply_of, Queued,
  queued_write, queued_read, queued_flush, queued_shutdown, write_reply, read_reply, flush_reply,
  shutdown_reply,
}
use boardswarm.VolumeIo.Serve.{
  Received, TargetRequest, Opened, Served, serve, serve_request, open_target,
}
use boardswarm.VolumeIo.Serve
use boardswarm.Client.Requests.{
  Call, call_write, call_read, call_flush, call_shutdown, Outstanding, outstanding_write,
  outstanding_read, outstanding_flush, outstanding_shutdown, Settled, settled_write, settled_read,
  settled_flush, settled_shutdown, prepare, fail, dropped, unmatched, Message, settle, give_up,
  monitor_task, request_stream, opening, volume_io,
}

-- A gRPC stream carries the replies in their order, and an error's status ends it.
pub record IsGrpc (carry : List (Outcome Reply Status) → List Message) : Type 0 where
  pub ends : carry [] ≡ []
  pub message :
      (r : Reply) (os : List (Outcome Reply Status)) → carry (ok r ∷ os) ≡ ok (some r) ∷ carry os
  pub status : (e : Status) (os : List (Outcome Reply Status)) → carry (err e ∷ os) ≡ err e ∷ []

-- How a call ended at the target.
pub data Verdict : Type 0 where
  succeeded refused lost : Verdict

abbrev pub verdict_of {ℓ} : {A : Type ℓ} → Option (Outcome A Status) → Verdict
verdict_of none = lost
verdict_of (some (err e)) = refused
verdict_of (some (ok a)) = succeeded

abbrev pub verdict : Settled → Verdict
verdict (settled_write c) = verdict_of c
verdict (settled_read c) = verdict_of c
verdict (settled_flush c) = verdict_of c
verdict (settled_shutdown c) = verdict_of c

-- Calls behind one that did not succeed: the first fails, no other is ever answered.
unfoldable pub abandoned : List Call → List Settled
abandoned [] = []
abandoned (c ∷ cs) = fail (prepare c).1 unmatched ∷ map (λ c. dropped (prepare c).1) cs

module _ {S : Type 0} (t : VolumeTarget S) where
  -- A call, made at the target itself.
  unfoldable pub called : S → Call → S × Settled
  called s (call_write data_ offset) = let (s', c) = t.write s data_ offset in (s', settled_write c)
  called s (call_read length offset) = let (s', c) = t.read s length offset in (s', settled_read c)
  called s call_flush = let (s', c) = t.flush s in (s', settled_flush c)
  called s call_shutdown = let (s', c) = t.shutdown s in (s', settled_shutdown c)

  -- What the calls are owed: each is made in turn, up to the first that does not succeed.
  unfoldable pub outcomes : S → List Call → List Settled
  unfolding called abandoned
  outcomes s [] = []
  outcomes s (c ∷ cs) =
      let (s', answer) = called s c in
      let later = outcomes s' cs in
      elim (verdict answer) [
        | succeeded ↦ answer ∷ later
        | refused ↦ answer ∷ abandoned cs
        | lost ↦ abandoned (c ∷ cs)
      ]

-- A completion in the server's queue that is sent as the reply which settles the sender with it, as a
-- status, or not at all.
abbrev Answered : Outstanding → Queued → Settled → Type 0
Answered o q a =
    ((r : Reply) × (reply_of q ≡ some (ok r)) × (settle o r ≡ some a) × (verdict a ≡ succeeded))
    ⊎ (((e : Status) × (reply_of q ≡ some (err e)) × (fail o e ≡ a) × (verdict a ≡ refused))
        ⊎ ((reply_of q ≡ none) × (verdict a ≡ lost)))

write-Answered : (k : Completion ℕ) → Answered outstanding_write (queued_write k) (settled_write k)
unfolding reply_of settle fail
write-Answered none = inr (inr (refl, refl))
write-Answered (some (ok n)) = inl (write_reply n, refl, refl, refl)
write-Answered (some (err e)) = inr (inl (e, refl, refl, refl))

read-Answered : (k : Completion Bytes) → Answered outstanding_read (queued_read k) (settled_read k)
unfolding reply_of settle fail
read-Answered none = inr (inr (refl, refl))
read-Answered (some (ok b)) = inl (read_reply b, refl, refl, refl)
read-Answered (some (err e)) = inr (inl (e, refl, refl, refl))

flush-Answered :
    (k : Completion (Unit {0})) → Answered outstanding_flush (queued_flush k) (settled_flush k)
unfolding reply_of settle fail
flush-Answered none = inr (inr (refl, refl))
flush-Answered (some (ok u)) = inl (flush_reply, refl, refl, refl)
flush-Answered (some (err e)) = inr (inl (e, refl, refl, refl))

shutdown-Answered :
    (k : Completion (Unit {0}))
    → Answered outstanding_shutdown (queued_shutdown k) (settled_shutdown k)
unfolding reply_of settle fail
shutdown-Answered none = inr (inr (refl, refl))
shutdown-Answered (some (ok u)) = inl (shutdown_reply, refl, refl, refl)
shutdown-Answered (some (err e)) = inr (inl (e, refl, refl, refl))

-- What is sent for the calls, and the senders that wait for them.
abbrev sent_for : List Call → List Received
sent_for calls = map (λ p. ok (some p.0)) (map prepare calls)

abbrev pub waiting : List Call → List Outstanding
waiting calls = map (λ p. p.1) (map prepare calls)

dropped-waiting :
    (calls : List Call) → map dropped (waiting calls) ≡ map (λ c. dropped (prepare c).1) calls
dropped-waiting [] = refl
dropped-waiting (c ∷ calls) = rw (dropped-waiting calls)

give_up-waiting : (calls : List Call) → give_up (waiting calls) ≡ abandoned calls
unfolding give_up abandoned
give_up-waiting [] = refl
give_up-waiting (c ∷ calls) = rw (dropped-waiting calls)

monitor_task_ended : (os : List Outstanding) → monitor_task [] os ≡ give_up os
unfolding monitor_task give_up
monitor_task_ended [] = refl
monitor_task_ended (o ∷ os) = refl

module _ {S : Type 0} (t : VolumeTarget S) where
  serve-call :
      (s : S) (c : Call) (rest : List Received)
      → (serve t s (ok (some (prepare c).0) ∷ rest)).1
        ≡ (serve_request t s (prepare c).0).1 ∷ (serve t (called t s c).0 rest).1
  unfolding serve serve_request prepare called
  serve-call s (call_write b o) rest = refl
  serve-call s (call_read n o) rest = refl
  serve-call s call_flush rest = refl
  serve-call s call_shutdown rest = refl

  called-Answered :
      (s : S) (c : Call)
      → Answered (prepare c).1 (serve_request t s (prepare c).0).1 (called t s c).1
  unfolding serve_request prepare called
  called-Answered s (call_write b o) = write-Answered (t.write s b o).1
  called-Answered s (call_read n o) = read-Answered (t.read s n o).1
  called-Answered s call_flush = flush-Answered (t.flush s).1
  called-Answered s call_shutdown = shutdown-Answered (t.shutdown s).1

  module _ (carry : List (Outcome Reply Status) → List Message) (grpc : IsGrpc carry) where
    task-outcomes :
        (listens : ℕ) (s : S) (calls : List Call)
        → length calls ≤ listens
        → monitor_task (carry (replies listens (serve t s (sent_for calls)).1)) (waiting calls)
          ≡ outcomes t s calls
    unfolding monitor_task replies outcomes
    task-outcomes listens s [] enough = refl
    task-outcomes zero s (c ∷ calls) enough = absurd (omega arith)
    task-outcomes (suc n) s (c ∷ calls) enough =
        let s' = (called t s c).0 in
        rw (serve-call s c (sent_for calls)) (elim (called-Answered s c) [
          | inl (r, sent, settles, good) ↦
              rw (sent, good, replies, outcomes, grpc.message, settles, monitor_task)
                (ap (λ l. (called t s c).1 ∷ l) (task-outcomes n s' calls (omega arith)))
          | inr (inl (e, sent, fails, bad)) ↦
              rw (sent, bad, replies, outcomes, grpc.status, fails, monitor_task)
                (ap (λ l. (called t s c).1 ∷ l)
                  (monitor_task_ended (waiting calls) ∙ give_up-waiting calls))
          | inr (inr (sent, gone)) ↦
              rw (sent, gone, replies, outcomes, grpc.ends, monitor_task)
                (give_up-waiting (c ∷ calls))
        ])

-- The replies of the server's call, as the client is sent them.
abbrev pub reply_stream :
    {S : Type 0}
    → (List (Outcome Reply Status) → List Message)
    → Outcome (Served S) Status
    → Outcome (List Message) Status
reply_stream carry answer = do served ← answer; ok (carry served.sent)

module _ {H S : Type 0} (open_ : H → String → Option ℕ → Outcome (Opened S) VolumeError)
    (carry : List (Outcome Reply Status) → List Message) where
  -- The two `volume_io`s together.
  abbrev pub connect :
      Server H → TargetRequest → ℕ → List Call → Outcome (VolumeTargetInfo × List Settled) Status
  connect server request listens calls =
      volume_io
        (reply_stream carry
          (Serve.volume_io open_ server listens (request_stream request (map prepare calls))))
        (waiting calls)

  -- The calls of a client whose target the server opens are settled as if each was made in turn at
  -- the target itself, up to the first that does not succeed: an error reaches that call, the next
  -- fails as unmatched, and no later one is ever answered; where the completion is dropped, that
  -- call fails as unmatched, and no later one is ever answered. A target that the server does not
  -- open gives its error. The client takes more replies than there are calls, and a gRPC stream
  -- ends at its first error.
  pub calls_settled :
      (server : Server H) (request : TargetRequest) (listens : ℕ) (calls : List Call)
      → IsGrpc carry
      → length calls < listens
      → connect server request listens calls ≡ (do
        opened ← open_target open_ server request
        ok (opened.info, outcomes opened.target opened.state calls))
  unfolding volume_io Serve.volume_io opening request_stream replies reply_of
  calls_settled server request zero calls grpc enough = absurd (omega arith)
  calls_settled server request (suc n) calls grpc enough =
      elim (Outcome-cases (open_target open_ server request)) [
        | inr (e, refused_) ↦ rw (refused_) refl
        | inl (o, opened) ↦
            rw (opened, grpc.message)
              (ap (λ l. ok (o.info, l))
                (task-outcomes o.target carry grpc n o.state calls (omega arith)))
      ]
