-- ===== src/VolumeIo/Order.antt =====
-- The replies of a volume's I/O against the calls of the target for its requests, one by one.
use boardswarm.Prelude.{
  Bytes, ℕ, zero, suc, ◌≤◌, ◌≡◌, refl, ap, ◌∙◌, Bool, true, false, ◌&&◌, none, some, List, [], ◌∷◌,
  ◌++◌, map, arith, Outcome, ok, err, length, is_some, All, take, Bool-cases, Option-cases, inl,
  inr,
}
use boardswarm.VolumeIo.Replies.{
  VolumeTarget, Completion, Queued, queued_read, queued_write, queued_flush, queued_shutdown,
  queued_fatal, Reply, read_reply, write_reply, flush_reply, shutdown_reply, reply_of, replies,
}
use boardswarm.VolumeIo.Serve.{
  TargetOrRequest, TargetRequest, target_request, read_request, write_request, flush_request,
  shutdown_request, Received, out_of_order, is_target, serve_request, serve,
}
use boardswarm.Status.{Status}

-- The requests that the task takes in: up to the end, an error, a message without a request, and a
-- second target, which it takes in last.
unfoldable pub taken : List Received → List TargetOrRequest
taken [] = []
taken (err e ∷ rest) = []
taken (ok none ∷ rest) = []
taken (ok (some r) ∷ rest) =
    let later = taken rest in elim (is_target r) [ true ↦ r ∷ [] | false ↦ r ∷ later ]

-- What is told of a completion, if it comes: what it gives, or its error.
unfoldable pub told : {A : Type 0} → (A → Reply) → Completion A → Completion Reply
told f none = none
told f (some (ok a)) = some (ok (f a))
told f (some (err e)) = some (err e)

-- What comes before the first completion that is dropped.
unfoldable pub until_dropped : List (Completion Reply) → List (Outcome Reply Status)
until_dropped [] = []
until_dropped (none ∷ cs) = []
until_dropped (some r ∷ cs) = r ∷ until_dropped cs

replies-take :
    (listens : ℕ) (qs : List Queued)
    → replies listens qs ≡ take listens (until_dropped (map reply_of qs))
unfolding replies until_dropped
replies-take zero [] = refl
replies-take (suc listens) [] = refl
replies-take zero (q ∷ qs) = refl
replies-take (suc listens) (q ∷ qs) = elim (Option-cases (reply_of q)) [
  | inl dropped ↦ rw (dropped, replies) refl
  | inr (o, sent) ↦ rw (sent, replies) (ap (λ os. o ∷ os) (replies-take listens qs))
]

unfoldable pub all_completed : List Queued → Bool
unfolding reply_of
all_completed [] = true
all_completed (q ∷ qs) = is_some (reply_of q) && all_completed qs

length-replies :
    (listens : ℕ) (qs : List Queued)
    → all_completed qs ≡ true
    → length qs ≤ listens
    → length (replies listens qs) ≡ length qs
unfolding all_completed replies
length-replies listens [] done enough = ground arith
length-replies zero (q ∷ qs) done enough = absurd (omega arith)
length-replies (suc listens) (q ∷ qs) done enough = ground (arith, length-replies listens qs)

read-told : (c : Completion Bytes) → reply_of (queued_read c) ≡ told read_reply c
unfolding reply_of told
read-told none = refl
read-told (some (ok a)) = refl
read-told (some (err e)) = refl

write-told : (c : Completion ℕ) → reply_of (queued_write c) ≡ told write_reply c
unfolding reply_of told
write-told none = refl
write-told (some (ok a)) = refl
write-told (some (err e)) = refl

flush-told : (c : Completion (Unit {0})) → reply_of (queued_flush c) ≡ told (λ _. flush_reply) c
unfolding reply_of told
flush-told none = refl
flush-told (some (ok a)) = refl
flush-told (some (err e)) = refl

shutdown-told :
    (c : Completion (Unit {0})) → reply_of (queued_shutdown c) ≡ told (λ _. shutdown_reply) c
unfolding reply_of told
shutdown-told none = refl
shutdown-told (some (ok a)) = refl
shutdown-told (some (err e)) = refl

module _ {S : Type 0} (t : VolumeTarget S) where
  -- The target's own answer to one request: what the call of it completes with.
  unfoldable pub call_target : S → TargetOrRequest → S × Completion Reply
  unfolding told
  call_target s (target_request _) = (s, some (err out_of_order))
  call_target s (read_request length offset) =
      let (s', c) = t.read s length offset in (s', told read_reply c)
  call_target s (write_request data_ offset) =
      let (s', c) = t.write s data_ offset in (s', told write_reply c)
  call_target s flush_request = let (s', c) = t.flush s in (s', told (λ _. flush_reply) c)
  call_target s shutdown_request = let (s', c) = t.shutdown s in (s', told (λ _. shutdown_reply) c)

  -- The target called for each request, one after the other.
  unfoldable pub call_all : S → List TargetOrRequest → S × List (Completion Reply)
  unfolding call_target
  call_all s [] = (s, [])
  call_all s (r ∷ rs) =
      let (s', c) = call_target s r in let (s'', cs) = call_all s' rs in (s'', c ∷ cs)

  request-told :
      (s : S) (r : TargetOrRequest)
      → ((serve_request t s r).0, reply_of (serve_request t s r).1) ≡ call_target s r
  unfolding serve_request reply_of call_target told
  request-told s (target_request _) = refl
  request-told s (read_request length offset) =
      ap (λ c. ((t.read s length offset).0, c)) (read-told (t.read s length offset).1)
  request-told s (write_request data_ offset) =
      ap (λ c. ((t.write s data_ offset).0, c)) (write-told (t.write s data_ offset).1)
  request-told s flush_request = ap (λ c. ((t.flush s).0, c)) (flush-told (t.flush s).1)
  request-told s shutdown_request = ap (λ c. ((t.shutdown s).0, c)) (shutdown-told (t.shutdown s).1)

  second_call :
      (s : S) (r : TargetOrRequest)
      → is_target r ≡ true
      → (s ≡ (call_target s r).0) × (reply_of (serve_request t s r).1 ≡ (call_target s r).1)
  unfolding serve_request reply_of call_target
  second_call s (target_request _) second = (refl, refl)
  second_call s (read_request _ _) second = absurd (let no : ⊥ = cc in no)
  second_call s (write_request _ _) second = absurd (let no : ⊥ = cc in no)
  second_call s flush_request second = absurd (let no : ⊥ = cc in no)
  second_call s shutdown_request second = absurd (let no : ⊥ = cc in no)

  serve-call_all :
      (s : S) (received : List Received)
      → ((serve t s received).0, map reply_of (serve t s received).1) ≡ call_all s (taken received)
  unfolding taken serve call_all
  serve-call_all s [] = refl
  serve-call_all s (err e ∷ rest) = refl
  serve-call_all s (ok none ∷ rest) = refl
  serve-call_all s (ok (some r) ∷ rest) = elim (Bool-cases (is_target r)) [
    | inl second ↦
        let (stays, answer) = second_call s r second in
        rw (second, taken, serve)
          (ap (λ x. (x, reply_of (serve_request t s r).1 ∷ [])) stays
            ∙ ap (λ c. ((call_target s r).0, c ∷ [])) answer)
    | inr other ↦
        rw (other, taken, serve)
          (ap (λ x. (x.0, reply_of (serve_request t s r).1 ∷ x.1))
              (serve-call_all (serve_request t s r).0 rest)
            ∙ ap (λ y. ((call_all y.0 (taken rest)).0, y.1 ∷ (call_all y.0 (taken rest)).1))
                (request-told s r))
  ]

  -- Whatever the client of a volume's I/O sends, how many replies it takes, and which completions
  -- are dropped, the replies are what the target itself, called for each request in turn,
  -- completes with: the bytes, counts and errors at their places, up to the first completion that
  -- is dropped, as many as the client takes. A second target has its error at its place and ends
  -- them, and the target is left as those calls leave it.
  pub replies-in_order :
      (listens : ℕ) (s : S) (received : List Received)
      → let (s', queue) = serve t s received in
        let (s'', completions) = call_all s (taken received) in
        (s' ≡ s'') × (replies listens queue ≡ take listens (until_dropped completions))
  replies-in_order listens s received =
      let e = serve-call_all s received in
      (
        ap (λ x. x.0) e,
        replies-take listens (serve t s received).1 ∙ ap (λ x. take listens (until_dropped x.1)) e,
      )

  length-serve :
      (s : S) (received : List Received) → length (serve t s received).1 ≡ length (taken received)
  unfolding taken serve
  length-serve s [] = refl
  length-serve s (err e ∷ rest) = refl
  length-serve s (ok none ∷ rest) = refl
  length-serve s (ok (some r) ∷ rest) = elim (Bool-cases (is_target r)) [
    | inl second ↦ rw (second, taken, serve) refl
    | inr other ↦ rw (other, taken, serve) (ap suc (length-serve (serve_request t s r).0 rest))
  ]

  -- If no completion is dropped and the client takes as many replies as there are requests, there
  -- is one reply for each of them.
  pub every_request_answered :
      (listens : ℕ) (s : S) (received : List Received)
      → all_completed (serve t s received).1 ≡ true
      → length (taken received) ≤ listens
      → length (replies listens (serve t s received).1) ≡ length (taken received)
  every_request_answered listens s received done enough =
      length-replies listens (serve t s received).1 done
        (omega (arith, length-serve s received, enough))
      ∙ length-serve s received

  -- A second target is refused and ends the task: the target is left as the requests before it
  -- left it, their replies are followed by that one error, and nothing behind it is served.
  pub second_target_ends :
      (s : S) (before : List TargetOrRequest) (r : TargetRequest) (rest : List Received)
      → All (λ q. is_target q ≡ false) before
      → serve t s (map (λ q. ok (some q)) before ++ ok (some (target_request r)) ∷ rest) ≡ (
        (serve t s (map (λ q. ok (some q)) before)).0,
        (serve t s (map (λ q. ok (some q)) before)).1 ++ queued_fatal out_of_order ∷ [],
      )
  unfolding serve serve_request
  second_target_ends s [] r rest h = refl
  second_target_ends s (q ∷ before) r rest h =
      let h' = second_target_ends (serve_request t s q).0 before r rest h.1 in rw (h.0, serve, h')
