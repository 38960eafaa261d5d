-- ===== src/Client/Batches.antt =====
-- `BatchWriter` of boardswarm-cli/src/utils.rs over `VolumeIoRW` of boardswarm-client/src/client.rs.
use boardswarm.Prelude.{
  ℕ, ◌<◌, ◌≡◌, refl, sym, ap, ◌∙◌, Option, none, some, List, [], ◌∷◌, ◌++◌, append_assoc,
  append-nil, Bytes, arith, length, take, Poll, ready, failed, pending,
}
use boardswarm.VolumeIo.Serve.{TargetOrRequest, write_request}
use boardswarm.Client.ReadWrite.{Channels, PollFailure, start_seek, poll_complete}
use boardswarm.Client.Polls.{Client, poll_write, poll_flush, poll_shutdown}
use boardswarm.Client.Sending.{IsChannels, Wrote, poll_write_sends}
use boardswarm.Client.Flushing.{writes, writes-append}
use boardswarm.Cli.BatchWriter.{BatchWriter}
use boardswarm.Cli.BatchWriter
use boardswarm.Cli.Delivery.{
  IsFaithful, accepted, delivered, Emptied, poll_flush_data_total, poll_write_delivers,
}

-- What was sent to be written, in its order.
abbrev pub joined : List (ℕ × Bytes) → Bytes
joined [] = []
joined ((offset, b) ∷ ws) = b ++ joined ws

joined-append : (vs ws : List (ℕ × Bytes)) → joined (vs ++ ws) ≡ joined vs ++ joined ws
joined-append [] ws = refl
joined-append ((offset, b) ∷ vs) ws =
    ap (λ l. b ++ l) (joined-append vs ws) ∙ sym (append_assoc b (joined vs) (joined ws))

-- The loops of the client's polls always come to an end, so that the other case never arises.
abbrev returned : {C A : Type 0} → C → Option (C × Poll A PollFailure) → C × Poll A PollFailure
returned c none = (c, pending)
returned c (some out) = out

module _ {W F : Type 0} (io : Channels W F) where
  abbrev pub client_io : BatchWriter.VolumeIoRw (Client W F) PollFailure
  client_io = record {
    poll_write = λ c b. returned c (poll_write io c b);
    poll_flush = λ c. returned c (poll_flush io c);
    poll_shutdown = λ c. returned c (poll_shutdown io c);
    start_seek = λ c p. ((c.0, (start_seek c.1 p).0), (start_seek c.1 p).1);
    poll_complete = λ c. ((c.0, (poll_complete c.1).0), (poll_complete c.1).1);
  }

  module _ (sent : W → List TargetOrRequest) where
    abbrev pub bytes_sent : Client W F → Bytes
    bytes_sent c = joined (writes (sent c.0))

    Wrote-bytes_sent :
        (w : W) (pos : ℕ) (b : Bytes) (c : Client W F) (r : Poll ℕ PollFailure)
        → Wrote io sent (sent w) pos b c r
        → bytes_sent c ≡ joined (writes (sent w)) ++ accepted r b
    Wrote-bytes_sent w pos b c (ready n) (size, added, moved) =
        ap (λ l. joined (writes l)) added
        ∙ ap joined (writes-append (sent w) (write_request (take n b) pos ∷ []))
        ∙ joined-append (writes (sent w)) ((pos, take n b) ∷ [])
        ∙ ap (λ l. joined (writes (sent w)) ++ l) (append-nil (take n b))
    Wrote-bytes_sent w pos b c (failed e) (kept, moved) =
        ap (λ l. joined (writes l)) kept ∙ sym (append-nil (joined (writes (sent w))))
    Wrote-bytes_sent w pos b c pending (kept, moved) =
        ap (λ l. joined (writes l)) kept ∙ sym (append-nil (joined (writes (sent w))))

    Wrote-some :
        (log : List TargetOrRequest) (pos : ℕ) (b : Bytes) (c : Client W F) (r : Poll ℕ PollFailure)
        (n : ℕ)
        → Wrote io sent log pos b c r
        → r ≡ ready n
        → 0 < length b
        → 0 < n
    Wrote-some log pos b c (ready m) n (size, added, moved) e h = ground (arith, e, size, h)
    Wrote-some log pos b c (failed x) n wrote_ e h = absurd (let f : ⊥ = cc in f)
    Wrote-some log pos b c pending n wrote_ e h = absurd (let f : ⊥ = cc in f)

    -- VolumeIoRW keeps to what BatchWriter relies on: a write appends to the bytes sent exactly
    -- those that it reports as taken, and takes at least one where there is one, if only a
    -- reserved place sends a request.
    pub client_io-IsFaithful : IsChannels io sent → IsFaithful client_io bytes_sent
    client_io-IsFaithful law = record {
      appends = λ c b.
          let (out, polled, wrote_) = poll_write_sends io sent c.0 c.1 b law in
          rw polled (Wrote-bytes_sent c.0 c.1.pos b out.0 out.1 wrote_);
      takes = λ c b n e h.
          let (out, polled, wrote_) = poll_write_sends io sent c.0 c.1 b law in
          Wrote-some (sent c.0) c.1.pos b out.0 out.1 n wrote_
            (ap (λ o. (returned c o).1) (sym polled) ∙ e) h;
    }

    -- The batch writer's polls over the client's.
    pub batch_flush_sends :
        (w : BatchWriter (Client W F))
        → IsChannels io sent
        → (out : BatchWriter (Client W F) × Poll (Unit {0}) PollFailure)
          × (BatchWriter.poll_flush_data client_io w ≡ some out)
          × (delivered client_io bytes_sent out.0 ≡ delivered client_io bytes_sent w)
          × Emptied out.1 out.0.state
    batch_flush_sends w law =
        poll_flush_data_total client_io bytes_sent w (client_io-IsFaithful law)

    pub batch_write_sends :
        (w : BatchWriter (Client W F)) (b : Bytes)
        → IsChannels io sent
        → delivered client_io bytes_sent (BatchWriter.poll_write client_io w b).0
          ≡ delivered client_io bytes_sent w ++ accepted (BatchWriter.poll_write client_io w b).1 b
    batch_write_sends w b law =
        poll_write_delivers client_io bytes_sent w b (client_io-IsFaithful law)
