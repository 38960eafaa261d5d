-- ===== src/Cli/Examples.antt =====
-- A batch writer over a writer that takes two bytes at a time.
use boardswarm.Prelude.{
  ℕ, ◌≡◌, refl, [], ◌∷◌, ◌++◌, Bytes, none, true, arith, ok, take, ready, pending,
}
use boardswarm.Cli.BatchWriter.{VolumeIoRw, BatchWriter, batched, poll_write, after_full}
use boardswarm.Cli.Delivery.{IsFaithful, delivered, accepted, poll_write_delivers}

abbrev slow : VolumeIoRw Bytes ℕ
slow = record {
  poll_write = λ v b. (v ++ take 2 b, ready 2);
  poll_flush = λ v. (v, ready tt);
  poll_shutdown = λ v. (v, ready tt);
  start_seek = λ v p. (v, ok tt);
  poll_complete = λ v. (v, pending);
}

abbrev given : Bytes → Bytes
given v = v

slow-IsFaithful : IsFaithful slow given
slow-IsFaithful = record { appends = λ v b. refl; takes = λ v b n e h. ground (arith, e, h) }

abbrev writer : BatchWriter Bytes
writer = record {
  buffer_size = 4;
  writer = 1 ∷ [];
  state = batched (2 ∷ 3 ∷ 4 ∷ []);
  discard_flush = true;
  pending_seek = none;
}

poll_write_delivers_example :
    delivered slow given (poll_write slow writer (5 ∷ 6 ∷ [])).0
    ≡ delivered slow given writer ++ accepted (poll_write slow writer (5 ∷ 6 ∷ [])).1 (5 ∷ 6 ∷ [])
poll_write_delivers_example = poll_write_delivers slow given writer (5 ∷ 6 ∷ []) slow-IsFaithful

-- One byte of the data fills the batch, of which two bytes are taken.
partly_taken : delivered slow given (poll_write slow writer (5 ∷ 6 ∷ [])).0 ≡ 1 ∷ 2 ∷ 3 ∷ 4 ∷ 5 ∷ []
unfolding poll_write after_full
partly_taken = refl
