-- ===== src/Client/Examples.antt =====
-- Runs of the client's volume I/O at concrete inputs: a channel that takes all and answers at once, and
-- a volume of six bytes, of which a read is given at most four.
use boardswarm.Prelude.{
  ℕ, ◌+◌, map, failed, String, Option, ◌≡◌, refl, sym, ap, ◌∙◌, ◌++◌, true, none, some, List, [],
  ◌∷◌, Bytes, arith, ok, err, take, drop, take-append-drop, Poll, ready, from_start, from_end_back,
  Outcome, length, ◌>>=◌,
}
use boardswarm.Status.{Status, unimplemented}
use boardswarm.Registry.Properties
use boardswarm.Server.Items.{Server, volume, register}
use boardswarm.Server.Items
use boardswarm.VolumeIo.Replies.{
  VolumeTarget, VolumeTargetInfo, VolumeError, Reply, read_default, flush_default, shutdown_default,
}
use boardswarm.VolumeIo.Serve.{TargetOrRequest, TargetRequest, Opened, read_request, open_target}
use boardswarm.Cli.Delivery.{IsFaithful}
use boardswarm.Client.Requests.{
  Call, call_write, call_read, call_flush, Message, settled_write, settled_read, settled_flush,
  unmatched, fail, dropped, prepare,
}
use boardswarm.Client.Settling.{IsGrpc, calls_settled, connect, outcomes, called, abandoned}
use boardswarm.Client.ReadWrite.{Channels, VolumeIoRw, PollFailure, start_seek, poll_complete}
use boardswarm.Client.ReadWrite
use boardswarm.Client.Polls.{Client, poll_write, poll_flush, poll_read}
use boardswarm.Client.Sending.{IsChannels}
use boardswarm.Client.Flushing.{writes}
use boardswarm.Client.Segments.{Segment}
use boardswarm.Client.Reading.{IsVolume, IsCurrent}
use boardswarm.Client.Seeking.{read_all, all_given, sequential_reads, seek_reads_stale}
use boardswarm.Client.Cursor.{
  Op, op_write, op_read, op_flush, op_start_seek, op_complete_seek, Event, disconnected, panics,
  read_event, IsOrderly, do_ops, view_events,
}
use boardswarm.Client.Following.{Shows}
use boardswarm.Client.Histories.{do_ops_follow}
use boardswarm.Client.Batches.{client_io, bytes_sent, client_io-IsFaithful}

abbrev contents : Bytes
contents = 10 ∷ 11 ∷ 12 ∷ 13 ∷ 14 ∷ 15 ∷ []

-- A future is the offset that was asked for.
abbrev future_of : TargetOrRequest → ℕ
future_of (read_request n offset) = offset
future_of _ = 0

abbrev prompt : Channels (List TargetOrRequest) ℕ
prompt = record {
  poll_reserve = λ w. (w, ready tt);
  send = λ w r. (w ++ r ∷ [], future_of r);
  poll_written = λ w f. (w, ready 1);
  poll_data = λ w f. (w, ready (take 4 (drop f contents)));
  poll_done = λ w f. (w, ready tt);
}

abbrev requests : List TargetOrRequest → List TargetOrRequest
requests w = w

abbrev offset : ℕ → ℕ
offset f = f

prompt-IsChannels : IsChannels prompt requests
prompt-IsChannels = record {
  reserves = λ w. refl;
  sends = λ w r. refl;
  awaits_written = λ w f. refl;
  awaits_data = λ w f. refl;
  awaits_done = λ w f. refl;
}

segment :
    (f : ℕ) (b : Bytes)
    → ◌≡◌ {A = Poll Bytes Status} (ready (take 4 (drop f contents))) (ready b)
    → Segment contents f b
segment f b e = (
  drop 4 (drop f contents),
  sym (take-append-drop 4 (drop f contents)) ∙ ap (λ l. l ++ drop 4 (drop f contents)) (cc),
)

abbrev info : VolumeTargetInfo
info = record {
  name = "disk";
  readable = true;
  writable = true;
  seekable = true;
  size = some 6;
  blocksize = none;
}

abbrev opened_client : Client (List TargetOrRequest) ℕ
opened_client = ([], ReadWrite.new info)

prompt-IsVolume : IsVolume prompt contents offset
prompt-IsVolume = record {
  asks = λ w n o. refl;
  answers = λ w f b e. segment f b e;
  fits = omega arith;
}

sequential_reads_example :
    (out : Client (List TargetOrRequest) ℕ × List (Poll Bytes PollFailure)) × (read_all prompt
        opened_client
        (3 ∷ 3 ∷ 3 ∷ [])
      ≡ some out)
    × Segment contents 0 (all_given out.1)
    × (out.0.1.pos ≡ 0 + length (all_given out.1))
    × IsCurrent prompt contents offset out.0
    × IsOrderly true (map read_event out.1)
unfolding ReadWrite.new
sequential_reads_example =
    sequential_reads prompt contents offset opened_client (3 ∷ 3 ∷ 3 ∷ []) prompt-IsVolume
      ((contents, refl), omega arith, tt)

-- The reader has taken one of four bytes.
abbrev partly_read : VolumeIoRw ℕ
partly_read = record (ReadWrite.new info) { pos = 1; buffered_read = 11 ∷ 12 ∷ 13 ∷ [] }

seek_reads_stale_example :
    let sought = poll_complete (start_seek partly_read (from_start 5)).0 in
    (sought.1 ≡ ready 5)
    × (sought.0.pos ≡ 5)
    × ((me : VolumeIoRw ℕ) × (poll_read prompt ([], sought.0) 2
          ≡ some (([], me), ready (11 ∷ 12 ∷ []))))
unfolding ReadWrite.new
seek_reads_stale_example =
    seek_reads_stale prompt [] partly_read 2 5 11 (12 ∷ 13 ∷ []) refl refl refl

abbrev ops : List Op
ops =
    op_write (1 ∷ 2 ∷ [])
    ∷ op_start_seek (from_end_back 2)
    ∷ op_complete_seek
    ∷ op_read 3
    ∷ op_write (3 ∷ [])
    ∷ op_flush
    ∷ []

do_ops_follow_example :
    (out : Client (List TargetOrRequest) ℕ × List Event) × (do_ops prompt opened_client ops
      ≡ some out)
    × Shows prompt requests (view_events (record { cursor = 0; written = [] }) out.1) out.0
    × IsOrderly true out.1
unfolding ReadWrite.new
do_ops_follow_example =
    do_ops_follow prompt requests (record { cursor = 0; written = [] }) opened_client ops
      prompt-IsChannels (tt, refl, refl)

client_io-IsFaithful_example : IsFaithful (client_io prompt) (bytes_sent prompt requests)
client_io-IsFaithful_example = client_io-IsFaithful prompt requests prompt-IsChannels

-- A disk that keeps the last write and cannot be read.
abbrev disk : VolumeTarget Bytes
disk = record {
  read = read_default;
  write = λ s data_ offset. (data_, some (ok (length data_)));
  flush = flush_default;
  shutdown = shutdown_default flush_default;
}

abbrev open_disk : ℕ → String → Option ℕ → Outcome (Opened Bytes) VolumeError
open_disk h name length = ok (record { info = info; target = disk; state = [] })

abbrev carry : List (Outcome Reply Status) → List Message
carry [] = []
carry (ok r ∷ os) = ok (some r) ∷ carry os
carry (err e ∷ os) = err e ∷ []

carry-IsGrpc : IsGrpc carry
carry-IsGrpc = record { ends = refl; message = λ r os. refl; status = λ e os. refl }

abbrev server : Server ℕ
server = (register volume Items.new (Properties.new "disk") 7).1

abbrev disk_request : TargetRequest
disk_request = record { volume_id = 0; target = "disk"; length = none }

abbrev calls : List Call
calls = call_write (7 ∷ 8 ∷ []) 0 ∷ call_read 2 0 ∷ call_write (9 ∷ []) 2 ∷ call_flush ∷ []

calls_settled_example : connect open_disk carry server disk_request 9 calls ≡ (do
  opened ← open_target open_disk server disk_request
  ok (opened.info, outcomes opened.target opened.state calls))
calls_settled_example =
    calls_settled open_disk carry server disk_request 9 calls carry-IsGrpc (omega arith)

-- The read is refused; what follows it is not answered, though the disk would take it.
refused_read :
    outcomes disk [] calls
    ≡ settled_write (some (ok 2))
      ∷ settled_read (some (err (unimplemented "Target is not readable")))
      ∷ settled_write (some (err unmatched))
      ∷ settled_flush none
      ∷ []
unfolding outcomes called abandoned fail dropped prepare read_default flush_default
refused_read = refl

abbrev written_by : Option (Client (List TargetOrRequest) ℕ × List Event) → List (ℕ × Bytes)
written_by none = []
written_by (some (c, es)) = writes c.0

-- The second write stands behind what was read after the seek.
written_at_the_cursor :
    written_by (do_ops prompt opened_client ops) ≡ (0, 1 ∷ 2 ∷ []) ∷ (6, 3 ∷ []) ∷ []
unfolding do_ops ReadWrite.new ReadWrite.cleanup_pending_requests ReadWrite.invalidate_read_buffer
    poll_write poll_read poll_complete start_seek poll_flush
written_at_the_cursor = refl

-- A connection that is lost.
abbrev lost : Channels (List TargetOrRequest) ℕ
lost = record prompt { poll_reserve = λ w. (w, failed tt) }

abbrev events_of : Option (Client (List TargetOrRequest) ℕ × List Event) → List Event
events_of none = []
events_of (some (c, es)) = es

-- The first write fails; the second one polls the future of its reservation again.
second_write_panics :
    events_of (do_ops lost opened_client (op_write (1 ∷ []) ∷ op_write (1 ∷ []) ∷ op_flush ∷ []))
    ≡ disconnected ∷ panics ∷ []
unfolding do_ops ReadWrite.new ReadWrite.cleanup_pending_requests ReadWrite.invalidate_read_buffer
    poll_write poll_flush
second_write_panics = refl
