-- ===== src/VolumeIo/Serve.antt =====
-- `volume_io` of boardswarm/src/main.rs: the opening of a target, and the task that serves its
-- requests. `H` stands for the volumes, `open` for `Volume::open`, with the state of the target that it
-- gives.
use boardswarm.Prelude.{
  ℕ, Bool, true, false, Option, none, some, List, [], ◌∷◌, String, Bytes, Outcome, ok, err, ok_or,
  map_err, ◌>>=◌,
}
use boardswarm.Status.{Status, not_found, invalid_argument}
use boardswarm.Server.Items.{Server, volume}
use boardswarm.Server.Items
use boardswarm.VolumeIo.Replies.{
  VolumeError, VolumeTargetInfo, VolumeTarget, Queued, queued_target, queued_read, queued_write,
  queued_flush, queued_shutdown, queued_fatal, status_of_volume_error, Reply, replies,
}

pub record TargetRequest : Type 0 where
  pub volume_id : ℕ
  pub target : String
  pub length : Option ℕ

-- `volume_io_request::TargetOrRequest`
pub data TargetOrRequest : Type 0 where
  target_request : TargetRequest → TargetOrRequest
  read_request : ℕ → ℕ → TargetOrRequest
  write_request : Bytes → ℕ → TargetOrRequest
  flush_request shutdown_request : TargetOrRequest

-- What `rx.message()` gives before the end of the stream: a message, whose request may be missing, or
-- an error.
abbrev pub Received : Type 0
Received = Outcome (Option TargetOrRequest) Status

abbrev pub out_of_order : Status
out_of_order = invalid_argument "Target request sent out of order"

abbrev pub is_target : TargetOrRequest → Bool
is_target (target_request _) = true
is_target _ = false

module _ {S : Type 0} (t : VolumeTarget S) where
  -- One request other than a target's: the completion is queued first, then the target is called.
  unfoldable pub serve_request : S → TargetOrRequest → S × Queued
  serve_request s (target_request _) = (s, queued_fatal out_of_order)
  serve_request s (read_request length offset) =
      let (s', c) = t.read s length offset in (s', queued_read c)
  serve_request s (write_request data_ offset) =
      let (s', c) = t.write s data_ offset in (s', queued_write c)
  serve_request s flush_request = let (s', c) = t.flush s in (s', queued_flush c)
  serve_request s shutdown_request = let (s', c) = t.shutdown s in (s', queued_shutdown c)

  -- The task's loop: it ends with the stream, at an error, at a message without a request, and at a
  -- second target.
  unfoldable pub serve : S → List Received → S × List Queued
  unfolding serve_request
  serve s [] = (s, [])
  serve s (err e ∷ rest) = (s, [])
  serve s (ok none ∷ rest) = (s, [])
  serve s (ok (some request) ∷ rest) =
      let (s', q) = serve_request s request in
      let (s'', qs) = serve s' rest in
      elim (is_target request) [ true ↦ (s, q ∷ []) | false ↦ (s'', q ∷ qs) ]

-- A target that was opened.
pub record Opened (S : Type 0) : Type 0 where
  pub info : VolumeTargetInfo
  pub target : VolumeTarget S
  pub state : S

-- What a call of `volume_io` leads to: the state that the target is left in, and the replies.
pub record Served (S : Type 0) : Type 0 where
  pub final : S
  pub sent : List (Outcome Reply Status)

module _ {H S : Type 0} (open_ : H → String → Option ℕ → Outcome (Opened S) VolumeError) where
  unfoldable pub open_target : Server H → TargetRequest → Outcome (Opened S) Status
  unfolding status_of_volume_error
  open_target s request = do
    handle ← ok_or (Items.get volume s request.volume_id) (not_found "No volume by that name")
    map_err status_of_volume_error (open_ handle request.target request.length)

  -- `listens` is how many replies the client takes.
  unfoldable pub volume_io : Server H → ℕ → List Received → Outcome (Served S) Status
  unfolding open_target serve replies
  volume_io s listens [] = err (invalid_argument "No uploader/target selection")
  volume_io s listens (err e ∷ rest) = err e
  volume_io s listens (ok (some (target_request request)) ∷ rest) = do
    opened ← open_target s request
    let (final, queue) = serve opened.target opened.state rest
    ok (record { final = final; sent = replies listens (queued_target opened.info ∷ queue) })
  volume_io s listens (ok _ ∷ rest) = err (invalid_argument "Target should be set first")
