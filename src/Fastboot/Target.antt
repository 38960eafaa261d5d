-- ===== src/Fastboot/Target.antt =====
-- `FastbootVolumeTarget` of boardswarm/src/fastboot.rs: the buffered write and the flush. A command
-- to the task that owns the device is recorded in `sent`; the channel takes commands until that task
-- is gone, after `accepts` more of them.
use boardswarm.Prelude.{
  ℕ, zero, suc, ◌+◌, ◌*◌, Bool, not, ◌||◌, Option, none, some, List, [], ◌∷◌, ◌++◌, min, ltb,
  if◌then◌else◌, length, is_empty, String, Bytes, sub_usize, Outcome, ok, err,
}
use boardswarm.Status.{Status, internal}
use boardswarm.Fastboot.Data.{
  SparseFormat, FastbootData, Appended, no_data, blocksize, flash_size, append, data_is_empty,
}

pub data FastbootCommand : Type 0 where
  flash : String → FastbootData → FastbootCommand
  probe : String → FastbootCommand
  erase : String → FastbootCommand
  continue_boot : FastbootCommand
  ping : FastbootCommand

pub record FastbootDevice : Type 0 where
  pub sent : List FastbootCommand
  pub accepts : ℕ

abbrev pub closed : Status
closed = internal "channel closed"

-- `self.0.send(cmd).await.map_err(|e| tonic::Status::internal(e.to_string()))`
unfoldable pub send : FastbootDevice → FastbootCommand → Outcome FastbootDevice Status
send d cmd = elim d.accepts [
  | zero ↦ err closed
  | suc n ↦ ok (record { sent = d.sent ++ cmd ∷ []; accepts = n })
]

pub record FastbootVolumeTarget : Type 0 where
  pub device : FastbootDevice
  pub target : String
  pub max_download : ℕ
  pub buffered : FastbootData

unfoldable pub new_target : FastbootDevice → String → ℕ → FastbootVolumeTarget
new_target device target max_download = record {
  device = device;
  target = target;
  max_download = max_download;
  buffered = no_data;
}

-- Flash out when buffering 16Mb
abbrev pub flash_threshold : ℕ
flash_threshold = 16 * 1024 * 1024

unfoldable pub threshold : ℕ → ℕ
threshold max_download = min flash_threshold (sub_usize max_download (2 * blocksize))

-- What `write` hands to the completion: an error at once, or the length when the given number of
-- flashes that it started are done.
pub data WriteReply : Type 0 where
  failed : Status → WriteReply
  written_after : ℕ → ℕ → WriteReply

module _ (format : SparseFormat) where
  -- Whether the loop flashes after `append`.
  unfoldable pub must_flash : ℕ → Appended → Bool
  must_flash max_download a =
      not a.taken || ltb (threshold max_download) (flash_size format a.buffer)

  -- `while !data.is_empty()`, with fuel. `offset` is the same in every round.
  unfoldable pub write_loop :
      ℕ → FastbootVolumeTarget → ℕ → Bytes → ℕ → ℕ → Option (FastbootVolumeTarget × WriteReply)
  unfolding must_flash
  write_loop zero t offset bytes len flashes = none
  write_loop (suc fuel) t offset bytes len flashes =
      let a = append format t.buffered offset bytes t.max_download in
      let kept = write_loop fuel (record t { buffered = a.buffer }) offset a.rest len flashes in
      let flashed : Option (FastbootVolumeTarget × WriteReply) =
        elim (send t.device (flash t.target a.buffer)) [
          | err e ↦ some (record t { buffered = no_data }, failed e)
          | ok d ↦
              write_loop fuel (record t { device = d; buffered = no_data }) offset a.rest len
                (flashes + 1)
        ] in
      if is_empty bytes
      then some (t, written_after flashes len)
      else if must_flash t.max_download a
      then flashed
      else kept

  -- Each round takes a byte or empties the buffer.
  unfoldable pub write :
      FastbootVolumeTarget → Bytes → ℕ → Option (FastbootVolumeTarget × WriteReply)
  unfolding write_loop
  write t bytes offset = write_loop (2 * length bytes + 2) t offset bytes (length bytes) 0

-- The task that waits for the flashes: the first failure, or the length.
unfoldable pub completion : List (Outcome (Unit {0}) Status) → ℕ → Outcome ℕ Status
completion [] len = ok len
completion (err e ∷ rest) len = err e
completion (ok _ ∷ rest) len = completion rest len

-- `flush`: what is buffered is flashed, and an empty buffer pings the task. The result of the command
-- is the task's.
unfoldable pub flush :
    FastbootVolumeTarget
    → (FastbootCommand → Outcome (Unit {0}) Status)
    → FastbootVolumeTarget × Outcome (Unit {0}) Status
flush t result =
    let cmd : FastbootCommand =
      if data_is_empty t.buffered then ping else flash t.target t.buffered in
    elim (send t.device cmd) [
      | err e ↦ (record t { buffered = no_data }, err e)
      | ok d ↦ (record t { device = d; buffered = no_data }, result cmd)
    ]
