-- ===== src/Dfu/Targets.antt =====
-- `Dfu`, `DfuDevice` and `DfuTarget` of boardswarm/src/dfu.rs. The task is the interfaces that it has, or is
-- over where its device could not be set up: otherwise it serves its commands for as long as the
-- volume has their channel.
use boardswarm.Prelude.{
  ℕ, ◌%◌, ◌^◌, Bool, true, false, Option, none, some, List, [], ◌∷◌, ◌++◌, map, String, ◌==◌,
  string_eq, Bytes, Outcome, ok, err, length, if◌then◌else◌,
}
use boardswarm.Collections.HashMap
use boardswarm.Collections.HashMap.{HashMap}
use boardswarm.Status.{Status}
use boardswarm.VolumeIo.Replies.{
  VolumeError, unknown_target_requested, VolumeTargetInfo, VolumeTarget, read_default,
  flush_default, shutdown_default,
}
use boardswarm.Dfu.Device.{DfuInterface}

abbrev pub Task : Type 0
Task = Option (HashMap String DfuInterface)

-- `dfu_task`, of what its set-up gives.
unfoldable pub task_of : Outcome (HashMap String DfuInterface) String → Task
task_of (err e) = none
task_of (ok m) = some m

-- `DfuDevice::targets`: without an answer there are none.
unfoldable pub device_targets : Task → List String
device_targets none = []
device_targets (some m) = map (λ e. e.0) m

abbrev pub target_info : String → VolumeTargetInfo
target_info name = record {
  name = name;
  readable = false;
  writable = true;
  seekable = false;
  size = none;
  blocksize = none;
}

pub record Dfu : Type 0 where
  pub task : Task
  pub targets : List VolumeTargetInfo

unfoldable pub new : Task → Dfu
unfolding device_targets
new task = record { task = task; targets = map target_info (device_targets task) }

-- A download that was begun: its length, and the data that it took.
pub record Download : Type 0 where
  pub length : ℕ
  pub taken : List Bytes

-- `DfuTarget`: the other end of its channel is a download, or is gone.
pub record DfuTarget : Type 0 where
  pub download : Download
  pub listens : Bool

abbrev pub u32_mod : ℕ
u32_mod = 2 ^ 32

abbrev pub unwrap_or_default : Option ℕ → ℕ
unwrap_or_default none = 0
unwrap_or_default (some n) = n

unfoldable pub find_target : List VolumeTargetInfo → String → Option VolumeTargetInfo
find_target [] target = none
find_target (t ∷ ts) target =
    let rest = find_target ts target in if t.name == target then some t else rest

abbrev pub begun : ℕ → Bool → DfuTarget
begun len listens = record { download = record { length = len; taken = [] }; listens = listens }

-- How `open` ends: with a target, with an error, or by a panic.
pub data Opening : Type 0 where
  opened : VolumeTargetInfo → DfuTarget → Opening
  refused : VolumeError → Opening
  panics : Opening

-- Whether an interface can be opened is the device's affair.
module _ (opens : DfuInterface → Bool) where
  -- `start_download`, with the branch of the task; `none` is the panic of the `unwrap`.
  unfoldable pub start_download : Task → String → ℕ → Option DfuTarget
  start_download none target len = none
  start_download (some m) target len = elim (HashMap.get m target) [
    | none ↦ some (begun len false)
    | some interface ↦ some (begun len (opens interface))
  ]

  unfoldable pub open_target : Dfu → String → Option ℕ → Opening
  unfolding find_target start_download
  open_target d target len = elim (find_target d.targets target) [
    | none ↦ refused unknown_target_requested
    | some info ↦ elim (start_download d.task target (unwrap_or_default len % u32_mod)) [
      | none ↦ panics
      | some t ↦ opened info t
    ]
  ]

-- Whether a download takes more data, or has ended, is the device's affair too.
module _ (takes : Download → Bool) where
  -- The data is sent to the download, if it still takes some; the offset is not read.
  unfoldable pub write : DfuTarget → Bytes → ℕ → DfuTarget × Option (Outcome ℕ Status)
  write t b offset = (
    if t.listens
        then (if takes t.download
            then record t { download = record t.download { taken = t.download.taken ++ b ∷ [] } }
            else record t { listens = false })
        else t,
    some (ok (length b)),
  )

  unfoldable pub volume_target : VolumeTarget DfuTarget
  unfolding write read_default flush_default shutdown_default
  volume_target = record {
    read = read_default;
    write = write;
    flush = flush_default;
    shutdown = shutdown_default flush_default;
  }
