-- ===== src/Remote/Device.antt =====
-- `BoardswarmDevice` of boardswarm/src/boardswarm_provider/device.rs: the device of another server, whose
-- consoles and volumes are shown under the ids that they have here.
use boardswarm.Prelude.{
  Outcome, ok, err, ℕ, ◌+◌, Bool, true, false, Option, none, some, List, [], ◌∷◌, ◌==◌, nat_eq,
  if◌then◌else◌, not,
}
use boardswarm.Status.{Status, not_found, aborted, failed_precondition}
use boardswarm.Collections.HashMap
use boardswarm.Collections.HashMap.{HashMap}
use boardswarm.Device.Monitor.{ItemView}
use boardswarm.Device.Modes.{
  DeviceSetModeError, mode_not_found, wrong_current_mode, actuator_failed,
}
use boardswarm.Device.Watching.{DeviceView}

-- Of `Provider`, the ids here by the ids there, and how many changes it told.
pub record ProviderIds : Type 0 where
  pub consoles : HashMap ℕ ℕ
  pub volumes : HashMap ℕ ℕ
  pub notified : ℕ

-- `BoardswarmDeviceInner` with the device's notifier, what its task's receiver has seen of the provider's
-- changes, and whether the task still runs.
pub record RemoteDevice : Type 0 where
  pub console_mapping : HashMap ℕ ℕ
  pub volume_mapping : HashMap ℕ ℕ
  pub info : DeviceView
  pub notified : ℕ
  pub seen : ℕ
  pub running : Bool

-- One round of a loop of `update_mappings`, and the loop, over what it has so far.
unfoldable pub add_known : HashMap ℕ ℕ → HashMap ℕ ℕ → Option ℕ → HashMap ℕ ℕ
add_known ids mapping none = mapping
add_known ids mapping (some remote) = elim (HashMap.get ids remote) [
  | none ↦ mapping
  | some local ↦ HashMap.insert mapping remote local
]

unfoldable pub mapping_of : HashMap ℕ ℕ → HashMap ℕ ℕ → List ItemView → HashMap ℕ ℕ
unfolding add_known
mapping_of ids mapping [] = mapping
mapping_of ids mapping (c ∷ cs) = mapping_of ids (add_known ids mapping c.id) cs

unfoldable pub update_mappings : ProviderIds → RemoteDevice → RemoteDevice
unfolding mapping_of
update_mappings p d = record d {
  console_mapping = mapping_of p.consoles [] d.info.consoles;
  volume_mapping = mapping_of p.volumes [] d.info.volumes;
}

abbrev pub same_id : Option ℕ → Option ℕ → Bool
same_id none none = true
same_id (some a) (some b) = a == b
same_id _ _ = false

-- One round of a loop of `provider_sync`, and the loop.
unfoldable pub is_moved : HashMap ℕ ℕ → HashMap ℕ ℕ → Option ℕ → Bool
is_moved ids mapping none = false
is_moved ids mapping (some remote) =
    not (same_id (HashMap.get ids remote) (HashMap.get mapping remote))

unfoldable pub any_moved : HashMap ℕ ℕ → HashMap ℕ ℕ → List ItemView → Bool
unfolding is_moved
any_moved ids mapping [] = false
any_moved ids mapping (c ∷ cs) =
    let rest = any_moved ids mapping cs in if is_moved ids mapping c.id then true else rest

unfoldable pub provider_sync : ProviderIds → RemoteDevice → RemoteDevice × Bool
unfolding any_moved update_mappings
provider_sync p d =
    let moved =
      if any_moved p.consoles d.console_mapping d.info.consoles
      then true
      else any_moved p.volumes d.volume_mapping d.info.volumes in
    if moved then (update_mappings p d, true) else (d, false)

unfoldable pub update : ProviderIds → RemoteDevice → DeviceView → RemoteDevice
unfolding update_mappings
update p d info = update_mappings p (record d { info = info })

-- `BoardswarmDevice::new` from the first information on; the receiver of its task is made later, when
-- the provider has told `told` changes.
unfoldable pub new : ProviderIds → ℕ → DeviceView → RemoteDevice
unfolding update_mappings
new p told info = update_mappings p (record {
  console_mapping = [];
  volume_mapping = [];
  info = info;
  notified = 0;
  seen = told;
  running = true;
})

-- What is there to choose from in `monitor_device`: information from there, or a change that the provider
-- told.
unfoldable pub on_info : ProviderIds → RemoteDevice → DeviceView → RemoteDevice
unfolding update
on_info p d info = let d' = update p d info in record d' { notified = d'.notified + 1 }

-- The stream of the information: an error and its end return from the task.
unfoldable pub on_item :
    ProviderIds → RemoteDevice → Option (Outcome DeviceView Status) → RemoteDevice
unfolding on_info
on_item p d (some (ok info)) = on_info p d info
on_item p d (some (err e)) = record d { running = false }
on_item p d none = record d { running = false }

unfoldable pub on_provider : ProviderIds → RemoteDevice → RemoteDevice
unfolding provider_sync
on_provider p d =
    let (d', changed) = provider_sync p (record d { seen = p.notified }) in
    if changed then record d' { notified = d'.notified + 1 } else d'

abbrev pub id_through : HashMap ℕ ℕ → Option ℕ → Option ℕ
id_through mapping none = none
id_through mapping (some id) = HashMap.get mapping id

abbrev pub seen_through : HashMap ℕ ℕ → List ItemView → List ItemView
seen_through mapping [] = []
seen_through mapping (c ∷ cs) =
    record { name = c.name; id = id_through mapping c.id } ∷ seen_through mapping cs

-- `consoles`, `volumes`, `modes` and `current_mode`.
unfoldable pub view : RemoteDevice → DeviceView
view d = record {
  consoles = seen_through d.console_mapping d.info.consoles;
  volumes = seen_through d.volume_mapping d.info.volumes;
  current_mode = d.info.current_mode;
  modes = d.info.modes;
}

-- The error of `set_mode`, from the status of the call there.
unfoldable pub mode_error_of_status : Status → DeviceSetModeError
mode_error_of_status (not_found m) = mode_not_found
mode_error_of_status (failed_precondition m) = wrong_current_mode
mode_error_of_status (aborted m) = actuator_failed
mode_error_of_status _ = actuator_failed

-- What happens to a remote device: the provider takes other ids and tells it, its stream gives an item or
-- ends, or the task takes in what the provider told.
pub data Moment : Type 0 where
  provider_moves : HashMap ℕ ℕ → HashMap ℕ ℕ → Moment
  info_comes : Option (Outcome DeviceView Status) → Moment
  task_wakes : Moment

unfoldable pub at_moment : ProviderIds × RemoteDevice → Moment → ProviderIds × RemoteDevice
unfolding on_item on_provider
at_moment (p, d) (provider_moves consoles volumes) =
    (record { consoles = consoles; volumes = volumes; notified = p.notified + 1 }, d)
at_moment (p, d) (info_comes item) = (p, if d.running then on_item p d item else d)
at_moment (p, d) task_wakes =
    (p, if d.running then (if d.seen == p.notified then d else on_provider p d) else d)

unfoldable pub at_moments : ProviderIds × RemoteDevice → List Moment → ProviderIds × RemoteDevice
unfolding at_moment
at_moments x [] = x
at_moments x (m ∷ ms) = at_moments (at_moment x m) ms
