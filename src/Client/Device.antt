-- ===== src/Client/Device.antt =====
-- boardswarm-client/src/device.rs: a client's copy of a device, and its volumes and consoles by name. The
-- calls of `Boardswarm` are parameters on the world `W`.
use boardswarm.Prelude.{
  ℕ, ◌+◌, Bool, true, false, Option, none, some, List, [], ◌∷◌, String, Outcome, ok, err, ◌==◌,
  nat_eq, string_eq, if◌then◌else◌,
}
use boardswarm.Status.{Status, not_found, unavailable}
use boardswarm.Server.Items.{ListedItem}
use boardswarm.Device.Monitor.{ItemView}
use boardswarm.Device.Watching.{DeviceView}

-- `Device` with its `DeviceInner`: how often the watch channel was sent to, and whether the task that
-- follows the server has stored an update that it has not yet told, or has ended.
pub record ClientDevice : Type 0 where
  pub id : ℕ
  pub device : DeviceView
  pub version : ℕ
  pub to_tell : Bool
  pub ended : Bool

abbrev pub id_of : List ItemView → String → Option ℕ
id_of [] name = none
id_of (v ∷ vs) name = let rest = id_of vs name in if v.name == name then v.id else rest

-- `get_id` of `DeviceVolume` and of `DeviceConsole`.
unfoldable pub volume_id : DeviceView → String → Option ℕ
volume_id d name = id_of d.volumes name

unfoldable pub console_id : DeviceView → String → Option ℕ
console_id d name = id_of d.consoles name

abbrev pub is_some : Option ℕ → Bool
is_some none = false
is_some (some id) = true

-- `available` of a volume and of a console.
unfoldable pub volume_available : String → DeviceView → Bool
unfolding volume_id
volume_available name d = is_some (volume_id d name)

unfoldable pub console_available : String → DeviceView → Bool
unfolding console_id
console_available name d = is_some (console_id d name)

-- A call of `DeviceVolume` (info, io, open, commit, erase), by what the client calls under the id.
unfoldable pub on_volume :
    {A W : Type 0}
    → (ℕ → W → W × Outcome A Status)
    → ClientDevice
    → String
    → W
    → W × Outcome A Status
unfolding volume_id
on_volume call d name w = elim (volume_id d.device name) [
  | none ↦ (w, err (unavailable "Volume currently not available"))
  | some id ↦ call id w
]

-- `stream_input` and `stream_output` of `DeviceConsole`.
unfoldable pub on_console :
    {A W : Type 0}
    → (ℕ → W → W × Outcome A Status)
    → ClientDevice
    → String
    → W
    → W × Outcome A Status
unfolding console_id
on_console call d name w = elim (console_id d.device name) [
  | none ↦ (w, err (unavailable "Console currently not available"))
  | some id ↦ call id w
]

-- `Device::new`, from what `device_info` gives: its stream's first item, and the rest.
unfoldable pub new :
    ℕ
    → Outcome (List (Outcome DeviceView Status)) Status
    → Outcome (ClientDevice × List (Outcome DeviceView Status)) Status
new id (err e) = err e
new id (ok []) = err (not_found "bla")
new id (ok (err e ∷ rest)) = err e
new id (ok (ok device ∷ rest)) =
    ok (record { id = id; device = device; version = 0; to_tell = false; ended = false }, rest)

abbrev pub find_item : List ListedItem → String → Option ℕ
find_item [] name = none
find_item (i ∷ is) name = let rest = find_item is name in if i.name == name then some i.id else rest

-- `by_name` of `DeviceBuilder`
unfoldable pub by_name :
    Outcome (List ListedItem) Status
    → (ℕ → Outcome (List (Outcome DeviceView Status)) Status)
    → String
    → Outcome (Option (ClientDevice × List (Outcome DeviceView Status))) Status
unfolding new
by_name (err e) device_info name = err e
by_name (ok devices) device_info name = elim (find_item devices name) [
  | none ↦ ok none
  | some id ↦ elim (new id (device_info id)) [ err e ↦ err e | ok d ↦ ok (some d) ]
]

-- A round of `monitor` in its two steps: an update is stored, and then told; the next one is taken behind
-- that. Anything but an update ends the task.
unfoldable pub tell_update : ClientDevice → ClientDevice
tell_update d = if d.to_tell then record d { version = d.version + 1; to_tell = false } else d

abbrev pub stored : ClientDevice → Option (Outcome DeviceView Status) → ClientDevice
stored d (some (ok info)) = record d { device = info; to_tell = true }
stored d (some (err e)) = record d { ended = true }
stored d none = record d { ended = true }

unfoldable pub store_update : ClientDevice → Option (Outcome DeviceView Status) → ClientDevice
unfolding tell_update
store_update d update = if d.ended then d else stored (tell_update d) update

-- The loop of `wait`, `wait_available` and `wait_unavailable`: it has to look, or it waits for the watch
-- channel to change from what it has seen, or it is done.
pub data Waiter : Type 0 where
  looking awaiting : ℕ → Waiter
  arrived : Waiter

unfoldable pub start_wait : ClientDevice → Waiter
start_wait d = looking d.version

-- The task that follows the server and the one that waits take turns in any way.
pub data Step : Type 0 where
  stores : Option (Outcome DeviceView Status) → Step
  tells looks polls : Step

module _ (wanted : DeviceView → Bool) where
  unfoldable pub look : ClientDevice → Waiter → Waiter
  look d (looking seen) = if wanted d.device then arrived else awaiting seen
  look d (awaiting seen) = awaiting seen
  look d arrived = arrived

  unfoldable pub poll_changed : ClientDevice → Waiter → Waiter
  poll_changed d (awaiting seen) = if d.version == seen then awaiting seen else looking d.version
  poll_changed d (looking seen) = looking seen
  poll_changed d arrived = arrived

  unfoldable pub step : ClientDevice × Waiter → Step → ClientDevice × Waiter
  unfolding store_update tell_update look poll_changed
  step (d, w) (stores update) = (store_update d update, w)
  step (d, w) tells = (tell_update d, w)
  step (d, w) looks = (d, look d w)
  step (d, w) polls = (d, poll_changed d w)

  unfoldable pub steps : ClientDevice × Waiter → List Step → ClientDevice × Waiter
  unfolding step
  steps x [] = x
  steps x (s ∷ ss) = steps (step x s) ss
