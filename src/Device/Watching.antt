-- ===== src/Device/Watching.antt =====
-- `device_info` of boardswarm/src/main.rs with `From<&dyn Device> for boardswarm_protocol::Device` and
-- `DeviceMonitor`: a client's view of a device, kept up to date. The device's broadcast channel is
-- the number of values sent so far, `notified`; a receiver is the number of those that it has seen.
use boardswarm.Prelude.{
  ℕ, zero, suc, Bool, ◌+◌, ◌-◌, Option, none, some, List, [], ◌∷◌, String, Outcome, ok, err,
}
use boardswarm.Status.{Status, not_found}
use boardswarm.Server.Items.{Server, device, get}
use boardswarm.Device.Monitor.{
  Device, ItemView, ModeView, consoles, volumes, modes, Message, on_message_or_resync,
}
use boardswarm.Device.Modes.{set_mode}

-- `boardswarm_protocol::Device`
pub record DeviceView : Type 0 where
  pub consoles : List ItemView
  pub volumes : List ItemView
  pub current_mode : Option String
  pub modes : List ModeView

unfoldable pub view : {P : Type 0} → Device P → DeviceView
unfolding consoles volumes modes
view d = record {
  consoles = consoles d;
  volumes = volumes d;
  current_mode = d.current_mode;
  modes = modes d;
}

-- What `recv` of the channel gives: one value, with how many are seen then; how many are skipped when
-- the receiver is too late for the oldest; or nothing yet.
pub data Recv : Type 0 where
  received : ℕ → Recv
  lagged : ℕ → Recv
  waiting : Recv

-- How a wait ends, on fuel.
pub data Waited : Type 0 where
  still_waiting out_of_rounds : Waited
  woken : ℕ → Waited

-- A client's stream: what its receiver has seen, and the last view that it was sent.
pub record Watcher : Type 0 where
  pub seen : ℕ
  pub shown : DeviceView

-- The handler: the first view is read before the receiver is made. `before` and `after` are the
-- device at these two times.
unfoldable pub device_info :
    {H P : Type 0} → Server H → ℕ → Device P → Device P → Outcome Watcher Status
unfolding view
device_info s id before after = elim (get device s id) [
  | none ↦ err (not_found "No such device")
  | some handle ↦ ok (record { seen = after.notified; shown = view before })
]

module _ (recv : ℕ → ℕ → Recv) where
  -- `DeviceMonitor::wait`: a lag is passed over. The channel is not closed while the device is there.
  unfoldable pub wait : ℕ → ℕ → ℕ → Waited
  wait zero seen sent = out_of_rounds
  wait (suc fuel) seen sent = elim (recv seen sent) [
    | received seen' ↦ woken seen'
    | lagged seen' ↦ wait fuel seen' sent
    | waiting ↦ still_waiting
  ]

  -- One poll of the stream.
  unfoldable pub poll_info : {P : Type 0} → Watcher → Device P → Watcher
  unfolding wait view
  poll_info w d = elim (wait (d.notified - w.seen + 1) w.seen d.notified) [
    | still_waiting ↦ w
    | out_of_rounds ↦ w
    | woken seen ↦ record { seen = seen; shown = view d }
  ]

-- What happens while a client watches: a message reaches the device's task, with what the server
-- holds if it has to start over; a client switches the mode; and the stream is polled.
pub data Moment (H : Type 0) : Type 0 where
  changes : Server H → Message H → Moment H
  switches : String → Moment H
  polls : Moment H

pub record Watched (P W : Type 0) : Type 0 where
  pub device : Device P
  pub world : W
  pub watcher : Watcher

module _ {P H W : Type 0} (recv : ℕ → ℕ → Recv) (configure : H → P → W → W)
    (server_of : W → Server H) (actuate : H → P → W → W × Bool) (sleep : ℕ → W → W) where
  unfoldable pub at_moment : Watched P W → Moment H → Watched P W
  unfolding poll_info
  at_moment x (changes s m) =
      let (d, w) = on_message_or_resync configure s x.device x.world m in
      record x { device = d; world = w }
  at_moment x (switches mode) =
      let r = set_mode server_of actuate sleep x.device mode x.world in
      record x { device = r.device; world = r.world }
  at_moment x polls = record x { watcher = poll_info recv x.watcher x.device }

  unfoldable pub at_moments : Watched P W → List (Moment H) → Watched P W
  unfolding at_moment
  at_moments x [] = x
  at_moments x (m ∷ ms) = at_moments (at_moment x m) ms
