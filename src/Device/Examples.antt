-- ===== src/Device/Examples.antt =====
-- Runs of configured devices at concrete inputs. An actuator is a number, and the world is the server
-- with the list of the settings that were made.
mod Watching
use boardswarm.Prelude.{
  ℕ, ◌+◌, ◌-◌, ◌≤◌, ◌<◌, ◌⊎◌, inl, inr, ◌==◌, nat_eq, leb, if◌then◌else◌, Bool-cases, ◌≡◌, refl,
  true, Bool, none, some, List, [], ◌∷◌, ◌++◌, arith, ok, err,
}
use boardswarm.Collections.BTreeMap
use boardswarm.Collections.HashMap
use boardswarm.Registry.Properties.{Properties, name_key, Item, matches}
use boardswarm.Registry.Properties
use boardswarm.Registry.Store.{Registry, lookup, add, added, next_index}
use boardswarm.Registry.Store
use boardswarm.Registry.History.{Call, adds, removes, step, run}
use boardswarm.Registry.Invariant.{new-IsValid}
use boardswarm.Registry.Monitor.{emitted, emitted_all}
use boardswarm.Server.Items.{Server}
use boardswarm.Server.Items
use boardswarm.Device.Config.{VolumeConfig, ModeConfig, volume_item, console_item, mode_item}
use boardswarm.Device.Items.{DeviceItem, get}
use boardswarm.Device.Items as Item_ops
use boardswarm.Device.Following.{follow_all, as_added}
use boardswarm.Device.Tracking.{Live, Exact, wanted_at}
use boardswarm.Device.Histories.{
  follow_history-Live, follow_history-Exact, AlwaysSingle, shadowed_item_lost, resync_keeps_stale,
}
use boardswarm.Device.Monitor.{Device, from_config, Message, console_msg, on_message}
use boardswarm.Device.Delivery.{device_of, delivered, on_message_delivers}
use boardswarm.Device.Modes.{
  set_mode, switch_to, find_mode, depends_met, run_steps, wrong_current_mode,
}
use boardswarm.Device.Switching.{Promise, set_mode_keeps_Promise}

abbrev disk : VolumeConfig
disk = record { name = "disk"; match_ = (name_key, "disk") ∷ [] }

abbrev disk_properties : Properties
disk_properties = Properties.new "disk"

abbrev calls : List (Call ℕ)
calls = adds disk_properties 7 ∷ adds (Properties.new "other") 8 ∷ []

abbrev item : DeviceItem VolumeConfig
item = Item_ops.new disk

item-Live : Live (Store.new {T = ℕ}) item
unfolding Store.new Item_ops.new get
item-Live id e = absurd (ground arith)

item-Exact : Exact (Store.new {T = ℕ}) item
unfolding Store.new Item_ops.new get lookup BTreeMap.get
item-Exact id = (λ e. absurd (ground arith), λ e. absurd (ground arith))

-- Of the two items only the first is wanted.
calls-AlwaysSingle : AlwaysSingle disk (Store.new {T = ℕ}) calls
unfolding Store.new step add lookup BTreeMap.get BTreeMap.insert Properties.new matches
    HashMap.insert HashMap.get Properties.get Properties.instance_of
calls-AlwaysSingle = (λ i j hi hj. ground arith, (λ i j hi hj. ground arith, tt))

follow_history-Exact_example :
    Exact (run Store.new calls) (follow_all item (emitted_all (Store.new {T = ℕ}) calls))
unfolding Store.new Item_ops.new
follow_history-Exact_example =
    follow_history-Exact Store.new calls item (omega arith) new-IsValid calls-AlwaysSingle
      item-Exact

-- Two disks of one name: the second hides the first.
abbrev disks : Registry ℕ
disks = run Store.new (adds disk_properties 7 ∷ adds disk_properties 8 ∷ [])

abbrev second : DeviceItem VolumeConfig
second = record { id = some 1; config = disk }

second-Live : Live disks second
unfolding run Store.new step add lookup BTreeMap.get BTreeMap.insert Properties.new matches
    HashMap.insert HashMap.get Properties.get Properties.instance_of get next_index
second-Live id e = ground arith

shadowed_item_lost_example :
    (get (follow_all second (emitted disks (removes 1))) ≡ none)
    × (wanted_at (step disks (removes 1)) disk 0 ≡ true)
unfolding run Store.new step add lookup BTreeMap.get BTreeMap.insert Properties.new matches
    HashMap.insert HashMap.get Properties.get Properties.instance_of get next_index
shadowed_item_lost_example =
    shadowed_item_lost disks second 1 0 second-Live refl refl (λ e. omega (arith, e))

abbrev others : List (ℕ × Item ℕ)
others = (5, record { properties = Properties.new "other"; item = 8 }) ∷ []

abbrev mode : ModeConfig ℕ
mode = record {
  name = "on";
  depends = some "off";
  sequence =
      record { match_ = (name_key, "relay") ∷ []; parameters = 1; stabilisation = some 500 } ∷ [];
}

abbrev off_mode : ModeConfig ℕ
off_mode = record { name = "off"; depends = none; sequence = [] }

abbrev board : Device ℕ
board = from_config (record {
  name = "board";
  consoles = record { name = "uart"; parameters = 115200; match_ = (name_key, "uart") ∷ [] } ∷ [];
  modes = mode ∷ off_mode ∷ [];
  volumes = disk ∷ [];
})

abbrev World : Type 0
World = Server ℕ × List ℕ

abbrev configure : ℕ → ℕ → World → World
configure h p w = (w.0, w.1 ++ h ∷ p ∷ [])

abbrev uart_added : Message ℕ
uart_added = console_msg (ok (added 3 (record { properties = Properties.new "uart"; item = 9 })))

on_message_delivers_example :
    device_of (on_message configure board (Items.new, []) uart_added) ≡ delivered board uart_added
on_message_delivers_example = on_message_delivers configure board (Items.new, []) uart_added

abbrev server_of : World → Server ℕ
server_of w = w.0

abbrev actuate : ℕ → ℕ → World → World × Bool
actuate h p w = ((w.0, w.1 ++ h ∷ p ∷ []), true)

abbrev sleep : ℕ → World → World
sleep ms w = (w.0, w.1 ++ ms ∷ [])

abbrev start : World
start = (Items.new, [])

set_mode_keeps_Promise_example :
    Promise server_of actuate sleep board "off" start
      (set_mode server_of actuate sleep board "off" start)
set_mode_keeps_Promise_example = set_mode_keeps_Promise server_of actuate sleep board "off" start

-- A mode whose dependency is not the current mode.
unmet_dependency :
    (set_mode server_of actuate sleep board "on" start).result ≡ err wrong_current_mode
unfolding set_mode from_config find_mode depends_met
unmet_dependency = refl

switched_off : (set_mode server_of actuate sleep board "off" start).device.current_mode ≡ some "off"
unfolding set_mode switch_to from_config find_mode depends_met run_steps
switched_off = refl
