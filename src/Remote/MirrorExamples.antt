-- ===== src/Remote/MirrorExamples.antt =====
-- Runs of a device of another server and witnesses of the theorems on it.
use boardswarm.Prelude.{
  ok, ℕ, ◌≡◌, refl, true, none, some, List, [], ◌∷◌, String, Outcome, err, map_err, nat_eq,
}
use boardswarm.Collections.HashMap
use boardswarm.Collections.BTreeMap
use boardswarm.Registry.Properties
use boardswarm.Registry.Store.{add, lookup}
use boardswarm.Registry.Store
use boardswarm.Server.Items.{Server, device, register, get}
use boardswarm.Server.Items
use boardswarm.Server.Handlers.{device_change_mode}
use boardswarm.Status.{aborted}
use boardswarm.Device.Modes.{DeviceSetModeError, wrong_current_mode}
use boardswarm.Device.Watching.{DeviceView}
use boardswarm.Remote.Device.{
  ProviderIds, Moment, provider_moves, info_comes, view, new, update_mappings, mapping_of,
  add_known, mode_error_of_status,
}
use boardswarm.Remote.Mirror.{remote_switch_answers}

abbrev ids : ProviderIds
ids = record { consoles = (7, 1) ∷ []; volumes = []; notified = 3 }

abbrev board : DeviceView
board = record {
  consoles = record { name = "uart"; id = some 7 } ∷ record { name = "log"; id = some 8 } ∷ [];
  volumes = record { name = "flash"; id = none } ∷ [];
  current_mode = some "on";
  modes = record { name = "on"; depends = none; available = true } ∷ [];
}

-- The second console is not registered here.
known_console_shown :
    (view (new ids 3 board)).consoles
    ≡ record { name = "uart"; id = some 1 } ∷ record { name = "log"; id = none } ∷ []
unfolding view new update_mappings mapping_of add_known HashMap.get HashMap.insert
known_console_shown = refl

abbrev moments : List Moment
moments =
    provider_moves ((7, 1) ∷ (8, 4) ∷ []) []
    ∷ info_comes (some (ok board))
    ∷ provider_moves ((8, 4) ∷ []) []
    ∷ []

-- The stream of the information fails behind them.
abbrev failure : Moment
failure = info_comes (some (err (aborted "h2 protocol error")))

abbrev refuses : ℕ → String → ℕ → ℕ × Outcome (Unit {0}) DeviceSetModeError
refuses h mode w = (w, err wrong_current_mode)

abbrev there : Server ℕ
there = (register device Items.new (Properties.new "board") 5).1

remote_switch_answers_example :
    let (w', r) = device_change_mode refuses there 0 "on" 9 in
    (w', map_err mode_error_of_status r) ≡ refuses 5 "on" 9
unfolding register Items.new get lookup BTreeMap.get add BTreeMap.insert Store.new
remote_switch_answers_example = remote_switch_answers refuses there 0 5 "on" 9 refl
