-- ===== src/Client/DeviceExamples.antt =====
-- Runs of a client's copy of a device and witnesses of the theorems on it.
use boardswarm.Prelude.{
  arith, ℕ, ◌≡◌, ◌≢◌, refl, true, false, none, some, List, [], ◌∷◌, Outcome, ok, err,
}
use boardswarm.Status.{Status, unavailable}
use boardswarm.Device.Watching.{DeviceView}
use boardswarm.Client.Device.{
  ClientDevice, volume_available, volume_id, console_id, on_volume, on_console, new, by_name,
  store_update, tell_update, awaiting, arrived, start_wait, Step, stores, tells, looks, polls, step,
  steps, look, poll_changed,
}
use boardswarm.Registry.Properties
use boardswarm.Registry.Store.{Registry, lookup, add}
use boardswarm.Registry.Store
use boardswarm.Registry.Invariant.{IsValid, new-IsValid, add-IsValid}
use boardswarm.Server.Items.{to_item_list}
use boardswarm.Client.Naming.{Opens, by_name-Opens}
use boardswarm.Client.Waiting.{wait_arrives, wait_never_returns}

abbrev without : DeviceView
without = record {
  consoles = record { name = "uart"; id = some 4 } ∷ [];
  volumes = record { name = "flash"; id = none } ∷ [];
  current_mode = none;
  modes = [];
}

abbrev with_flash : DeviceView
with_flash = record without { volumes = record { name = "flash"; id = some 9 } ∷ [] }

abbrev board : ClientDevice
board = record { id = 2; device = without; version = 0; to_tell = false; ended = false }

abbrev answers : ℕ → ℕ → ℕ × Outcome ℕ Status
answers id w = (w, ok id)

not_there :
    on_volume answers board "flash" 1 ≡ (1, err (unavailable "Volume currently not available"))
unfolding on_volume volume_id
not_there = refl

console_called : on_console answers board "uart" 1 ≡ (1, ok 4)
unfolding on_console console_id
console_called = refl

named :
    by_name
      (ok (record { id = 2; name = "board"; instance_name = none } ∷ []))
      (λ id. ok (ok without ∷ ok with_flash ∷ []))
      "board"
    ≡ ok (some (board, ok with_flash ∷ []))
unfolding by_name new
named = refl

-- The update is stored while the waiter looks for a change, and told later.
abbrev turns : List Step
turns = looks ∷ stores (some (ok with_flash)) ∷ polls ∷ tells ∷ []

still_waits : (steps (volume_available "flash") (board, start_wait board) turns).1 ≡ awaiting 0
unfolding steps step store_update tell_update look poll_changed start_wait volume_available
    volume_id
still_waits = refl

wait_arrives_example :
    (steps
      (volume_available "flash")
      (steps (volume_available "flash") (board, start_wait board) turns)
      (looks ∷ polls ∷ looks ∷ [])).1
    ≡ arrived
unfolding steps step store_update tell_update look poll_changed start_wait volume_available
    volume_id
wait_arrives_example = wait_arrives (volume_available "flash") board turns refl refl

abbrev lost : ClientDevice
lost = record board { ended = true }

wait_never_returns_example :
    (steps (volume_available "flash") (lost, start_wait lost) turns).1 ≢ arrived
unfolding volume_available volume_id
wait_never_returns_example = wait_never_returns (volume_available "flash") lost turns refl refl refl

abbrev boards : Registry ℕ
boards = (add Store.new (Properties.new "board") 5).1

boards-IsValid : IsValid boards
unfolding Store.new
boards-IsValid = add-IsValid Store.new (Properties.new "board") 5 new-IsValid (omega arith)

abbrev shows : ℕ → Outcome (List (Outcome DeviceView Status)) Status
shows id = ok (ok without ∷ [])

by_name-Opens_example :
    Opens (lookup boards) shows "board" (by_name (ok (to_item_list boards)) shows "board")
by_name-Opens_example = by_name-Opens boards shows "board" boards-IsValid
