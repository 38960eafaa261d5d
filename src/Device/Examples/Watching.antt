-- ===== src/Device/Examples/Watching.antt =====
-- Runs of a client that watches the board.
use boardswarm.Prelude.{
  ℕ, ◌+◌, ◌-◌, ◌≤◌, ◌<◌, ◌⊎◌, inl, inr, ◌==◌, nat_eq, leb, if◌then◌else◌, Bool-cases, ◌≡◌, refl,
  none, some, List, [], ◌∷◌, arith,
}
use boardswarm.Registry.Store.{lookup, add}
use boardswarm.Registry.Store
use boardswarm.Server.Items
use boardswarm.Device.Monitor.{Device, from_config}
use boardswarm.Device.Modes.{set_mode, switch_to, find_mode, depends_met, run_steps}
use boardswarm.Device.Watching.{
  Recv, received, lagged, waiting, view, Moment, changes, switches, polls, Watched, at_moments,
}
use boardswarm.Device.Convergence.{IsBroadcast, drain, watcher_converges}
use boardswarm.Device.Unseen.{broken_switch_untold}
use boardswarm.Device.Examples.{
  World, board, configure, uart_added, server_of, actuate, sleep, start,
}

-- A channel that keeps one value.
abbrev one_value : ℕ → ℕ → Recv
one_value seen sent =
    if leb sent seen then waiting else if sent == seen + 1 then received sent else lagged (sent - 1)

one_value-IsBroadcast : IsBroadcast one_value
one_value-IsBroadcast = record { quiet = λ seen sent h. ground arith; news = one_value_news }
  where
    one_value_news :
        (seen sent : ℕ)
        → seen < sent
        → ((k : ℕ) × (one_value seen sent ≡ received k) × (seen < k) × (k ≤ sent))
          ⊎ ((k : ℕ) × (one_value seen sent ≡ lagged k) × (seen < k) × (k < sent))
    one_value_news seen sent h = elim (Bool-cases (sent == seen + 1)) [
      | inl next ↦ inl (sent, ground (arith, next), h, omega arith)
      | inr far ↦ inr (sent - 1, ground (arith, far), ground (arith, far), omega (arith, h))
    ]

-- The mode is switched between two polls, and a console appears.
abbrev moments : List (Moment ℕ)
moments = polls ∷ switches "off" ∷ changes Items.new uart_added ∷ polls ∷ []

abbrev watched : Watched ℕ World
watched = record {
  device = board;
  world = start;
  watcher = record { seen = 0; shown = view board };
}

watcher_converges_example :
    let x' = at_moments one_value configure server_of actuate sleep watched moments in
    (drain one_value (x'.device.notified - x'.watcher.seen) x'.watcher x'.device).shown
    ≡ view x'.device
unfolding at_moments set_mode switch_to from_config find_mode depends_met run_steps
watcher_converges_example =
    watcher_converges one_value configure server_of actuate sleep watched moments
      one_value-IsBroadcast (tt, ((λ e. cc), (tt, (tt, tt)))) (omega arith, λ e. refl)

-- No relay is registered.
abbrev switched : Device ℕ
switched = record board { current_mode = some "off" }

broken_switch_untold_example :
    let d' = (set_mode server_of actuate sleep switched "on" start).device in
    ((view d').current_mode ≡ none)
    × (drain one_value 3 (record { seen = 0; shown = view switched }) d'
        ≡ record { seen = 0; shown = view switched })
unfolding set_mode switch_to from_config find_mode depends_met run_steps Items.find_actuator
    Store.find Items.new Store.new
broken_switch_untold_example =
    broken_switch_untold one_value server_of actuate sleep switched "on" start 3
      (record { seen = 0; shown = view switched }) one_value-IsBroadcast refl refl
