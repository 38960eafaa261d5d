-- ===== src/Device/Modes.antt =====
-- `Device::set_mode` of boardswarm/src/config_device.rs. `W` is the world outside the device, with the
-- server in it; `actuate` is an actuator's `set_mode`, which can fail, and `sleep` waits.
use boardswarm.Prelude.{
  ℕ, Bool, true, false, Option, none, some, List, [], ◌∷◌, String, ◌==◌, string_eq, if◌then◌else◌,
  Outcome, ok, err,
}
use boardswarm.Server.Items.{Server, find_actuator}
use boardswarm.Device.Config.{ModeStep}
use boardswarm.Device.Items.{DeviceItem}
use boardswarm.Device.Monitor.{Device, DeviceMode, notify}

pub data DeviceSetModeError : Type 0 where
  mode_not_found wrong_current_mode actuator_failed : DeviceSetModeError

module _ {P : Type 0} where
  unfoldable pub find_mode : List (DeviceMode P) → String → Option (DeviceMode P)
  find_mode [] mode = none
  find_mode (m ∷ ms) mode = if m.name == mode then some m else find_mode ms mode

  -- The dependency holds: none is asked for, or it is the current mode.
  unfoldable pub depends_met : DeviceMode P → Option String → Bool
  depends_met target current = elim target.depends [
    | none ↦ true
    | some depend ↦ elim current [ none ↦ false | some now ↦ now == depend ]
  ]

pub record SetMode (P W : Type 0) : Type 0 where
  pub device : Device P
  pub world : W
  pub result : Outcome (Unit {0}) DeviceSetModeError

-- `if let Some(duration) = step.stabilisation`
abbrev pub settled : {W : Type 0} → (ℕ → W → W) → Option ℕ → W → W
settled sleep none w = w
settled sleep (some duration) w = sleep duration w

module _ {P H W : Type 0} (server_of : W → Server H) (actuate : H → P → W → W × Bool)
    (sleep : ℕ → W → W) where
  unfoldable pub run_step : ModeStep P → W → W × Bool
  run_step step w = elim (find_actuator (server_of w) step.match_) [
    | none ↦ (w, false)
    | some provider ↦
        let (w', fine) = actuate provider step.parameters w in
        if fine then (settled sleep step.stabilisation w', true) else (w', false)
  ]

  unfoldable pub run_steps : List (DeviceItem (ModeStep P)) → W → W × Bool
  unfolding run_step
  run_steps [] w = (w, true)
  run_steps (i ∷ is) w =
      let (w', fine) = run_step i.config w in
      let later = run_steps is w' in if fine then later else (w', false)

  -- The block that clears the current mode, and what follows it.
  unfoldable pub switch_to : Device P → DeviceMode P → String → W → SetMode P W
  unfolding run_steps notify
  switch_to d target mode w =
      let (w', fine) = run_steps target.sequence w in
      let cleared : Device P = record d { current_mode = none } in
      if fine
      then record {
        device = notify (record cleared { current_mode = some mode });
        world = w';
        result = ok tt;
      }
      else record { device = cleared; world = w'; result = err actuator_failed }

  unfoldable pub set_mode : Device P → String → W → SetMode P W
  unfolding find_mode depends_met switch_to
  set_mode d mode w = elim (find_mode d.modes mode) [
    | none ↦ record { device = d; world = w; result = err mode_not_found }
    | some target ↦
        if depends_met target d.current_mode
        then switch_to d target mode w
        else record { device = d; world = w; result = err wrong_current_mode }
  ]
