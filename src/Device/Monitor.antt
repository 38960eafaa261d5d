-- ===== src/Device/Monitor.antt =====
-- `Device` of boardswarm/src/config_device.rs: its state, and `monitor_items`, which keeps the ids
-- of its items. `H` stands for the shared handles, `configure` for `Console::configure` on the
-- outside world `W`; whether it fails is only logged.
use boardswarm.Prelude.{
  ℕ, ◌+◌, Bool, true, false, ◌||◌, Option, none, some, List, [], ◌∷◌, map, String, if◌then◌else◌,
  is_some, Outcome, ok, err,
}
use boardswarm.Registry.Properties.{Item}
use boardswarm.Registry.Store.{RegistryChange, added}
use boardswarm.Server.Items.{Server}
use boardswarm.Device.Config.{
  ConsoleConfig, VolumeConfig, ModeStep, ModeConfig, DeviceConfig, console_item, volume_item,
  mode_item,
}
use boardswarm.Device.Items.{DeviceItem, new, get, change_with, add_contents}

pub record DeviceMode (P : Type 0) : Type 0 where
  pub name : String
  pub depends : Option String
  pub sequence : List (DeviceItem (ModeStep P))

pub record Device (P : Type 0) : Type 0 where
  pub name : String
  pub current_mode : Option String
  pub consoles : List (DeviceItem (ConsoleConfig P))
  pub volumes : List (DeviceItem VolumeConfig)
  pub modes : List (DeviceMode P)
  -- how often the watchers were told of a change
  pub notified : ℕ

-- A `crate::DeviceConsole` or `crate::DeviceVolume`, and a `crate::DeviceMode`.
pub record ItemView : Type 0 where
  pub name : String
  pub id : Option ℕ

pub record ModeView : Type 0 where
  pub name : String
  pub depends : Option String
  pub available : Bool

abbrev all_set : {C : Type 0} → List (DeviceItem C) → Bool
all_set [] = true
all_set (i ∷ is) = if is_some i.id then all_set is else false

module _ {P : Type 0} where
  unfoldable pub from_mode : ModeConfig P → DeviceMode P
  from_mode config = record {
    name = config.name;
    depends = config.depends;
    sequence = map new config.sequence;
  }

  unfoldable pub from_config : DeviceConfig P → Device P
  unfolding from_mode
  from_config config = record {
    name = config.name;
    current_mode = none;
    consoles = map new config.consoles;
    volumes = map new config.volumes;
    modes = map from_mode config.modes;
    notified = 0;
  }

  unfoldable pub notify : Device P → Device P
  notify d = record d { notified = d.notified + 1 }

  unfoldable pub consoles : Device P → List ItemView
  consoles d = map (λ c. record { name = c.config.name; id = get c }) d.consoles

  unfoldable pub volumes : Device P → List ItemView
  volumes d = map (λ v. record { name = v.config.name; id = get v }) d.volumes

  unfoldable pub modes : Device P → List ModeView
  modes d =
      map (λ m. record { name = m.name; depends = m.depends; available = all_set m.sequence })
        d.modes

-- What a receiver gives to the loop: a change, or the error that changes were missed.
pub data Message (H : Type 0) : Type 0 where
  console_msg actuator_msg volume_msg : Outcome (RegistryChange H) (Unit {0}) → Message H

-- The closure of `add_item` and of `change`.
abbrev pub no_setup : {C H : Type 0} → C → H → Unit {0} → Unit {0}
no_setup _ _ w = w

-- `modes.iter().flat_map(|m| m.sequence.iter())`: one flag for all steps of all modes.
module _ {P H : Type 0} where
  unfoldable pub change_modes :
      Bool → List (DeviceMode P) → RegistryChange H → Bool × List (DeviceMode P)
  change_modes changed [] e = (changed, [])
  change_modes changed (m ∷ ms) e =
      let one = change_with no_setup m.sequence e tt in
      let (flag, rest) = change_modes (one.changed || changed) ms e in
      (flag, record m { sequence = one.items } ∷ rest)

  unfoldable pub add_contents_modes :
      Bool → List (DeviceMode P) → List (ℕ × Item H) → Bool × List (DeviceMode P)
  unfolding change_modes
  add_contents_modes changed ms [] = (changed, ms)
  add_contents_modes changed ms ((id, item) ∷ rest) =
      let (flag, ms') = change_modes false ms (added id item) in
      add_contents_modes (changed || flag) ms' rest

module _ {P H W : Type 0} (configure : H → P → W → W) where
  abbrev pub setup_console : ConsoleConfig P → H → W → W
  setup_console config console w = configure console config.parameters w

  -- `monitor_items` up to its loop: the contents of the three registries.
  unfoldable pub resync : Server H → Device P → W → Device P × W
  unfolding add_contents_modes notify
  resync s d w =
      let (flag, ms) = add_contents_modes false d.modes s.actuators.contents in
      let cs = add_contents setup_console flag d.consoles s.consoles.contents w in
      let vs = add_contents no_setup cs.changed d.volumes s.volumes.contents tt in
      let d' : Device P = record d { modes = ms; consoles = cs.items; volumes = vs.items } in
      (if vs.changed then notify d' else d', cs.world)

  -- One round of the loop; `none` is its `return`.
  unfoldable pub on_message : Device P → W → Message H → Option (Device P × W)
  unfolding change_modes notify
  on_message d w (console_msg (ok e)) =
      let r = change_with setup_console d.consoles e w in
      let d' : Device P = record d { consoles = r.items } in
      some (if r.changed then notify d' else d', r.world)
  on_message d w (actuator_msg (ok e)) =
      let (changed, ms) = change_modes false d.modes e in
      let d' : Device P = record d { modes = ms } in some (if changed then notify d' else d', w)
  on_message d w (volume_msg (ok e)) =
      let r = change_with no_setup d.volumes e tt in
      let d' : Device P = record d { volumes = r.items } in
      some (if r.changed then notify d' else d', w)
  on_message d w (console_msg (err _)) = none
  on_message d w (actuator_msg (err _)) = none
  on_message d w (volume_msg (err _)) = none

  -- The spawned task: after a lag it starts over from the contents that the server has then.
  unfoldable pub on_message_or_resync : Server H → Device P → W → Message H → Device P × W
  unfolding on_message resync
  on_message_or_resync s d w m = elim (on_message d w m) [ none ↦ resync s d w | some r ↦ r ]
