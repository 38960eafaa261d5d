-- ===== src/Device/Config.antt =====
-- The device part of boardswarm/src/config.rs, and what a device keeps of it in
-- boardswarm/src/config_device.rs. `P` stands for the yaml values that actuators and consoles take.
use boardswarm.Prelude.{ℕ, Bool, Option, List, String}
use boardswarm.Registry.Properties.{Properties, matches}

pub record ConsoleConfig (P : Type 0) : Type 0 where
  pub name : String
  pub parameters : P
  pub match_ : List (String × String)

pub record VolumeConfig : Type 0 where
  pub name : String
  pub match_ : List (String × String)

pub record ModeStep (P : Type 0) : Type 0 where
  pub match_ : List (String × String)
  pub parameters : P
  -- a time to wait, in milliseconds
  pub stabilisation : Option ℕ

pub record ModeConfig (P : Type 0) : Type 0 where
  pub name : String
  pub depends : Option String
  pub sequence : List (ModeStep P)

pub record DeviceConfig (P : Type 0) : Type 0 where
  pub name : String
  pub consoles : List (ConsoleConfig P)
  pub modes : List (ModeConfig P)
  pub volumes : List VolumeConfig

-- The trait `DeviceConfigItem` of boardswarm/src/main.rs, by its one method.
pub record DeviceConfigItem (C : Type 0) : Type 0 where
  pub wants : C → Properties → Bool

instance abbrev pub console_item : {P : Type 0} → DeviceConfigItem (ConsoleConfig P)
console_item = record { wants = λ c p. matches p c.match_ }

instance abbrev pub volume_item : DeviceConfigItem VolumeConfig
volume_item = record { wants = λ c p. matches p c.match_ }

instance abbrev pub mode_item : {P : Type 0} → DeviceConfigItem (ModeStep P)
mode_item = record { wants = λ c p. matches p c.match_ }
