-- ===== src/Dfu/Device.antt =====
-- `DfuData` of boardswarm/src/dfu.rs: the interfaces of a device in DFU mode. What nusb tells of the device is
-- a parameter.
use boardswarm.Prelude.{
  ℕ, Bool, false, Option, none, some, List, [], ◌∷◌, ◌++◌, String, Outcome, ok, err, ◌==◌, nat_eq,
  string_eq, if◌then◌else◌, ◌>>=◌,
}
use boardswarm.Collections.HashMap
use boardswarm.Collections.HashMap.{HashMap}

pub record DfuInterface : Type 0 where
  pub interface : ℕ
  pub alt : ℕ

-- One alternate setting, as nusb describes it.
pub record AltSetting : Type 0 where
  pub interface_number : ℕ
  pub alternate_setting : ℕ
  pub class : ℕ
  pub subclass : ℕ
  pub protocol : ℕ
  pub string_index : Option ℕ

-- An opened device: its configurations, of interfaces, of alternate settings, and its strings.
pub record UsbDevice : Type 0 where
  pub configurations : List (List (List AltSetting))
  pub supported_languages : Outcome (List ℕ) String
  pub string_descriptor : ℕ → ℕ → Outcome String String
  pub us_english : ℕ

abbrev pub concat : {A : Type 0} → List (List A) → List A
concat [] = []
concat (l ∷ ls) = l ++ concat ls

-- What the three loops of `setup_device` go through.
abbrev pub alt_settings : UsbDevice → List AltSetting
alt_settings u = concat (concat u.configurations)

abbrev pub first_or : ℕ → List ℕ → ℕ
first_or n [] = n
first_or n (m ∷ ms) = m

-- The class of DFU, in its DFU mode.
abbrev pub in_dfu_mode : AltSetting → Bool
in_dfu_mode a =
    if a.class == 0xfe then (if a.subclass == 0x1 then a.protocol == 0x2 else false) else false

abbrev pub with_name :
    HashMap String DfuInterface → AltSetting → Option String → HashMap String DfuInterface
with_name m a none = m
with_name m a (some name) =
    HashMap.insert m name (record { interface = a.interface_number; alt = a.alternate_setting })

module _ (u : UsbDevice) where
  -- The string of an alternate setting; without one it is not listed.
  unfoldable pub descriptor : AltSetting → Outcome (Option String) String
  descriptor a = elim a.string_index [
    | none ↦ ok none
    | some s_i ↦ do
      languages ← u.supported_languages
      name ← u.string_descriptor s_i (first_or u.us_english languages)
      ok (some name)
  ]

  -- One alternate setting, and the loop.
  unfoldable pub add_alt :
      HashMap String DfuInterface → AltSetting → Outcome (HashMap String DfuInterface) String
  unfolding descriptor
  add_alt m a =
      if in_dfu_mode a
      then (elim (descriptor a) [ err e ↦ err e | ok name ↦ ok (with_name m a name) ])
      else ok m

  unfoldable pub setup_interfaces :
      HashMap String DfuInterface → List AltSetting → Outcome (HashMap String DfuInterface) String
  unfolding add_alt
  setup_interfaces m [] = ok m
  setup_interfaces m (a ∷ more) = do m' ← add_alt m a; setup_interfaces m' more

-- `setup_device`, of what finding and opening the device gives.
unfoldable pub setup_device :
    Outcome UsbDevice String → Outcome (HashMap String DfuInterface) String
unfolding setup_interfaces
setup_device (err e) = err e
setup_device (ok u) = setup_interfaces u [] (alt_settings u)
