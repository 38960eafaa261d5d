-- ===== src/Device/Delivery.antt =====
-- What a message, and a resync, do to the items of a device as a whole.
use boardswarm.Prelude.{
  ◌≡◌, refl, ◌∙◌, Bool, false, ◌||◌, Option, none, some, List, [], ◌∷◌, map, arith, if◌then◌else◌,
  ok, err,
}
use boardswarm.Registry.Store.{RegistryChange}
use boardswarm.Device.Config.{console_item, volume_item, mode_item}
use boardswarm.Device.Items.{change_with}
use boardswarm.Device.Following.{follow, touches, any, change_with-items}
use boardswarm.Device.Monitor.{
  Device, DeviceMode, Message, console_msg, actuator_msg, volume_msg, no_setup, change_modes,
  notify, on_message, setup_console,
}

module _ {P H : Type 0} where
  abbrev pub follow_mode : RegistryChange H → DeviceMode P → DeviceMode P
  follow_mode e m = record m { sequence = map (λ i. follow i e) m.sequence }

  abbrev pub touches_mode : RegistryChange H → DeviceMode P → Bool
  touches_mode e m = any (touches e) m.sequence

  pub change_modes-items :
      (changed : Bool) (ms : List (DeviceMode P)) (e : RegistryChange H)
      → ((change_modes changed ms e).1 ≡ map (follow_mode e) ms)
        × ((change_modes changed ms e).0 ≡ any (touches_mode e) ms || changed)
  unfolding change_modes
  change_modes-items changed [] e = (refl, refl)
  change_modes-items changed (m ∷ ms) e =
      let one = change_with no_setup m.sequence e tt in
      let h = change_modes-items (one.changed || changed) ms e in
      let o = change_with-items no_setup m.sequence e tt in
      (cc (h.0, o.0), h.1 ∙ ground (arith, o.1))

module _ {P : Type 0} where
  -- A device with the items that a message leaves, told to the watchers if one of them changed.
  abbrev pub with_notice : Bool → Device P → Device P
  with_notice changed d = if changed then notify d else d

  abbrev pub delivered : {H : Type 0} → Device P → Message H → Option (Device P)
  delivered d (console_msg (ok e)) = some (
      with_notice (any (touches e) d.consoles)
        (record d { consoles = map (λ i. follow i e) d.consoles }))
  delivered d (actuator_msg (ok e)) = some (
      with_notice (any (touches_mode e) d.modes) (record d { modes = map (follow_mode e) d.modes }))
  delivered d (volume_msg (ok e)) = some (
      with_notice (any (touches e) d.volumes)
        (record d { volumes = map (λ i. follow i e) d.volumes }))
  delivered d (console_msg (err _)) = none
  delivered d (actuator_msg (err _)) = none
  delivered d (volume_msg (err _)) = none

  abbrev pub device_of : {W : Type 0} → Option (Device P × W) → Option (Device P)
  device_of none = none
  device_of (some (d, w)) = some d

or_false : (b : Bool) → (b || false) ≡ b
or_false b = ground arith

module _ {P H W : Type 0} (configure : H → P → W → W) where
  -- A message reaches the items of its kind, each by itself, and no other part of the device; the
  -- watchers are told exactly when one of the items took or lost its id; and a receiver that has
  -- missed changes ends the loop.
  pub on_message_delivers :
      (d : Device P) (w : W) (m : Message H)
      → device_of (on_message configure d w m) ≡ delivered d m
  unfolding on_message
  on_message_delivers d w (console_msg (ok e)) =
      let h = change_with-items (setup_console configure) d.consoles e w in rw (h.0, h.1)
  on_message_delivers d w (actuator_msg (ok e)) =
      let h = change_modes-items false d.modes e in
      rw (h.0, h.1, or_false (any (touches_mode e) d.modes))
  on_message_delivers d w (volume_msg (ok e)) =
      let h = change_with-items no_setup d.volumes e tt in rw (h.0, h.1)
  on_message_delivers d w (console_msg (err _)) = refl
  on_message_delivers d w (actuator_msg (err _)) = refl
  on_message_delivers d w (volume_msg (err _)) = refl
