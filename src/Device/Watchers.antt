-- ===== src/Device/Watchers.antt =====
-- What a client that watches a device sees of it.
use boardswarm.Prelude.{
  ℕ, ◌≤◌, ◌≡◌, refl, sym, ap, ◌∙◌, Bool, true, false, ◌||◌, List, [], ◌∷◌, map, arith, string_eq,
  nat_eq, ok, err, if◌then◌else◌,
}
use boardswarm.Registry.Properties.{Item}
use boardswarm.Registry.Store.{RegistryChange, added, removed}
use boardswarm.Server.Items.{Server}
use boardswarm.Device.Config.{DeviceConfigItem, console_item, volume_item, mode_item}
use boardswarm.Device.Items.{
  DeviceItem, set_if_matches, unset_if_matches, add_item_with, change_with, add_contents,
}
use boardswarm.Device.Following.{follow, touches, any, change_with-items, add_item_with-items}
use boardswarm.Device.Monitor.{
  Device, DeviceMode, Message, console_msg, actuator_msg, volume_msg, no_setup, change_modes,
  add_contents_modes, setup_console, notify, resync, on_message, on_message_or_resync,
}
use boardswarm.Device.Delivery.{follow_mode, touches_mode, change_modes-items}
use boardswarm.Device.Watching.{view}

module _ {C T : Type 0} ⦃c : DeviceConfigItem C⦄ where
  -- A change that touches no item leaves the items as they are.
  untouched-follow :
      (i : DeviceItem C) (e : RegistryChange T) → touches e i ≡ false → follow i e ≡ i
  unfolding touches follow set_if_matches unset_if_matches
  untouched-follow i (added id item) h = ground arith
  untouched-follow i (removed id) h = ground arith

  untouched-map :
      (is : List (DeviceItem C)) (e : RegistryChange T)
      → any (touches e) is ≡ false
      → map (λ i. follow i e) is ≡ is
  untouched-map [] e h = refl
  untouched-map (i ∷ is) e h =
      cc (untouched-follow i e (ground arith), untouched-map is e (ground arith))

  module _ {W : Type 0} (f : C → T → W → W) where
    quiet-change :
        (is : List (DeviceItem C)) (e : RegistryChange T) (w : W)
        → (change_with f is e w).changed ≡ false
        → (change_with f is e w).items ≡ is
    quiet-change is e w h =
        let (items, flag) = change_with-items f is e w in items ∙ untouched-map is e (sym flag ∙ h)

    quiet-contents :
        (changed : Bool) (is : List (DeviceItem C)) (m : List (ℕ × Item T)) (w : W)
        → (add_contents f changed is m w).changed ≡ false
        → (changed ≡ false) × ((add_contents f changed is m w).items ≡ is)
    unfolding add_contents
    quiet-contents changed is [] w h = (h, refl)
    quiet-contents changed is ((id, item) ∷ m) w h =
        let one = add_item_with f false is id item w in
        let (flag, rest) = quiet-contents (changed || one.changed) one.items m one.world h in
        let (items, hit) = add_item_with-items f false is id item w in
        (
          ground (arith, flag),
          rest ∙ items ∙ untouched-map is (added id item) (ground (arith, flag, hit)),
        )

module _ {P H : Type 0} where
  untouched-modes :
      (ms : List (DeviceMode P)) (e : RegistryChange H)
      → any (touches_mode e) ms ≡ false
      → map (follow_mode e) ms ≡ ms
  untouched-modes [] e h = refl
  untouched-modes (m ∷ ms) e h =
      cc (untouched-map m.sequence e (ground arith), untouched-modes ms e (ground arith))

  quiet-modes :
      (ms : List (DeviceMode P)) (e : RegistryChange H)
      → (change_modes false ms e).0 ≡ false
      → (change_modes false ms e).1 ≡ ms
  quiet-modes ms e h =
      let (items, flag) = change_modes-items false ms e in
      items ∙ untouched-modes ms e (ground (arith, flag))

  quiet-contents_modes :
      (changed : Bool) (ms : List (DeviceMode P)) (m : List (ℕ × Item H))
      → (add_contents_modes changed ms m).0 ≡ false
      → (changed ≡ false) × ((add_contents_modes changed ms m).1 ≡ ms)
  unfolding add_contents_modes
  quiet-contents_modes changed ms [] h = (h, refl)
  quiet-contents_modes changed ms ((id, item) ∷ m) h =
      let one = change_modes false ms (added id item) in
      let (flag, rest) = quiet-contents_modes (changed || one.0) one.1 m h in
      (ground (arith, flag), rest ∙ quiet-modes ms (added id item) (ground (arith, flag)))

module _ {P : Type 0} where
  -- Where a device's view changes, its watchers are told.
  abbrev pub Tells : Device P → Device P → Type 0
  Tells d d' = (d.notified ≤ d'.notified) × (d'.notified ≡ d.notified → view d' ≡ view d)

  Tells-notice :
      (changed : Bool) (d d' : Device P)
      → d'.notified ≡ d.notified
      → (changed ≡ false → d' ≡ d)
      → Tells d (if changed then notify d' else d')
  unfolding notify
  Tells-notice true d d' same quiet = (omega (arith, same), λ e. absurd (omega (arith, e, same)))
  Tells-notice false d d' same quiet = (omega (arith, same), λ e. ap view (quiet refl))

module _ {P H W : Type 0} (configure : H → P → W → W) where
  resync-Tells : (s : Server H) (d : Device P) (w : W) → Tells d (resync configure s d w).0
  unfolding resync
  resync-Tells s d w =
      let (flag, ms) = add_contents_modes false d.modes s.actuators.contents in
      let cs = add_contents (setup_console configure) flag d.consoles s.consoles.contents w in
      let vs = add_contents no_setup cs.changed d.volumes s.volumes.contents tt in
      let quiet : vs.changed ≡ false
          → record d { modes = ms; consoles = cs.items; volumes = vs.items } ≡ d =
        λ h.
          let v = quiet-contents no_setup cs.changed d.volumes s.volumes.contents tt h in
          let c =
            quiet-contents (setup_console configure) flag d.consoles s.consoles.contents w v.0 in
          let m = quiet-contents_modes false d.modes s.actuators.contents c.0 in
          cc (v.1, c.1, m.1) in
      Tells-notice vs.changed d _ refl quiet

  pub on_message-Tells :
      (s : Server H) (d : Device P) (w : W) (m : Message H)
      → Tells d (on_message_or_resync configure s d w m).0
  unfolding on_message_or_resync on_message
  on_message-Tells s d w (console_msg (ok e)) =
      Tells-notice (change_with (setup_console configure) d.consoles e w).changed d _ refl
        (λ h. cc (quiet-change (setup_console configure) d.consoles e w h))
  on_message-Tells s d w (actuator_msg (ok e)) =
      Tells-notice (change_modes false d.modes e).0 d _ refl (λ h. cc (quiet-modes d.modes e h))
  on_message-Tells s d w (volume_msg (ok e)) =
      Tells-notice (change_with no_setup d.volumes e tt).changed d _ refl
        (λ h. cc (quiet-change no_setup d.volumes e tt h))
  on_message-Tells s d w (console_msg (err _)) = resync-Tells s d w
  on_message-Tells s d w (actuator_msg (err _)) = resync-Tells s d w
  on_message-Tells s d w (volume_msg (err _)) = resync-Tells s d w
