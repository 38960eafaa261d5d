-- ===== src/Rockusb/Opening.antt =====
-- The targets that a device lists, and those that it opens.
use boardswarm.Prelude.{
  ◌≡◌, ◌≢◌, ◌↔◌, refl, sym, ap, ◌∙◌, none, some, String, ◌==◌, string_eq, arith, eq_iff,
  if◌then◌else◌, Outcome, ok, err, Bool-cases, Option-cases, inl, inr,
}
use boardswarm.VolumeIo.Replies.{unknown_target_requested, VolumeTargetInfo}
use boardswarm.Rockusb.Device.{
  RockUsbError, commands_send, commands_recv, rock_usb, device_unavailable, RockUsbMode, mask_rom,
  loader, RockusbCrate, command, open_io, volume_error_of,
}
use boardswarm.Rockusb.Targets.{
  Rockusb, targets_of, find_info, open_volume, open_in_mode, opened_loader,
}

volume_error_known :
    (text : RockUsbError → String) (e : RockUsbError)
    → volume_error_of text e ≢ unknown_target_requested
unfolding volume_error_of
volume_error_known text commands_send h = cc
volume_error_known text (commands_recv x) h = cc
volume_error_known text (rock_usb x) h = cc
volume_error_known text (device_unavailable x) h = cc

opened_loader_known :
    {W A : Type 0} (text : RockUsbError → String) (info : VolumeTargetInfo)
    (r : W × Outcome A RockUsbError)
    → (opened_loader (volume_error_of text) info r).1 ≢ err unknown_target_requested
opened_loader_known text info (w, ok a) h = cc
opened_loader_known text info (w, err e) h = volume_error_known text e (cc)

-- A device, as `Rockusb::new` makes it.
abbrev pub device_in : RockUsbMode → Rockusb
device_in mode = record { targets = targets_of mode; mode = mode }

module _ {W : Type 0} (usb : RockusbCrate W) (text : RockUsbError → String) where
  listed_opens :
      (w : W) (mode : RockUsbMode) (target : String) (info : VolumeTargetInfo)
      → find_info (targets_of mode) target ≡ some info
      → (open_in_mode usb text w mode info target).1 ≢ err unknown_target_requested
  unfolding find_info targets_of open_in_mode
  listed_opens w mask_rom target info e h =
      ground
        (arith, eq_iff "471" target, eq_iff target "471", eq_iff "472" target, eq_iff target "472")
  listed_opens w (loader name size) target info e h = elim (Bool-cases (name == target)) [
    | inl listed ↦ opened_loader_known text info (command usb w (open_io usb)) (
        ap
          (λ b.
            (if b
              then opened_loader (volume_error_of text) info (command usb w (open_io usb))
              else (w, err unknown_target_requested)).1)
          (sym listed)
        ∙ h)
    | inr other ↦ ground (arith, e, other)
  ]

  listed_lem :
      (w : W) (mode : RockUsbMode) (target : String) (info : VolumeTargetInfo)
      → find_info (targets_of mode) target ≡ some info
      → open_volume usb text w (device_in mode) target ≡ open_in_mode usb text w mode info target
  unfolding open_volume
  listed_lem w mode target info e = rw (e, open_volume) refl

  unlisted_lem :
      (w : W) (mode : RockUsbMode) (target : String)
      → find_info (targets_of mode) target ≡ none
      → open_volume usb text w (device_in mode) target ≡ (w, err unknown_target_requested)
  unfolding open_volume
  unlisted_lem w mode target e = rw (e, open_volume) refl

  -- Opening a target of a rockusb device is refused as unknown exactly when the device does not
  -- list it, in either mode and however the device behaves.
  pub unlisted_refused :
      (w : W) (mode : RockUsbMode) (target : String)
      → ((open_volume usb text w (device_in mode) target).1 ≡ err unknown_target_requested)
        ↔ (find_info (targets_of mode) target ≡ none)
  unlisted_refused w mode target = (
    λ h. elim (Option-cases (find_info (targets_of mode) target)) [
      | inl e ↦ e
      | inr (info, e) ↦ absurd (
          listed_opens w mode target info e
            (ap (λ o. o.1) (sym (listed_lem w mode target info e)) ∙ h))
    ],
    λ e. ap (λ o. o.1) (unlisted_lem w mode target e),
  )
