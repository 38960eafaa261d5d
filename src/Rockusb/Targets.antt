-- ===== src/Rockusb/Targets.antt =====
-- `Rockusb`, `RockUsbMaskromTarget` and `RockUsbTarget` of boardswarm/src/rockusb.rs.
use boardswarm.Prelude.{
  ℕ, ◌+◌, ◌-◌, ◌*◌, true, false, not, Option, none, some, List, [], ◌∷◌, ◌++◌, String, ◌==◌,
  string_eq, nat_eq, Bytes, Outcome, ok, err, map_err, length, ltb, if◌then◌else◌,
}
use boardswarm.Status.{Status, out_of_range}
use boardswarm.VolumeIo.Replies.{
  VolumeError, unknown_target_requested, VolumeTargetInfo, VolumeTarget, read_default,
  flush_default, shutdown_default,
}
use boardswarm.Rockusb.Device.{
  RockUsbError, commands_send, commands_recv, rock_usb, device_unavailable, RockUsbMode, mask_rom,
  loader, RockusbCrate, status_of_error, volume_error_of, command, determine_mode,
  write_maskrom_area, open_io, handle_write, handle_read, operation,
}

pub record Rockusb : Type 0 where
  pub targets : List VolumeTargetInfo
  pub mode : RockUsbMode

abbrev pub maskrom_info : String → VolumeTargetInfo
maskrom_info name = record {
  name = name;
  readable = false;
  writable = true;
  seekable = false;
  size = none;
  blocksize = none;
}

unfoldable pub targets_of : RockUsbMode → List VolumeTargetInfo
targets_of mask_rom = maskrom_info "471" ∷ maskrom_info "472" ∷ []
targets_of (loader name size) =
    record {
      name = name;
      readable = true;
      writable = true;
      seekable = true;
      size = some size;
      blocksize = some 512;
    }
    ∷ []

-- `capacity` is that of the `BytesMut`.
pub record MaskromTarget : Type 0 where
  pub area : ℕ
  pub data_ : Bytes
  pub capacity : ℕ

unfoldable pub new_maskrom : ℕ → MaskromTarget
new_maskrom area = record { area = area; data_ = []; capacity = 1024 * 1024 }

pub data RockusbTarget : Type 0 where
  maskrom_target : MaskromTarget → RockusbTarget
  loader_target : RockusbTarget

unfoldable pub maskrom_write : MaskromTarget → Bytes → ℕ → MaskromTarget × Outcome ℕ Status
maskrom_write t b offset =
    if not (offset == length t.data_)
    then (t, err (out_of_range "Invalid offset"))
    else if ltb t.capacity (length b + length t.data_)
    then (t, err (out_of_range "No more capacity"))
    else (record t { data_ = t.data_ ++ b }, ok (length b))

unfoldable pub find_info : List VolumeTargetInfo → String → Option VolumeTargetInfo
find_info [] target = none
find_info (t ∷ ts) target = if t.name == target then some t else find_info ts target

abbrev pub described :
    {W : Type 0} → W × Outcome RockUsbMode RockUsbError → W × Outcome Rockusb RockUsbError
described (w, ok mode) = (w, ok (record { targets = targets_of mode; mode = mode }))
described (w, err e) = (w, err e)

-- `split` leaves the rest of the capacity; the new `BytesMut`, once the command is sent, has none.
abbrev pub capacity_after : {A : Type 0} → MaskromTarget → Outcome A RockUsbError → ℕ
capacity_after t (err commands_send) = t.capacity - length t.data_
capacity_after t (err (commands_recv e)) = 0
capacity_after t (err (rock_usb e)) = 0
capacity_after t (err (device_unavailable e)) = 0
capacity_after t (ok a) = 0

module _ {W : Type 0} (usb : RockusbCrate W) where
  unfoldable pub new : W → W × Outcome Rockusb RockUsbError
  unfolding command determine_mode targets_of
  new w = described (command usb w (determine_mode usb))

  unfoldable pub maskrom_shutdown :
      W → MaskromTarget → (W × MaskromTarget) × Outcome (Unit {0}) RockUsbError
  unfolding command write_maskrom_area
  maskrom_shutdown w t =
      let (w', r) = command usb w (λ w. write_maskrom_area usb w t.area t.data_) in
      ((w', record t { data_ = []; capacity = capacity_after t r }), r)

-- `e` is the text of an operation's error.
abbrev pub written_length : {W A E : Type 0} → Bytes → W × Outcome A E → W × Outcome ℕ E
written_length b (w, ok a) = (w, ok (length b))
written_length b (w, err e) = (w, err e)

-- What `open` makes of a task's answer.
abbrev pub opened_loader :
    {W A : Type 0}
    → (RockUsbError → VolumeError)
    → VolumeTargetInfo
    → W × Outcome A RockUsbError
    → W × Outcome (VolumeTargetInfo × RockusbTarget) VolumeError
opened_loader f info (w, ok a) = (w, ok (info, loader_target))
opened_loader f info (w, err e) = (w, err (f e))

module _ {W : Type 0} (usb : RockusbCrate W) (text : RockUsbError → String) where
  -- `RockUsbMaskromTarget` as a target.
  unfoldable pub maskrom_volume_target : VolumeTarget (W × MaskromTarget)
  unfolding read_default maskrom_write flush_default maskrom_shutdown status_of_error
  maskrom_volume_target = record {
    read = read_default;
    write = λ s b offset. let (t, r) = maskrom_write s.1 b offset in ((s.0, t), some r);
    flush = flush_default;
    shutdown = λ s.
        let (s', r) = maskrom_shutdown usb s.0 s.1 in (s', some (map_err (status_of_error text) r));
  }

  -- The functions `do_read`, `do_write` and `do_flush`.
  unfoldable pub do_read : W → ℕ → ℕ → W × Outcome Bytes Status
  unfolding operation handle_read
  do_read w length offset = operation usb text w (λ w. handle_read usb w length offset)

  unfoldable pub do_write : W → Bytes → ℕ → W × Outcome ℕ Status
  unfolding operation handle_write
  do_write w b offset = written_length b (operation usb text w (λ w. handle_write usb w b offset))

  unfoldable pub do_flush : W → W × Outcome (Unit {0}) Status
  unfolding operation
  do_flush w = operation usb text w usb.flush

  -- `RockUsbTarget` as a target.
  unfoldable pub loader_volume_target : VolumeTarget W
  unfolding do_read do_write do_flush shutdown_default
  loader_volume_target = record {
    read = λ w length offset. let (w', r) = do_read w length offset in (w', some r);
    write = λ w b offset. let (w', r) = do_write w b offset in (w', some r);
    flush = λ w. let (w', r) = do_flush w in (w', some r);
    shutdown = shutdown_default (λ w. let (w', r) = do_flush w in (w', some r));
  }

  -- The target that `open` finds, by the mode.
  unfoldable pub open_in_mode :
      W
      → RockUsbMode
      → VolumeTargetInfo
      → String
      → W × Outcome (VolumeTargetInfo × RockusbTarget) VolumeError
  unfolding new_maskrom command open_io volume_error_of
  open_in_mode w mask_rom info target =
      if target == "471"
      then (w, ok (info, maskrom_target (new_maskrom 0x471)))
      else if target == "472"
      then (w, ok (info, maskrom_target (new_maskrom 0x472)))
      else (w, err unknown_target_requested)
  open_in_mode w (loader name size) info target =
      if name == target
      then opened_loader (volume_error_of text) info (command usb w (open_io usb))
      else (w, err unknown_target_requested)

  unfoldable pub open_volume :
      W → Rockusb → String → W × Outcome (VolumeTargetInfo × RockusbTarget) VolumeError
  unfolding find_info open_in_mode
  open_volume w r target = elim (find_info r.targets target) [
    | none ↦ (w, err unknown_target_requested)
    | some info ↦ open_in_mode w r.mode info target
  ]
