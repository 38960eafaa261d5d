-- ===== src/Rockusb/Device.antt =====
-- The errors, the task and the commands of boardswarm/src/rockusb.rs. The device, through the rockusb
-- crate, and the channels to its task are the state `W`; a command is not sent once the task is gone,
-- and is not answered when the task ends with it.
use boardswarm.Prelude.{ℕ, String, Bytes, Outcome, ok, err, map_err}
use boardswarm.Status.{Status, internal, aborted, unavailable}
use boardswarm.VolumeIo.Replies.{VolumeError, internal_error, failure}

-- `rock_usb` and `device_unavailable` have the crate's error, `commands_recv` the channel's.
pub data RockUsbError : Type 0 where
  commands_send : RockUsbError
  commands_recv rock_usb device_unavailable : String → RockUsbError

pub data RockUsbMode : Type 0 where
  mask_rom : RockUsbMode
  -- The name of the flash and its size.
  loader : String → ℕ → RockUsbMode

pub data Reach : Type 0 where
  reached task_gone : Reach
  task_ended : String → Reach

-- What the rockusb crate does with the device, and whether the next command reaches the task. The
-- errors of input and output are texts.
pub record RockusbCrate (W : Type 0) : Type 0 where
  pub reach : W → Reach
  pub open_device : W → W × Outcome (Unit {0}) String
  pub flash_info : W → W × Outcome ℕ String
  -- Trimmed at its end.
  pub flash_id : W → W × Outcome String String
  pub write_maskrom_area : W → ℕ → Bytes → W × Outcome (Unit {0}) String
  pub into_io : W → W × Outcome (Unit {0}) String
  pub seek : W → ℕ → W × Outcome ℕ String
  pub write_all : W → Bytes → W × Outcome (Unit {0}) String
  -- The bytes read into a buffer of that length.
  pub read : W → ℕ → W × Outcome Bytes String
  pub flush : W → W × Outcome (Unit {0}) String

-- `to_string()` of an error is the `text`.
module _ (text : RockUsbError → String) where
  unfoldable pub status_of_error : RockUsbError → Status
  status_of_error commands_send = internal (text commands_send)
  status_of_error (commands_recv e) = internal (text (commands_recv e))
  status_of_error (rock_usb e) = aborted (text (rock_usb e))
  status_of_error (device_unavailable e) = unavailable (text (device_unavailable e))

  unfoldable pub volume_error_of : RockUsbError → VolumeError
  volume_error_of commands_send = internal_error (text commands_send)
  volume_error_of (commands_recv e) = internal_error (text (commands_recv e))
  volume_error_of (device_unavailable e) = failure (text (device_unavailable e))
  volume_error_of (rock_usb e) = failure (text (rock_usb e))

-- The second step of two, where the first did not fail.
abbrev pub and_then :
    {W A B E : Type 0} → W × Outcome A E → (W → A → W × Outcome B E) → W × Outcome B E
and_then (w, ok a) k = k w a
and_then (w, err e) k = (w, err e)

abbrev pub with_error : {W A E F : Type 0} → (E → F) → W × Outcome A E → W × Outcome A F
with_error f (w, r) = (w, map_err f r)

module _ {W : Type 0} (usb : RockusbCrate W) where
  unfoldable pub open_device : W → W × Outcome (Unit {0}) RockUsbError
  open_device w = with_error device_unavailable (usb.open_device w)

  -- A command to the task, and what its branch of `rockusb_task` does.
  unfoldable pub command :
      {A : Type 0} → W → (W → W × Outcome A RockUsbError) → W × Outcome A RockUsbError
  command w branch = elim (usb.reach w) [
    | reached ↦ branch w
    | task_gone ↦ (w, err commands_send)
    | task_ended e ↦ (w, err (commands_recv e))
  ]

  abbrev pub mode_found : ℕ → W × Outcome String String → W × Outcome RockUsbMode RockUsbError
  mode_found size (w, ok name) = (w, ok (loader name size))
  mode_found size (w, err e) = (w, ok (loader "unknown" size))

  abbrev pub mode_asked : W × Outcome ℕ String → W × Outcome RockUsbMode RockUsbError
  mode_asked (w, ok size) = mode_found size (usb.flash_id w)
  mode_asked (w, err e) = (w, ok mask_rom)

  unfoldable pub determine_mode : W → W × Outcome RockUsbMode RockUsbError
  unfolding open_device
  determine_mode w = and_then (open_device w) (λ w' _. mode_asked (usb.flash_info w'))

  unfoldable pub write_maskrom_area : W → ℕ → Bytes → W × Outcome (Unit {0}) RockUsbError
  unfolding open_device
  write_maskrom_area w area data_ =
      and_then (open_device w) (λ w' _. with_error rock_usb (usb.write_maskrom_area w' area data_))

  -- `handle_io` up to its loop.
  unfoldable pub open_io : W → W × Outcome (Unit {0}) RockUsbError
  unfolding open_device
  open_io w = and_then (open_device w) (λ w' _. with_error rock_usb (usb.into_io w'))

  -- The operations of `handle_io`, as its loop does them.
  unfoldable pub handle_write : W → Bytes → ℕ → W × Outcome (Unit {0}) String
  handle_write w data_ offset = and_then (usb.seek w offset) (λ w' _. usb.write_all w' data_)

  unfoldable pub handle_read : W → ℕ → ℕ → W × Outcome Bytes String
  handle_read w length offset = and_then (usb.seek w offset) (λ w' _. usb.read w' length)

  -- An operation of an open target, whose own error is its status.
  unfoldable pub operation :
      {A : Type 0} → (RockUsbError → String) → W → (W → W × Outcome A String) → W × Outcome A Status
  unfolding status_of_error
  operation text w branch = elim (usb.reach w) [
    | reached ↦ with_error aborted (branch w)
    | task_gone ↦ (w, err (status_of_error text commands_send))
    | task_ended e ↦ (w, err (status_of_error text (commands_recv e)))
  ]
