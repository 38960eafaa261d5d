-- ===== src/Rockusb/Examples.antt =====
-- Runs with a device that keeps what is written to it, at concrete inputs.
use boardswarm.Prelude.{ℕ, ◌≡◌, refl, List, [], ◌∷◌, ◌++◌, String, Bytes, arith, ok, err, take}
use boardswarm.VolumeIo.Serve.{serve}
use boardswarm.Rockusb.Device.{
  RockUsbError, commands_send, commands_recv, rock_usb, device_unavailable, reached, RockusbCrate,
}
use boardswarm.Rockusb.Targets.{MaskromTarget, new_maskrom, maskrom_volume_target, maskrom_write}
use boardswarm.Rockusb.Blob.{blob_requests, blob_replies, blob_reaches_device, write_all}

abbrev board : RockusbCrate Bytes
board = record {
  reach = λ w. reached;
  open_device = λ w. (w, ok tt);
  flash_info = λ w. (w, err "no loader");
  flash_id = λ w. (w, ok "EMMC");
  write_maskrom_area = λ w area b. (w ++ b, ok tt);
  into_io = λ w. (w, ok tt);
  seek = λ w p. (w, ok p);
  write_all = λ w b. (w ++ b, ok tt);
  read = λ w n. (w, ok (take n w));
  flush = λ w. (w, ok tt);
}

abbrev text : RockUsbError → String
text commands_send = "Failed to send command to rockusb thread"
text (commands_recv e) = e
text (rock_usb e) = e
text (device_unavailable e) = e

abbrev pieces : List Bytes
pieces = (1 ∷ 2 ∷ []) ∷ (3 ∷ []) ∷ []

blob_reaches_device_example :
    serve (maskrom_volume_target board text) ([], new_maskrom 0x471) (blob_requests 0 pieces) ≡ (
      (1 ∷ 2 ∷ 3 ∷ [], record { area = 0x471; data_ = []; capacity = 0 }),
      blob_replies pieces (ok tt),
    )
blob_reaches_device_example =
    blob_reaches_device board text [] [] 0x471 pieces (omega arith) refl refl

abbrev small : MaskromTarget
small = record { area = 0x472; data_ = 9 ∷ []; capacity = 3 }

abbrev attempts : List (Bytes × ℕ)
attempts = (7 ∷ [], 4) ∷ (8 ∷ [], 1) ∷ (6 ∷ 6 ∷ [], 2) ∷ []

-- Of the three writes the one at the end of the data is kept.
one_is_kept : (write_all small attempts).0.data_ ≡ 9 ∷ 8 ∷ []
unfolding write_all maskrom_write
one_is_kept = refl
