-- ===== src/Dfu/Examples.antt =====
-- Runs of a device in DFU mode and witnesses of the theorems on it.
use boardswarm.Prelude.{
  ℕ, ◌≡◌, refl, Bool, true, false, ltb, some, List, [], ◌∷◌, String, Bytes, ok, length, string_eq,
}
use boardswarm.Collections.HashMap
use boardswarm.Collections.HashMap.{HashMap}
use boardswarm.VolumeIo.Serve.{serve, serve_request}
use boardswarm.Dfu.Device.{
  DfuInterface, AltSetting, UsbDevice, alt_settings, setup_device, setup_interfaces, add_alt,
  descriptor,
}
use boardswarm.Dfu.Targets.{
  Download, opened, begun, target_info, new, task_of, device_targets, find_target, start_download,
  open_target, write, volume_target,
}
use boardswarm.Dfu.Listing.{last_listed, setup_lists}
use boardswarm.Dfu.Writes.{write_requests, Became, writes_acknowledged}

abbrev alt_setting : ℕ → ℕ → ℕ → AltSetting
alt_setting alt protocol string = record {
  interface_number = 0;
  alternate_setting = alt;
  class = 0xfe;
  subclass = 0x1;
  protocol = protocol;
  string_index = some string;
}

-- The last of these is in application mode.
abbrev usb : UsbDevice
usb = record {
  configurations =
      ((alt_setting 0 2 4 ∷ alt_setting 1 2 5 ∷ []) ∷ (alt_setting 2 1 4 ∷ []) ∷ []) ∷ [];
  supported_languages = ok [];
  string_descriptor = λ i lang. (elim (ltb i 5) [ true ↦ ok "flash" | false ↦ ok "ram" ]);
  us_english = 0x409;
}

abbrev interfaces : HashMap String DfuInterface
interfaces =
    ("flash", record { interface = 0; alt = 0 }) ∷ ("ram", record { interface = 0; alt = 1 }) ∷ []

setup : setup_device (ok usb) ≡ ok interfaces
unfolding setup_device setup_interfaces add_alt descriptor HashMap.insert
setup = refl

abbrev opens : DfuInterface → Bool
opens i = true

ram_opened :
    open_target opens (new (task_of (ok interfaces))) "ram" (some 4096)
    ≡ opened (target_info "ram") (begun 4096 true)
unfolding open_target new task_of device_targets find_target start_download HashMap.get
ram_opened = refl

setup_lists_example : HashMap.get interfaces "ram" ≡ last_listed usb (alt_settings usb) "ram"
unfolding setup_device setup_interfaces add_alt descriptor HashMap.insert
setup_lists_example = setup_lists usb interfaces "ram" refl

-- A download that ends once it has one piece.
abbrev takes_one : Download → Bool
takes_one d = ltb (length d.taken) 1

abbrev pieces : List (Bytes × ℕ)
pieces = (1 ∷ 2 ∷ [], 0) ∷ (3 ∷ [], 2) ∷ []

second_lost :
    (serve (volume_target takes_one) (begun 3 true) (write_requests pieces)).0.download.taken
    ≡ (1 ∷ 2 ∷ []) ∷ []
unfolding serve serve_request volume_target write
second_lost = refl

writes_acknowledged_example :
    Became takes_one
      (begun 3 true)
      pieces
      (serve (volume_target takes_one) (begun 3 true) (write_requests pieces)).0
      (serve (volume_target takes_one) (begun 3 true) (write_requests pieces)).1
writes_acknowledged_example = writes_acknowledged takes_one (begun 3 true) pieces
