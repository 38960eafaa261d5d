-- ===== src/Remote/Mirror.antt =====
-- What a device of another server shows, against what it is there and the ids here.
use boardswarm.Prelude.{
  ℕ, ◌≡◌, ◌≤◌, refl, ap, true, some, [], arith, Outcome, ok, err, map_err, String,
}
use boardswarm.Device.Modes.{
  DeviceSetModeError, mode_not_found, wrong_current_mode, actuator_failed,
}
use boardswarm.Device.Watching.{DeviceView}
use boardswarm.Server.Handlers.{status_of_mode_error, device_change_mode}
use boardswarm.Server.Items.{Server, device, get}
use boardswarm.Remote.Device.{
  ProviderIds, RemoteDevice, update_mappings, new, view, mode_error_of_status,
}
use boardswarm.Remote.Shown.{shown_by, update_mappings_shows}

-- The task runs, and what the device shows is of the provider's ids, unless there is something to take
-- in.
abbrev pub IsMirror : ProviderIds × RemoteDevice → Type 0
IsMirror (p, d) =
    (d.running ≡ true) × (d.seen ≤ p.notified) × (d.seen ≡ p.notified → view d ≡ shown_by p d.info)

-- A device whose task listens from the start on.
pub new-IsMirror : (p : ProviderIds) (info : DeviceView) → IsMirror (p, new p p.notified info)
unfolding new view update_mappings
new-IsMirror p info = (
  refl,
  omega arith,
  λ _. update_mappings_shows p (record {
    console_mapping = [];
    volume_mapping = [];
    info = info;
    notified = 0;
    seen = p.notified;
    running = true;
  }),
)

mode_error-status : (e : DeviceSetModeError) → mode_error_of_status (status_of_mode_error e) ≡ e
unfolding mode_error_of_status status_of_mode_error
mode_error-status mode_not_found = refl
mode_error-status wrong_current_mode = refl
mode_error-status actuator_failed = refl

mode_result-status :
    (r : Outcome (Unit {0}) DeviceSetModeError)
    → map_err mode_error_of_status (map_err status_of_mode_error r) ≡ r
mode_result-status (ok tt) = refl
mode_result-status (err e) = ap err (mode_error-status e)

-- Switching the mode of a registered device from another server gives the same answer as switching
-- it there: each error comes back from its status.
pub remote_switch_answers :
    {H W : Type 0} (set_mode : H → String → W → W × Outcome (Unit {0}) DeviceSetModeError)
    (s : Server H) (id : ℕ) (handle : H) (mode : String) (w : W)
    → get device s id ≡ some handle
    → let (w', r) = device_change_mode set_mode s id mode w in
      (w', map_err mode_error_of_status r) ≡ set_mode handle mode w
unfolding device_change_mode
remote_switch_answers set_mode s id handle mode w there =
    rw (there, device_change_mode)
      (ap (λ r. ((set_mode handle mode w).0, r)) (mode_result-status (set_mode handle mode w).1))
