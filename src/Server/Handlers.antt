-- ===== src/Server/Handlers.antt =====
-- The handlers of boardswarm/src/main.rs that act on one item: `volume_commit`, `volume_erase`,
-- `volume_info`, `device_change_mode` and `actuator_change_mode`. `H` stands for the handles, `W` for the
-- world; the methods of the handles are parameters.
use boardswarm.Prelude.{
  ℕ, arith, nat_eq, if◌then◌else◌, ◌∙◌, ◌≡◌, refl, Bool, false, Option, none, some, List, String,
  Outcome, ok, err, map_err,
}
use boardswarm.Status.{Status, not_found, invalid_argument, failed_precondition, aborted}
use boardswarm.Server.Items.{
  Server, ItemType, volume, device, actuator, get, registry_of, register, unregister, type_eq,
  type_beq_iff,
}
use boardswarm.Server.Calls.{lookup-register, lookup-unregister}
use boardswarm.Registry.Properties.{Properties}
use boardswarm.Device.Modes.{
  DeviceSetModeError, mode_not_found, wrong_current_mode, actuator_failed,
}
use boardswarm.VolumeIo.Replies.{VolumeError, VolumeTargetInfo, status_of_volume_error}
use boardswarm.Registry.Store.{lookup}

-- An answer to a request, or the end of the handler by an `unwrap`.
pub data Answer (A : Type 0) : Type 0 where
  answered : Outcome A Status → Answer A
  panicked : Answer A

unfoldable pub status_of_mode_error : DeviceSetModeError → Status
status_of_mode_error mode_not_found = not_found "No mode by that name"
status_of_mode_error wrong_current_mode = failed_precondition "Not in the right mode to switch"
status_of_mode_error actuator_failed = aborted "Actuator failed"

module _ {H W A : Type 0} (call : H → W → W × Outcome A VolumeError) where
  -- `volume_commit`, `volume_erase` and `volume_info`: the volume is looked up, called, and its error
  -- becomes a status.
  unfoldable pub on_volume : Server H → ℕ → W → W × Outcome A Status
  unfolding status_of_volume_error
  on_volume s id w = elim (get volume s id) [
    | none ↦ (w, err (not_found "Volume not found"))
    | some handle ↦ let (w', r) = call handle w in (w', map_err status_of_volume_error r)
  ]

module _ {H : Type 0} where
  -- The known targets, and whether there are no others.
  unfoldable pub volume_info :
      (H → List VolumeTargetInfo × Bool)
      → Server H
      → ℕ
      → Outcome (List VolumeTargetInfo × Bool) Status
  volume_info targets s id = elim (get volume s id) [
    | none ↦ err (not_found "Volume not found")
    | some handle ↦ ok (targets handle)
  ]

module _ {H W : Type 0} where
  unfoldable pub volume_commit :
      (H → W → W × Outcome (Unit {0}) VolumeError)
      → Server H
      → ℕ
      → W
      → W × Outcome (Unit {0}) Status
  unfolding on_volume
  volume_commit commit s id w = on_volume commit s id w

  unfoldable pub volume_erase :
      (H → String → W → W × Outcome (Unit {0}) VolumeError)
      → Server H
      → ℕ
      → String
      → W
      → W × Outcome (Unit {0}) Status
  unfolding on_volume
  volume_erase erase s id target w = on_volume (λ h. erase h target) s id w

  unfoldable pub device_change_mode :
      (H → String → W → W × Outcome (Unit {0}) DeviceSetModeError)
      → Server H
      → ℕ
      → String
      → W
      → W × Outcome (Unit {0}) Status
  unfolding status_of_mode_error
  device_change_mode set_mode s id mode w = elim (get device s id) [
    | none ↦ (w, err (not_found "No device by that id"))
    | some handle ↦ let (w', r) = set_mode handle mode w in (w', map_err status_of_mode_error r)
  ]

  -- The parameters may be missing from the request, and the actuator may fail.
  unfoldable pub actuator_change_mode :
      {P : Type 0} → (H → P → W → W × Bool) → Server H → ℕ → Option P → W → W × Answer (Unit {0})
  actuator_change_mode set_mode s id parameters w = elim (get actuator s id) [
    | none ↦ (w, answered (err (invalid_argument "Can't find actuator")))
    | some handle ↦ elim parameters [
      | none ↦ (w, panicked)
      | some p ↦
          let (w', fine) = set_mode handle p w in
          if fine then (w', answered (ok tt)) else (w', panicked)
    ]
  ]

module _ {H : Type 0} where
  -- What a lookup by id gives after the item was registered, and after it was unregistered.
  pub get-register :
      (k : ItemType) (s : Server H) (p : Properties) (h : H)
      → get k (register k s p h).1 (register k s p h).0 ≡ some h
  unfolding get
  get-register k s p h =
      let found : lookup (registry_of (register k s p h).1 k) (register k s p h).0
          ≡ some (record { properties = p; item = h }) =
        lookup-register k s p h k (register k s p h).0 ∙ ground (arith, type_beq_iff k k) in
      rw found

  pub get-unregister : (k : ItemType) (s : Server H) (id : ℕ) → get k (unregister k s id) id ≡ none
  unfolding get
  get-unregister k s id =
      let gone : lookup (registry_of (unregister k s id) k) id ≡ none =
        lookup-unregister k s id k id ∙ ground (arith, type_beq_iff k k) in
      rw gone

module _ {H W A : Type 0} (call : H → W → W × Outcome A VolumeError) where
  -- A request for a volume reaches the handle that was registered under its id, and passes on what
  -- the handle answers, its errors as statuses.
  pub registered_volume_called :
      (s : Server H) (p : Properties) (h : H) (w : W)
      → on_volume call (register volume s p h).1 (register volume s p h).0 w
        ≡ ((call h w).0, map_err status_of_volume_error (call h w).1)
  unfolding on_volume
  registered_volume_called s p h w = rw (get-register volume s p h, on_volume)

  -- Once a volume is unregistered, a request for it calls no volume, changes nothing and is
  -- answered with not_found.
  pub unregistered_volume_refused :
      (s : Server H) (id : ℕ) (w : W)
      → on_volume call (unregister volume s id) id w ≡ (w, err (not_found "Volume not found"))
  unfolding on_volume
  unregistered_volume_refused s id w = rw (get-unregister volume s id, on_volume)

module _ {H W P : Type 0} (set_mode : H → P → W → W × Bool) where
  -- When a registered actuator fails, or the request has no parameters, the handler panics: the
  -- client gets no status.
  pub failing_actuator_panics :
      (s : Server H) (properties : Properties) (h : H) (parameters : Option P) (w : W)
      → ((p : P) → parameters ≡ some p → (set_mode h p w).1 ≡ false)
      → (actuator_change_mode set_mode
          (register actuator s properties h).1
          (register actuator s properties h).0
          parameters
          w).1
        ≡ panicked
  unfolding actuator_change_mode
  failing_actuator_panics s properties h none w fails =
      rw (get-register actuator s properties h, actuator_change_mode)
  failing_actuator_panics s properties h (some p) w fails =
      rw (get-register actuator s properties h, actuator_change_mode, fails p refl)
