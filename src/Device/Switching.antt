-- ===== src/Device/Switching.antt =====
-- What `Device::set_mode` does, against a description of the runs that it can make.
use boardswarm.Prelude.{
  ℕ, ◌+◌, ◌≡◌, refl, subst, Bool, true, false, none, some, List, [], ◌∷◌, String, string_eq,
  if◌then◌else◌, ok, err, Bool-cases, Option-cases, inl, inr,
}
use boardswarm.Server.Items.{Server, find_actuator}
use boardswarm.Device.Config.{ModeStep}
use boardswarm.Device.Items.{DeviceItem}
use boardswarm.Device.Monitor.{Device, DeviceMode, notify}
use boardswarm.Device.Modes.{
  mode_not_found, wrong_current_mode, actuator_failed, find_mode, depends_met, run_step, run_steps,
  SetMode, settled, switch_to, set_mode,
}

module _ {P H W : Type 0} (server_of : W → Server H) (actuate : H → P → W → W × Bool)
    (sleep : ℕ → W → W) where
  -- The steps in order, each with the actuator that the server finds for it at that time, and each
  -- followed by its wait.
  pub data Ran : List (DeviceItem (ModeStep P)) → W → W → Type 0 where
    ran_none : (w : W) → Ran [] w w
    ran_step :
        (i : DeviceItem (ModeStep P)) (is : List (DeviceItem (ModeStep P))) (w v : W) (provider : H)
        → find_actuator (server_of w) i.config.match_ ≡ some provider
        → (actuate provider i.config.parameters w).1 ≡ true
        → Ran is (settled sleep i.config.stabilisation (actuate provider i.config.parameters w).0) v
        → Ran (i ∷ is) w v

  -- The first steps ran; then no actuator was found for a step, or the one that was found failed.
  pub data Broke : List (DeviceItem (ModeStep P)) → W → W → Type 0 where
    not_there :
        (i : DeviceItem (ModeStep P)) (is : List (DeviceItem (ModeStep P))) (w : W)
        → find_actuator (server_of w) i.config.match_ ≡ none
        → Broke (i ∷ is) w w
    refused :
        (i : DeviceItem (ModeStep P)) (is : List (DeviceItem (ModeStep P))) (w : W) (provider : H)
        → find_actuator (server_of w) i.config.match_ ≡ some provider
        → (actuate provider i.config.parameters w).1 ≡ false
        → Broke (i ∷ is) w (actuate provider i.config.parameters w).0
    later :
        (i : DeviceItem (ModeStep P)) (is : List (DeviceItem (ModeStep P))) (w v : W) (provider : H)
        → find_actuator (server_of w) i.config.match_ ≡ some provider
        → (actuate provider i.config.parameters w).1 ≡ true
        → Broke is
            (settled sleep i.config.stabilisation (actuate provider i.config.parameters w).0)
            v
        → Broke (i ∷ is) w v

  abbrev Ended : Bool → List (DeviceItem (ModeStep P)) → W → W → Type 0
  Ended fine is w v = if fine then Ran is w v else Broke is w v

  abbrev Described : List (DeviceItem (ModeStep P)) → W → W × Bool → Type 0
  Described is w r = Ended r.1 is w r.0

  ran-later :
      (i : DeviceItem (ModeStep P)) (is : List (DeviceItem (ModeStep P))) (w : W) (provider : H)
      (r : W × Bool)
      → find_actuator (server_of w) i.config.match_ ≡ some provider
      → (actuate provider i.config.parameters w).1 ≡ true
      → Described is
          (settled sleep i.config.stabilisation (actuate provider i.config.parameters w).0)
          r
      → Described (i ∷ is) w r
  ran-later i is w provider (v, true) found acted h = ran_step i is w v provider found acted h
  ran-later i is w provider (v, false) found acted h = later i is w v provider found acted h

  run_steps-Described :
      (is : List (DeviceItem (ModeStep P))) (w : W)
      → Described is w (run_steps server_of actuate sleep is w)
  unfolding run_steps run_step
  run_steps-Described [] w = ran_none w
  run_steps-Described (i ∷ is) w =
      elim (Option-cases (find_actuator (server_of w) i.config.match_)) [
        | inl missing ↦ rw (missing, run_step, run_steps) (not_there i is w missing)
        | inr (provider, found) ↦ elim (Bool-cases (actuate provider i.config.parameters w).1) [
          | inl fine ↦
              let w' =
                settled sleep i.config.stabilisation (actuate provider i.config.parameters w).0 in
              rw (found, fine, run_step, run_steps)
                (ran-later i is w provider (run_steps server_of actuate sleep is w') found fine
                  (run_steps-Described is w'))
          | inr broken ↦
              rw (found, broken, run_step, run_steps) (refused i is w provider found broken)
        ]
      ]

  -- What a caller learns from each result.
  abbrev pub Promise : Device P → String → W → SetMode P W → Type 0
  Promise d mode w r = elim r.result [
    | ok _ ↦
        (target : DeviceMode P) × (find_mode d.modes mode ≡ some target)
        × (depends_met target d.current_mode ≡ true)
        × Ran target.sequence w r.world
        × (r.device ≡ record d { current_mode = some mode; notified = d.notified + 1 })
    | err e ↦ elim e [
      | mode_not_found ↦ (find_mode d.modes mode ≡ none) × (r.device ≡ d) × (r.world ≡ w)
      | wrong_current_mode ↦
          (target : DeviceMode P) × (find_mode d.modes mode ≡ some target)
          × (depends_met target d.current_mode ≡ false)
          × (r.device ≡ d)
          × (r.world ≡ w)
      | actuator_failed ↦
          (target : DeviceMode P) × (find_mode d.modes mode ≡ some target)
          × (depends_met target d.current_mode ≡ true)
          × Broke target.sequence w r.world
          × (r.device ≡ record d { current_mode = none })
    ]
  ]

  -- set_mode succeeds only when the mode exists, what it depends on is the current mode, and all
  -- its steps ran in order: then it is the current mode, and the watchers are told once. When a
  -- step fails, the steps before it ran, none after it, and the device is in no mode. The other
  -- errors leave the device and the world as they were.
  pub set_mode_keeps_Promise :
      (d : Device P) (mode : String) (w : W)
      → Promise d mode w (set_mode server_of actuate sleep d mode w)
  unfolding set_mode switch_to notify
  set_mode_keeps_Promise d mode w = elim (Option-cases (find_mode d.modes mode)) [
    | inl missing ↦ rw (missing, set_mode) (missing, refl, refl)
    | inr (target, found) ↦ elim (Bool-cases (depends_met target d.current_mode)) [
      | inr unmet ↦ rw (found, unmet, set_mode) (target, found, unmet, refl, refl)
      | inl met ↦ elim (Bool-cases (run_steps server_of actuate sleep target.sequence w).1) [
        | inl fine ↦
            rw (found, met, fine, switch_to, set_mode)
              (
                target,
                found,
                met,
                subst
                    (λ b.
                      Ended b target.sequence w
                        (run_steps server_of actuate sleep target.sequence w).0)
                    fine (run_steps-Described target.sequence w),
                refl,
              )
        | inr broken ↦
            rw (found, met, broken, switch_to, set_mode)
              (
                target,
                found,
                met,
                subst
                    (λ b.
                      Ended b target.sequence w
                        (run_steps server_of actuate sleep target.sequence w).0)
                    broken (run_steps-Described target.sequence w),
                refl,
              )
      ]
    ]
  ]
