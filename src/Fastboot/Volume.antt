-- ===== src/Fastboot/Volume.antt =====
-- `FastbootVolume` of boardswarm/src/fastboot.rs, the discovery of its targets in `setup_volume`, and
-- the answers of the device's task to a probe, an erase and a continue. `D` stands for the fastboot
-- device, `step` for its requests.
use boardswarm.Prelude.{
  ℕ, Bool, true, false, Option, none, some, List, [], ◌∷◌, ◌++◌, String, ◌==◌, string_eq,
  if◌then◌else◌, Outcome, ok, err,
}
use boardswarm.VolumeIo.Replies.{VolumeTargetInfo}
use boardswarm.Fastboot.Data.{blocksize}
use boardswarm.Fastboot.Target.{FastbootVolumeTarget, FastbootDevice, new_target}
use boardswarm.Fastboot.Encode.{FastbootRequest, download, finish, flash_target, run_requests}

unfoldable pub fastboot_volume_target : String → Option ℕ → VolumeTargetInfo
fastboot_volume_target target size = record {
  name = target;
  readable = false;
  writable = true;
  seekable = true;
  size = size;
  blocksize = some blocksize;
}

abbrev pub dummy_flash : String → List FastbootRequest
dummy_flash target = download 0 ∷ finish ∷ flash_target target ∷ []

-- The targets of the variables, each a name with a size, if its prefix is that of a partition size.
unfoldable pub discovered : List (Option (String × Option ℕ)) → List VolumeTargetInfo
unfolding fastboot_volume_target
discovered [] = []
discovered (none ∷ vars) = discovered vars
discovered (some (name, size) ∷ vars) = fastboot_volume_target name size ∷ discovered vars

unfoldable pub names_target : List VolumeTargetInfo → String → Bool
names_target [] k = false
names_target (t ∷ ts) k = if t.name == k then true else names_target ts k

module _ {D E : Type 0} (step : D → FastbootRequest → D × Outcome (Unit {0}) E)
    (partition_size : D → String → D × Option ℕ) where
  -- `FastbootCommand::Probe`: `partition_size` asks for the variable and parses its hexadecimal
  -- number; without one, the target is probed by a flash of no data.
  unfoldable pub probe : D → String → D × Outcome VolumeTargetInfo E
  unfolding fastboot_volume_target run_requests
  probe dev target =
      let (dev', size) = partition_size dev target in
      let (dev'', flashed) = run_requests step dev' (dummy_flash target) in
      elim size [
        | some n ↦ (dev', ok (fastboot_volume_target target (some n)))
        | none ↦ elim flashed [
          | ok _ ↦ (dev'', ok (fastboot_volume_target target none))
          | err e ↦ (dev'', err e)
        ]
      ]

  -- The loop over the known targets: those that the device does not list are probed.
  unfoldable pub probe_known : D → List VolumeTargetInfo → List String → D × List VolumeTargetInfo
  unfolding probe names_target
  probe_known dev targets [] = (dev, targets)
  probe_known dev targets (k ∷ ks) =
      let (dev', answer) = probe dev k in
      let more : List VolumeTargetInfo = elim answer [
        | ok info ↦ targets ++ info ∷ []
        | err e ↦ targets
      ] in
      let probed = probe_known dev' more ks in
      let kept = probe_known dev targets ks in if names_target targets k then kept else probed

pub record FastbootVolume : Type 0 where
  pub targets : List VolumeTargetInfo
  pub device : FastbootDevice
  pub max_download : ℕ

unfoldable pub find_target : List VolumeTargetInfo → String → Option VolumeTargetInfo
find_target [] target = none
find_target (t ∷ ts) target = if t.name == target then some t else find_target ts target

-- `FastbootVolume::open`: `answer` is what `FastbootDevice::probe` gives, asked only for a target that is
-- not listed.
module _ {E : Type 0} (answer : String → Outcome VolumeTargetInfo E) where
  unfoldable pub target_info : FastbootVolume → String → VolumeTargetInfo
  unfolding find_target fastboot_volume_target
  target_info v target = elim (find_target v.targets target) [
    | some info ↦ info
    | none ↦ elim (answer target) [ ok info ↦ info | err e ↦ fastboot_volume_target target none ]
  ]

  unfoldable pub open_volume : FastbootVolume → String → VolumeTargetInfo × FastbootVolumeTarget
  unfolding target_info new_target
  open_volume v target = (target_info v target, new_target v.device target v.max_download)
