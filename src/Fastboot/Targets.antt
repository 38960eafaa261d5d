-- ===== src/Fastboot/Targets.antt =====
-- The targets of a fastboot volume: none is listed twice, and each can be opened under its name.
use boardswarm.Prelude.{
  ℕ, ◌≡◌, refl, true, false, Option, some, List, [], ◌∷◌, ◌++◌, arith, String, string_eq, eq_iff,
  if◌then◌else◌, Outcome, ok, Bool-cases, Option-cases, Outcome-cases, inl, inr,
}
use boardswarm.VolumeIo.Replies.{VolumeTargetInfo}
use boardswarm.Fastboot.Encode.{FastbootRequest}
use boardswarm.Fastboot.Target.{new_target}
use boardswarm.Fastboot.Data.{no_data}
use boardswarm.Fastboot.Volume.{
  FastbootVolume, fastboot_volume_target, probe, names_target, probe_known, find_target,
  target_info, open_volume,
}

-- No name stands twice.
abbrev pub OnceEach : List VolumeTargetInfo → Type 0
OnceEach [] = Unit {0}
OnceEach (t ∷ ts) = (names_target ts t.name ≡ false) × OnceEach ts

names_target-append :
    (ts us : List VolumeTargetInfo) (k : String)
    → names_target (ts ++ us) k ≡ (if names_target ts k then true else names_target us k)
unfolding names_target
names_target-append [] us k = refl
names_target-append (t ∷ ts) us k = ground (arith, names_target-append ts us k)

OnceEach-append :
    (ts : List VolumeTargetInfo) (u : VolumeTargetInfo)
    → names_target ts u.name ≡ false
    → OnceEach ts
    → OnceEach (ts ++ u ∷ [])
unfolding names_target
OnceEach-append [] u new once = (refl, tt)
OnceEach-append (t ∷ ts) u new once = (
  ground (
    arith,
    names_target-append ts (u ∷ []) t.name,
    eq_iff u.name t.name,
    eq_iff t.name u.name,
    new,
    once.0,
  ),
  OnceEach-append ts u (ground (arith, new)) once.1,
)

module _ {D E : Type 0} (step : D → FastbootRequest → D × Outcome (Unit {0}) E)
    (partition_size : D → String → D × Option ℕ) where
  -- A probe that finds the target describes it by its name.
  probe-name :
      (dev : D) (target : String) (info : VolumeTargetInfo)
      → (probe step partition_size dev target).1 ≡ ok info
      → info.name ≡ target
  unfolding probe fastboot_volume_target
  probe-name dev target info e = ground (arith, e)

  -- However the device answers, the known targets are added to those that it lists without one
  -- standing twice, if none of those stood twice.
  pub probe_known-OnceEach :
      (dev : D) (targets : List VolumeTargetInfo) (known : List String)
      → OnceEach targets
      → OnceEach (probe_known step partition_size dev targets known).1
  unfolding probe_known
  probe_known-OnceEach dev targets [] once = once
  probe_known-OnceEach dev targets (k ∷ ks) once = elim (Bool-cases (names_target targets k)) [
    | inl listed ↦ rw (listed, probe_known) (probe_known-OnceEach dev targets ks once)
    | inr new ↦ elim (Outcome-cases (probe step partition_size dev k).1) [
      | inl (info, found) ↦
          rw (new, found, probe_known)
            (probe_known-OnceEach (probe step partition_size dev k).0 (targets ++ info ∷ []) ks
              (OnceEach-append targets info (rw (probe-name dev k info found) new) once))
      | inr (e, missing) ↦
          rw (new, missing, probe_known)
            (probe_known-OnceEach (probe step partition_size dev k).0 targets ks once)
    ]
  ]

module _ {E : Type 0} (answer : String → Outcome VolumeTargetInfo E) where
  find_target-name :
      (ts : List VolumeTargetInfo) (target : String) (info : VolumeTargetInfo)
      → find_target ts target ≡ some info
      → info.name ≡ target
  unfolding find_target
  find_target-name [] target info e = absurd (ground arith)
  find_target-name (t ∷ ts) target info e =
      ground (arith, find_target-name ts target info, eq_iff t.name target)

  -- A fastboot volume can be opened under any name, listed or not and whatever a probe answers, if
  -- a probe that finds the target describes it by its name: the target that is opened is of that
  -- name, as is its description, and its buffer is empty.
  pub open_volume_total :
      (v : FastbootVolume) (target : String)
      → ((info : VolumeTargetInfo) → answer target ≡ ok info → info.name ≡ target)
      → ((open_volume answer v target).0.name ≡ target)
        × ((open_volume answer v target).1.target ≡ target)
        × ((open_volume answer v target).1.buffered ≡ no_data)
  unfolding open_volume target_info new_target fastboot_volume_target
  open_volume_total v target named = (named_info, refl, refl)
    where
      named_info : (target_info answer v target).name ≡ target
      named_info = elim (Option-cases (find_target v.targets target)) [
        | inr (info, found) ↦ rw (found, target_info) (find_target-name v.targets target info found)
        | inl missing ↦ elim (Outcome-cases (answer target)) [
          | inl (info, answered) ↦ rw (missing, answered, target_info) (named info answered)
          | inr (e, refused) ↦ rw (missing, refused, target_info) refl
        ]
      ]
