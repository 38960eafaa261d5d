-- ===== src/Dfu/Listing.antt =====
-- The interfaces that a device in DFU mode lists, and the opening of them.
use boardswarm.Prelude.{
  ℕ, ◌≡◌, ◌≢◌, refl, sym, ap, ◌∙◌, Bool, true, false, Option, none, some, List, [], ◌∷◌, String,
  Outcome, ok, err, ◌==◌, nat_eq, string_eq, if◌then◌else◌, ◌>>=◌, Option-cases, inl, inr, ◌%◌,
}
use boardswarm.Collections.HashMap
use boardswarm.Collections.HashMap.{HashMap}
use boardswarm.VolumeIo.Replies.{unknown_target_requested}
use boardswarm.Dfu.Device.{
  DfuInterface, AltSetting, UsbDevice, alt_settings, in_dfu_mode, descriptor, with_name, add_alt,
  setup_interfaces, setup_device,
}
use boardswarm.Dfu.Targets.{
  Dfu, new, open_target, panics, opened, refused, begun, unwrap_or_default, u32_mod, find_target,
  start_download, device_targets, task_of,
}

-- The name under which an alternate setting is listed, if it is.
abbrev pub name_found : Outcome (Option String) String → Option String
name_found (ok name) = name
name_found (err e) = none

abbrev pub listed_name : UsbDevice → AltSetting → Option String
listed_name u a = if in_dfu_mode a then name_found (descriptor u a) else none

abbrev pub is_named : Option String → String → Bool
is_named none name = false
is_named (some n) name = n == name

-- The last alternate setting in DFU mode that has the name.
abbrev pub last_listed : UsbDevice → List AltSetting → String → Option DfuInterface
last_listed u [] name = none
last_listed u (a ∷ more) name = elim (last_listed u more name) [
  | some i ↦ some i
  | none ↦
      if is_named (listed_name u a) name
      then some (record { interface = a.interface_number; alt = a.alternate_setting })
      else none
]

abbrev or_else : Option DfuInterface → Option DfuInterface → Option DfuInterface
or_else (some i) j = some i
or_else none j = j

or_else_assoc :
    (o : Option DfuInterface) (b : Bool) (i : DfuInterface) (j : Option DfuInterface)
    → or_else o (if b then some i else j)
      ≡ or_else (elim o [ some k ↦ some k | none ↦ if b then some i else none ]) j
or_else_assoc (some k) b i j = refl
or_else_assoc none true i j = refl
or_else_assoc none false i j = refl

or_else-none : (o : Option DfuInterface) → or_else o none ≡ o
or_else-none none = refl
or_else-none (some i) = refl

-- One round, by whether the setting is in DFU mode and by its name.
get-round :
    (m m' : HashMap String DfuInterface) (a : AltSetting) (name : String) (b : Bool)
    (r : Outcome (Option String) String)
    → (if b then (elim r [ err e ↦ err e | ok n ↦ ok (with_name m a n) ]) else ok m) ≡ ok m'
    → HashMap.get m' name ≡ (
        if is_named (if b then name_found r else none) name
        then some (record { interface = a.interface_number; alt = a.alternate_setting })
        else HashMap.get m name)
get-round m m' a name false r e = let same : m ≡ m' = cc in ap (λ x. HashMap.get x name) (sym same)
get-round m m' a name true (err x) e = cc
get-round m m' a name true (ok none) e =
    let same : m ≡ m' = cc in ap (λ x. HashMap.get x name) (sym same)
get-round m m' a name true (ok (some n)) e =
    let same : with_name m a (some n) ≡ m' = cc in
    ap (λ x. HashMap.get x name) (sym same) ∙ HashMap.get-insert m n name _

bind-ok :
    {A : Type 0} (r : Outcome A String) (k : A → Outcome A String) (y : A)
    → (r >>= k) ≡ ok y
    → (x : A) × (r ≡ ok x) × (k x ≡ ok y)
bind-ok (ok x) k y e = (x, refl, e)
bind-ok (err z) k y e = cc

module _ (u : UsbDevice) where
  setup_lists_from :
      (m m' : HashMap String DfuInterface) (alts : List AltSetting) (name : String)
      → setup_interfaces u m alts ≡ ok m'
      → HashMap.get m' name ≡ or_else (last_listed u alts name) (HashMap.get m name)
  unfolding setup_interfaces add_alt
  setup_lists_from m m' [] name e =
      let same : m ≡ m' = cc in ap (λ x. HashMap.get x name) (sym same)
  setup_lists_from m m' (a ∷ more) name e =
      let (m1, e1, rest) = bind-ok (add_alt u m a) (λ x. setup_interfaces u x more) m' e in
      setup_lists_from m1 m' more name rest
      ∙ ap (or_else (last_listed u more name))
          (get-round m m1 a name (in_dfu_mode a) (descriptor u a) e1)
      ∙ or_else_assoc (last_listed u more name) (is_named (listed_name u a) name) _
          (HashMap.get m name)

  -- A device that could be set up has under each name the last of its alternate settings that is
  -- in DFU mode and has that name, and nothing else.
  pub setup_lists :
      (m : HashMap String DfuInterface) (name : String)
      → setup_device (ok u) ≡ ok m
      → HashMap.get m name ≡ last_listed u (alt_settings u) name
  unfolding setup_device HashMap.get
  setup_lists m name e =
      setup_lists_from [] m (alt_settings u) name e
      ∙ or_else-none (last_listed u (alt_settings u) name)

module _ (opens : DfuInterface → Bool) where
  unlisted_refused :
      (d : Dfu) (target : String) (len : Option ℕ)
      → find_target d.targets target ≡ none
      → open_target opens d target len ≡ refused unknown_target_requested
  unfolding open_target
  unlisted_refused d target len e = rw (e, open_target) refl

  no_panic :
      (d : Dfu) (m : HashMap String DfuInterface) (target : String) (len : Option ℕ)
      → d.task ≡ some m
      → open_target opens d target len ≢ panics
  unfolding open_target start_download
  no_panic d m target len runs h = elim (Option-cases (find_target d.targets target)) [
    | inl e ↦
        let no : refused unknown_target_requested ≡ panics =
          sym (unlisted_refused d target len e) ∙ h in
        cc
    | inr (info, e) ↦ elim (Option-cases (HashMap.get m target)) [
      | inl gone ↦
          let eq : open_target opens d target len
              ≡ opened info (begun (unwrap_or_default len % u32_mod) false) =
            rw (e, open_target, runs, gone) refl in
          cc
      | inr (i, there) ↦
          let eq : open_target opens d target len
              ≡ opened info (begun (unwrap_or_default len % u32_mod) (opens i)) =
            rw (e, open_target, runs, there) refl in
          cc
    ]
  ]

  pub open_never_panics :
      (r : Outcome (HashMap String DfuInterface) String) (target : String) (len : Option ℕ)
      → open_target opens (new (task_of r)) target len ≢ panics
  unfolding open_target new task_of device_targets find_target
  open_never_panics (err e) target len = λ h. cc
  open_never_panics (ok m) target len = no_panic (new (some m)) m target len refl
