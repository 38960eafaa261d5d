-- ===== src/Remote/Shown.antt =====
-- What a device of another server shows after each branch of its task.
use boardswarm.Prelude.{ℕ, ◌+◌, ◌≡◌, refl, true, false, [], nat_eq, Bool-cases, ◌⊎◌, inl, inr}
use boardswarm.Collections.HashMap
use boardswarm.Collections.HashMap.{HashMap}
use boardswarm.Device.Watching.{DeviceView}
use boardswarm.Remote.Device.{
  ProviderIds, RemoteDevice, update_mappings, any_moved, provider_sync, update, on_info,
  on_provider, seen_through, view,
}
use boardswarm.Remote.Mappings.{IsWithin, mapping_of_shows, any_moved_shows}

-- What a device of another server shows: its items by the provider's ids.
abbrev pub shown_by : ProviderIds → DeviceView → DeviceView
shown_by p info = record info {
  consoles = seen_through p.consoles info.consoles;
  volumes = seen_through p.volumes info.volumes;
}

nothing-IsWithin : (ids : HashMap ℕ ℕ) → IsWithin [] ids
unfolding HashMap.get
nothing-IsWithin ids r l e = cc

pub update_mappings_shows :
    (p : ProviderIds) (d : RemoteDevice) → view (update_mappings p d) ≡ shown_by p d.info
unfolding view update_mappings
update_mappings_shows p d =
    let consoles = mapping_of_shows p.consoles [] d.info.consoles (nothing-IsWithin p.consoles) in
    let volumes = mapping_of_shows p.volumes [] d.info.volumes (nothing-IsWithin p.volumes) in cc

unmoved_shows :
    (p : ProviderIds) (d : RemoteDevice)
    → any_moved p.consoles d.console_mapping d.info.consoles ≡ false
    → any_moved p.volumes d.volume_mapping d.info.volumes ≡ false
    → view d ≡ shown_by p d.info
unfolding view
unmoved_shows p d still same =
    let consoles = any_moved_shows p.consoles d.console_mapping d.info.consoles still in
    let volumes = any_moved_shows p.volumes d.volume_mapping d.info.volumes same in cc

-- A sync makes the mappings anew, or shows what it did.
provider_sync_cases :
    (p : ProviderIds) (d : RemoteDevice)
    → (provider_sync p d ≡ (update_mappings p d, true))
      ⊎ ((provider_sync p d ≡ (d, false)) × (view d ≡ shown_by p d.info))
unfolding provider_sync
provider_sync_cases p d =
    elim (Bool-cases (any_moved p.consoles d.console_mapping d.info.consoles)) [
      | inl moved ↦ rw moved (inl refl)
      | inr still ↦ elim (Bool-cases (any_moved p.volumes d.volume_mapping d.info.volumes)) [
        | inl moved ↦ rw (still, moved) (inl refl)
        | inr same ↦ rw (still, same) (inr (refl, unmoved_shows p d still same))
      ]
    ]

pub on_info_shows :
    (p : ProviderIds) (d : RemoteDevice) (info : DeviceView)
    → (view (on_info p d info) ≡ shown_by p info)
      × ((on_info p d info).seen ≡ d.seen)
      × ((on_info p d info).notified ≡ d.notified + 1)
      × ((on_info p d info).running ≡ d.running)
unfolding on_info update update_mappings view
on_info_shows p d info = (update_mappings_shows p (record d { info = info }), refl, refl, refl)

pub on_provider_shows :
    (p : ProviderIds) (d : RemoteDevice)
    → let d' = on_provider p d in
      (view d' ≡ shown_by p d'.info)
      × (d'.seen ≡ p.notified)
      × (((view d' ≡ view d) × (d'.notified ≡ d.notified)) ⊎ (d'.notified ≡ d.notified + 1))
      × (d'.running ≡ d.running)
unfolding on_provider update_mappings view
on_provider_shows p d =
    let e : RemoteDevice = record d { seen = p.notified } in
    elim (provider_sync_cases p e) [
      | inl moved ↦ rw (moved, on_provider) (update_mappings_shows p e, refl, inr refl, refl)
      | inr (same, shows) ↦ rw (same, on_provider) (shows, refl, inl (refl, refl), refl)
    ]

pub on_provider-info : (p : ProviderIds) (d : RemoteDevice) → (on_provider p d).info ≡ d.info
unfolding on_provider update_mappings
on_provider-info p d =
    let e : RemoteDevice = record d { seen = p.notified } in
    elim (provider_sync_cases p e) [
      | inl moved ↦ rw (moved, on_provider) refl
      | inr (same, shows) ↦ rw (same, on_provider) refl
    ]
