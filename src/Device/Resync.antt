-- ===== src/Device/Resync.antt =====
-- What an item holds after the contents of a registry were read to it.
use boardswarm.Prelude.{
  ℕ, ◌+◌, ◌≤◌, ◌≡◌, refl, Bool, true, none, some, [], ◌∷◌, arith, is_some, Bool-cases, inl, inr,
  ◌⊎◌, nat_eq,
}
use boardswarm.Collections.BTreeMap
use boardswarm.Collections.BTreeMap.{BTreeMap, Ascending, get_under}
use boardswarm.Registry.Properties.{Item}
use boardswarm.Registry.Store.{Registry, added, lookup}
use boardswarm.Registry.Invariant.{IsValid}
use boardswarm.Device.Config.{DeviceConfigItem, console_item, volume_item}
use boardswarm.Device.Items.{DeviceItem, new, get}
use boardswarm.Device.Following.{follow, follow_all, as_added}
use boardswarm.Device.Tracking.{
  wanted_entry, wanted_at, Live, config-follow, get-added, config-follow_all,
}

get-new : {C : Type 0} (config : C) → get (new config) ≡ none
unfolding get new
get-new config = refl

config-new : {C : Type 0} (config : C) → (new config).config ≡ config
unfolding new
config-new config = refl

module _ {C T : Type 0} ⦃c : DeviceConfigItem C⦄ where
  abbrev wanted_in : BTreeMap (Item T) → C → ℕ → Bool
  wanted_in m config id = wanted_entry config (BTreeMap.get m id)

  -- The id is that of a matching entry, or the one that the item had.
  read-Sound :
      (lo : ℕ) (m : BTreeMap (Item T)) (i : DeviceItem C) (id : ℕ)
      → Ascending lo m
      → get (follow_all i (as_added m)) ≡ some id
      → (get i ≡ some id) ⊎ ((wanted_in m i.config id ≡ true) × (lo ≤ id))
  unfolding follow_all BTreeMap.get
  read-Sound lo [] i id a e = inl e
  read-Sound lo ((k, it) ∷ m) i id a e = ground (
    arith,
    read-Sound (k + 1) m (follow i (added k it)) id a.1 e,
    get-added i k it,
    config-follow i (added k it),
    a.0,
  )

  -- Once it has an id, it has one to the end.
  read-kept :
      (m : BTreeMap (Item T)) (i : DeviceItem C)
      → is_some (get i) ≡ true
      → is_some (get (follow_all i (as_added m))) ≡ true
  unfolding follow_all
  read-kept [] i h = h
  read-kept ((k, it) ∷ m) i h =
      read-kept m (follow i (added k it)) (ground (arith, get-added i k it, h))

  read-Complete :
      (m : BTreeMap (Item T)) (i : DeviceItem C) (id : ℕ)
      → wanted_in m i.config id ≡ true
      → is_some (get (follow_all i (as_added m))) ≡ true
  unfolding follow_all BTreeMap.get
  read-Complete [] i id h = absurd (ground arith)
  read-Complete ((k, it) ∷ m) i id h = elim (Bool-cases (c.wants i.config it.properties)) [
    | inl hit ↦ read-kept m (follow i (added k it)) (ground (arith, get-added i k it, hit))
    | inr miss ↦
        read-Complete m (follow i (added k it)) id
          (ground (arith, h, miss, config-follow i (added k it)))
  ]

  -- A new item to which the contents of a valid registry are read holds no id but that of a
  -- registered item that matches.
  pub read_contents_Live :
      (r : Registry T) (config : C)
      → IsValid r
      → Live r (follow_all (new config) (as_added r.contents))
  unfolding lookup
  read_contents_Live r config v id e = ground (
    arith,
    read-Sound 0 r.contents (new config) id v.ascending e,
    config-follow_all (new config) (as_added r.contents),
    get-new config,
  )

  -- If a registered item matches, a new item to which the contents are read holds an id.
  pub read_contents_finds :
      (r : Registry T) (config : C) (id : ℕ)
      → wanted_at r config id ≡ true
      → is_some (get (follow_all (new config) (as_added r.contents))) ≡ true
  unfolding lookup
  read_contents_finds r config id h =
      read-Complete r.contents (new config) id (rw (config-new config) h)
