-- ===== src/Device/Items.antt =====
-- `DeviceItem` of boardswarm/src/config_device.rs, and how the registries' changes reach a list of
-- items: `add_item_with` and `change_with`. `f` is the closure that is called for an item that was
-- set, with the world `W` that it changes.
use boardswarm.Prelude.{
  ℕ, Bool, true, false, ◌||◌, Option, none, some, List, [], ◌∷◌, nat_beq, if◌then◌else◌,
}
use boardswarm.Registry.Properties.{Properties, Item}
use boardswarm.Registry.Store.{RegistryChange, added, removed}
use boardswarm.Device.Config.{DeviceConfigItem}

pub record DeviceItem (C : Type 0) : Type 0 where
  pub id : Option ℕ
  pub config : C

module _ {C : Type 0} where
  unfoldable pub new : C → DeviceItem C
  new config = record { id = none; config = config }

  unfoldable pub get : DeviceItem C → Option ℕ
  get i = i.id

  unfoldable pub set : DeviceItem C → Option ℕ → DeviceItem C
  set i id = record i { id = id }

  unfoldable pub unset_if_matches : DeviceItem C → ℕ → Bool × DeviceItem C
  unset_if_matches i id = elim i.id [
    | none ↦ (false, i)
    | some item_id ↦ if nat_beq item_id id then (true, record i { id = none }) else (false, i)
  ]

  unfoldable pub set_if_matches :
      ⦃c : DeviceConfigItem C⦄ → DeviceItem C → ℕ → Properties → Bool × DeviceItem C
  unfolding set
  set_if_matches ⦃c⦄ i id properties =
      if c.wants i.config properties then (true, set i (some id)) else (false, i)

  -- The fold of `Removed`.
  unfoldable pub unset_all : Bool → List (DeviceItem C) → ℕ → Bool × List (DeviceItem C)
  unfolding unset_if_matches
  unset_all changed [] id = (changed, [])
  unset_all changed (c ∷ cs) id =
      let (hit, c') = unset_if_matches c id in
      let (flag, rest) = unset_all (hit || changed) cs id in (flag, c' ∷ rest)

module _ {C W T : Type 0} ⦃c : DeviceConfigItem C⦄ (f : C → T → W → W) where
  -- What a change leaves: the flag, the items and the world.
  pub record Changed : Type 0 where
    pub changed : Bool
    pub items : List (DeviceItem C)
    pub world : W

  unfoldable pub add_item_with : Bool → List (DeviceItem C) → ℕ → Item T → W → Changed
  unfolding set_if_matches
  add_item_with changed [] id item w = record { changed = changed; items = []; world = w }
  add_item_with changed (i ∷ is) id item w =
      let (hit, i') = set_if_matches i id item.properties in
      let w' = if hit then f i.config item.item w else w in
      let rest = add_item_with (if hit then true else changed) is id item w' in
      record rest { items = i' ∷ rest.items }

  unfoldable pub change_with : List (DeviceItem C) → RegistryChange T → W → Changed
  unfolding add_item_with unset_all
  change_with items (added id item) w = add_item_with false items id item w
  change_with items (removed id) w =
      let (changed, rest) = unset_all false items id in
      record { changed = changed; items = rest; world = w }

  -- The loop over a registry's contents, `changed |= add_item_with(...)`.
  unfoldable pub add_contents : Bool → List (DeviceItem C) → List (ℕ × Item T) → W → Changed
  unfolding add_item_with
  add_contents changed items [] w = record { changed = changed; items = items; world = w }
  add_contents changed items ((id, item) ∷ rest) w =
      let one = add_item_with false items id item w in
      add_contents (changed || one.changed) one.items rest one.world
