-- ===== src/Device/Following.antt =====
-- What a sequence of changes does to each item of a list, and when the item's id is right.
use boardswarm.Prelude.{
  ℕ, ◌≡◌, refl, sym, ap, ◌∙◌, Bool, true, false, ◌||◌, List, [], ◌∷◌, map, arith, nat_eq,
  if◌then◌else◌,
}
use boardswarm.Registry.Properties.{Item}
use boardswarm.Registry.Store.{RegistryChange, added, removed}
use boardswarm.Device.Config.{DeviceConfigItem}
use boardswarm.Device.Items.{
  DeviceItem, unset_if_matches, set_if_matches, unset_all, add_item_with, change_with, add_contents,
}

abbrev pub any : {A : Type 0} → (A → Bool) → List A → Bool
any p [] = false
any p (i ∷ is) = p i || any p is

abbrev pub as_added : {T : Type 0} → List (ℕ × Item T) → List (RegistryChange T)
as_added m = map (λ e. added e.0 e.1) m

module _ {C T : Type 0} ⦃c : DeviceConfigItem C⦄ where
  -- One item under one change.
  unfoldable pub follow : DeviceItem C → RegistryChange T → DeviceItem C
  unfolding set_if_matches unset_if_matches
  follow i (added id item) = (set_if_matches i id item.properties).1
  follow i (removed id) = (unset_if_matches i id).1

  unfoldable pub follow_all : DeviceItem C → List (RegistryChange T) → DeviceItem C
  unfolding follow
  follow_all i [] = i
  follow_all i (e ∷ es) = follow_all (follow i e) es

  -- Whether the change sets or unsets the item.
  unfoldable pub touches : RegistryChange T → DeviceItem C → Bool
  unfolding set_if_matches unset_if_matches
  touches (added id item) i = (set_if_matches i id item.properties).0
  touches (removed id) i = (unset_if_matches i id).0

  map-follow_all :
      (is : List (DeviceItem C)) (e : RegistryChange T) (es : List (RegistryChange T))
      → map (λ i. follow_all i es) (map (λ i. follow i e) is) ≡ map (λ i. follow_all i (e ∷ es)) is
  unfolding follow_all
  map-follow_all [] e es = refl
  map-follow_all (i ∷ is) e es = ap (λ r. follow_all (follow i e) es ∷ r) (map-follow_all is e es)

  map-nothing :
      (is : List (DeviceItem C)) (es : List (RegistryChange T))
      → es ≡ []
      → map (λ i. follow_all i es) is ≡ is
  unfolding follow_all
  map-nothing [] es e = refl
  map-nothing (i ∷ is) es e = rw (e, map-nothing is es e)

  module _ {W : Type 0} (f : C → T → W → W) where
    pub add_item_with-items :
        (changed : Bool) (is : List (DeviceItem C)) (id : ℕ) (item : Item T) (w : W)
        → ((add_item_with f changed is id item w).items ≡ map (λ i. follow i (added id item)) is)
          × ((add_item_with f changed is id item w).changed
              ≡ changed || any (touches (added id item)) is)
    unfolding add_item_with follow touches
    add_item_with-items changed [] id item w = ground arith
    add_item_with-items changed (i ∷ is) id item w =
        let (hit, i') = set_if_matches i id item.properties in
        let h =
          add_item_with-items (if hit then true else changed) is id item
            (if hit then f i.config item.item w else w) in
        (ap (λ r. i' ∷ r) h.0, h.1 ∙ ground arith)

    unset_all-items :
        (changed : Bool) (is : List (DeviceItem C)) (id : ℕ)
        → ((unset_all changed is id).1 ≡ map (λ i. follow i (removed id)) is)
          × ((unset_all changed is id).0 ≡ changed || any (touches (removed id)) is)
    unfolding unset_all follow touches
    unset_all-items changed [] id = ground arith
    unset_all-items changed (i ∷ is) id =
        let (hit, i') = unset_if_matches i id in
        let h = unset_all-items (hit || changed) is id in (ap (λ r. i' ∷ r) h.0, h.1 ∙ ground arith)

    -- A change reaches every item of the list by itself, and the flag, on which the watchers are
    -- notified, is set when the change sets or unsets one of them.
    pub change_with-items :
        (is : List (DeviceItem C)) (e : RegistryChange T) (w : W)
        → ((change_with f is e w).items ≡ map (λ i. follow i e) is)
          × ((change_with f is e w).changed ≡ any (touches e) is)
    unfolding change_with
    change_with-items is (added id item) w = add_item_with-items false is id item w
    change_with-items is (removed id) w = unset_all-items false is id

    -- Reading the contents is the same as being told that each entry was added.
    pub add_contents-items :
        (changed : Bool) (is : List (DeviceItem C)) (m : List (ℕ × Item T)) (w : W)
        → (add_contents f changed is m w).items ≡ map (λ i. follow_all i (as_added m)) is
    unfolding add_contents
    add_contents-items changed is [] w = sym (map-nothing is [] refl)
    add_contents-items changed is ((id, item) ∷ m) w =
        let one = add_item_with f false is id item w in
        add_contents-items (changed || one.changed) one.items m one.world
        ∙ ap (map (λ i. follow_all i (as_added m))) (add_item_with-items false is id item w).0
        ∙ map-follow_all is (added id item) (as_added m)
