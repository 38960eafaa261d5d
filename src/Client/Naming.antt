-- ===== src/Client/Naming.antt =====
-- The device that a client opens by its name.
use boardswarm.Prelude.{
  ℕ, ◌+◌, ◌<◌, ◌≡◌, refl, sym, subst, String, true, false, Option, none, some, List, [], ◌∷◌, inl,
  inr, arith, Bool-cases, Outcome-cases, nat_eq, string_eq, ◌==◌, Outcome, ok, err,
}
use boardswarm.Status.{Status}
use boardswarm.Collections.BTreeMap
use boardswarm.Collections.BTreeMap.{BTreeMap, Ascending, get_under}
use boardswarm.Registry.Properties.{Item, name}
use boardswarm.Registry.Store.{Registry, lookup}
use boardswarm.Registry.Invariant.{IsValid}
use boardswarm.Server.Items.{ListedItem, to_item_list}
use boardswarm.Device.Watching.{DeviceView}
use boardswarm.Client.Device.{ClientDevice, find_item, new, by_name}

-- What is found under a name, of what is at each id.
abbrev pub Named : {H : Type 0} → (ℕ → Option (Item H)) → String → Option ℕ → Type 0
Named {H = H} at nm none =
    (j : ℕ) (other : Item H) → at j ≡ some other → (name other.properties == nm) ≡ false
Named {H = H} at nm (some id) =
    (it : Item H) × (at id ≡ some it)
    × ((name it.properties == nm) ≡ true)
    × ((j : ℕ) (other : Item H)
        → j < id
        → at j ≡ some other
        → (name other.properties == nm) ≡ false)

module _ {H : Type 0} where
  Named-cons :
      (id : ℕ) (it : Item H) (m : BTreeMap (Item H)) (nm : String)
      → Ascending (id + 1) m
      → (name it.properties == nm) ≡ false
      → (o : Option ℕ) → Named (BTreeMap.get m) nm o
      → Named (BTreeMap.get ((id, it) ∷ m)) nm o
  unfolding BTreeMap.get
  Named-cons id it m nm a miss none h = λ j other e. ground (arith, h j other)
  Named-cons id it m nm a miss (some k) (o, here, hit, least) = (
    o,
    ground (arith, here, get_under (id + 1) m id a),
    hit,
    λ j other lt e. ground (arith, least j other),
  )

  entries : BTreeMap (Item H) → List ListedItem
  entries m = to_item_list (record { contents = m; next = 0; sent = [] })

  find_item-Named :
      (lo : ℕ) (m : BTreeMap (Item H)) (nm : String)
      → Ascending lo m
      → Named (BTreeMap.get m) nm (find_item (entries m) nm)
  unfolding BTreeMap.get to_item_list entries
  find_item-Named lo [] nm a = λ j other e. cc
  find_item-Named lo ((id, it) ∷ m) nm a = elim (Bool-cases (name it.properties == nm)) [
    | inl hit ↦
        rw hit (it, ground arith, hit, λ j other lt e. ground (arith, get_under (id + 1) m j a.1))
    | inr miss ↦ rw miss (
        Named-cons id it m nm a.1 miss (find_item (entries m) nm)
          (find_item-Named (id + 1) m nm a.1))
  ]

-- What a client owes to who opens a device by its name: the first that is registered under it.
abbrev pub Opens :
    {H : Type 0}
    → (ℕ → Option (Item H))
    → (ℕ → Outcome (List (Outcome DeviceView Status)) Status)
    → String
    → Outcome (Option (ClientDevice × List (Outcome DeviceView Status))) Status
    → Type 0
Opens at info nm (ok none) = Named at nm none
Opens at info nm (ok (some (d, rest))) =
    Named at nm (some d.id) × (new d.id (info d.id) ≡ ok (d, rest))
Opens at info nm (err e) = (id : ℕ) × Named at nm (some id) × (new id (info id) ≡ err e)

new_id :
    (id : ℕ) (answer : Outcome (List (Outcome DeviceView Status)) Status) (d : ClientDevice)
    (rest : List (Outcome DeviceView Status))
    → new id answer ≡ ok (d, rest)
    → d.id ≡ id
unfolding new
new_id id (err e) d rest h = cc
new_id id (ok []) d rest h = cc
new_id id (ok (err e ∷ more)) d rest h = cc
new_id id (ok (ok device ∷ more)) d rest h = cc

module _ {H : Type 0} (r : Registry H)
    (info : ℕ → Outcome (List (Outcome DeviceView Status)) Status) (nm : String) where
  found-Opens :
      (o : Option ℕ)
      → find_item (to_item_list r) nm ≡ o
      → Named (lookup r) nm o
      → Opens (lookup r) info nm (by_name (ok (to_item_list r)) info nm)
  unfolding by_name
  found-Opens none e named = rw (e, by_name) named
  found-Opens (some id) e named = elim (Outcome-cases (new id (info id))) [
    | inl ((d, rest), opened) ↦
        let same : d.id ≡ id = new_id id (info id) d rest opened in
        rw (e, by_name, opened)
          (subst (λ k. Named (lookup r) nm (some k) × (new k (info k) ≡ ok (d, rest))) (sym same)
            (named, opened))
    | inr (x, fails) ↦ rw (e, by_name, fails) (id, named, fails)
  ]

  -- Opening a device by its name, from the list of a valid registry, opens the item of the least
  -- id that is registered under that name, and gives the error of that opening; it gives nothing
  -- exactly where no registered item has that name.
  pub by_name-Opens : IsValid r → Opens (lookup r) info nm (by_name (ok (to_item_list r)) info nm)
  unfolding lookup to_item_list entries
  by_name-Opens v =
      found-Opens (find_item (to_item_list r) nm) refl (find_item-Named 0 r.contents nm v.ascending)
