-- ===== src/Device/Tracking.antt =====
-- When the id that a configured item holds is the right one.
use boardswarm.Prelude.{
  ℕ, ◌≡◌, refl, ◌∙◌, ◌↔◌, Bool, true, false, Option, none, some, List, [], ◌∷◌, arith, nat_beq,
  nat_eq, ◌==◌, if◌then◌else◌, inl, inr, Option-cases,
}
use boardswarm.Registry.Properties.{Properties, Item}
use boardswarm.Registry.Store.{Registry, RegistryChange, added, removed, lookup, add, remove}
use boardswarm.Registry.History.{Call, adds, removes, step}
use boardswarm.Registry.Invariant.{IsValid, lookup-add, lookup-remove, lookup_past}
use boardswarm.Registry.Monitor.{emitted}
use boardswarm.Collections.BTreeMap
use boardswarm.Device.Config.{DeviceConfigItem}
use boardswarm.Device.Items.{DeviceItem, get, unset_if_matches, set_if_matches, set}
use boardswarm.Device.Following.{follow, follow_all}

-- The id once `id` was removed.
abbrev without : Option ℕ → ℕ → Option ℕ
without none id = none
without (some j) id = if nat_beq j id then none else some j

module _ {C T : Type 0} ⦃c : DeviceConfigItem C⦄ where
  -- Whether the registry holds an item under the id that the configuration matches.
  abbrev pub wanted_entry : C → Option (Item T) → Bool
  wanted_entry config none = false
  wanted_entry config (some item) = c.wants config item.properties

  abbrev pub wanted_at : Registry T → C → ℕ → Bool
  wanted_at r config i = wanted_entry config (lookup r i)

  -- The id that the item holds, if any, is that of a registered item that matches.
  abbrev pub Live : Registry T → DeviceItem C → Type 0
  Live r i = (id : ℕ) → get i ≡ some id → wanted_at r i.config id ≡ true

  -- At most one registered item matches.
  abbrev pub Single : Registry T → C → Type 0
  Single r config = (i j : ℕ) → wanted_at r config i ≡ true → wanted_at r config j ≡ true → i ≡ j

  -- The item holds an id exactly when a registered item under that id matches.
  abbrev pub Exact : Registry T → DeviceItem C → Type 0
  Exact r i = (id : ℕ) → (get i ≡ some id) ↔ (wanted_at r i.config id ≡ true)

  wanted-add :
      (r : Registry T) (p : Properties) (t : T) (config : C) (id : ℕ)
      → wanted_at (add r p t).1 config id
        ≡ (if r.next == id then c.wants config p else wanted_at r config id)
  unfolding add
  wanted-add r p t config id = ground (arith, lookup-add r p t id)

  pub wanted-remove :
      (r : Registry T) (id : ℕ) (config : C) (j : ℕ)
      → wanted_at (remove r id) config j ≡ (if id == j then false else wanted_at r config j)
  wanted-remove r id config j = ground (arith, lookup-remove r id j)

  unwanted_next : (r : Registry T) (config : C) → IsValid r → wanted_at r config r.next ≡ false
  unwanted_next r config v = rw (lookup_past r r.next v (omega arith))

  pub config-follow : (i : DeviceItem C) (e : RegistryChange T) → (follow i e).config ≡ i.config
  unfolding follow set_if_matches unset_if_matches set
  config-follow i (added id item) = ground arith
  config-follow i (removed id) = ground arith

  pub get-added :
      (i : DeviceItem C) (id : ℕ) (item : Item T)
      → get (follow i (added id item))
        ≡ (if c.wants i.config item.properties then some id else get i)
  unfolding follow set_if_matches set get
  get-added i id item = ground arith

  get-removed :
      (i : DeviceItem C) (e : RegistryChange T) (id : ℕ)
      → e ≡ removed id
      → get (follow i e) ≡ without (get i) id
  unfolding follow unset_if_matches get
  get-removed i e id h = rw h (ground arith)

  pub config-follow_all :
      (i : DeviceItem C) (es : List (RegistryChange T)) → (follow_all i es).config ≡ i.config
  unfolding follow_all
  config-follow_all i [] = refl
  config-follow_all i (e ∷ es) = config-follow_all (follow i e) es ∙ config-follow i e

  -- What a call leaves of the id, the changes that it sends having reached the item.
  get-follow_adds :
      (r : Registry T) (p : Properties) (t : T) (i : DeviceItem C)
      → get (follow_all i (emitted r (adds p t)))
        ≡ (if c.wants i.config p then some r.next else get i)
  unfolding emitted follow_all
  get-follow_adds r p t i = get-added i r.next (record { properties = p; item = t })

  without_absent :
      (r : Registry T) (k : ℕ) (i : DeviceItem C)
      → lookup r k ≡ none
      → Live r i
      → get i ≡ without (get i) k
  without_absent r k i gone live = ground (arith, live k, gone)

  pub get-follow_removes :
      (r : Registry T) (k : ℕ) (i : DeviceItem C)
      → Live r i
      → get (follow_all i (emitted r (removes k))) ≡ without (get i) k
  unfolding emitted lookup follow_all
  get-follow_removes r k i live = elim (Option-cases (BTreeMap.get r.contents k)) [
    | inl gone ↦ rw (gone, emitted) (without_absent r k i gone live)
    | inr (it, there) ↦ rw (there, emitted) (get-removed i (removed k) k refl)
  ]

  -- A call whose changes have reached the item leaves it with no id but that of a registered item
  -- that matches, if it was so before.
  pub follow_step-Live :
      (r : Registry T) (call : Call T) (i : DeviceItem C)
      → IsValid r
      → Live r i
      → Live (step r call) (follow_all i (emitted r call))
  unfolding step
  follow_step-Live r (adds p t) i v live id e = ground (
    arith,
    e,
    live id,
    get-follow_adds r p t i,
    config-follow_all i (emitted r (adds p t)),
    wanted-add r p t i.config id,
    unwanted_next r i.config v,
  )
  follow_step-Live r (removes k) i v live id e = ground (
    arith,
    e,
    live id,
    get-follow_removes r k i live,
    config-follow_all i (emitted r (removes k)),
    wanted-remove r k i.config id,
  )

  Live-Exact : (r : Registry T) (i : DeviceItem C) → Exact r i → Live r i
  Live-Exact r i x id e = (x id).0 e

  pub follow_step-Exact :
      (r : Registry T) (call : Call T) (i : DeviceItem C)
      → IsValid r
      → Single (step r call) i.config
      → Exact r i
      → Exact (step r call) (follow_all i (emitted r call))
  unfolding step
  follow_step-Exact r (adds p t) i v single x id = ground (
    arith,
    x id,
    single id r.next,
    get-follow_adds r p t i,
    config-follow_all i (emitted r (adds p t)),
    wanted-add r p t i.config id,
    wanted-add r p t i.config r.next,
    unwanted_next r i.config v,
  )
  follow_step-Exact r (removes k) i v single x id = ground (
    arith,
    x id,
    get-follow_removes r k i (Live-Exact r i x),
    config-follow_all i (emitted r (removes k)),
    wanted-remove r k i.config id,
  )
