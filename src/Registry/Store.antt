-- ===== src/Registry/Store.antt =====
-- `Registry` of boardswarm/src/registry.rs. The lock is held for each operation as a whole, so an
-- operation is one step. `sent` is what went to the broadcast channel, oldest first.
use boardswarm.Prelude.{
  ℕ, ◌+◌, ◌%◌, ◌^◌, String, Option, none, some, List, [], ◌∷◌, ◌++◌, if◌then◌else◌, length,
}
use boardswarm.Collections.BTreeMap
use boardswarm.Collections.BTreeMap.{BTreeMap}
use boardswarm.Registry.Properties.{Properties, Item, matches}

-- `RegistryIndex::next` of the 64-bit ids.
abbrev pub u64_mod : ℕ
u64_mod = 2 ^ 64

unfoldable pub next_index : ℕ → ℕ
next_index i = (i + 1) % u64_mod

pub data RegistryChange {ℓ} (T : Type ℓ) : Type ℓ where
  added : ℕ → Item T → RegistryChange T
  removed : ℕ → RegistryChange T

pub record Registry {ℓ} (T : Type ℓ) : Type ℓ where
  pub next : ℕ
  pub contents : BTreeMap (Item T)
  pub sent : List (RegistryChange T)

module _ {ℓ} {T : Type ℓ} where
  unfoldable pub new : Registry T
  new = record { next = 0; contents = []; sent = [] }

  unfoldable pub add : Registry T → Properties → T → (ℕ × Item T) × Registry T
  add r properties item =
      let it : Item T = record { properties = properties; item = item } in
      let id = r.next in
      (
        (id, it),
        record {
          next = next_index r.next;
          contents = BTreeMap.insert r.contents id it;
          sent = r.sent ++ added id it ∷ [];
        },
      )

  unfoldable pub remove : Registry T → ℕ → Registry T
  remove r id = elim (BTreeMap.get r.contents id) [
    | none ↦ r
    | some it ↦ record r {
      contents = BTreeMap.remove r.contents id;
      sent = r.sent ++ removed id ∷ [];
    }
  ]

  unfoldable pub lookup : Registry T → ℕ → Option (Item T)
  lookup r id = BTreeMap.get r.contents id

  unfoldable pub ids : Registry T → List ℕ
  ids r = BTreeMap.keys r.contents

  unfoldable pub find_in : BTreeMap (Item T) → List (String × String) → Option (ℕ × Item T)
  find_in [] ms = none
  find_in ((id, it) ∷ m) ms = if matches it.properties ms then some (id, it) else find_in m ms

  unfoldable pub find : Registry T → List (String × String) → Option (ℕ × Item T)
  unfolding find_in
  find r ms = find_in r.contents ms

  -- A receiver sees what is sent after it subscribed.
  unfoldable pub monitor : Registry T → ℕ
  monitor r = length r.sent
