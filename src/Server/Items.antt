-- ===== src/Server/Items.antt =====
-- The four registries of `ServerInner` and the functions of `Server` over them, in
-- boardswarm/src/main.rs. `H` stands for the shared handles (`Arc<dyn Actuator>` and the like).
use boardswarm.Prelude.{
  ℕ, ◌≡◌, ◌↔◌, Bool, true, false, Option, none, some, List, map, arith, String, HasEq, ◌==◌,
  if◌then◌else◌, nat_eq,
}
use mathlib.Core.Option
use boardswarm.Registry.Properties.{Properties, name, instance_of}
use boardswarm.Registry.Store.{Registry, add, remove, lookup, find}
use boardswarm.Registry.Store

pub data ItemType : Type 0 where
  actuator device console volume : ItemType

abbrev pub type_beq : ItemType → ItemType → Bool
type_beq actuator actuator = true
type_beq device device = true
type_beq console console = true
type_beq volume volume = true
type_beq _ _ = false

pub type_beq_iff : (a b : ItemType) → (type_beq a b ≡ true) ↔ (a ≡ b)
type_beq_iff a b = ground arith

instance abbrev pub type_eq : HasEq ItemType
type_eq = record { beq = type_beq; beq_iff = type_beq_iff }

pub record Server (H : Type 0) : Type 0 where
  pub devices : Registry H
  pub consoles : Registry H
  pub actuators : Registry H
  pub volumes : Registry H

-- A `boardswarm_protocol::Item`.
pub record ListedItem : Type 0 where
  pub id : ℕ
  pub name : String
  pub instance_name : Option String

module _ {H : Type 0} where
  unfoldable pub new : Server H
  new = record {
    devices = Store.new;
    consoles = Store.new;
    actuators = Store.new;
    volumes = Store.new;
  }

  abbrev pub registry_of : Server H → ItemType → Registry H
  registry_of s actuator = s.actuators
  registry_of s device = s.devices
  registry_of s console = s.consoles
  registry_of s volume = s.volumes

  abbrev pub with_registry : Server H → ItemType → Registry H → Server H
  with_registry s actuator r = record s { actuators = r }
  with_registry s device r = record s { devices = r }
  with_registry s console r = record s { consoles = r }
  with_registry s volume r = record s { volumes = r }

  pub registry-with :
      (s : Server H) (k j : ItemType) (r : Registry H)
      → registry_of (with_registry s k r) j ≡ (if k == j then r else registry_of s j)
  registry-with s k j r = ground arith

  -- `register_actuator`, `register_console`, `register_volume` and `register_device`.
  unfoldable pub register : ItemType → Server H → Properties → H → ℕ × Server H
  register k s properties handle =
      let ((id, item), r) = add (registry_of s k) properties handle in (id, with_registry s k r)

  -- `unregister_actuator` and the others: only what `lookup` finds is removed.
  unfoldable pub unregister : ItemType → Server H → ℕ → Server H
  unregister k s id = elim (lookup (registry_of s k) id) [
    | none ↦ s
    | some item ↦ with_registry s k (remove (registry_of s k) id)
  ]

  -- `get_actuator`, `get_console`, `get_volume` and `get_device`.
  unfoldable pub get : ItemType → Server H → ℕ → Option H
  get k s id = Option.map (λ item. item.item) (lookup (registry_of s k) id)

  unfoldable pub find_actuator : Server H → List (String × String) → Option H
  find_actuator s ms = Option.map (λ e. e.1.item) (find s.actuators ms)

  unfoldable pub to_item_list : Registry H → List ListedItem
  to_item_list r =
      map
        (λ e. record {
          id = e.0;
          name = name e.1.properties;
          instance_name = instance_of e.1.properties;
        })
        r.contents

  unfoldable pub item_list_for : Server H → ItemType → List ListedItem
  item_list_for s k = to_item_list (registry_of s k)
