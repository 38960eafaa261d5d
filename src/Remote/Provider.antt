-- ===== src/Remote/Provider.antt =====
-- `Provider`, `add_item`, `remove_item` and `monitor_items` of boardswarm/src/boardswarm_provider/mod.rs,
-- for the items of one type. `H` stands for the local handles of remote items; setting one up can fail,
-- for a device or a volume.
use boardswarm.Prelude.{
  ℕ, ◌+◌, none, some, List, [], ◌∷◌, String, Outcome, ok, err, nat_eq, string_eq,
}
use boardswarm.Collections.HashMap
use boardswarm.Collections.HashMap.{HashMap}
use boardswarm.Registry.Properties.{Properties, insert, instance_key}
use boardswarm.Server.Items.{Server, ItemType, register, unregister}

-- The ids here, by the ids there, and the server that they are registered with.
pub record Provider (H : Type 0) : Type 0 where
  pub server : Server H
  pub locals : HashMap ℕ ℕ
  pub notified : ℕ

-- What the remote server tells of an item, and the handle that is set up for it.
pub record RemoteItem (H : Type 0) : Type 0 where
  pub id : ℕ
  pub properties : Properties
  pub handle : Outcome H (Unit {0})

pub data RemoteEvent (H : Type 0) : Type 0 where
  items_added : List (RemoteItem H) → RemoteEvent H
  item_removed : ℕ → RemoteEvent H

module _ {H : Type 0} (k : ItemType) (instance_name : String) where
  unfoldable pub add_item : Provider H → RemoteItem H → Provider H
  add_item d item = elim item.handle [
    | err _ ↦ record d { notified = d.notified + 1 }
    | ok handle ↦
        let (local, server) =
          register k d.server (insert item.properties instance_key instance_name) handle in
        record {
          server = server;
          locals = HashMap.insert d.locals item.id local;
          notified = d.notified + 1;
        }
  ]

  unfoldable pub remove_item : Provider H → ℕ → Provider H
  remove_item d id = elim (HashMap.get d.locals id) [
    | none ↦ record d { notified = d.notified + 1 }
    | some local ↦ record {
      server = unregister k d.server local;
      locals = HashMap.remove d.locals id;
      notified = d.notified + 1;
    }
  ]

  unfoldable pub add_items : Provider H → List (RemoteItem H) → Provider H
  unfolding add_item
  add_items d [] = d
  add_items d (i ∷ is) = add_items (add_item d i) is

  unfoldable pub unregister_locals : Server H → HashMap ℕ ℕ → Server H
  unregister_locals s [] = s
  unregister_locals s ((remote, local) ∷ rest) = unregister_locals (unregister k s local) rest

  -- The events until the connection breaks, and then the drain of the registrations.
  unfoldable pub monitor_items : Provider H → List (RemoteEvent H) → Provider H
  unfolding add_items remove_item unregister_locals
  monitor_items d [] = record d { server = unregister_locals d.server d.locals; locals = [] }
  monitor_items d (items_added items ∷ es) = monitor_items (add_items d items) es
  monitor_items d (item_removed id ∷ es) = monitor_items (remove_item d id) es
