-- ===== src/Remote/Duplicates.antt =====
-- A remote item that is told of twice: an item that is added there between the subscription and the
-- reading of its monitor stands in the first list and in an event.
use boardswarm.Prelude.{ℕ, ◌≡◌, ◌∙◌, none, some, [], ◌∷◌, String, ok, arith, nat_eq}
use boardswarm.Collections.HashMap
use boardswarm.Collections.HashMap.{get-insert, get-remove}
use boardswarm.Registry.Properties.{Properties, insert, instance_key}
use boardswarm.Registry.Store.{lookup}
use boardswarm.Server.Items.{
  Server, ItemType, type_eq, type_beq_iff, registry_of, register, unregister,
}
use boardswarm.Server.Calls.{
  IsValidServer, Room, lookup-register, lookup-unregister, register-IsValidServer, register_fresh,
}
use boardswarm.Remote.Provider.{Provider, RemoteItem, add_item, remove_item, add_items}

abbrev pub local_properties : String → Properties → Properties
local_properties instance_name p = insert p instance_key instance_name

abbrev pub told : {H : Type 0} → ℕ → Properties → H → RemoteItem H
told id p h = record { id = id; properties = p; handle = ok h }

-- Two registrations in a row: the second takes another id, and its removal leaves the first.
second_unregistered :
    {H : Type 0} (k : ItemType) (s : Server H) (p q : Properties) (h g : H)
    → IsValidServer s
    → Room 1 s
    → let first = register k s p h in
      let second = register k first.1 q g in
      lookup (registry_of (unregister k second.1 second.0) k) first.0
      ≡ some (record { properties = p; item = h })
second_unregistered k s p q h g v room =
    let first = register k s p h in
    let second = register k first.1 q g in
    ground (
      arith,
      type_beq_iff k k,
      lookup-unregister k second.1 second.0 k first.0,
      lookup-register k first.1 q g k first.0,
      lookup-register k s p h k first.0,
      register_fresh k first.1 q g (register-IsValidServer k s p h room v),
    )

module _ {H : Type 0} (k : ItemType) (instance_name : String) where
  -- When a remote item is told of twice and then removed, the provider forgets it, yet the first
  -- of its two registrations stays in the server. The server is valid and has ids left.
  pub twice_told_leaks :
      (d : Provider H) (id : ℕ) (p : Properties) (h g : H)
      → IsValidServer d.server
      → Room 1 d.server
      → let d' =
          remove_item k instance_name
            (add_items k instance_name d (told id p h ∷ told id p g ∷ []))
            id in
        (HashMap.get d'.locals id ≡ none)
        × (lookup
              (registry_of d'.server k)
              (register k d.server (local_properties instance_name p) h).0
            ≡ some (record { properties = local_properties instance_name p; item = h }))
  unfolding add_items add_item remove_item
  twice_told_leaks d id p h g v room =
      let p' = local_properties instance_name p in
      let first = register k d.server p' h in
      let second = register k first.1 p' g in
      let m1 = HashMap.insert d.locals id first.0 in
      let m2 = HashMap.insert m1 id second.0 in
      let found : HashMap.get m2 id ≡ some second.0 = get-insert m1 id id second.0 ∙ ground arith in
      rw (add_item, add_items, found, remove_item)
        (get-remove m2 id id ∙ ground arith, second_unregistered k d.server p' p' h g v room)
