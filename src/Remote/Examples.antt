-- ===== src/Remote/Examples.antt =====
-- A remote volume that is told of twice.
use boardswarm.Prelude.{ℕ, ◌≡◌, none, some, [], ◌∷◌, arith, nat_eq}
use boardswarm.Collections.HashMap
use boardswarm.Registry.Properties.{Properties}
use boardswarm.Registry.Properties
use boardswarm.Registry.Store.{lookup}
use boardswarm.Registry.Store
use boardswarm.Registry.Invariant.{IsValid, new-IsValid}
use boardswarm.Server.Items.{
  Server, ItemType, actuator, device, console, volume, registry_of, register,
}
use boardswarm.Server.Items
use boardswarm.Server.Calls.{Room}
use boardswarm.Remote.Provider.{Provider, add_items, remove_item}
use boardswarm.Remote.Duplicates.{told, local_properties, twice_told_leaks}

abbrev provider : Provider ℕ
provider = record { server = Items.new; locals = []; notified = 0 }

registry-IsValid : (k : ItemType) → IsValid (registry_of provider.server k)
unfolding Items.new Store.new
registry-IsValid actuator = new-IsValid
registry-IsValid device = new-IsValid
registry-IsValid console = new-IsValid
registry-IsValid volume = new-IsValid

provider-Room : Room 1 provider.server
unfolding Items.new Store.new
provider-Room actuator = omega arith
provider-Room device = omega arith
provider-Room console = omega arith
provider-Room volume = omega arith

abbrev disk : Properties
disk = Properties.new "disk"

abbrev after : Provider ℕ
after =
    remove_item volume "lab" (add_items volume "lab" provider (told 7 disk 1 ∷ told 7 disk 2 ∷ []))
      7

twice_told_leaks_example :
    (HashMap.get after.locals 7 ≡ none)
    × (lookup
          (registry_of after.server volume)
          (register volume provider.server (local_properties "lab" disk) 1).0
        ≡ some (record { properties = local_properties "lab" disk; item = 1 }))
twice_told_leaks_example =
    twice_told_leaks volume "lab" provider 7 disk 1 2 (record { valid = registry-IsValid })
      provider-Room
