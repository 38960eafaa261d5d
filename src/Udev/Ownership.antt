-- ===== src/Udev/Ownership.antt =====
-- Every item that a udev device brought is tracked once, and nothing else is.
use boardswarm.Prelude.{
  ℕ, ◌+◌, ◌≡◌, refl, Option, none, some, List, [], ◌∷◌, arith, String, nat_eq, string_eq,
  if◌then◌else◌, is_some, nat_beq,
}
use boardswarm.Collections.HashMap
use boardswarm.Collections.HashMap.{HashMap}
use boardswarm.Registry.Store.{lookup}
use boardswarm.Server.Items.{Server, ItemType, actuator, console, volume, type_eq, registry_of}
use boardswarm.Server.Calls.{lookup-unregister, IsValidServer, unregister-IsValidServer}
use boardswarm.Udev.Registrations.{
  Registration, actuator_id, console_id, volume_id, RegistrationState, pending, registered,
  DeviceRegistrations, unregister_one, unregister_all, drop_state, pre_register, remove,
}
use boardswarm.Udev.Counting.{
  is_for, tracked_in, tracked_by, tracked, Distinct, Distinct-insert, Distinct-remove,
  tracked-insert, tracked-remove,
}

module _ {H : Type 0} where
  abbrev pub live : Server H → ItemType → ℕ → ℕ
  live s k i = if is_some (lookup (registry_of s k) i) then 1 else 0

  live-unregister_one :
      (s : Server H) (r : Registration) (k : ItemType) (i : ℕ)
      → live (unregister_one s r) k i ≡ (if nat_beq (is_for k i r) 0 then live s k i else 0)
  unfolding unregister_one
  live-unregister_one s (actuator_id id) k i = ground (arith, lookup-unregister actuator s id k i)
  live-unregister_one s (console_id id) k i = ground (arith, lookup-unregister console s id k i)
  live-unregister_one s (volume_id id) k i = ground (arith, lookup-unregister volume s id k i)

  pub live-unregister_all :
      (s : Server H) (rs : List Registration) (k : ItemType) (i : ℕ)
      → live (unregister_all s rs) k i ≡ (if nat_beq (tracked_in k i rs) 0 then live s k i else 0)
  unfolding unregister_all
  live-unregister_all s [] k i = refl
  live-unregister_all s (r ∷ rs) k i =
      ground (arith, live-unregister_all (unregister_one s r) rs k i, live-unregister_one s r k i)

  unregister_one-IsValidServer :
      (s : Server H) (r : Registration) → IsValidServer s → IsValidServer (unregister_one s r)
  unfolding unregister_one
  unregister_one-IsValidServer s (actuator_id id) v = unregister-IsValidServer actuator s id v
  unregister_one-IsValidServer s (console_id id) v = unregister-IsValidServer console s id v
  unregister_one-IsValidServer s (volume_id id) v = unregister-IsValidServer volume s id v

  unregister_all-IsValidServer :
      (s : Server H) (rs : List Registration)
      → IsValidServer s
      → IsValidServer (unregister_all s rs)
  unfolding unregister_all
  unregister_all-IsValidServer s [] v = v
  unregister_all-IsValidServer s (r ∷ rs) v =
      unregister_all-IsValidServer (unregister_one s r) rs (unregister_one-IsValidServer s r v)

  -- What a state tracks is gone once it is dropped, and all else stays.
  pub live-drop_state :
      (s : Server H) (o : Option RegistrationState) (k : ItemType) (i : ℕ)
      → live (drop_state s o) k i ≡ (if nat_beq (tracked_by k i o) 0 then live s k i else 0)
  unfolding drop_state
  live-drop_state s none k i = refl
  live-drop_state s (some (pending n)) k i = refl
  live-drop_state s (some (registered rs)) k i = live-unregister_all s rs k i

  drop_state-IsValidServer :
      (s : Server H) (o : Option RegistrationState)
      → IsValidServer s
      → IsValidServer (drop_state s o)
  unfolding drop_state
  drop_state-IsValidServer s none v = v
  drop_state-IsValidServer s (some (pending n)) v = v
  drop_state-IsValidServer s (some (registered rs)) v = unregister_all-IsValidServer s rs v

  -- `foreign` counts the items of other providers. An item is in the server exactly when it is
  -- foreign or tracked, and it is never both, nor tracked twice.
  pub record IsOwned (foreign : ItemType → ℕ → ℕ) (d : DeviceRegistrations H) : Type 0 where
    pub valid : IsValidServer d.server
    pub distinct : Distinct d.registrations
    pub owned :
        (k : ItemType) (i : ℕ) → tracked k i d.registrations + foreign k i ≡ live d.server k i

  pub pre_register-IsOwned :
      (foreign : ItemType → ℕ → ℕ) (d : DeviceRegistrations H) (path : String) (seqnum : ℕ)
      → IsOwned foreign d
      → IsOwned foreign (pre_register d path seqnum).1
  unfolding pre_register
  pre_register-IsOwned foreign d path seqnum o = record {
    valid = drop_state-IsValidServer d.server _ o.valid;
    distinct = Distinct-insert path (pending seqnum) d.registrations o.distinct;
    owned = λ k i. ground (
      arith,
      o.owned k i,
      tracked-insert k i path (pending seqnum) d.registrations o.distinct,
      live-drop_state d.server (HashMap.get d.registrations path) k i,
    );
  }

  pub remove-IsOwned :
      (foreign : ItemType → ℕ → ℕ) (d : DeviceRegistrations H) (path : String)
      → IsOwned foreign d
      → IsOwned foreign (remove d path)
  unfolding remove
  remove-IsOwned foreign d path o = record {
    valid = drop_state-IsValidServer d.server _ o.valid;
    distinct = Distinct-remove path d.registrations o.distinct;
    owned = λ k i. ground (
      arith,
      o.owned k i,
      tracked-remove k i path d.registrations o.distinct,
      live-drop_state d.server (HashMap.get d.registrations path) k i,
    );
  }
