-- ===== src/Udev/History.antt =====
-- Histories of the registrations: udev events and the preparations that they start, in any order.
use boardswarm.Prelude.{
  ℕ, ◌+◌, ◌≡◌, Option, none, some, List, [], ◌∷◌, arith, String, length, string_eq, inl, inr,
  Bool-cases,
}
use boardswarm.Server.Items.{Server, ItemType}
use boardswarm.Server.Calls.{IsValidServer, Room, next-unregister}
use boardswarm.Udev.Registrations.{
  Registration, RegistrationState, pending, registered, DeviceRegistrations, PreRegistration,
  GuardCall, new, unregister_one, unregister_all, drop_state, pre_register, remove, is_pending,
  drop_pre, batch, register_batch,
}
use boardswarm.Udev.Counting.{tracked}
use boardswarm.Udev.Ownership.{live, IsOwned, pre_register-IsOwned, remove-IsOwned}
use boardswarm.Udev.Batch.{drop_pre-IsOwned, batch-IsOwned, room-batch}

pub data Event (H : Type 0) : Type 0 where
  pre_registers : String → ℕ → Event H
  registers : PreRegistration → List (GuardCall H) → Event H
  gives_up : PreRegistration → Event H
  disappears : String → Event H

module _ {H : Type 0} where
  unfoldable pub step : DeviceRegistrations H → Event H → DeviceRegistrations H
  step d (pre_registers path seqnum) = (pre_register d path seqnum).1
  step d (registers p cs) = register_batch d p cs
  step d (gives_up p) = drop_pre d p
  step d (disappears path) = remove d path

  unfoldable pub run : DeviceRegistrations H → List (Event H) → DeviceRegistrations H
  run d [] = d
  run d (e ∷ es) = run (step d e) es

  -- The ids that an event can use up.
  abbrev pub cost : Event H → ℕ
  cost (registers p cs) = length cs
  cost _ = 0

  abbrev pub costs : List (Event H) → ℕ
  costs [] = 0
  costs (e ∷ es) = cost e + costs es

  room-unregister_one :
      (s : Server H) (r : Registration) (n : ℕ) → Room n s → Room n (unregister_one s r)
  unfolding unregister_one
  room-unregister_one s (Registration.actuator_id id) n room = next-unregister _ s id n room
  room-unregister_one s (Registration.console_id id) n room = next-unregister _ s id n room
  room-unregister_one s (Registration.volume_id id) n room = next-unregister _ s id n room

  room-unregister_all :
      (s : Server H) (rs : List Registration) (n : ℕ) → Room n s → Room n (unregister_all s rs)
  unfolding unregister_all
  room-unregister_all s [] n room = room
  room-unregister_all s (r ∷ rs) n room =
      room-unregister_all (unregister_one s r) rs n (room-unregister_one s r n room)

  room-drop_state :
      (s : Server H) (o : Option RegistrationState) (n : ℕ) → Room n s → Room n (drop_state s o)
  unfolding drop_state
  room-drop_state s none n room = room
  room-drop_state s (some (pending q)) n room = room
  room-drop_state s (some (registered rs)) n room = room-unregister_all s rs n room

  room-drop_pre :
      (d : DeviceRegistrations H) (p : PreRegistration) (n : ℕ)
      → Room n d.server
      → Room n (drop_pre d p).server
  unfolding drop_pre
  room-drop_pre d p n room = elim (Bool-cases (is_pending d p)) [
    | inl mine ↦ rw (mine, drop_pre) room
    | inr other ↦ rw (other, drop_pre) room
  ]

  room-step :
      (d : DeviceRegistrations H) (e : Event H) (n : ℕ)
      → IsValidServer d.server
      → Room (n + cost e) d.server
      → Room n (step d e).server
  unfolding step pre_register remove register_batch
  room-step d (pre_registers path seqnum) n v room =
      room-drop_state d.server _ n (λ k. omega (arith, room k))
  room-step d (registers p cs) n v room =
      room-drop_pre (batch d p cs) p n (room-batch d p cs n v room)
  room-step d (gives_up p) n v room = room-drop_pre d p n (λ k. omega (arith, room k))
  room-step d (disappears path) n v room = room-drop_state d.server _ n (λ k. omega (arith, room k))

  -- Every event keeps the ownership of the items, as long as there are ids for what it registers.
  pub step-IsOwned :
      (foreign : ItemType → ℕ → ℕ) (d : DeviceRegistrations H) (e : Event H)
      → Room (cost e) d.server
      → IsOwned foreign d
      → IsOwned foreign (step d e)
  unfolding step register_batch
  step-IsOwned foreign d (pre_registers path seqnum) room o =
      pre_register-IsOwned foreign d path seqnum o
  step-IsOwned foreign d (registers p cs) room o =
      drop_pre-IsOwned foreign (batch d p cs) p (batch-IsOwned foreign d p cs room o)
  step-IsOwned foreign d (gives_up p) room o = drop_pre-IsOwned foreign d p o
  step-IsOwned foreign d (disappears path) room o = remove-IsOwned foreign d path o

  pub run-IsOwned :
      (foreign : ItemType → ℕ → ℕ) (d : DeviceRegistrations H) (es : List (Event H))
      → Room (costs es) d.server
      → IsOwned foreign d
      → IsOwned foreign (run d es)
  unfolding run
  run-IsOwned foreign d [] room o = o
  run-IsOwned foreign d (e ∷ es) room o =
      run-IsOwned foreign (step d e) es
        (room-step d e (costs es) o.valid (λ k. omega (arith, room k)))
        (step-IsOwned foreign d e (λ k. omega (arith, room k)) o)

  -- After any history of udev events and preparations over a valid server with ids left for it, an
  -- item is in the server exactly when it was there before or is tracked by one registration,
  -- once: no item leaks, and no item of another provider is touched.
  pub no_item_leaks :
      (s : Server H) (es : List (Event H)) (k : ItemType) (i : ℕ)
      → IsValidServer s
      → Room (costs es) s
      → tracked k i (run (new s) es).registrations + live s k i ≡ live (run (new s) es).server k i
  unfolding new
  no_item_leaks s es k i v room =
      let start : IsOwned (live s) (new s) = record {
        valid = v;
        distinct = tt;
        owned = λ j n. omega arith;
      } in
      (run-IsOwned (live s) (new s) es room start).owned k i
