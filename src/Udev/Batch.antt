-- ===== src/Udev/Batch.antt =====
-- A batch of registrations, and the histories of the registrations.
use boardswarm.Prelude.{
  ℕ, ◌+◌, ◌≡◌, refl, true, ◌&&◌, List, [], ◌∷◌, arith, ◌==◌, nat_eq, string_eq, if◌then◌else◌, inl,
  inr, Bool-cases, length,
}
use boardswarm.Collections.HashMap
use boardswarm.Collections.HashMap.{HashMap}
use boardswarm.Registry.Properties.{Properties}
use boardswarm.Server.Items.{
  Server, ItemType, actuator, console, volume, type_eq, type_beq_iff, register,
}
use boardswarm.Server.Calls.{
  lookup-register, IsValidServer, Room, register-IsValidServer, next-register, register_fresh,
}
use boardswarm.Udev.Registrations.{
  Registration, actuator_id, console_id, volume_id, registered, DeviceRegistrations,
  PreRegistration, GuardCall, register_actuator, register_console, register_volume, guard_call,
  guard_calls, is_pending, drop_pre, batch,
}
use boardswarm.Udev.Counting.{
  tracked_in, tracked_by, tracked_in-append, Distinct-insert, Distinct-remove, tracked-insert,
  tracked-remove,
}
use boardswarm.Udev.Ownership.{live, IsOwned}

module _ {H : Type 0} where
  -- One more item is live: the registered one.
  live-register :
      (j : ItemType) (s : Server H) (p : Properties) (h : H) (k : ItemType) (i : ℕ)
      → IsValidServer s
      → live (register j s p h).1 k i
        ≡ live s k i + (if j == k && (register j s p h).0 == i then 1 else 0)
  live-register j s p h k i v =
      ground (arith, lookup-register j s p h k i, register_fresh j s p h v, type_beq_iff j k)

  -- What a batch has done so far: what it tracks is what it added.
  record Grown (s : Server H) (rs : List Registration) (n : ℕ) (o : Server H × List Registration)
      : Type 0 where
    valid : IsValidServer o.0
    room : Room n o.0
    balance :
        (k : ItemType) (i : ℕ) → live o.0 k i + tracked_in k i rs ≡ live s k i + tracked_in k i o.1

  guard_call-Grown :
      (s : Server H) (rs : List Registration) (c : GuardCall H) (n : ℕ)
      → IsValidServer s
      → Room (n + 1) s
      → Grown s rs n (guard_call s rs c)
  unfolding guard_call
  guard_call-Grown s rs (register_actuator p h) n v room = record {
    valid = register-IsValidServer actuator s p h (λ k. omega (arith, room k)) v;
    room = next-register actuator s p h n room;
    balance = λ k i.
        let r = actuator_id (register actuator s p h).0 in
        omega (arith, tracked_in-append k i rs (r ∷ []), live-register actuator s p h k i v);
  }
  guard_call-Grown s rs (register_console p h) n v room = record {
    valid = register-IsValidServer console s p h (λ k. omega (arith, room k)) v;
    room = next-register console s p h n room;
    balance = λ k i.
        let r = console_id (register console s p h).0 in
        omega (arith, tracked_in-append k i rs (r ∷ []), live-register console s p h k i v);
  }
  guard_call-Grown s rs (register_volume p h) n v room = record {
    valid = register-IsValidServer volume s p h (λ k. omega (arith, room k)) v;
    room = next-register volume s p h n room;
    balance = λ k i.
        let r = volume_id (register volume s p h).0 in
        omega (arith, tracked_in-append k i rs (r ∷ []), live-register volume s p h k i v);
  }

  guard_calls-Grown :
      (s : Server H) (rs : List Registration) (cs : List (GuardCall H)) (n : ℕ)
      → IsValidServer s
      → Room (n + length cs) s
      → Grown s rs n (guard_calls s rs cs)
  unfolding guard_calls
  guard_calls-Grown s rs [] n v room = record {
    valid = v;
    room = λ k. omega (arith, room k);
    balance = λ k i. refl;
  }
  guard_calls-Grown s rs (c ∷ cs) n v room =
      let first : Grown s rs (n + length cs) (guard_call s rs c) =
        guard_call-Grown s rs c (n + length cs) v (λ k. omega (arith, room k)) in
      let (s', rs') = guard_call s rs c in
      let later : Grown s' rs' n (guard_calls s' rs' cs) =
        guard_calls-Grown s' rs' cs n first.valid first.room in
      record {
        valid = later.valid;
        room = later.room;
        balance = λ k i. omega (arith, first.balance k i, later.balance k i);
      }

  -- A pending entry tracks nothing.
  is_pending-untracked :
      (d : DeviceRegistrations H) (p : PreRegistration) (k : ItemType) (i : ℕ)
      → is_pending d p ≡ true
      → tracked_by k i (HashMap.get d.registrations p.syspath) ≡ 0
  unfolding is_pending
  is_pending-untracked d p k i h = ground arith

  pub drop_pre-IsOwned :
      (foreign : ItemType → ℕ → ℕ) (d : DeviceRegistrations H) (p : PreRegistration)
      → IsOwned foreign d
      → IsOwned foreign (drop_pre d p)
  unfolding drop_pre
  drop_pre-IsOwned foreign d p o = elim (Bool-cases (is_pending d p)) [
    | inl mine ↦
        rw (mine, drop_pre)
          (record {
            valid = o.valid;
            distinct = Distinct-remove p.syspath d.registrations o.distinct;
            owned = λ k i. omega (
              arith,
              o.owned k i,
              tracked-remove k i p.syspath d.registrations o.distinct,
              is_pending-untracked d p k i mine,
            );
          })
    | inr other ↦ rw (other, drop_pre) o
  ]

  pub batch-IsOwned :
      (foreign : ItemType → ℕ → ℕ) (d : DeviceRegistrations H) (p : PreRegistration)
      (cs : List (GuardCall H))
      → Room (length cs) d.server
      → IsOwned foreign d
      → IsOwned foreign (batch d p cs)
  unfolding batch
  batch-IsOwned foreign d p cs room o =
      let g : Grown d.server [] 0 (guard_calls d.server [] cs) =
        guard_calls-Grown d.server [] cs 0 o.valid (λ k. omega (arith, room k)) in
      let rs = (guard_calls d.server [] cs).1 in
      elim (Bool-cases (is_pending d p)) [
        | inl mine ↦
            rw (mine, batch)
              (record {
                valid = g.valid;
                distinct = Distinct-insert p.syspath (registered rs) d.registrations o.distinct;
                owned = λ k i. omega (
                  arith,
                  o.owned k i,
                  g.balance k i,
                  tracked-insert k i p.syspath (registered rs) d.registrations o.distinct,
                  is_pending-untracked d p k i mine,
                );
              })
        | inr other ↦ rw (other, batch) o
      ]

  pub room-batch :
      (d : DeviceRegistrations H) (p : PreRegistration) (cs : List (GuardCall H)) (n : ℕ)
      → IsValidServer d.server
      → Room (n + length cs) d.server
      → Room n (batch d p cs).server
  unfolding batch
  room-batch d p cs n v room =
      let g : Grown d.server [] n (guard_calls d.server [] cs) =
        guard_calls-Grown d.server [] cs n v room in
      elim (Bool-cases (is_pending d p)) [
        | inl mine ↦ rw (mine, batch) g.room
        | inr other ↦ rw (other, batch) (λ k. omega (arith, room k))
      ]
