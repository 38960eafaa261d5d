-- ===== src/Udev/Races.antt =====
-- A preparation that takes longer than its device stays.
use boardswarm.Prelude.{
  ℕ, ◌≡◌, refl, true, false, some, List, [], ◌∷◌, arith, String, ◌==◌, string_eq, nat_beq,
  if◌then◌else◌, inl, inr, Bool-cases, eq_iff, All, ◌&&◌,
}
use boardswarm.Collections.HashMap
use boardswarm.Collections.HashMap.{HashMap, get-insert, get-remove}
use boardswarm.Udev.Registrations.{
  pending, registered, DeviceRegistrations, PreRegistration, GuardCall, pre_register, remove,
  is_pending, drop_pre, batch, register_batch, guard_calls,
}
use boardswarm.Udev.History.{Event, pre_registers, registers, gives_up, disappears, step, run}

module _ {H : Type 0} where
  -- The state of a path after each operation.
  pub get-pre_register :
      (d : DeviceRegistrations H) (path q : String) (seqnum : ℕ)
      → HashMap.get (pre_register d path seqnum).1.registrations q
        ≡ (if path == q then some (pending seqnum) else HashMap.get d.registrations q)
  unfolding pre_register
  get-pre_register d path q seqnum = get-insert d.registrations path q (pending seqnum)

  -- An entry that is not the pending one stays so, until its device is announced with that number.
  pre_register-stale :
      (d : DeviceRegistrations H) (path : String) (seqnum : ℕ) (p : PreRegistration)
      → (path == p.syspath && nat_beq seqnum p.seqnum) ≡ false
      → is_pending d p ≡ false
      → is_pending (pre_register d path seqnum).1 p ≡ false
  unfolding is_pending
  pre_register-stale d path seqnum p other old =
      ground (arith, get-pre_register d path p.syspath seqnum)

  remove-stale :
      (d : DeviceRegistrations H) (path : String) (p : PreRegistration)
      → is_pending d p ≡ false
      → is_pending (remove d path) p ≡ false
  unfolding is_pending remove
  remove-stale d path p old = ground (arith, get-remove d.registrations path p.syspath)

  drop_pre-stale :
      (d : DeviceRegistrations H) (q p : PreRegistration)
      → is_pending d p ≡ false
      → is_pending (drop_pre d q) p ≡ false
  unfolding drop_pre
  drop_pre-stale d q p old = elim (Bool-cases (is_pending d q)) [
    | inl mine ↦
        rw (mine, drop_pre)
          (unfold is_pending in ground (arith, get-remove d.registrations q.syspath p.syspath))
    | inr other ↦ rw (other, drop_pre) old
  ]

  batch-stale :
      (d : DeviceRegistrations H) (q p : PreRegistration) (cs : List (GuardCall H))
      → is_pending d p ≡ false
      → is_pending (batch d q cs) p ≡ false
  unfolding batch
  batch-stale d q p cs old = elim (Bool-cases (is_pending d q)) [
    | inl mine ↦
        rw (mine, batch)
          (unfold is_pending in
            ground (
              arith,
              get-insert d.registrations q.syspath p.syspath
                  (registered (guard_calls d.server [] cs).1),
            ))
    | inr other ↦ rw (other, batch) old
  ]

  -- The event does not announce the device with the pre-registration's own number.
  abbrev pub Unannounced : PreRegistration → Event H → Type 0
  Unannounced p (pre_registers path seqnum) = (path == p.syspath && nat_beq seqnum p.seqnum) ≡ false
  Unannounced p _ = Unit {0}

  step-stale :
      (d : DeviceRegistrations H) (e : Event H) (p : PreRegistration)
      → Unannounced p e
      → is_pending d p ≡ false
      → is_pending (step d e) p ≡ false
  unfolding step register_batch
  step-stale d (pre_registers path seqnum) p u old = pre_register-stale d path seqnum p u old
  step-stale d (registers q cs) p u old =
      drop_pre-stale (batch d q cs) q p (batch-stale d q p cs old)
  step-stale d (gives_up q) p u old = drop_pre-stale d q p old
  step-stale d (disappears path) p u old = remove-stale d path p old

  run-stale :
      (d : DeviceRegistrations H) (es : List (Event H)) (p : PreRegistration)
      → All (Unannounced p) es
      → is_pending d p ≡ false
      → is_pending (run d es) p ≡ false
  unfolding run
  run-stale d [] p u old = old
  run-stale d (e ∷ es) p u old = run-stale (step d e) es p u.1 (step-stale d e p u.0 old)

  -- A batch whose pre-registration is not the pending one changes nothing: neither the server nor
  -- any registration.
  pub outdated_batch_ignored :
      (d : DeviceRegistrations H) (p : PreRegistration) (cs : List (GuardCall H))
      → is_pending d p ≡ false
      → register_batch d p cs ≡ d
  unfolding register_batch batch drop_pre
  outdated_batch_ignored d p cs old = rw (old, old)

  gone-stale :
      (d : DeviceRegistrations H) (p : PreRegistration) → is_pending (remove d p.syspath) p ≡ false
  unfolding is_pending remove
  gone-stale d p =
      ground (arith, get-remove d.registrations p.syspath p.syspath, eq_iff p.syspath p.syspath)

  -- Once a device has disappeared, what was being prepared for it is never registered, whatever
  -- happens in between, its reappearance under other sequence numbers too, unless the device is
  -- announced again under the same number.
  pub disappeared_never_registers :
      (d : DeviceRegistrations H) (p : PreRegistration) (es : List (Event H))
      (cs : List (GuardCall H))
      → All (Unannounced p) es
      → register_batch (run (remove d p.syspath) es) p cs ≡ run (remove d p.syspath) es
  disappeared_never_registers d p es cs u =
      outdated_batch_ignored (run (remove d p.syspath) es) p cs
        (run-stale (remove d p.syspath) es p u (gone-stale d p))

  is_pending-pre_register :
      (d : DeviceRegistrations H) (path : String) (seqnum : ℕ)
      → is_pending (pre_register d path seqnum).1 (pre_register d path seqnum).0 ≡ true
  unfolding is_pending pre_register
  is_pending-pre_register d path seqnum =
      ground (arith, get-insert d.registrations path path (pending seqnum), eq_iff path path)

  abbrev kept : DeviceRegistrations H → PreRegistration → List (GuardCall H) → DeviceRegistrations H
  kept d p cs = record {
    server = (guard_calls d.server [] cs).0;
    registrations =
        HashMap.insert d.registrations p.syspath (registered (guard_calls d.server [] cs).1);
  }

  kept-done :
      (d : DeviceRegistrations H) (p : PreRegistration) (cs : List (GuardCall H))
      → is_pending (kept d p cs) p ≡ false
  unfolding is_pending
  kept-done d p cs = ground (
    arith,
    get-insert d.registrations p.syspath p.syspath (registered (guard_calls d.server [] cs).1),
    eq_iff p.syspath p.syspath,
  )

  register_batch-kept :
      (d : DeviceRegistrations H) (p : PreRegistration) (cs : List (GuardCall H))
      → is_pending d p ≡ true
      → register_batch d p cs ≡ kept d p cs
  unfolding register_batch batch drop_pre
  register_batch-kept d p cs mine = rw (mine, kept-done d p cs)

  -- A batch whose pre-registration is the pending one is kept: its ids are the registrations of
  -- the path, the server is as its calls left it, and dropping the used pre-registration takes
  -- nothing back.
  pub batch_in_time :
      (d : DeviceRegistrations H) (p : PreRegistration) (cs : List (GuardCall H))
      → is_pending d p ≡ true
      → (HashMap.get (register_batch d p cs).registrations p.syspath
          ≡ some (registered (guard_calls d.server [] cs).1))
        × ((register_batch d p cs).server ≡ (guard_calls d.server [] cs).0)
        × (drop_pre (register_batch d p cs) p ≡ register_batch d p cs)
  batch_in_time d p cs mine = rw (register_batch-kept d p cs mine) (
    ground (
      arith,
      get-insert d.registrations p.syspath p.syspath (registered (guard_calls d.server [] cs).1),
      eq_iff p.syspath p.syspath,
    ),
    refl,
    unfold drop_pre in rw (kept-done d p cs),
  )
