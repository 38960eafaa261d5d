-- ===== src/Client/Waiting.antt =====
-- That a client which waits for a volume or a console is not left asleep.
use boardswarm.Prelude.{
  ◌+◌, ◌≤◌, ◌≢◌, ◌≡◌, refl, sym, subst, Bool, true, false, Option, none, some, List, [], ◌∷◌, arith,
  Outcome, ok, err, ◌==◌, nat_eq, Bool-cases, inl, inr,
}
use boardswarm.Status.{Status}
use boardswarm.Device.Watching.{DeviceView}
use boardswarm.Client.Device.{
  ClientDevice, store_update, tell_update, Waiter, looking, awaiting, arrived, start_wait, look,
  poll_changed, Step, stores, tells, looks, polls, stored, step, steps,
}

tell-nothing : (d : ClientDevice) → d.to_tell ≡ false → tell_update d ≡ d
unfolding tell_update
tell-nothing d e = rw (e, tell_update) refl

tell-update :
    (d : ClientDevice)
    → d.to_tell ≡ true
    → tell_update d ≡ record d { version = d.version + 1; to_tell = false }
unfolding tell_update
tell-update d e = rw (e, tell_update) refl

store-over :
    (d : ClientDevice) (u : Option (Outcome DeviceView Status))
    → d.ended ≡ true
    → store_update d u ≡ d
unfolding store_update
store-over d u e = rw (e, store_update) refl

store-live :
    (d : ClientDevice) (u : Option (Outcome DeviceView Status))
    → d.ended ≡ false
    → store_update d u ≡ stored (tell_update d) u
unfolding store_update
store-live d u e = rw (e, store_update) refl

module _ (wanted : DeviceView → Bool) where
  -- A waiter that has seen all that was told waits for what is not so, unless an update is to be told.
  abbrev pub IsAwake : ClientDevice × Waiter → Type 0
  IsAwake (d, looking seen) = seen ≤ d.version
  IsAwake (d, awaiting seen) =
      (seen ≤ d.version) × (seen ≡ d.version → d.to_tell ≡ false → wanted d.device ≡ false)
  IsAwake (d, arrived) = Unit {0}

  stored-IsAwake :
      (d : ClientDevice) (w : Waiter) (u : Option (Outcome DeviceView Status))
      → IsAwake (d, w)
      → IsAwake (stored d u, w)
  stored-IsAwake d (looking seen) (some (ok info)) h = h
  stored-IsAwake d (looking seen) (some (err e)) h = h
  stored-IsAwake d (looking seen) none h = h
  stored-IsAwake d (awaiting seen) (some (ok info)) (le, asleep) = (le, λ _ told. cc)
  stored-IsAwake d (awaiting seen) (some (err e)) h = h
  stored-IsAwake d (awaiting seen) none h = h
  stored-IsAwake d arrived u h = tt

  told-IsAwake : (d : ClientDevice) (w : Waiter) → IsAwake (d, w) → IsAwake (tell_update d, w)
  unfolding tell_update
  told-IsAwake d w h = elim (Bool-cases d.to_tell) [
    | inr nothing ↦ subst (λ x. IsAwake (x, w)) (sym (tell-nothing d nothing)) h
    | inl update ↦ subst (λ x. IsAwake (x, w)) (sym (tell-update d update)) (told w h)
  ]
    where
      told :
          (w : Waiter)
          → IsAwake (d, w)
          → IsAwake (record d { version = d.version + 1; to_tell = false }, w)
      told (looking seen) h = omega (arith, h)
      told (awaiting seen) (le, asleep) = (omega (arith, le), λ e. absurd (omega (arith, le, e)))
      told arrived h = tt

  step-IsAwake : (x : ClientDevice × Waiter) (s : Step) → IsAwake x → IsAwake (step wanted x s)
  unfolding step store_update look poll_changed
  step-IsAwake (d, w) (stores u) h = elim (Bool-cases d.ended) [
    | inl over ↦ subst (λ x. IsAwake (x, w)) (sym (store-over d u over)) h
    | inr goes_on ↦
        subst (λ x. IsAwake (x, w)) (sym (store-live d u goes_on))
          (stored-IsAwake (tell_update d) w u (told-IsAwake d w h))
  ]
  step-IsAwake (d, w) tells h = told-IsAwake d w h
  step-IsAwake (d, looking seen) looks h = elim (Bool-cases (wanted d.device)) [
    | inl there ↦ rw there tt
    | inr missing ↦ rw missing (h, λ _ _. missing)
  ]
  step-IsAwake (d, awaiting seen) looks h = h
  step-IsAwake (d, arrived) looks h = h
  step-IsAwake (d, looking seen) polls h = h
  step-IsAwake (d, awaiting seen) polls h = elim (Bool-cases (d.version == seen)) [
    | inl same ↦ rw same h
    | inr changed ↦ rw changed (omega arith)
  ]
  step-IsAwake (d, arrived) polls h = h

  steps-IsAwake :
      (x : ClientDevice × Waiter) (ss : List Step) → IsAwake x → IsAwake (steps wanted x ss)
  unfolding steps
  steps-IsAwake x [] h = h
  steps-IsAwake x (s ∷ ss) h = steps-IsAwake (step wanted x s) ss (step-IsAwake x s h)

  awake_arrives :
      (d : ClientDevice) (w : Waiter)
      → IsAwake (d, w)
      → d.to_tell ≡ false
      → wanted d.device ≡ true
      → (steps wanted (d, w) (looks ∷ polls ∷ looks ∷ [])).1 ≡ arrived
  unfolding steps step look poll_changed
  awake_arrives d (looking seen) h told there = rw there refl
  awake_arrives d (awaiting seen) (le, asleep) told there = elim (Bool-cases (d.version == seen)) [
    | inl same ↦ let missing = asleep (sym ((nat_eq.beq_iff d.version seen).0 same)) told in cc
    | inr changed ↦ rw (changed, there) refl
  ]
  awake_arrives d arrived h told there = refl

  -- A client that waits for a volume or a console, or for one to be gone, is not left asleep:
  -- however the waiting task and the one that follows the server take turns, once what it waits
  -- for is so and has been told, the wait is over after a look, a poll and a look.
  pub wait_arrives :
      (d : ClientDevice) (ss : List Step)
      → (steps wanted (d, start_wait d) ss).0.to_tell ≡ false
      → wanted (steps wanted (d, start_wait d) ss).0.device ≡ true
      → (steps wanted (steps wanted (d, start_wait d) ss) (looks ∷ polls ∷ looks ∷ [])).1 ≡ arrived
  unfolding start_wait
  wait_arrives d ss told there =
      let x = steps wanted (d, start_wait d) ss in
      awake_arrives x.0 x.1 (steps-IsAwake (d, start_wait d) ss (omega arith)) told there

  -- A task that follows the server has ended, and has nothing to tell.
  stuck_step :
      (d : ClientDevice) (w : Waiter) (s : Step)
      → d.ended ≡ true
      → d.to_tell ≡ false
      → wanted d.device ≡ false
      → w ≢ arrived
      → ((step wanted (d, w) s).0 ≡ d) × ((step wanted (d, w) s).1 ≢ arrived)
  unfolding step look poll_changed
  stuck_step d w (stores u) over told missing waits = (store-over d u over, waits)
  stuck_step d w tells over told missing waits = (tell-nothing d told, waits)
  stuck_step d (looking seen) looks over told missing waits = rw missing (refl, λ e. cc)
  stuck_step d (awaiting seen) looks over told missing waits = (refl, waits)
  stuck_step d arrived looks over told missing waits = (refl, waits)
  stuck_step d (looking seen) polls over told missing waits = (refl, waits)
  stuck_step d arrived polls over told missing waits = (refl, waits)
  stuck_step d (awaiting seen) polls over told missing waits =
      elim (Bool-cases (d.version == seen)) [
        | inl same ↦ rw same (refl, λ e. cc)
        | inr changed ↦ rw changed (refl, λ e. cc)
      ]

  stuck_steps :
      (d : ClientDevice) (w : Waiter) (ss : List Step)
      → d.ended ≡ true
      → d.to_tell ≡ false
      → wanted d.device ≡ false
      → w ≢ arrived
      → (steps wanted (d, w) ss).1 ≢ arrived
  unfolding steps
  stuck_steps d w [] over told missing waits = waits
  stuck_steps d w (s ∷ ss) over told missing waits =
      let (same, waits') = stuck_step d w s over told missing waits in
      subst (λ x. (steps wanted (x, (step wanted (d, w) s).1) ss).1 ≢ arrived) (sym same)
        (stuck_steps d (step wanted (d, w) s).1 ss over told missing waits')

  -- A wait that starts when the task which follows the server has ended, with nothing left to
  -- tell, and what it waits for is not so, never returns, however the tasks take turns.
  pub wait_never_returns :
      (d : ClientDevice) (ss : List Step)
      → d.ended ≡ true
      → d.to_tell ≡ false
      → wanted d.device ≡ false
      → (steps wanted (d, start_wait d) ss).1 ≢ arrived
  unfolding start_wait
  wait_never_returns d ss over told missing =
      stuck_steps d (looking d.version) ss over told missing (λ e. cc)
