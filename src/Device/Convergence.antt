-- ===== src/Device/Convergence.antt =====
-- A client that watches a device comes to see it as it is, and where it does not.
use boardswarm.Prelude.{
  ℕ, zero, suc, ◌+◌, ◌-◌, ◌≤◌, ◌<◌, ◌≡◌, ◌≢◌, refl, sym, ap, ◌∙◌, List, [], ◌∷◌, arith, String,
  Outcome, ok, err, Bool-cases, inl, inr, ◌⊎◌, Bool, ltb,
}
use boardswarm.Server.Items.{Server}
use boardswarm.Device.Monitor.{Device, on_message_or_resync}
use boardswarm.Device.Modes.{
  DeviceSetModeError, actuator_failed, mode_not_found, wrong_current_mode, set_mode,
}
use boardswarm.Device.Switching.{Promise, set_mode_keeps_Promise}
use boardswarm.Device.Watching.{
  view, Recv, received, lagged, waiting, still_waiting, woken, wait, Watcher, poll_info, Moment,
  changes, switches, polls, Watched, at_moment, at_moments,
}
use boardswarm.Device.Watchers.{Tells, on_message-Tells}

-- A broadcast channel: where nothing was sent since, a receiver waits; else it is given a value, or
-- learns that it is late and skips ahead, short of the last.
pub record IsBroadcast (recv : ℕ → ℕ → Recv) : Type 0 where
  pub quiet : (seen sent : ℕ) → sent ≤ seen → recv seen sent ≡ waiting
  pub news :
      (seen sent : ℕ)
      → seen < sent
      → ((k : ℕ) × (recv seen sent ≡ received k) × (seen < k) × (k ≤ sent))
        ⊎ ((k : ℕ) × (recv seen sent ≡ lagged k) × (seen < k) × (k < sent))

module _ (recv : ℕ → ℕ → Recv) where
  wait_woken :
      (fuel seen sent : ℕ)
      → IsBroadcast recv
      → seen < sent
      → sent - seen < fuel
      → (k : ℕ) × (wait recv fuel seen sent ≡ woken k) × (seen < k) × (k ≤ sent)
  unfolding wait
  wait_woken zero seen sent law new enough = absurd (omega arith)
  wait_woken (suc fuel) seen sent law new enough = elim (law.news seen sent new) [
    | inl (k, e, ahead, within) ↦ rw (e, wait) (k, refl, ahead, within)
    | inr (k, e, ahead, within) ↦
        let (j, e', ahead', within') =
          wait_woken fuel k sent law within (omega (arith, enough, ahead)) in
        rw (e, wait) (j, e', omega (arith, ahead, ahead'), within')
  ]

  wait_quiet :
      (fuel seen sent : ℕ)
      → IsBroadcast recv
      → sent ≤ seen
      → wait recv (fuel + 1) seen sent ≡ still_waiting
  unfolding wait
  wait_quiet fuel seen sent law old =
      let e : fuel + 1 ≡ suc fuel = omega arith in rw (e, law.quiet seen sent old, wait) refl

  module _ {P : Type 0} where
    -- A watcher that has seen all that was sent shows the device as it is.
    abbrev pub Shows : Watcher → Device P → Type 0
    Shows w d = (w.seen ≤ d.notified) × (w.seen ≡ d.notified → w.shown ≡ view d)

    pub poll_info_lem :
        (w : Watcher) (d : Device P)
        → IsBroadcast recv
        → w.seen ≤ d.notified
        → ((w.seen ≡ d.notified) × (poll_info recv w d ≡ w))
          ⊎ ((w.seen < (poll_info recv w d).seen)
              × ((poll_info recv w d).seen ≤ d.notified)
              × ((poll_info recv w d).shown ≡ view d))
    poll_info_lem w d law within = elim (Bool-cases (ltb w.seen d.notified)) [
      | inr all ↦
          let same : w.seen ≡ d.notified = ground (arith, all, within) in
          inl (
            same,
            unfold poll_info in
                rw
                  (
                    wait_quiet (d.notified - w.seen) w.seen d.notified law (omega (arith, same)),
                    poll_info,
                  )
                  refl,
          )
      | inl more ↦
          let (k, e, ahead, up_to) =
            wait_woken (d.notified - w.seen + 1) w.seen d.notified law (ground (arith, more))
              (omega arith) in
          inr (unfold poll_info in rw (e, poll_info) (ahead, up_to, refl))
    ]

    poll_info-Shows :
        (w : Watcher) (d : Device P) → IsBroadcast recv → Shows w d → Shows (poll_info recv w d) d
    poll_info-Shows w d law h = elim (poll_info_lem w d law h.0) [
      | inl (same, stays) ↦ rw stays h
      | inr (ahead, up_to, shows) ↦ (up_to, λ e. shows)
    ]

    -- So many polls in a row.
    unfoldable pub drain : ℕ → Watcher → Device P → Watcher
    unfolding poll_info
    drain zero w d = w
    drain (suc n) w d = drain n (poll_info recv w d) d

    drain-Shows :
        (n : ℕ) (w : Watcher) (d : Device P)
        → IsBroadcast recv
        → Shows w d
        → d.notified - w.seen ≤ n
        → (drain n w d).shown ≡ view d
    unfolding drain
    drain-Shows zero w d law h enough = h.1 (omega (arith, h.0, enough))
    drain-Shows (suc n) w d law h enough =
        drain-Shows n (poll_info recv w d) d law (poll_info-Shows w d law h)
          (elim (poll_info_lem w d law h.0) [
            | inl (same, stays) ↦ rw stays (omega (arith, same))
            | inr (ahead, up_to, shows) ↦ omega (arith, ahead, enough)
          ])

module _ {P H W : Type 0} (recv : ℕ → ℕ → Recv) (configure : H → P → W → W)
    (server_of : W → Server H) (actuate : H → P → W → W × Bool) (sleep : ℕ → W → W) where
  switched-Tells :
      (d d' : Device P) (mode : String) (w v : W) (r : Outcome (Unit {0}) DeviceSetModeError)
      → Promise server_of actuate sleep d mode w (record { device = d'; world = v; result = r })
      → r ≢ err actuator_failed
      → Tells d d'
  switched-Tells d d' mode w v (ok tt) (target, found, met, ran, e) whole = (
    omega (arith, ap (λ x. x.notified) e),
    λ h. absurd (omega (arith, h, ap (λ x. x.notified) e)),
  )
  switched-Tells d d' mode w v (err mode_not_found) (missing, e, same) whole =
      (omega (arith, ap (λ x. x.notified) e), λ h. ap view e)
  switched-Tells d d' mode w v (err wrong_current_mode) (target, found, unmet, e, same) whole =
      (omega (arith, ap (λ x. x.notified) e), λ h. ap view e)
  switched-Tells d d' mode w v (err actuator_failed) p whole = absurd (whole refl)

  -- No switch of the mode breaks off at a step.
  abbrev pub Whole : Watched P W → Moment H → Type 0
  Whole x (changes s m) = Unit
  Whole x (switches mode) =
      (set_mode server_of actuate sleep x.device mode x.world).result ≢ err actuator_failed
  Whole x polls = Unit

  abbrev pub AllWhole : Watched P W → List (Moment H) → Type 0
  AllWhole x [] = Unit
  AllWhole x (m ∷ ms) =
      Whole x m × AllWhole (at_moment recv configure server_of actuate sleep x m) ms

  told-Shows :
      (watcher : Watcher) (d d' : Device P)
      → Shows recv watcher d
      → Tells d d'
      → Shows recv watcher d'
  told-Shows watcher d d' h (more, silent) = (
    omega (arith, h.0, more),
    λ e.
        let same : watcher.seen ≡ d.notified = omega (arith, e, h.0, more) in
        h.1 same ∙ sym (silent (sym e ∙ same)),
  )

  at_moment-Shows :
      (x : Watched P W) (m : Moment H)
      → IsBroadcast recv
      → Whole x m
      → Shows recv x.watcher x.device
      → let x' = at_moment recv configure server_of actuate sleep x m in
        Shows recv x'.watcher x'.device
  unfolding at_moment
  at_moment-Shows x (changes s m) law whole h =
      told-Shows x.watcher x.device (on_message_or_resync configure s x.device x.world m).0 h
        (on_message-Tells configure s x.device x.world m)
  at_moment-Shows x (switches mode) law whole h =
      let r = set_mode server_of actuate sleep x.device mode x.world in
      told-Shows x.watcher x.device r.device h (
        switched-Tells x.device r.device mode x.world r.world r.result
          (set_mode_keeps_Promise server_of actuate sleep x.device mode x.world) whole)
  at_moment-Shows x polls law whole h = poll_info-Shows recv x.watcher x.device law h

  -- A client that watches a device, and was last shown what the device was when it had sent what
  -- the client has seen, is shown, when it has taken in all that was sent, what the device is
  -- then: whatever messages reach the device, whatever modes are switched to and whenever the
  -- client polls, if the channel behaves as a broadcast channel and no switch breaks off in its
  -- steps.
  pub watcher_converges :
      (x : Watched P W) (ms : List (Moment H))
      → IsBroadcast recv
      → AllWhole x ms
      → Shows recv x.watcher x.device
      → let x' = at_moments recv configure server_of actuate sleep x ms in
        (drain recv (x'.device.notified - x'.watcher.seen) x'.watcher x'.device).shown
        ≡ view x'.device
  unfolding at_moments
  watcher_converges x [] law whole h =
      drain-Shows recv (x.device.notified - x.watcher.seen) x.watcher x.device law h (omega arith)
  watcher_converges x (m ∷ ms) law whole h =
      watcher_converges (at_moment recv configure server_of actuate sleep x m) ms law whole.1
        (at_moment-Shows x m law whole.0 h)
