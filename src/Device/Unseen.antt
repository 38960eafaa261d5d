-- ===== src/Device/Unseen.antt =====
-- Changes of a device that a client which watches it is not told of.
use boardswarm.Prelude.{
  ℕ, Bool, zero, suc, ◌≡◌, refl, sym, ap, ◌∙◌, none, some, arith, String, Outcome, ok, err, inl,
  inr,
}
use boardswarm.Server.Items.{Server, get, device}
use boardswarm.Device.Monitor.{Device}
use boardswarm.Device.Modes.{
  DeviceSetModeError, actuator_failed, mode_not_found, wrong_current_mode, set_mode,
}
use boardswarm.Device.Switching.{Promise, set_mode_keeps_Promise}
use boardswarm.Device.Watching.{Recv, Watcher, view, device_info}
use boardswarm.Device.Convergence.{IsBroadcast, poll_info_lem, drain}

module _ (recv : ℕ → ℕ → Recv) {P : Type 0} where
  -- Polls give nothing to a watcher that has seen all that was sent.
  drain_idle :
      (n : ℕ) (w : Watcher) (d : Device P)
      → IsBroadcast recv
      → w.seen ≡ d.notified
      → drain recv n w d ≡ w
  unfolding drain
  drain_idle zero w d law same = refl
  drain_idle (suc n) w d law same = elim (poll_info_lem recv w d law (omega (arith, same))) [
    | inl (e, stays) ↦ ap (λ x. drain recv n x d) stays ∙ drain_idle n w d law same
    | inr (ahead, up_to, shows) ↦ absurd (omega (arith, ahead, up_to, same))
  ]

  -- What changes in a device between the reading of a client's first view and the making of its
  -- receiver is not shown to that client, however often it polls, until another change.
  pub late_receiver_misses :
      {H : Type 0} (s : Server H) (id n : ℕ) (h : H) (before after : Device P)
      → IsBroadcast recv
      → get device s id ≡ some h
      → (w : Watcher) × (device_info s id before after ≡ ok w)
        × ((drain recv n w after).shown ≡ view before)
  unfolding device_info
  late_receiver_misses s id n h before after law there =
      let w : Watcher = record { seen = after.notified; shown = view before } in
      (w, rw (there, device_info) refl, ap (λ x. x.shown) (drain_idle n w after law refl))

module _ {P H W : Type 0} (recv : ℕ → ℕ → Recv) (server_of : W → Server H)
    (actuate : H → P → W → W × Bool) (sleep : ℕ → W → W) where
  broken-cleared :
      (d d' : Device P) (mode : String) (w v : W) (r : Outcome (Unit {0}) DeviceSetModeError)
      → Promise server_of actuate sleep d mode w (record { device = d'; world = v; result = r })
      → r ≡ err actuator_failed
      → d' ≡ record d { current_mode = none }
  broken-cleared d d' mode w v (ok tt) p e = cc
  broken-cleared d d' mode w v (err mode_not_found) p e = cc
  broken-cleared d d' mode w v (err wrong_current_mode) p e = cc
  broken-cleared d d' mode w v (err actuator_failed) (target, found, met, broke, cleared) e =
      cleared

  -- When a switch breaks off at a failing actuator, the device is in no mode any more, and a
  -- client that had seen all that was sent is not told, however often it polls.
  pub broken_switch_untold :
      (d : Device P) (mode : String) (w : W) (n : ℕ) (watcher : Watcher)
      → IsBroadcast recv
      → watcher.seen ≡ d.notified
      → (set_mode server_of actuate sleep d mode w).result ≡ err actuator_failed
      → let d' = (set_mode server_of actuate sleep d mode w).device in
        ((view d').current_mode ≡ none) × (drain recv n watcher d' ≡ watcher)
  unfolding view
  broken_switch_untold d mode w n watcher law same e =
      let r = set_mode server_of actuate sleep d mode w in
      let cleared : r.device ≡ record d { current_mode = none } =
        broken-cleared d r.device mode w r.world r.result
          (set_mode_keeps_Promise server_of actuate sleep d mode w) e in
      (
        ap (λ x. x.current_mode) cleared,
        drain_idle recv n watcher r.device law (same ∙ sym (ap (λ x. x.notified) cleared)),
      )
