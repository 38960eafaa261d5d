-- ===== src/Device/Histories.antt =====
-- Configured items over histories of the registry, and where they lose track of it.
use boardswarm.Prelude.{
  ℕ, ◌+◌, ◌<◌, ◌≡◌, ◌≢◌, refl, true, false, none, some, List, [], ◌∷◌, ◌++◌, arith, nat_eq, All,
  length,
}
use boardswarm.Registry.Properties.{Item}
use boardswarm.Registry.Store.{Registry, RegistryChange, u64_mod}
use boardswarm.Registry.History.{Call, removes, step, run}
use boardswarm.Registry.Invariant.{IsValid, step-IsValid, next-step}
use boardswarm.Registry.Monitor.{emitted, emitted_all}
use boardswarm.Device.Config.{DeviceConfigItem}
use boardswarm.Device.Items.{DeviceItem, get, set_if_matches}
use boardswarm.Device.Tracking.{
  Live, Exact, Single, wanted_at, follow_step-Live, follow_step-Exact, get-follow_removes,
  wanted-remove, config-follow_all,
}
use boardswarm.Device.Following.{follow, follow_all, as_added}

module _ {C T : Type 0} ⦃c : DeviceConfigItem C⦄ where
  follow_all-append :
      (i : DeviceItem C) (es fs : List (RegistryChange T))
      → follow_all i (es ++ fs) ≡ follow_all (follow_all i es) fs
  unfolding follow_all
  follow_all-append i [] fs = refl
  follow_all-append i (e ∷ es) fs = follow_all-append (follow i e) es fs

  -- Once every change of a history has reached an item, the id that it holds, if any, is that of a
  -- registered item that matches, if it was so at the history's start, in a valid registry that
  -- has ids left for it.
  pub follow_history-Live :
      (r : Registry T) (calls : List (Call T)) (i : DeviceItem C)
      → r.next + length calls < u64_mod
      → IsValid r
      → Live r i
      → Live (run r calls) (follow_all i (emitted_all r calls))
  unfolding run emitted_all follow_all
  follow_history-Live r [] i h v live = live
  follow_history-Live r (call ∷ calls) i h v live =
      rw (follow_all-append i (emitted r call) (emitted_all (step r call) calls)) (
        follow_history-Live (step r call) calls (follow_all i (emitted r call))
          (omega (arith, next-step r call (omega arith))) (step-IsValid r call (omega arith) v)
          (follow_step-Live r call i v live))

  -- After each of the calls at most one registered item matches.
  abbrev pub AlwaysSingle : C → Registry T → List (Call T) → Type 0
  AlwaysSingle config r [] = Unit
  AlwaysSingle config r (call ∷ calls) =
      Single (step r call) config × AlwaysSingle config (step r call) calls

  -- If no two registered items match at once, an item that every change of a history has reached
  -- holds an id exactly when a registered item under that id matches, if it was so at the start:
  -- it is found when it is there. The registry is valid and has ids left for the history.
  pub follow_history-Exact :
      (r : Registry T) (calls : List (Call T)) (i : DeviceItem C)
      → r.next + length calls < u64_mod
      → IsValid r
      → AlwaysSingle i.config r calls
      → Exact r i
      → Exact (run r calls) (follow_all i (emitted_all r calls))
  unfolding run emitted_all follow_all
  follow_history-Exact r [] i h v single x = x
  follow_history-Exact r (call ∷ calls) i h v single x =
      rw (follow_all-append i (emitted r call) (emitted_all (step r call) calls)) (
        follow_history-Exact (step r call) calls (follow_all i (emitted r call))
          (omega (arith, next-step r call (omega arith))) (step-IsValid r call (omega arith) v)
          (rw (config-follow_all i (emitted r call)) single.1)
          (follow_step-Exact r call i v single.0 x))

  -- An item holds the id of a registered item, and another registered item matches it too. When
  -- the one that it holds is removed, the item is left with no id, though the other is still
  -- registered.
  pub shadowed_item_lost :
      (r : Registry T) (i : DeviceItem C) (j k : ℕ)
      → Live r i
      → get i ≡ some j
      → wanted_at r i.config k ≡ true
      → j ≢ k
      → (get (follow_all i (emitted r (removes j))) ≡ none)
        × (wanted_at (step r (removes j)) i.config k ≡ true)
  unfolding step
  shadowed_item_lost r i j k live holds want other = (
    ground (arith, get-follow_removes r j i live, holds),
    ground (arith, wanted-remove r j i.config k, want, other),
  )

  -- No entry of the contents matches.
  abbrev pub NoneWanted : C → List (ℕ × Item T) → Type 0
  NoneWanted config m = All (λ e. c.wants config e.1.properties ≡ false) m

  -- The contents, read again after changes were missed, do not reach an item that they do not
  -- match: it keeps the id it had, whether or not an item is still registered under it.
  pub resync_keeps_stale :
      (i : DeviceItem C) (m : List (ℕ × Item T))
      → NoneWanted i.config m
      → follow_all i (as_added m) ≡ i
  unfolding follow_all follow set_if_matches
  resync_keeps_stale i [] h = refl
  resync_keeps_stale i ((id, item) ∷ m) h =
      rw (h.0, follow_all, follow, set_if_matches) (resync_keeps_stale i m h.1)
