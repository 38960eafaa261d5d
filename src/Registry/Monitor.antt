-- ===== src/Registry/Monitor.antt =====
-- The changes that the registry sends, as a subscriber sees them.
use boardswarm.Prelude.{
  ℕ, ◌≡◌, refl, sym, ap, ◌∙◌, Option, none, some, List, [], ◌∷◌, ◌++◌, append_assoc, append-nil,
  arith, ◌==◌, nat_eq, if◌then◌else◌, Option-cases, inl, inr, drop, length, drop-length-append,
}
use boardswarm.Collections.BTreeMap
use boardswarm.Collections.BTreeMap.{BTreeMap, get-insert, get-remove}
use boardswarm.Registry.Properties.{Item}
use boardswarm.Registry.Store.{Registry, RegistryChange, added, removed, remove, lookup, monitor}
use boardswarm.Registry.History.{Call, adds, removes, step, run}

module _ {ℓ} {T : Type ℓ} where
  -- What a subscriber does to its own copy of the contents.
  unfoldable pub replay : List (RegistryChange T) → BTreeMap (Item T) → BTreeMap (Item T)
  replay [] m = m
  replay (added id it ∷ es) m = replay es (BTreeMap.insert m id it)
  replay (removed id ∷ es) m = replay es (BTreeMap.remove m id)

  -- What one call sends.
  unfoldable pub emitted : Registry T → Call T → List (RegistryChange T)
  emitted r (adds p t) = added r.next (record { properties = p; item = t }) ∷ []
  emitted r (removes id) = elim (BTreeMap.get r.contents id) [
    | none ↦ []
    | some it ↦ removed id ∷ []
  ]

  unfoldable pub emitted_all : Registry T → List (Call T) → List (RegistryChange T)
  emitted_all r [] = []
  emitted_all r (c ∷ cs) = emitted r c ++ emitted_all (step r c) cs

  pub sent-step : (r : Registry T) (c : Call T) → (step r c).sent ≡ r.sent ++ emitted r c
  unfolding step emitted
  sent-step r (adds p t) = refl
  sent-step r (removes id) = elim (Option-cases (BTreeMap.get r.contents id)) [
    | inl e ↦ rw (e, remove, emitted) (sym (append-nil r.sent))
    | inr (it, e) ↦ rw (e, remove, emitted)
  ]

  pub contents-step :
      (r : Registry T) (c : Call T) → (step r c).contents ≡ replay (emitted r c) r.contents
  unfolding step emitted replay
  contents-step r (adds p t) = refl
  contents-step r (removes id) = elim (Option-cases (BTreeMap.get r.contents id)) [
    | inl e ↦ rw (e, remove, emitted)
    | inr (it, e) ↦ rw (e, remove, emitted)
  ]

  replay-append :
      (es fs : List (RegistryChange T)) (m : BTreeMap (Item T))
      → replay (es ++ fs) m ≡ replay fs (replay es m)
  unfolding replay
  replay-append [] fs m = refl
  replay-append (added id it ∷ es) fs m = replay-append es fs _
  replay-append (removed id ∷ es) fs m = replay-append es fs _

  pub sent-run :
      (r : Registry T) (cs : List (Call T)) → (run r cs).sent ≡ r.sent ++ emitted_all r cs
  unfolding run emitted_all
  sent-run r [] = sym (append-nil r.sent)
  sent-run r (c ∷ cs) =
      sent-run (step r c) cs
      ∙ ap (λ s. s ++ emitted_all (step r c) cs) (sent-step r c)
      ∙ append_assoc r.sent (emitted r c) (emitted_all (step r c) cs)

  pub contents-run :
      (r : Registry T) (cs : List (Call T))
      → (run r cs).contents ≡ replay (emitted_all r cs) r.contents
  unfolding run emitted_all replay
  contents-run r [] = refl
  contents-run r (c ∷ cs) =
      contents-run (step r c) cs
      ∙ ap (replay (emitted_all (step r c) cs)) (contents-step r c)
      ∙ sym (replay-append (emitted r c) (emitted_all (step r c) cs) r.contents)

  -- What a change says of an id, and what the last change that speaks of it says.
  word : RegistryChange T → ℕ → Option (Option (Item T))
  word (added id it) k = if id == k then some (some it) else none
  word (removed id) k = if id == k then some none else none

  last_word : List (RegistryChange T) → ℕ → Option (Option (Item T))
  last_word [] k = none
  last_word (e ∷ es) k = elim (last_word es k) [ none ↦ word e k | some w ↦ some w ]

  abbrev said : Option (Option (Item T)) → Option (Item T) → Option (Item T)
  said none o = o
  said (some w) o = w

  get-replay :
      (es : List (RegistryChange T)) (m : BTreeMap (Item T)) (k : ℕ)
      → BTreeMap.get (replay es m) k ≡ said (last_word es k) (BTreeMap.get m k)
  unfolding replay last_word word
  get-replay [] m k = refl
  get-replay (added id it ∷ es) m k =
      ground (arith, get-replay es (BTreeMap.insert m id it) k, get-insert m id k it)
  get-replay (removed id ∷ es) m k =
      ground (arith, get-replay es (BTreeMap.remove m id) k, get-remove m id k)

  -- From subscription on, what was sent takes the contents of that time to the present ones.
  pub replay_from_subscription :
      (r : Registry T) (cs : List (Call T))
      → replay (drop (monitor r) (run r cs).sent) r.contents ≡ (run r cs).contents
  unfolding monitor
  replay_from_subscription r cs =
      rw (sent-run r cs, drop-length-append r.sent (emitted_all r cs)) (sym (contents-run r cs))

  said_twice : (w : Option (Option (Item T))) (o : Option (Item T)) → said w (said w o) ≡ said w o
  said_twice none o = refl
  said_twice (some w) o = refl

  sent_since :
      (r : Registry T) (before after : List (Call T))
      → drop (monitor r) (run (run r before) after).sent
        ≡ emitted_all r before ++ emitted_all (run r before) after
  unfolding monitor
  sent_since r before after =
      let later = emitted_all (run r before) after in
      ap (drop (length r.sent)) (
        sent-run (run r before) after
        ∙ ap (λ s. s ++ later) (sent-run r before)
        ∙ append_assoc r.sent (emitted_all r before) later)
      ∙ drop-length-append r.sent (emitted_all r before ++ later)

  -- Changes that were taken in once already change nothing more.
  get-replay_twice :
      (es : List (RegistryChange T)) (m : BTreeMap (Item T)) (k : ℕ)
      → BTreeMap.get (replay es (replay es m)) k ≡ BTreeMap.get (replay es m) k
  get-replay_twice es m k =
      get-replay es (replay es m) k
      ∙ ap (said (last_word es k)) (get-replay es m k)
      ∙ said_twice (last_word es k) (BTreeMap.get m k)
      ∙ sym (get-replay es m k)

  -- A client that subscribes, later reads the contents, and then takes in every change since it
  -- subscribed, those before its reading too, ends with the present contents at every id.
  pub monitor_converges :
      (r : Registry T) (before after : List (Call T)) (k : ℕ)
      → BTreeMap.get
          (replay (drop (monitor r) (run (run r before) after).sent) (run r before).contents)
          k
        ≡ lookup (run (run r before) after) k
  unfolding lookup
  monitor_converges r before after k =
      let m = (run r before).contents in
      let e1 = emitted_all r before in
      let e2 = emitted_all (run r before) after in
      cc (
        sent_since r before after,
        replay-append e1 e2 m,
        get-replay e2 (replay e1 m) k,
        get-replay e2 m k,
        get-replay_twice e1 r.contents k,
        contents-run r before,
        contents-run (run r before) after,
      )
