-- ===== src/Registry/History.antt =====
-- A history of a registry: the calls that change it, one after the other.
use boardswarm.Prelude.{ℕ, nat_eq, List, [], ◌∷◌, Bool, true, false, ◌==◌, if◌then◌else◌}
use boardswarm.Registry.Properties.{Properties}
use boardswarm.Registry.Store.{Registry, add, remove}

pub data Call {ℓ} (T : Type ℓ) : Type ℓ where
  adds : Properties → T → Call T
  removes : ℕ → Call T

module _ {ℓ} {T : Type ℓ} where
  unfoldable pub step : Registry T → Call T → Registry T
  unfolding add remove
  step r (adds properties item) = (add r properties item).1
  step r (removes id) = remove r id

  unfoldable pub run : Registry T → List (Call T) → Registry T
  run r [] = r
  run r (c ∷ cs) = run (step r c) cs

  -- Whether an `add` of a history gives an id to its caller.
  unfoldable pub hands_out : Registry T → List (Call T) → ℕ → Bool
  unfolding add remove
  hands_out r [] id = false
  hands_out r (adds properties item ∷ cs) id =
      let ((given, _), r') = add r properties item in
      let later = hands_out r' cs id in if given == id then true else later
  hands_out r (removes j ∷ cs) id = hands_out (remove r j) cs id
