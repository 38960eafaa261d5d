-- ===== src/Registry/Find.antt =====
-- `find` gives the oldest item that matches, if there is one.
use boardswarm.Prelude.{
  ℕ, ◌+◌, ◌<◌, ◌≡◌, String, true, false, Option, none, some, List, [], ◌∷◌, inl, inr, arith,
  Bool-cases, nat_eq,
}
use boardswarm.Collections.BTreeMap
use boardswarm.Collections.BTreeMap.{BTreeMap, Ascending, get_under}
use boardswarm.Registry.Properties.{Item, matches}
use boardswarm.Registry.Store.{Registry, lookup, find, find_in}
use boardswarm.Registry.Invariant.{IsValid}

-- What `find` owes its caller at each id.
abbrev pub Found {ℓ} :
    {T : Type ℓ} → (ℕ → Option (Item T)) → List (String × String) → Option (ℕ × Item T) → Type ℓ
Found {T = T} at ms none =
    (j : ℕ) (other : Item T) → at j ≡ some other → matches other.properties ms ≡ false
Found {T = T} at ms (some (id, it)) =
    (at id ≡ some it)
    × (matches it.properties ms ≡ true)
    × ((j : ℕ) (other : Item T) → j < id → at j ≡ some other → matches other.properties ms ≡ false)

module _ {ℓ} {T : Type ℓ} where
  -- An entry that does not match leaves what holds of the later ones.
  Found-cons :
      (id : ℕ) (it : Item T) (m : BTreeMap (Item T)) (ms : List (String × String))
      → Ascending (id + 1) m
      → matches it.properties ms ≡ false
      → (o : Option (ℕ × Item T)) → Found (BTreeMap.get m) ms o
      → Found (BTreeMap.get ((id, it) ∷ m)) ms o
  unfolding BTreeMap.get
  Found-cons id it m ms a miss none h = λ j other e. ground (arith, h j other)
  Found-cons id it m ms a miss (some (k, o)) h = (
    ground (arith, h.0, get_under (id + 1) m id a),
    h.1,
    λ j other lt e. ground (arith, h.2 j other),
  )

  find_in-Found :
      (lo : ℕ) (m : BTreeMap (Item T)) (ms : List (String × String))
      → Ascending lo m
      → Found (BTreeMap.get m) ms (find_in m ms)
  unfolding find_in BTreeMap.get
  find_in-Found lo [] ms a = λ j other e. cc
  find_in-Found lo ((id, it) ∷ m) ms a = elim (Bool-cases (matches it.properties ms)) [
    | inl hit ↦
        rw (hit, find_in)
          (ground arith, hit, λ j other lt e. ground (arith, get_under (id + 1) m j a.1))
    | inr miss ↦
        rw (miss, find_in)
          (Found-cons id it m ms a.1 miss (find_in m ms) (find_in-Found (id + 1) m ms a.1))
  ]

  -- In a valid registry find gives an item that is registered under its id and matches, the one
  -- with the least such id, or nothing when no registered item matches.
  pub find-Found :
      (r : Registry T) (ms : List (String × String)) → IsValid r → Found (lookup r) ms (find r ms)
  unfolding find lookup
  find-Found r ms v = find_in-Found 0 r.contents ms v.ascending
