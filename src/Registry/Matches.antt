-- ===== src/Registry/Matches.antt =====
-- What `Properties::matches` decides.
use boardswarm.Prelude.{
  String, ◌≡◌, Bool, true, false, ◌||◌, some, List, [], ◌∷◌, ◌↔◌, arith, ◌==◌, string_eq, eq_iff,
  is_some, All, inl, inr, Option-cases,
}
use boardswarm.Registry.Properties.{
  Properties, get, instance_key, instance_of, matches, matches_all,
}

-- One of the pairs names the instance.
unfoldable pub mentions_instance : List (String × String) → Bool
mentions_instance [] = false
mentions_instance ((k, v) ∷ rest) = k == instance_key || mentions_instance rest

abbrev pub Agrees : Properties → String × String → Type 0
Agrees p (k, v) = get p k ≡ some v

matches_all-true :
    (p : Properties) (flag : Bool) (ms : List (String × String))
    → All (Agrees p) ms
    → matches_all p flag ms ≡ (true, flag || mentions_instance ms)
unfolding matches_all mentions_instance
matches_all-true p flag [] h = ground arith
matches_all-true p flag ((k, v) ∷ rest) h =
    ground (arith, h.0, eq_iff v v, matches_all-true p (flag || k == instance_key) rest h.1)

matches_all_sound :
    (p : Properties) (flag : Bool) (ms : List (String × String))
    → (matches_all p flag ms).0 ≡ true
    → All (Agrees p) ms
unfolding matches_all
matches_all_sound p flag [] h = tt
matches_all_sound p flag ((k, v) ∷ rest) h = elim (Option-cases (get p k)) [
  | inl e ↦ ground (arith, e)
  | inr (prop, e) ↦
      ground (arith, e, eq_iff prop v, matches_all_sound p (flag || k == instance_key) rest)
]

-- Properties match a list of wanted pairs exactly when every pair is among them, and the list
-- speaks of the instance exactly when the properties have one.
pub matches_iff :
    (p : Properties) (ms : List (String × String))
    → (matches p ms ≡ true) ↔ (All (Agrees p) ms × (mentions_instance ms ≡ is_some (instance_of p)))
unfolding matches
matches_iff p ms = (
  λ h.
      let agree : All (Agrees p) ms = matches_all_sound p false ms (ground arith) in
      (agree, ground (arith, matches_all-true p false ms agree)),
  λ h. ground (arith, h.1, matches_all-true p false ms h.0),
)
