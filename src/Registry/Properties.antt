-- ===== src/Registry/Properties.antt =====
-- `Properties` and `Item` of boardswarm/src/registry.rs.
use boardswarm.Prelude.{
  String, Bool, true, false, ◌&&◌, ◌||◌, Option, none, some, List, [], ◌∷◌, ◌==◌, string_eq,
  bool_beq, is_some, if◌then◌else◌,
}
use boardswarm.Collections.HashMap
use boardswarm.Collections.HashMap.{HashMap}

abbrev pub name_key : String
name_key = "boardswarm.name"

abbrev pub instance_key : String
instance_key = "boardswarm.instance"

abbrev pub provider_key : String
provider_key = "boardswarm.provider"

abbrev pub provider_name_key : String
provider_name_key = "boardswarm.provider.name"

pub record Properties : Type 0 where
  pub properties : HashMap String String

unfoldable pub new : String → Properties
new name = record { properties = HashMap.insert [] name_key name }

unfoldable pub get : Properties → String → Option String
get p prop = HashMap.get p.properties prop

-- `unwrap_or_default`: a missing name is the empty text.
unfoldable pub name : Properties → String
name p = elim (get p name_key) [ none ↦ "" | some n ↦ n ]

unfoldable pub instance_of : Properties → Option String
instance_of p = get p instance_key

unfoldable pub insert : Properties → String → String → Properties
insert p key value = record { properties = HashMap.insert p.properties key value }

unfoldable pub extend : Properties → List (String × String) → Properties
extend p [] = p
extend p ((k, v) ∷ rest) = extend (insert p k v) rest

-- The closure of `all` and the flag that it sets; `all` stops at the first pair that fails.
unfoldable pub matches_all : Properties → Bool → List (String × String) → Bool × Bool
matches_all p matched_instance [] = (true, matched_instance)
matches_all p matched_instance ((k, v) ∷ rest) =
    let flag = matched_instance || k == instance_key in
    let tail = matches_all p flag rest in
    elim (get p k) [ none ↦ (false, flag) | some prop ↦ if prop == v then tail else (false, flag) ]

unfoldable pub matches : Properties → List (String × String) → Bool
unfolding matches_all
matches p ms =
    let (matched, matched_instance) = matches_all p false ms in
    matched && bool_beq matched_instance (is_some (instance_of p))

pub record Item {ℓ} (T : Type ℓ) : Type ℓ where
  pub properties : Properties
  pub item : T
