-- ===== src/Udev/Counting.antt =====
-- How often an item is tracked: in a list of registrations, in a state, in the map.
use boardswarm.Prelude.{
  ℕ, ◌+◌, ◌≡◌, refl, false, ◌&&◌, Option, none, some, List, [], ◌∷◌, ◌++◌, arith, String, ◌==◌,
  nat_eq, string_eq, eq_iff, if◌then◌else◌, inl, inr, Bool-cases,
}
use boardswarm.Collections.HashMap
use boardswarm.Collections.HashMap.{HashMap}
use boardswarm.Server.Items.{ItemType, actuator, console, volume, type_eq}
use boardswarm.Udev.Registrations.{
  Registration, actuator_id, console_id, volume_id, RegistrationState, pending, registered,
}

abbrev pub item_type : Registration → ItemType
item_type (actuator_id id) = actuator
item_type (console_id id) = console
item_type (volume_id id) = volume

abbrev pub item_id : Registration → ℕ
item_id (actuator_id id) = id
item_id (console_id id) = id
item_id (volume_id id) = id

module _ (k : ItemType) (i : ℕ) where
  abbrev pub is_for : Registration → ℕ
  is_for r = if item_type r == k && item_id r == i then 1 else 0

  abbrev pub tracked_in : List Registration → ℕ
  tracked_in [] = 0
  tracked_in (r ∷ rs) = is_for r + tracked_in rs

  abbrev pub tracked_by : Option RegistrationState → ℕ
  tracked_by none = 0
  tracked_by (some (pending n)) = 0
  tracked_by (some (registered rs)) = tracked_in rs

  abbrev pub tracked : HashMap String RegistrationState → ℕ
  tracked [] = 0
  tracked ((path, s) ∷ m) = tracked_by (some s) + tracked m

  pub tracked_in-append :
      (rs qs : List Registration) → tracked_in (rs ++ qs) ≡ tracked_in rs + tracked_in qs
  tracked_in-append [] qs = omega arith
  tracked_in-append (r ∷ rs) qs = omega (arith, tracked_in-append rs qs)

-- No key stands twice.
abbrev pub Absent : String → HashMap String RegistrationState → Type 0
Absent p [] = Unit {0}
Absent p ((q, s) ∷ m) = ((q == p) ≡ false) × Absent p m

abbrev pub Distinct : HashMap String RegistrationState → Type 0
Distinct [] = Unit {0}
Distinct ((p, s) ∷ m) = Absent p m × Distinct m

Absent-insert :
    (p q : String) (s : RegistrationState) (m : HashMap String RegistrationState)
    → (q == p) ≡ false
    → Absent p m
    → Absent p (HashMap.insert m q s)
unfolding HashMap.insert
Absent-insert p q s [] h a = (h, tt)
Absent-insert p q s ((r, t) ∷ m) h a = ground (arith, a.0, Absent-insert p q s m h a.1)

Absent-remove :
    (p q : String) (m : HashMap String RegistrationState)
    → Absent p m
    → Absent p (HashMap.remove m q)
unfolding HashMap.remove
Absent-remove p q [] a = tt
Absent-remove p q ((r, t) ∷ m) a = ground (arith, a.0, Absent-remove p q m a.1)

pub Distinct-insert :
    (q : String) (s : RegistrationState) (m : HashMap String RegistrationState)
    → Distinct m
    → Distinct (HashMap.insert m q s)
unfolding HashMap.insert
Distinct-insert q s [] d = (tt, tt)
Distinct-insert q s ((r, t) ∷ m) d = elim (Bool-cases (r == q)) [
  | inl same ↦ rw (same, HashMap.insert) (rw (← (eq_iff r q).0 same) d.0, d.1)
  | inr other ↦
      rw (other, HashMap.insert)
        (
          Absent-insert r q s m (ground (arith, other, eq_iff r q, eq_iff q r)) d.0,
          Distinct-insert q s m d.1,
        )
]

pub Distinct-remove :
    (q : String) (m : HashMap String RegistrationState) → Distinct m → Distinct (HashMap.remove m q)
unfolding HashMap.remove
Distinct-remove q [] d = tt
Distinct-remove q ((r, t) ∷ m) d = ground (arith, Distinct-remove q m d.1, Absent-remove r q m d.0)

module _ (k : ItemType) (i : ℕ) where
  remove-Absent :
      (p : String) (m : HashMap String RegistrationState)
      → Absent p m
      → tracked k i (HashMap.remove m p) ≡ tracked k i m
  unfolding HashMap.remove
  remove-Absent p [] a = refl
  remove-Absent p ((q, s) ∷ m) a = ground (arith, a.0, remove-Absent p m a.1)

  -- Writing a state takes away what the key tracked before and adds what the state tracks.
  pub tracked-insert :
      (p : String) (s : RegistrationState) (m : HashMap String RegistrationState)
      → Distinct m
      → tracked k i (HashMap.insert m p s) + tracked_by k i (HashMap.get m p)
        ≡ tracked k i m + tracked_by k i (some s)
  unfolding HashMap.insert HashMap.get
  tracked-insert p s [] d = omega arith
  tracked-insert p s ((q, t) ∷ m) d = ground (arith, tracked-insert p s m d.1)

  pub tracked-remove :
      (p : String) (m : HashMap String RegistrationState)
      → Distinct m
      → tracked k i (HashMap.remove m p) + tracked_by k i (HashMap.get m p) ≡ tracked k i m
  unfolding HashMap.remove HashMap.get
  tracked-remove p [] d = refl
  tracked-remove p ((q, t) ∷ m) d = elim (Bool-cases (q == p)) [
    | inl same ↦
        rw (same, HashMap.remove, HashMap.get)
          (omega (arith, remove-Absent p m (rw (← (eq_iff q p).0 same) d.0)))
    | inr other ↦ rw (other, HashMap.remove, HashMap.get) (omega (arith, tracked-remove p m d.1))
  ]
