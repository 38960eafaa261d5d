-- ===== src/Udev/Registrations.antt =====
-- `DeviceRegistrations`, `RegistrationGuard` and `PreRegistration` of boardswarm/src/udev.rs. The map
-- of registrations is locked for each operation as a whole, so an operation is one step.
use boardswarm.Prelude.{
  ℕ, Bool, false, Option, none, some, List, [], ◌∷◌, ◌++◌, String, nat_eq, string_eq, nat_beq,
  if◌then◌else◌,
}
use boardswarm.Collections.HashMap
use boardswarm.Collections.HashMap.{HashMap}
use boardswarm.Registry.Properties.{Properties}
use boardswarm.Server.Items.{Server, actuator, console, volume, register, unregister}

pub data Registration : Type 0 where
  actuator_id console_id volume_id : ℕ → Registration

pub data RegistrationState : Type 0 where
  pending : ℕ → RegistrationState
  registered : List Registration → RegistrationState

pub record DeviceRegistrations (H : Type 0) : Type 0 where
  pub server : Server H
  pub registrations : HashMap String RegistrationState

pub record PreRegistration : Type 0 where
  pub syspath : String
  pub seqnum : ℕ

-- One call of the guard in the closure that `register_batch` is given.
pub data GuardCall (H : Type 0) : Type 0 where
  register_actuator register_console register_volume : Properties → H → GuardCall H

module _ {H : Type 0} where
  unfoldable pub new : Server H → DeviceRegistrations H
  new s = record { server = s; registrations = [] }

  unfoldable pub unregister_one : Server H → Registration → Server H
  unregister_one s (actuator_id id) = unregister actuator s id
  unregister_one s (console_id id) = unregister console s id
  unregister_one s (volume_id id) = unregister volume s id

  -- `DeviceRegistrations::unregister`
  unfoldable pub unregister_all : Server H → List Registration → Server H
  unfolding unregister_one
  unregister_all s [] = s
  unregister_all s (r ∷ rs) = unregister_all (unregister_one s r) rs

  unfoldable pub drop_state : Server H → Option RegistrationState → Server H
  drop_state s none = s
  drop_state s (some (pending n)) = s
  drop_state s (some (registered rs)) = unregister_all s rs

  unfoldable pub pre_register :
      DeviceRegistrations H → String → ℕ → PreRegistration × DeviceRegistrations H
  unfolding drop_state
  pre_register d syspath seqnum = (
    record { syspath = syspath; seqnum = seqnum },
    record {
      server = drop_state d.server (HashMap.get d.registrations syspath);
      registrations = HashMap.insert d.registrations syspath (pending seqnum);
    },
  )

  unfoldable pub remove : DeviceRegistrations H → String → DeviceRegistrations H
  unfolding drop_state
  remove d syspath = record {
    server = drop_state d.server (HashMap.get d.registrations syspath);
    registrations = HashMap.remove d.registrations syspath;
  }

  -- One call of the guard: the id goes to the end of its list.
  unfoldable pub guard_call :
      Server H → List Registration → GuardCall H → Server H × List Registration
  guard_call s rs (register_actuator p h) =
      let (id, s') = register actuator s p h in (s', rs ++ actuator_id id ∷ [])
  guard_call s rs (register_console p h) =
      let (id, s') = register console s p h in (s', rs ++ console_id id ∷ [])
  guard_call s rs (register_volume p h) =
      let (id, s') = register volume s p h in (s', rs ++ volume_id id ∷ [])

  unfoldable pub guard_calls :
      Server H → List Registration → List (GuardCall H) → Server H × List Registration
  unfolding guard_call
  guard_calls s rs [] = (s, rs)
  guard_calls s rs (c ∷ cs) = let (s', rs') = guard_call s rs c in guard_calls s' rs' cs

  -- `Some(RegistrationState::Pending(s)) if *s == self.seqnum`
  unfoldable pub is_pending : DeviceRegistrations H → PreRegistration → Bool
  is_pending d p = elim (HashMap.get d.registrations p.syspath) [
    | none ↦ false
    | some state ↦ elim state [ pending s ↦ nat_beq s p.seqnum | registered rs ↦ false ]
  ]

  -- `Drop for PreRegistration`
  unfoldable pub drop_pre : DeviceRegistrations H → PreRegistration → DeviceRegistrations H
  drop_pre d p =
      if is_pending d p
      then record d { registrations = HashMap.remove d.registrations p.syspath }
      else d

  unfoldable pub batch :
      DeviceRegistrations H → PreRegistration → List (GuardCall H) → DeviceRegistrations H
  unfolding guard_calls
  batch d p calls =
      let (s, rs) = guard_calls d.server [] calls in
      if is_pending d p
      then record {
        server = s;
        registrations = HashMap.insert d.registrations p.syspath (registered rs);
      }
      else d

  -- `register_batch` takes the pre-registration, which is dropped at its end.
  unfoldable pub register_batch :
      DeviceRegistrations H → PreRegistration → List (GuardCall H) → DeviceRegistrations H
  unfolding batch drop_pre
  register_batch d p calls = drop_pre (batch d p calls) p
