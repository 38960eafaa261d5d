-- ===== src/Prelude.antt =====
-- The names that the other modules share: the libraries', passed on, and those of the children.
mod Tests
mod Lists
mod Eq
mod Results
mod Words
mod Polls
pub use Tests.*
pub use Lists.*
pub use Eq.{HasEq, ◌==◌, nat_eq, string_eq, beq_refl, str_beq_sym}
pub use Results.*
pub use Words.*
pub use Polls.{
  Poll, ready, failed, pending, Poll-cases, SeekFrom, from_start, from_end, from_end_back,
  from_current, from_current_back, Round, again, done, Proceeds, run_rounds_total,
}
unfoldable pub use Polls.{run_rounds}
pub use Prim.Native.Nat.{ℕ, zero, suc, ◌+◌, ◌-◌, ◌*◌, ◌/◌, ◌%◌, ◌^◌, ◌≤◌, ◌<◌, min, max}
pub use Prim.Native.String.{String}
pub use mathlib.Core.Path.{◌≡◌, refl, sym, ap, ◌∙◌, subst, fun_ext}
pub use mathlib.Core.Logic.{◌≢◌, ◌↔◌, ◌⊎◌, inl, inr}
pub use mathlib.Core.Bool.{Bool, true, false, not, ◌&&◌, ◌||◌, false≢true}
pub use mathlib.Core.Option.{Option, none, some}
pub use mathlib.Core.List.{List, [], ◌∷◌, ◌++◌, map, append_assoc, append-nil}
pub use native.Mathlib.Omega.{arith}
pub use text.Mathlib.TextEquality.{eq_iff}
