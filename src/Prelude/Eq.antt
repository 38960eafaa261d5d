-- ===== src/Prelude/Eq.antt =====
-- Boolean equality as an interface, with the instances that the program uses as keys.
use Prim.Native.Nat.{ℕ}
use Prim.Native.String.{String}
use mathlib.Core.Path.{◌≡◌, refl}
use mathlib.Core.Logic.{◌↔◌}
use mathlib.Core.Bool.{Bool, true}
use native.Mathlib.Omega.{arith}
use text.Mathlib.Text.{◌==◌ as str_eq}
use text.Mathlib.TextEquality.{eq_iff}
use boardswarm.Prelude.Tests.{nat_beq, nat_beq_iff}

-- The test of Rust's `PartialEq`, which decides equality.
pub record HasEq {ℓ} (A : Type ℓ) : Type ℓ where
  pub beq : A → A → Bool
  pub beq_iff : (a b : A) → (beq a b ≡ true) ↔ (a ≡ b)

instance abbrev pub string_eq : HasEq String
string_eq = record { beq_iff = eq_iff; beq = str_eq }

infix 50 ◌==◌
abbrev pub ◌==◌ {ℓ} : {A : Type ℓ} ⦃e : HasEq A⦄ → A → A → Bool
◌==◌ ⦃e⦄ a b = e.beq a b

instance abbrev pub nat_eq : HasEq ℕ
nat_eq = record { beq_iff = nat_beq_iff; beq = nat_beq }

pub beq_refl {ℓ} : {A : Type ℓ} ⦃e : HasEq A⦄ (a : A) → (a == a) ≡ true
beq_refl ⦃e⦄ a = (e.beq_iff a a).1 refl

pub str_beq_sym : (a b : String) → (a == b) ≡ (b == a)
str_beq_sym a b = ground (arith, eq_iff a b, eq_iff b a)
