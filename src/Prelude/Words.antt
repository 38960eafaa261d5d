-- ===== src/Prelude/Words.antt =====
-- Machine words as native numbers, with their wrap-around, and bytes.
use Prim.Native.Nat.{ℕ, ◌+◌, ◌-◌, ◌%◌, ◌^◌, ◌≤◌, ◌<◌, min}
use mathlib.Core.Path.{◌≡◌}
use mathlib.Core.List.{List}
use native.Mathlib.Omega.{arith}

-- `as u32`
abbrev pub as_u32 : ℕ → ℕ
as_u32 n = n % 2 ^ 32

abbrev pub add_u32 : ℕ → ℕ → ℕ
add_u32 a b = (a + b) % 2 ^ 32

abbrev pub sub_u32 : ℕ → ℕ → ℕ
sub_u32 a b = (a + 2 ^ 32 - b) % 2 ^ 32

-- `a - b` on `usize`, as a release build computes it.
abbrev pub sub_usize : ℕ → ℕ → ℕ
sub_usize a b = (a + 2 ^ 64 - b) % 2 ^ 64

-- `saturating_add` on `u64`
abbrev pub saturating_add : ℕ → ℕ → ℕ
saturating_add a b = min (a + b) (2 ^ 64 - 1)

-- `Bytes`, `BytesMut`, `Vec<u8>` and `&[u8]` by their contents.
abbrev pub Bytes : Type 0
Bytes = List ℕ

pub sub_usize_lem : (a b : ℕ) → b ≤ a → a < 2 ^ 64 → sub_usize a b ≡ a - b
sub_usize_lem a b h k = omega arith
