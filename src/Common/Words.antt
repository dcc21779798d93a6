-- ===== src/Common/Words.antt =====
-- Machine words. A u64 is a number below 2 ^ 64 with its wrap-around written out; an i64 is an
-- integer, read as a u64 by its two's complement pattern.
use Prim.Native.Nat.{ℕ, ◌+◌, ◌-◌, ◌%◌, ◌≤◌, ◌<◌}
use mathlib.Core.Path.{◌≡◌}
use native.Mathlib.Omega.{arith}

abbrev pub u64_mod : ℕ
u64_mod = 18446744073709551616

abbrev pub u64_max : ℕ
u64_max = 18446744073709551615

-- `negsuc n` is -(n + 1).
pub data ℤ : Type 0 where
  pos : ℕ → ℤ
  negsuc : ℕ → ℤ

-- a + b, a - b on u64 in a release build, and `x as u64` for an i64
abbrev pub add64 : ℕ → ℕ → ℕ
add64 a b = (a + b) % u64_mod

abbrev pub sub64 : ℕ → ℕ → ℕ
sub64 a b = (a + u64_mod - b) % u64_mod

abbrev pub as_u64 : ℤ → ℕ
as_u64 (pos n) = n % u64_mod
as_u64 (negsuc n) = u64_mod - 1 - n % u64_mod

as_u64-lt : (z : ℤ) → as_u64 z < u64_mod
as_u64-lt (pos n) = omega arith
as_u64-lt (negsuc n) = omega arith

-- A wrapping difference is small only where nothing wrapped, if the window is small.
sub64-le : (a b w : ℕ) → a < u64_mod → b < u64_mod → sub64 a b ≤ w → w ≤ a → (b ≤ a) × (a ≤ b + w)
sub64-le a b w ha hb h k = omega arith

pub sub64-of_le : (a b : ℕ) → a < u64_mod → b ≤ a → sub64 a b ≡ a - b
sub64-of_le a b ha h = omega arith
