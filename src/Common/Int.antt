-- ===== src/Common/Int.antt =====
-- Integers over the native numbers, and the signed words of 64 bits.
use Prim.Native.Nat.{ℕ, suc, ◌+◌, ◌-◌, ◌%◌, ◌^◌, ◌<◌}
use mathlib.Core.Path.{◌≡◌}
use mathlib.Core.Bool.{Bool}
use native.Mathlib.Omega.{arith}
use dendri_server.Common.Tests.{ltb, leb, if◌then◌else◌}

-- `negsuc n` is -(n + 1).
pub data ℤ : Type 0 where
  pos : ℕ → ℤ
  negsuc : ℕ → ℤ

abbrev pub pos_part : ℤ → ℕ
pos_part (pos n) = n
pos_part (negsuc n) = 0

abbrev pub neg_part : ℤ → ℕ
neg_part (pos n) = 0
neg_part (negsuc n) = suc n

-- a - b, as an integer.
abbrev pub sub_ℕ : ℕ → ℕ → ℤ
sub_ℕ a b = if leb b a then pos (a - b) else negsuc (b - a - 1)

abbrev pub ltb_ℤ : ℤ → ℤ → Bool
ltb_ℤ a b = ltb (pos_part a + neg_part b) (pos_part b + neg_part a)

-- `as i64`: from 2^63 on the word is read as a negative number.
unfoldable pub as_i64 : ℕ → ℤ
as_i64 n = let u = n % 2 ^ 64 in if ltb u (2 ^ 63) then pos u else sub_ℕ u (2 ^ 64)

-- The difference of two signed words, which wraps around.
unfoldable pub sub_i64 : ℤ → ℤ → ℤ
unfolding as_i64
sub_i64 a b = as_i64 (pos_part a + neg_part b + 2 ^ 64 - (neg_part a + pos_part b))

pub as_i64-small : (n : ℕ) → n < 2 ^ 63 → as_i64 n ≡ pos n
unfolding as_i64
as_i64-small n h = ground (arith, h)
