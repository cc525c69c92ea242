-- ===== src/Base/Int.antt =====
-- Signed integers over the native numbers, for counters that may go below zero.
use Prim.Native.Nat.{ℕ, suc, ◌+◌, ◌-◌}
use mathlib.Core.Path.{◌≡◌}
use native.Mathlib.Omega.{arith}
use lunnel.Base.Tests.{leb, if◌then◌else◌}

-- `negsuc n` is -(n + 1).
pub data ℤ : Type 0 where
  pos : ℕ → ℤ
  negsuc : ℕ → ℤ

abbrev pub pos_part : ℤ → ℕ
pos_part (pos n) = n
pos_part (negsuc n) = 0

abbrev pub neg_part : ℤ → ℕ
neg_part (pos n) = 0
neg_part (negsuc n) = suc n

-- a - b, as an integer.
abbrev pub sub_ℕ : ℕ → ℕ → ℤ
sub_ℕ a b = if leb b a then pos (a - b) else negsuc (b - a - 1)

infixl 65 ◌+ℤ◌ ◌-ℤ◌
unfoldable pub ◌+ℤ◌ : ℤ → ℤ → ℤ
a +ℤ b = sub_ℕ (pos_part a + pos_part b) (neg_part a + neg_part b)

unfoldable pub ◌-ℤ◌ : ℤ → ℤ → ℤ
a -ℤ b = sub_ℕ (pos_part a + neg_part b) (neg_part a + pos_part b)

pub sub_sub_one : (t : ℤ) (n : ℕ) → t -ℤ pos 1 -ℤ pos n ≡ t -ℤ pos (suc n)
unfolding ◌-ℤ◌
sub_sub_one (pos m) n = ground arith
sub_sub_one (negsuc m) n = ground arith

pub sub_zero : (t : ℤ) → t -ℤ pos 0 ≡ t
unfolding ◌-ℤ◌
sub_zero (pos m) = ground arith
sub_zero (negsuc m) = ground arith

pub sub_sub : (t : ℤ) (m n : ℕ) → t -ℤ pos m -ℤ pos n ≡ t -ℤ pos (m + n)
unfolding ◌-ℤ◌
sub_sub (pos k) m n = ground arith
sub_sub (negsuc k) m n = ground arith
