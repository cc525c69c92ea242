-- ===== src/Util/Short.antt =====
-- The names of `Int2Short` of util/util.go are those of numbers to the base 32, the lowest digit first.
use Prim.Native.Nat.{digits, min, bit_and-bitwise}
use lunnel.Base.{
  ℕ, zero, suc, ◌+◌, ◌-◌, ◌*◌, ◌/◌, ◌%◌, ◌^◌, ◌<◌, ◌≤◌, ◌≡◌, bit_and, [], ◌∷◌, leb, if◌then◌else◌,
  arith,
}
use lunnel.Base.Text.{Text}
use lunnel.Util.{short_digit, short_loop, int_to_short}

unfoldable pub digit_value : ℕ → ℕ
digit_value c = if leb 97 c then c - 87 else c - 48

-- The number that a text of such digits stands for.
unfoldable pub value : Text → ℕ
value [] = 0
value (c ∷ s) = digit_value c + 32 * value s

digit_value-short_digit : (d : ℕ) → d < 32 → digit_value (short_digit d) ≡ d
unfolding digit_value short_digit
digit_value-short_digit d h = ground arith

abbrev and_digits : ℕ → ℕ → ℕ → ℕ
and_digits n a b = digits (λ b. 0) min n a b

-- The masks that 31 goes through, halved again and again.
low_digits :
    (n a : ℕ)
    → a ≤ n
    → (and_digits n a 31 ≡ a % 32)
      × (and_digits n a 15 ≡ a % 16)
      × (and_digits n a 7 ≡ a % 8)
      × (and_digits n a 3 ≡ a % 4)
      × (and_digits n a 1 ≡ a % 2)
      × (and_digits n a 0 ≡ 0)
low_digits zero zero h = omega arith
low_digits zero (suc a) h = absurd (omega arith)
low_digits (suc n) zero h = omega arith
low_digits (suc n) (suc a) h = omega (arith, low_digits n (suc a / 2) (omega arith))

low_digit : (a : ℕ) → bit_and a 31 ≡ a % 32
low_digit a = omega (arith, bit_and-bitwise a 31, (low_digits a a (omega arith)).0)

value-short_loop : (rounds a : ℕ) → a < 32 ^ rounds → value (short_loop rounds a) ≡ a
unfolding value short_loop
value-short_loop zero a h = omega arith
value-short_loop (suc rounds) a h = ground (
  arith,
  value-short_loop rounds (a / 32) (omega arith),
  low_digit a,
  digit_value-short_digit (a % 32) (omega arith),
)

-- The digits of `Int2Short` give a number below 2^64 back, so no two numbers have the same name.
pub value-int_to_short : (a : ℕ) → a < 2 ^ 64 → value (int_to_short a) ≡ a
unfolding int_to_short
value-int_to_short a h = value-short_loop 13 a (omega arith)
