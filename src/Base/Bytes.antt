-- ===== src/Base/Bytes.antt =====
-- Big-endian numbers of two and three bytes, as the source joins and splits them.
use Prim.Native.Nat.{ℕ, ◌+◌, ◌*◌, ◌/◌, ◌%◌, ◌^◌, ◌<◌, bit_or}
use mathlib.Core.Path.{◌≡◌}
use native.Mathlib.Omega.{arith}
use lunnel.Base.Bits.{bit_or_fields}

infixl 75 ◌<<<◌ ◌>>>◌
abbrev pub ◌<<<◌ : ℕ → ℕ → ℕ
x <<< k = x * 2 ^ k

abbrev pub ◌>>>◌ : ℕ → ℕ → ℕ
x >>> k = x / 2 ^ k

abbrev pub uint8 : ℕ → ℕ
uint8 n = n % 2 ^ 8

-- int(a)<<8 | int(b)
unfoldable pub big16 : ℕ → ℕ → ℕ
big16 a b = bit_or (a <<< 8) b

-- int(a)<<16 | int(b)<<8 | int(c)
unfoldable pub big24 : ℕ → ℕ → ℕ → ℕ
big24 a b c = bit_or (bit_or (a <<< 16) (b <<< 8)) c

pub big16_sum : (a b : ℕ) → b < 256 → big16 a b ≡ a * 256 + b
unfolding big16
big16_sum a b h = bit_or_fields 8 a b h

pub big24_sum : (a b c : ℕ) → b < 256 → c < 256 → big24 a b c ≡ a * 65536 + b * 256 + c
unfolding big24
big24_sum a b c h k = rw (bit_or_fields 16 a (b * 2 ^ 8) (omega arith)) (
    let e : a * 2 ^ 16 + b * 2 ^ 8 ≡ (a * 256 + b) * 2 ^ 8 = omega arith in
    rw e (omega (arith, bit_or_fields 8 (a * 256 + b) c h')))
  where
    h' : c < 2 ^ 8
    h' = k

-- The three bytes of a length below 2 ^ 24 give it back.
pub big24_split : (n : ℕ) → n < 16777216 → big24 (uint8 (n >>> 16)) (uint8 (n >>> 8)) (uint8 n) ≡ n
big24_split n h =
    omega
      (arith, big24_sum (uint8 (n >>> 16)) (uint8 (n >>> 8)) (uint8 n) (omega arith) (omega arith))

pub big16_split : (n : ℕ) → n < 65536 → big16 (uint8 (n >>> 8)) (uint8 n) ≡ n
big16_split n h = omega (arith, big16_sum (uint8 (n >>> 8)) (uint8 n) (omega arith))
