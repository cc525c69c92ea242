-- ===== src/Base/Numbers.antt =====
-- strconv.ParseUint to the base 10, and its agreement with the printing of numbers.
use Prim.Native.Nat.{ℕ, zero, suc, ◌+◌, ◌-◌, ◌*◌, ◌/◌, ◌%◌, ◌^◌, ◌<◌, ◌≤◌}
use mathlib.Core.Path.{◌≡◌, refl, ◌∙◌}
use mathlib.Core.Logic.{inl, inr}
use mathlib.Core.Bool.{Bool, true, false, ◌&&◌}
use mathlib.Core.Option.{Option, none, some}
use mathlib.Core.List.{[], ◌∷◌}
use native.Mathlib.Omega.{arith}
use lunnel.Base.Tests.{ltb, leb, if◌then◌else◌, Bool-cases}
use lunnel.Base.Text.{Text, decimal_fuel, decimal}

pub data NumError : Type 0 where
  syntax range : NumError

abbrev pub is_digit : ℕ → Bool
is_digit c = leb 48 c && leb c 57

abbrev pub is_empty : Text → Bool
is_empty [] = true
is_empty (c ∷ s) = false

-- The value and the error; a number beyond the limit ends the loop with the limit.
unfoldable pub parse_loop : ℕ → ℕ → Text → ℕ × Option NumError
parse_loop limit acc [] = (acc, none)
parse_loop limit acc (c ∷ s) =
    let next = acc * 10 + (c - 48) in
    let rest = parse_loop limit next s in
    if is_digit c then (if ltb limit next then (limit, some range) else rest) else (0, some syntax)

unfoldable pub parse_uint : Text → ℕ → ℕ × Option NumError
parse_uint s bits = if is_empty s then (0, some syntax) else parse_loop (2 ^ bits - 1) 0 s

parse_loop-digit :
    (limit acc d : ℕ) (s : Text)
    → d < 10
    → acc * 10 + d ≤ limit
    → parse_loop limit acc ((d + 48) ∷ s) ≡ parse_loop limit (acc * 10 + d) s
unfolding parse_loop
parse_loop-digit limit acc d s h k =
    let e : acc * 10 + (d + 48 - 48) ≡ acc * 10 + d = omega arith in
    let digit : is_digit (d + 48) ≡ true = ground arith in
    let fits : ltb limit (acc * 10 + d) ≡ false = ground arith in rw (digit, e, fits) refl

parse_loop-decimal_fuel :
    (fuel limit n : ℕ) (rest : Text)
    → n < fuel
    → n ≤ limit
    → parse_loop limit 0 (decimal_fuel fuel n rest) ≡ parse_loop limit n rest
unfolding decimal_fuel
parse_loop-decimal_fuel zero limit n rest h k = absurd (omega arith)
parse_loop-decimal_fuel (suc fuel) limit n rest h k = elim (Bool-cases (ltb n 10)) [
  | inl small ↦
      let e : n % 10 ≡ n = ground arith in
      let e0 : 0 * 10 + n ≡ n = omega arith in
      rw (small, e) (parse_loop-digit limit 0 n rest (ground arith) (omega arith) ∙ rw e0 refl)
  | inr large ↦
      let less : n / 10 < fuel = ground arith in
      let step = parse_loop-digit limit (n / 10) (n % 10) rest (omega arith) (omega arith) in
      let e : n / 10 * 10 + n % 10 ≡ n = omega arith in
      rw large (
        parse_loop-decimal_fuel fuel limit (n / 10) ((n % 10 + 48) ∷ rest) less (omega arith)
        ∙ step
        ∙ rw e refl)
]

decimal_fuel-some : (fuel n c : ℕ) (rest : Text) → is_empty (decimal_fuel fuel n (c ∷ rest)) ≡ false
unfolding decimal_fuel
decimal_fuel-some zero n c rest = refl
decimal_fuel-some (suc fuel) n c rest = elim (Bool-cases (ltb n 10)) [
  | inl small ↦ rw small refl
  | inr large ↦ rw large (decimal_fuel-some fuel (n / 10) (n % 10 + 48) (c ∷ rest))
]

pub decimal-some : (n : ℕ) → is_empty (decimal n) ≡ false
unfolding decimal decimal_fuel
decimal-some n = elim (Bool-cases (ltb n 10)) [
  | inl small ↦ rw small refl
  | inr large ↦ rw large (decimal_fuel-some n (n / 10) (n % 10 + 48) [])
]

-- A printed number is parsed back, if it fits.
pub parse_uint-decimal : (n bits : ℕ) → n ≤ 2 ^ bits - 1 → parse_uint (decimal n) bits ≡ (n, none)
unfolding parse_uint
parse_uint-decimal n bits h = rw (decimal-some n) (
    unfold decimal parse_loop in
    parse_loop-decimal_fuel (suc n) (2 ^ bits - 1) n [] (omega arith) h)

-- The value never exceeds the limit.
parse_loop-le : (limit acc : ℕ) (s : Text) → acc ≤ limit → (parse_loop limit acc s).0 ≤ limit
unfolding parse_loop
parse_loop-le limit acc [] h = h
parse_loop-le limit acc (c ∷ s) h =
    let next = acc * 10 + (c - 48) in
    elim (Bool-cases (is_digit c)) [
      | inl digit ↦ elim (Bool-cases (ltb limit next)) [
        | inl out ↦ rw (digit, out) (omega arith)
        | inr fits ↦ rw (digit, fits) (parse_loop-le limit next s (ground arith))
      ]
      | inr other ↦ rw other (omega arith)
    ]

pub parse_uint-le : (s : Text) (bits : ℕ) → (parse_uint s bits).0 ≤ 2 ^ bits - 1
unfolding parse_uint
parse_uint-le s bits = elim (Bool-cases (is_empty s)) [
  | inl e ↦ rw e (omega arith)
  | inr e ↦ rw e (parse_loop-le (2 ^ bits - 1) 0 s (omega arith))
]
