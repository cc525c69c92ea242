-- ===== src/Base/Text.antt =====
-- Byte strings as lists of numbers: literals, comparison, search, decimal numbers.
use Prim.Native.Nat.{ℕ, zero, suc, ◌+◌, ◌/◌, ◌%◌}
use Prim.Native.Char.{code}
use Prim.Native.String.{String}
use mathlib.Core.Path.{◌≡◌, refl}
use mathlib.Core.Logic.{◌↔◌}
use mathlib.Core.Bool.{Bool, true, false, ◌&&◌, ◌||◌}
use mathlib.Core.List.{List, [], ◌∷◌, reverse}
use native.Mathlib.Omega.{arith}
use lunnel.Base.Lists.{length, drop}
use lunnel.Base.Tests.{ltb, leb, ◌==◌, if◌then◌else◌}

abbrev pub Text : Type 0
Text = List ℕ

-- The bytes of an ASCII literal.
abbrev pub text : String → Text
text String.[] = []
text (String.◌∷◌ c s) = code c ∷ text s

abbrev pub text_eq : Text → Text → Bool
text_eq [] [] = true
text_eq [] (b ∷ bs) = false
text_eq (a ∷ as') [] = false
text_eq (a ∷ as') (b ∷ bs) = a == b && text_eq as' bs

pub eq_of_text_eq : (s t : Text) → text_eq s t ≡ true → s ≡ t
eq_of_text_eq [] [] e = refl
eq_of_text_eq [] (b ∷ bs) e = ground arith
eq_of_text_eq (a ∷ s) [] e = ground arith
eq_of_text_eq (a ∷ s) (b ∷ t) e = ground (arith, eq_of_text_eq s t)

pub text_eq_refl : (s : Text) → text_eq s s ≡ true
text_eq_refl [] = refl
text_eq_refl (a ∷ s) = ground (arith, text_eq_refl s)

pub text_eq_iff : (s t : Text) → (text_eq s t ≡ true) ↔ (s ≡ t)
text_eq_iff s t = (eq_of_text_eq s t, λ e. rw e (text_eq_refl t))

-- The digits of a number, from the lowest on, joined in front of `rest`. `suc n` rounds are enough
-- for `n`, since each one divides by ten.
unfoldable pub decimal_fuel : ℕ → ℕ → Text → Text
decimal_fuel zero n rest = rest
decimal_fuel (suc fuel) n rest =
    let digit = n % 10 + 48 in
    let more = decimal_fuel fuel (n / 10) (digit ∷ rest) in if ltb n 10 then digit ∷ rest else more

unfoldable pub decimal : ℕ → Text
decimal n = decimal_fuel (suc n) n []

-- `unicode.IsSpace` on the UTF-8 encodings of one, two and three bytes. One byte: tab, line feed,
-- vertical tab, form feed, carriage return and blank.
abbrev pub is_space : ℕ → Bool
is_space b = (leb 9 b && leb b 13) || b == 32

-- U+0085 and U+00A0.
abbrev pub is_space2 : ℕ → ℕ → Bool
is_space2 a b = a == 194 && (b == 133 || b == 160)

-- U+1680, U+2000 to U+200A, U+2028, U+2029, U+202F, U+205F and U+3000.
abbrev pub is_space3 : ℕ → ℕ → ℕ → Bool
is_space3 a b c =
    (a == 225 && b == 154 && c == 128)
    || (a == 226 && b == 128 && ((leb 128 c && leb c 138) || c == 168 || c == 169 || c == 175))
    || (a == 226 && b == 129 && c == 159)
    || (a == 227 && b == 128 && c == 128)

-- The number of bytes of the white space with which a text begins, by the tests for two and three
-- bytes, or zero.
unfoldable pub space_size : (ℕ → ℕ → Bool) → (ℕ → ℕ → ℕ → Bool) → Text → ℕ
space_size two three [] = 0
space_size two three (a ∷ []) = if is_space a then 1 else 0
space_size two three (a ∷ b ∷ []) = if is_space a then 1 else if two a b then 2 else 0
space_size two three (a ∷ b ∷ c ∷ s) =
    if is_space a then 1 else if two a b then 2 else if three a b c then 3 else 0

-- Each round drops a byte or more, so that the length of the text is enough fuel.
unfoldable pub trim_fuel : ℕ → (ℕ → ℕ → Bool) → (ℕ → ℕ → ℕ → Bool) → Text → Text
trim_fuel zero two three s = s
trim_fuel (suc fuel) two three s =
    let n = space_size two three s in
    let rest = trim_fuel fuel two three (drop n s) in if n == 0 then s else rest

-- The second pass goes from the end, where the bytes of a rune come in the other order.
unfoldable pub trim_space : Text → Text
trim_space s =
    let t = trim_fuel (length s) is_space2 is_space3 s in
    reverse (trim_fuel (length t) (λ a b. is_space2 b a) (λ a b c. is_space3 c b a) (reverse t))
