-- ===== src/Util.antt =====
-- Package util: `Int2Short` of util/util.go.
pub mod Short
pub mod Addr
pub mod Pool
mod Examples
use lunnel.Base.{ℕ, zero, suc, ◌+◌, ◌%◌, bit_and, List, [], ◌∷◌, ltb, ◌==◌, if◌then◌else◌}
use lunnel.Base.Bytes.{◌>>>◌, uint8}
use lunnel.Base.Text.{Text}

-- The digits 0 to 9, then a to v.
unfoldable pub short_digit : ℕ → ℕ
short_digit temp = uint8 (if ltb 9 temp then temp + 87 else temp + 48)

-- The rounds of the loop that are left, and the number.
unfoldable pub short_loop : ℕ → ℕ → Text
short_loop zero a = []
short_loop (suc rounds) a =
    let next = a >>> 5 in
    let rest = short_loop rounds next in
    short_digit (bit_and a 31) ∷ (if next == 0 then [] else rest)

unfoldable pub int_to_short : ℕ → Text
int_to_short a = short_loop 13 a
