-- ===== src/Util/Addr.antt =====
-- `ParseAddr` of util/util.go.
use lunnel.Base.{
  ℕ, zero, suc, ◌+◌, ◌≤◌, ◌≡◌, ◌/◌, ◌%◌, ◌≢◌, All, refl, false, Option, none, some, [], ◌∷◌, ◌++◌,
  arith, ltb, ◌==◌, if◌then◌else◌, Bool-cases, Option-cases, inl, inr,
}
use lunnel.Base.Text.{Text, text, decimal, decimal_fuel}
use lunnel.Base.Numbers.{
  NumError, parse_uint, parse_uint-decimal, parse_uint-le, is_empty, decimal-some,
}

-- A text with a prefix, without it.
abbrev pub strip_prefix : Text → Text → Option Text
strip_prefix [] s = some s
strip_prefix (c ∷ p) [] = none
strip_prefix (c ∷ p) (d ∷ s) = if c == d then strip_prefix p s else none

-- strings.SplitN(s, sep, 2): the parts before and behind the first separator, if there is one.
unfoldable pub split_first : Text → Text → Option (Text × Text)
split_first sep [] = none
split_first sep (c ∷ s) =
    let rest = split_first sep s in
    elim (strip_prefix sep (c ∷ s)) [
      | some behind ↦ some ([], behind)
      | none ↦ elim rest [ none ↦ none | some (front, behind) ↦ some (c ∷ front, behind) ]
    ]

-- The parts before and behind strings.LastIndex(s, b).
unfoldable pub split_last : ℕ → Text → Option (Text × Text)
split_last b [] = none
split_last b (c ∷ s) = elim (split_last b s) [
  | some (front, behind) ↦ some (c ∷ front, behind)
  | none ↦ if c == b then some ([], s) else none
]

pub data AddrError : Type 0 where
  port_invalid port_greater : AddrError

pub record Addr : Type 0 where
  pub schema : Text
  pub hostname : Text
  pub port : ℕ
  pub failed : Option AddrError

-- A failed conversion of the port.
abbrev pub invalid : Option NumError → Option AddrError
invalid none = none
invalid (some e) = some port_invalid

-- The port behind the last colon, and the error; the second test is of the same port.
unfoldable pub parse_port : Text → ℕ × Option AddrError
parse_port s =
    let (port, e) = parse_uint s 16 in
    if is_empty s
    then (0, none)
    else (port, if ltb 65535 port then some port_greater else invalid e)

unfoldable pub parse_host : Text → Text → Addr
parse_host schema host = elim (split_last 58 host) [
  | none ↦ record { schema = schema; hostname = host; port = 0; failed = none }
  | some (hostname, port_str) ↦
      let (port, failed) = parse_port port_str in
      record { schema = schema; hostname = hostname; port = port; failed = failed }
]

unfoldable pub parse_addr : Text → Addr
parse_addr s = elim (split_first (text "://") s) [
  | none ↦ parse_host [] s
  | some (schema, host) ↦ parse_host schema host
]

split_first-front :
    (schema rest : Text)
    → All (λ c. c ≢ 58) schema
    → split_first (text "://") (schema ++ (text "://" ++ rest)) ≡ some (schema, rest)
unfolding split_first
split_first-front [] rest h = refl
split_first-front (c ∷ schema) rest h =
    let other : (58 == c) ≡ false = ground (arith, h.0) in
    rw (other, split_first, split_first-front schema rest h.1) refl

split_last-back :
    (b : ℕ) (front behind : Text)
    → split_last b behind ≡ none
    → split_last b (front ++ b ∷ behind) ≡ some (front, behind)
unfolding split_last
split_last-back b [] behind h = ground (arith, h)
split_last-back b (c ∷ front) behind h = rw (split_last-back b front behind h) refl

split_last-cons : (b c : ℕ) (s : Text) → c ≢ b → split_last b s ≡ none → split_last b (c ∷ s) ≡ none
unfolding split_last
split_last-cons b c s n h = ground (arith, h, n)

split_last-decimal_fuel :
    (fuel n : ℕ) (rest : Text)
    → split_last 58 rest ≡ none
    → split_last 58 (decimal_fuel fuel n rest) ≡ none
unfolding decimal_fuel
split_last-decimal_fuel zero n rest h = h
split_last-decimal_fuel (suc fuel) n rest h =
    let more = split_last-cons 58 (n % 10 + 48) rest (λ e. omega arith) h in
    elim (Bool-cases (ltb n 10)) [
      | inl small ↦ rw small more
      | inr large ↦ rw large (split_last-decimal_fuel fuel (n / 10) ((n % 10 + 48) ∷ rest) more)
    ]

parse_port-decimal : (n : ℕ) → n ≤ 65535 → parse_port (decimal n) ≡ (n, none)
unfolding parse_port
parse_port-decimal n h =
    let fits : ltb 65535 n ≡ false = ground arith in
    rw (decimal-some n, parse_uint-decimal n 16 (omega arith), fits) refl

-- `ParseAddr` takes an address that is printed from a schema without a colon, any host and a port
-- of 16 bits apart into these three, without an error.
pub parse_addr-print :
    (schema host : Text) (port : ℕ)
    → All (λ c. c ≢ 58) schema
    → port ≤ 65535
    → parse_addr (schema ++ (text "://" ++ (host ++ (text ":" ++ decimal port))))
      ≡ record { schema = schema; hostname = host; port = port; failed = none }
unfolding parse_addr parse_host
parse_addr-print schema host port h k =
    let digits : split_last 58 (decimal port) ≡ none =
      unfold decimal split_last in split_last-decimal_fuel (suc port) port [] refl in
    rw
      (
        split_first-front schema (host ++ (text ":" ++ decimal port)) h,
        parse_addr,
        split_last-back 58 host (decimal port) digits,
        parse_host,
        parse_port-decimal port k,
      )
      refl

invalid-other : (e : Option NumError) → invalid e ≢ some port_greater
invalid-other none f = ground (arith, f)
invalid-other (some e) f = ground (arith, f)

parse_port-le : (s : Text) → ((parse_port s).0 ≤ 65535) × ((parse_port s).1 ≢ some port_greater)
unfolding parse_port
parse_port-le s =
    let (port, e) = parse_uint s 16 in
    let small : port ≤ 65535 = omega (arith, parse_uint-le s 16) in
    let never : ltb 65535 port ≡ false = ground arith in
    elim (Bool-cases (is_empty s)) [
      | inl none_given ↦ rw none_given (omega arith, λ f. ground (arith, f))
      | inr given ↦ rw (given, never) (small, invalid-other e)
    ]

abbrev Checked : Addr → Type 0
Checked a = (a.port ≤ 65535) × (a.failed ≢ some port_greater)

parse_host-le : (schema host : Text) → Checked (parse_host schema host)
unfolding parse_host
parse_host-le schema host = elim (Option-cases (split_last 58 host)) [
  | inl e ↦ rw (parse_host, e) (omega arith, λ f. ground (arith, f))
  | inr ((hostname, port_str), e) ↦ rw (parse_host, e) (parse_port-le port_str)
]

-- The port that `ParseAddr` returns is at most 65535, with an error as without one, and its second
-- test of the port never finds an error.
pub parse_addr-port :
    (s : Text) → ((parse_addr s).port ≤ 65535) × ((parse_addr s).failed ≢ some port_greater)
unfolding parse_addr
parse_addr-port s = elim (Option-cases (split_first (text "://") s)) [
  | inl e ↦ rw (parse_addr, e) (parse_host-le [] s)
  | inr ((schema, host), e) ↦ rw (parse_addr, e) (parse_host-le schema host)
]
