-- ===== src/Crypto/KeyExchange.antt =====
-- `ProcessKeyExchange` and `GenerateKeyExChange` of crypto/keyExchange.go. The curve P-256 of
-- crypto/elliptic is a parameter.
pub mod Agreement
use lunnel.Base.{
  ℕ, ◌+◌, ◌-◌, ◌%◌, ◌/◌, Bool, not, ◌||◌, Option, none, some, List, [], ◌∷◌, ◌++◌, ◌==◌, ltb,
  if◌then◌else◌, length, get_or, drop, replicate,
}
use lunnel.Base.Result.{Result, ok, err, panic, ◌>>=◌, ◌>>◌, fail_if}
use lunnel.Base.Bytes.{uint8, ◌>>>◌}

-- What the code calls of `elliptic.Curve`. `scalar_mult` gives the bytes of the x coordinate.
pub record Curve : Type 1 where
  pub Point : Type 0
  pub bit_size : ℕ
  pub generate_key : ℕ → Option (List ℕ × Point)
  pub marshal : Point → List ℕ
  pub unmarshal : List ℕ → Option Point
  pub is_on_curve : Point → Bool
  pub scalar_mult : Point → List ℕ → List ℕ

-- `fmt.Errorf("error key exchange")`, the one error of the three guards.
pub data KeyError : Type 0 where
  error_key_exchange : KeyError

module _ (curve : Curve) where
  open curve use {Point, bit_size, generate_key, marshal, unmarshal, is_on_curve, scalar_mult}

  -- The bytes of x at the end of a zeroed secret; more bytes than the secret has make the bound of
  -- the slice negative, which panics.
  unfoldable pub pad_secret : List ℕ → Result KeyError (List ℕ)
  pad_secret x =
      let size = (bit_size + 7) >>> 3 in
      if ltb size (length x) then panic else ok (replicate (size - length x) 0 ++ x)

  unfoldable pub unmarshal_or_fail : List ℕ → Result KeyError Point
  unmarshal_or_fail bytes = elim (unmarshal bytes) [ none ↦ err error_key_exchange | some p ↦ ok p ]

  unfoldable pub process_key_exchange : List ℕ → List ℕ → Result KeyError (List ℕ)
  process_key_exchange priv ciphertext = do
    fail_if (length ciphertext == 0 || not (get_or ciphertext 0 0 == length ciphertext - 1))
        error_key_exchange
    p ← unmarshal_or_fail (drop 1 ciphertext)
    fail_if (not (is_on_curve p)) error_key_exchange
    pad_secret (scalar_mult p priv)

  -- The private key and the message to the peer. `random` is what the random source yields.
  unfoldable pub generate_key_exchange : ℕ → Option (List ℕ × List ℕ)
  generate_key_exchange random = elim (generate_key random) [
    | none ↦ none
    | some (priv, p) ↦
        (let serialized = marshal p in some (priv, uint8 (length serialized) ∷ serialized))
  ]
