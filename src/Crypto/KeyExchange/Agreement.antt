-- ===== src/Crypto/KeyExchange/Agreement.antt =====
-- The two ends of a key exchange hold the same secret, and a malformed message is refused.
use lunnel.Base.{
  ℕ, ◌+◌, ◌-◌, ◌≤◌, ◌<◌, ◌≡◌, ap, ◌∙◌, true, some, List, ◌∷◌, ◌++◌, arith, length, length-append,
  length-replicate, Option-cases, inl, inr, drop, replicate, get_or,
}
use lunnel.Base.Result.{ok, NoPanic}
use lunnel.Base.Bytes.{uint8, ◌>>>◌}
use lunnel.Crypto.KeyExchange.{
  Curve, pad_secret, unmarshal_or_fail, process_key_exchange, generate_key_exchange,
}

-- What crypto/elliptic documents: points that it makes survive `Marshal` and `Unmarshal` and lie on
-- the curve, x fits the field, the encoding is short, and the two products of a pair of keys agree.
pub record IsCurve (curve : Curve) : Type 0 where
  pub unmarshal-marshal :
      (r : ℕ) (k : List ℕ) (p : curve.Point)
      → curve.generate_key r ≡ some (k, p)
      → curve.unmarshal (curve.marshal p) ≡ some p
  pub on_curve :
      (r : ℕ) (k : List ℕ) (p : curve.Point)
      → curve.generate_key r ≡ some (k, p)
      → curve.is_on_curve p ≡ true
  pub marshal_short : (p : curve.Point) → length (curve.marshal p) < 256
  pub x_fits :
      (p : curve.Point) (k : List ℕ) → length (curve.scalar_mult p k) ≤ (curve.bit_size + 7) >>> 3
  pub agrees :
      (r s : ℕ) (k l : List ℕ) (p q : curve.Point)
      → curve.generate_key r ≡ some (k, p)
      → curve.generate_key s ≡ some (l, q)
      → curve.scalar_mult p l ≡ curve.scalar_mult q k

module _ (curve : Curve) (laws : IsCurve curve) where
  open curve use {Point, bit_size, generate_key, marshal, unmarshal, is_on_curve, scalar_mult}

  -- The secret that belongs to the bytes of x.
  abbrev padded : List ℕ → List ℕ
  padded x = replicate (((bit_size + 7) >>> 3) - length x) 0 ++ x

  process_generated :
      (r : ℕ) (k l : List ℕ) (p : Point)
      → generate_key r ≡ some (k, p)
      → process_key_exchange curve l (uint8 (length (marshal p)) ∷ marshal p)
        ≡ ok (padded (scalar_mult p l))
  unfolding process_key_exchange unmarshal_or_fail pad_secret
  process_generated r k l p e = ground (
    arith,
    laws.unmarshal-marshal r k p e,
    laws.on_curve r k p e,
    laws.marshal_short p,
    laws.x_fits p l,
  )

  generated :
      (r : ℕ) (k mk : List ℕ)
      → generate_key_exchange curve r ≡ some (k, mk)
      → (p : Point) × (generate_key r ≡ some (k, p)) × (mk ≡ uint8 (length (marshal p)) ∷ marshal p)
  unfolding generate_key_exchange
  generated r k mk e = elim (Option-cases (generate_key r)) [
    | inl none_made ↦ absurd (ground (arith, none_made))
    | inr ((j, p), made) ↦ (p, ground (arith, made), ground (arith, made))
  ]

  length-padded :
      (x : List ℕ) → length x ≤ (bit_size + 7) >>> 3 → length (padded x) ≡ (bit_size + 7) >>> 3
  length-padded x h = omega (
    arith,
    length-append (replicate (((bit_size + 7) >>> 3) - length x) 0) x,
    length-replicate {A = ℕ} (((bit_size + 7) >>> 3) - length x) 0,
  )

  -- On a curve with the documented laws, each end generates a pair of keys and processes the
  -- message of the other: both succeed with the same secret, and it has the width of the field.
  pub process-generate_agree :
      (r s : ℕ) (k l mk ml : List ℕ)
      → generate_key_exchange curve r ≡ some (k, mk)
      → generate_key_exchange curve s ≡ some (l, ml)
      → (secret : List ℕ) × (process_key_exchange curve k ml ≡ ok secret)
        × (process_key_exchange curve l mk ≡ ok secret)
        × (length secret ≡ (bit_size + 7) >>> 3)
  process-generate_agree r s k l mk ml e f =
      let (p, made, sent) = generated r k mk e in
      let (q, made', sent') = generated s l ml f in
      let same = laws.agrees r s k l p q made made' in
      (
        padded (scalar_mult q k),
        rw sent' (process_generated s l k q made'),
        rw (sent, ← same) (process_generated r k l p made),
        length-padded (scalar_mult q k) (laws.x_fits q k),
      )

  -- On a curve with the documented laws, no message makes `ProcessKeyExchange` panic.
  pub process-NoPanic : (priv ct : List ℕ) → NoPanic (process_key_exchange curve priv ct)
  unfolding process_key_exchange unmarshal_or_fail pad_secret
  process-NoPanic priv ct = elim (Option-cases (unmarshal (drop 1 ct))) [
    | inl off ↦ ground (arith, off)
    | inr (p, point) ↦ ground (arith, point, laws.x_fits p priv)
  ]

  -- On a curve with the documented laws, a message is accepted only if its first byte counts the
  -- rest, which is a point of the curve; the secret is then its padded product with the private
  -- key, and has the width of the field.
  pub process-ok :
      (priv ct secret : List ℕ)
      → process_key_exchange curve priv ct ≡ ok secret
      → (p : Point) × (get_or ct 0 0 + 1 ≡ length ct)
        × (unmarshal (drop 1 ct) ≡ some p)
        × (is_on_curve p ≡ true)
        × (secret ≡ padded (scalar_mult p priv))
        × (length secret ≡ (bit_size + 7) >>> 3)
  unfolding process_key_exchange unmarshal_or_fail pad_secret
  process-ok priv ct secret e = elim (Option-cases (unmarshal (drop 1 ct))) [
    | inl off ↦ absurd (ground (arith, off))
    | inr (p, point) ↦
        (let parts : (get_or ct 0 0 + 1 ≡ length ct)
              × (is_on_curve p ≡ true)
              × (secret ≡ padded (scalar_mult p priv)) =
            ground (arith, point) in
          (
            p,
            parts.0,
            point,
            parts.1,
            parts.2,
            ap length parts.2 ∙ length-padded (scalar_mult p priv) (laws.x_fits p priv),
          ))
  ]
