-- ===== src/Crypto/Cfb/Laws.antt =====
-- The two loops of crypto/conn.go undo each other, at any division of the bytes into calls.
use lunnel.Base.{
  ℕ, ◌<◌, ◌≡◌, refl, ap, ◌∙◌, suc, bit_xor, List, [], ◌∷◌, ◌++◌, arith, length, length-set,
}
use lunnel.Base.Bits.{bit_xor_undo, bit_xor_comm}
use lunnel.Crypto.Cfb.{Block, Cfb, refill, key_byte, feed, encrypt, decrypt}

unmask : (k b : ℕ) → bit_xor k (bit_xor k b) ≡ b
unmask k b = rw (bit_xor_comm k (bit_xor k b), bit_xor_comm k b) (bit_xor_undo b k)

module _ (block : Block) where
  -- From equal registers, `decrypt` gives back the bytes that `encrypt` was given, and both loops
  -- end with equal registers.
  pub decrypt-encrypt :
      (src : List ℕ) (s : Cfb)
      → decrypt block (encrypt block src s).0 s ≡ (src, (encrypt block src s).1)
  unfolding encrypt decrypt
  decrypt-encrypt [] s = refl
  decrypt-encrypt (b ∷ src) s =
      let k = key_byte block s in
      let ih = decrypt-encrypt src (feed block (bit_xor k b) s) in
      λ i. (unmask k b i ∷ (ih i).0, (ih i).1)

  -- `encrypt` on joined bytes gives the bytes and the register of two calls in turn.
  pub encrypt-append :
      (xs ys : List ℕ) (s : Cfb)
      → encrypt block (xs ++ ys) s ≡ (
          let (out, t) = encrypt block xs s in
          let (rest, u) = encrypt block ys t in (out ++ rest, u))
  unfolding encrypt
  encrypt-append [] ys s = refl
  encrypt-append (x ∷ xs) ys s =
      let c = bit_xor (key_byte block s) x in
      let ih = encrypt-append xs ys (feed block c s) in λ i. (c ∷ (ih i).0, (ih i).1)

  pub decrypt-append :
      (xs ys : List ℕ) (s : Cfb)
      → decrypt block (xs ++ ys) s ≡ (
          let (out, t) = decrypt block xs s in
          let (rest, u) = decrypt block ys t in (out ++ rest, u))
  unfolding decrypt
  decrypt-append [] ys s = refl
  decrypt-append (x ∷ xs) ys s =
      let ih = decrypt-append xs ys (feed block x s) in
      λ i. (bit_xor (key_byte block s) x ∷ (ih i).0, (ih i).1)

  pub length-encrypt : (src : List ℕ) (s : Cfb) → length (encrypt block src s).0 ≡ length src
  unfolding encrypt
  length-encrypt [] s = refl
  length-encrypt (b ∷ src) s =
      ap suc (length-encrypt src (feed block (bit_xor (key_byte block s) b) s))

  pub length-decrypt : (src : List ℕ) (s : Cfb) → length (decrypt block src s).0 ≡ length src
  unfolding decrypt
  length-decrypt [] s = refl
  length-decrypt (c ∷ src) s = ap suc (length-decrypt src (feed block c s))

  -- The position stays inside the register, so no index of the loops is out of range.
  pub record IsValid (s : Cfb) : Type 0 where
    pub full : length s.ivec ≡ block.block_size
    pub inside : s.num < block.block_size

  module _ (keeps : (v : List ℕ) → length (block.encrypt_block v) ≡ length v) where
    pub length-refill : (s : Cfb) → length (refill block s) ≡ length s.ivec
    unfolding refill
    length-refill s = ground (arith, keeps s.ivec)

    pub feed-IsValid : (c : ℕ) (s : Cfb) → IsValid s → IsValid (feed block c s)
    unfolding feed
    feed-IsValid c s v = record {
      full = length-set (refill block s) s.num c ∙ length-refill s ∙ v.full;
      inside = grind (arith, v.inside);
    }

    -- If the block cipher keeps the length of a block, `encrypt` leaves the register full and the
    -- position inside it, so no index of its loop is out of range.
    pub encrypt-IsValid : (src : List ℕ) (s : Cfb) → IsValid s → IsValid (encrypt block src s).1
    unfolding encrypt
    encrypt-IsValid [] s v = v
    encrypt-IsValid (b ∷ src) s v =
        let c = bit_xor (key_byte block s) b in
        encrypt-IsValid src (feed block c s) (feed-IsValid c s v)

    pub decrypt-IsValid : (src : List ℕ) (s : Cfb) → IsValid s → IsValid (decrypt block src s).1
    unfolding decrypt
    decrypt-IsValid [] s v = v
    decrypt-IsValid (c ∷ src) s v = decrypt-IsValid src (feed block c s) (feed-IsValid c s v)
