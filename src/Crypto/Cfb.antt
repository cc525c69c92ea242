-- ===== src/Crypto/Cfb.antt =====
-- The functions `encrypt` and `decrypt` of crypto/conn.go: cipher feedback one byte at a time.
-- The block cipher is a parameter, as `cipher.Block` is in the code.
pub mod Laws
pub mod Blocks
use lunnel.Base.{ℕ, ◌+◌, ◌%◌, bit_xor, List, [], ◌∷◌, ◌==◌, if◌then◌else◌, get_or, set}

-- `cipher.Block`: the size of a block, and the encryption of one.
pub record Block : Type 0 where
  pub block_size : ℕ
  pub encrypt_block : List ℕ → List ℕ

-- The register and the position in it, `ivec` and `*num`.
pub record Cfb : Type 0 where
  pub ivec : List ℕ
  pub num : ℕ

-- The register as the loop body finds it: a new block is made at position 0.
unfoldable pub refill : Block → Cfb → List ℕ
refill block s = if s.num == 0 then block.encrypt_block s.ivec else s.ivec

-- The key byte at the position. An index out of the register would panic; `Laws` shows that there
-- is none, so the 0 is never read.
unfoldable pub key_byte : Block → Cfb → ℕ
key_byte block s = get_or (refill block s) s.num 0

-- Both loops store the byte of the cipher text and move on.
unfoldable pub feed : Block → ℕ → Cfb → Cfb
feed block c s = record {
  ivec = set (refill block s) s.num c;
  num = (s.num + 1) % block.block_size;
}

-- The bytes of `dst`, and the register that is left.
unfoldable pub encrypt : Block → List ℕ → Cfb → List ℕ × Cfb
encrypt block [] s = ([], s)
encrypt block (b ∷ src) s =
    let c = bit_xor (key_byte block s) b in
    let (dst, s') = encrypt block src (feed block c s) in (c ∷ dst, s')

unfoldable pub decrypt : Block → List ℕ → Cfb → List ℕ × Cfb
decrypt block [] s = ([], s)
decrypt block (c ∷ src) s =
    let b = bit_xor (key_byte block s) c in
    let (dst, s') = decrypt block src (feed block c s) in (b ∷ dst, s')
