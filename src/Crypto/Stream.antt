-- ===== src/Crypto/Stream.antt =====
-- `cryptoStream` of crypto/conn.go. The raw connection is seen through what its calls return; AES
-- is a parameter, from a key to the encryption of one block of 16 bytes.
pub mod Duplex
use lunnel.Base.{
  ℕ, Bool, ◌||◌, Option, none, some, List, [], ◌∷◌, ◌==◌, if◌then◌else◌, length, take,
}
use lunnel.Crypto.Cfb.{Block, Cfb, encrypt, decrypt}

abbrev pub initial_vector : List ℕ
initial_vector =
    55 ∷ 33 ∷ 111 ∷ 156 ∷ 18 ∷ 172 ∷ 34 ∷ 2 ∷ 164 ∷ 99 ∷ 252 ∷ 122 ∷ 252 ∷ 133 ∷ 12 ∷ 55 ∷ []

-- The stream without its raw connection.
pub record CryptoStream : Type 0 where
  pub encbuf : List ℕ
  pub decbuf : List ℕ
  pub enc_num : ℕ
  pub dec_num : ℕ
  pub block : Block

-- What a call of Read on the raw connection returns: the bytes that it has put into the buffer,
-- and whether it also reports an error.
pub record RawRead : Type 0 where
  pub bytes : List ℕ
  pub failed : Bool

-- `aes.NewCipher` takes keys of 16, 24 and 32 bytes only.
unfoldable pub new_cipher : (List ℕ → List ℕ → List ℕ) → List ℕ → Option Block
new_cipher aes key =
    let n = length key in
    if n == 16 || n == 24 || n == 32
    then some (record { block_size = 16; encrypt_block = aes key })
    else none

unfoldable pub fresh : Block → CryptoStream
fresh block = record {
  encbuf = take block.block_size initial_vector;
  decbuf = take block.block_size initial_vector;
  enc_num = 0;
  dec_num = 0;
  block = block;
}

unfoldable pub new_crypto_stream : (List ℕ → List ℕ → List ℕ) → List ℕ → Option CryptoStream
new_crypto_stream aes key = elim (new_cipher aes key) [ none ↦ none | some b ↦ some (fresh b) ]

abbrev pub enc_state : CryptoStream → Cfb
enc_state c = record { ivec = c.encbuf; num = c.enc_num }

abbrev pub dec_state : CryptoStream → Cfb
dec_state c = record { ivec = c.decbuf; num = c.dec_num }

-- `Read`: after an error the bytes are handed on as they came.
unfoldable pub read : RawRead → CryptoStream → RawRead × CryptoStream
read raw c =
    if raw.failed
    then (raw, c)
    else (let (dst, s) = decrypt c.block raw.bytes (dec_state c) in
        (
          record { bytes = dst; failed = raw.failed },
          record c { decbuf = s.ivec; dec_num = s.num },
        ))

-- `Write`: the bytes that it hands to the raw connection. They also replace the caller's bytes.
unfoldable pub write : List ℕ → CryptoStream → List ℕ × CryptoStream
write b c =
    let (dst, s) = encrypt c.block b (enc_state c) in
    (dst, record c { encbuf = s.ivec; enc_num = s.num })

-- A use of one end: calls of `Write` and `Read` in any order.
pub data Op : Type 0 where
  writes : List ℕ → Op
  reads : RawRead → Op

-- What a use sends on the raw connection, and what its reads return, joined.
pub record Trace : Type 0 where
  pub wire : List ℕ
  pub plain : List ℕ
