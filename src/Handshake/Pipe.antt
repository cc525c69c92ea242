-- ===== src/Handshake/Pipe.antt =====
-- The key of a pipe always fits the cipher.
use lunnel.Base.{ℕ, ◌<◌, ◌≡◌, refl, some, List, ◌++◌, length, replicate}
use lunnel.Msg.{Uuid}
use lunnel.Crypto.Prf.{prf12, p_hash}
use lunnel.Crypto.Prf.Laws.{p_hash-p_stream}
use lunnel.Crypto.Stream.{new_cipher, new_crypto_stream, fresh}
use lunnel.Handshake.{Agreed, pipe_stream}

new_crypto_stream-16 :
    (aes : List ℕ → List ℕ → List ℕ) (key : List ℕ)
    → length key ≡ 16
    → new_crypto_stream aes key ≡ some (fresh (record { block_size = 16; encrypt_block = aes key }))
unfolding new_crypto_stream new_cipher
new_crypto_stream-16 aes key e = rw (new_crypto_stream, new_cipher, e) refl

-- With an HMAC of at least one byte the making of a pipe's cipher stream never fails: the key that
-- is made from the secret, the identity and the pipe's number has 16 bytes.
pub pipe_stream-some :
    (hmac aes : List ℕ → List ℕ → List ℕ) (a : Agreed) (once : Uuid)
    → ((s m : List ℕ) → 0 < length (hmac s m))
    → (key : List ℕ) × (length key ≡ 16)
      × (pipe_stream hmac aes a once
          ≡ some (fresh (record { block_size = 16; encrypt_block = aes key })))
unfolding pipe_stream prf12
pipe_stream-some hmac aes a once some_bytes =
    let zeros : List ℕ = replicate 16 0 in
    let size =
      (p_hash-p_stream hmac a.pre_master_secret (a.client_id ++ once)
        (some_bytes a.pre_master_secret) zeros).1 in
    let key = p_hash hmac zeros a.pre_master_secret (a.client_id ++ once) in
    (key, size, new_crypto_stream-16 aes key size)
