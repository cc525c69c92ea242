-- ===== src/Crypto/Examples.antt =====
-- Runs of package crypto on small inputs.
use lunnel.Base.{
  ℕ, ◌+◌, ◌≡◌, refl, false, some, none, List, [], ◌∷◌, arith, length, length-map, concat, map, take,
  get_or, ◌==◌, if◌then◌else◌,
}
use lunnel.Base.Result.{ok}
use lunnel.Crypto.Cfb.{Block, Cfb, encrypt, refill, key_byte, feed}
use lunnel.Crypto.Cfb.Blocks.{cfb_blocks, encrypt-cfb_blocks}
use lunnel.Crypto.Stream.{
  Op, writes, reads, new_cipher, fresh, new_crypto_stream, write, CryptoStream,
}
use lunnel.Crypto.Stream.Duplex.{run, written, arrived, run-prefix}
use lunnel.Crypto.KeyExchange.{Curve, process_key_exchange, generate_key_exchange}
use lunnel.Crypto.KeyExchange.Agreement.{IsCurve, process-generate_agree}
use lunnel.Crypto.Prf.{p_hash}
use lunnel.Crypto.Prf.Laws.{p_stream, p_hash-p_stream}

-- A block of two bytes that is encrypted by adding one to each byte.
abbrev plus_one : Block
plus_one = record { block_size = 2; encrypt_block = map λ b. b + 1 }

abbrev start : Cfb
start = record { ivec = 5 ∷ 9 ∷ []; num = 0 }

encrypt-cfb_blocks_example :
    (encrypt plus_one (7 ∷ 8 ∷ 1 ∷ 2 ∷ []) start).0
    ≡ concat (cfb_blocks plus_one (5 ∷ 9 ∷ []) ((7 ∷ 8 ∷ []) ∷ (1 ∷ 2 ∷ []) ∷ []))
encrypt-cfb_blocks_example =
    encrypt-cfb_blocks plus_one (omega arith) (λ v. length-map v (λ b. b + 1))
      ((7 ∷ 8 ∷ []) ∷ (1 ∷ 2 ∷ []) ∷ []) (5 ∷ 9 ∷ []) refl (refl, (refl, tt))

-- A stand-in for AES that gives the key itself.
abbrev echo : List ℕ → List ℕ → List ℕ
echo key b = key

abbrev key16 : List ℕ
key16 = 1 ∷ 2 ∷ 3 ∷ 4 ∷ 5 ∷ 6 ∷ 7 ∷ 8 ∷ 9 ∷ 10 ∷ 11 ∷ 12 ∷ 13 ∷ 14 ∷ 15 ∷ 16 ∷ []

abbrev stream : CryptoStream
stream = fresh (record { block_size = 16; encrypt_block = echo key16 })

abbrev said : List Op
said = writes (72 ∷ 105 ∷ []) ∷ writes (33 ∷ []) ∷ []

-- The first two bytes have come in, one by one.
abbrev heard : List Op
heard =
    reads (record { bytes = 73 ∷ []; failed = false })
    ∷ reads (record { bytes = 107 ∷ []; failed = false })
    ∷ []

run-prefix_example : (run heard stream).plain ≡ take (length (arrived heard)) (written said)
unfolding new_crypto_stream new_cipher run write encrypt key_byte refill feed fresh
run-prefix_example =
    run-prefix echo key16 (34 ∷ []) said heard refl refl
      ((λ e. ground arith), ((λ e. ground arith), tt)) refl

-- A curve of the points 0 to 9 in which all products are 0.
abbrev toy : Curve
toy = record {
  Point = ℕ;
  bit_size = 9;
  generate_key = λ r. some (r ∷ [], 7);
  marshal = λ p. p ∷ [];
  unmarshal = λ bs. if length bs == 1 then some (get_or bs 0 0) else none;
  is_on_curve = λ p. p == 7;
  scalar_mult = λ p k. p ∷ [];
}

toy-IsCurve : IsCurve toy
toy-IsCurve = record {
  unmarshal-marshal = λ r k p e. ground arith;
  on_curve = λ r k p e. ground arith;
  marshal_short = λ p. omega arith;
  x_fits = λ p k. omega arith;
  agrees = λ r s k l p q e f. ground arith;
}

process-generate_agree_example :
    (secret : List ℕ) × (process_key_exchange toy (3 ∷ []) (1 ∷ 7 ∷ []) ≡ ok secret)
    × (process_key_exchange toy (4 ∷ []) (1 ∷ 7 ∷ []) ≡ ok secret)
    × (length secret ≡ 2)
unfolding generate_key_exchange
process-generate_agree_example =
    process-generate_agree toy toy-IsCurve 3 4 (3 ∷ []) (4 ∷ []) (1 ∷ 7 ∷ []) (1 ∷ 7 ∷ []) refl refl

-- A stand-in for HMAC: the message's first bytes, and one more.
abbrev digest : List ℕ → List ℕ → List ℕ
digest secret message = 1 ∷ take 2 message

p_hash-p_stream_example :
    (p_hash digest (0 ∷ 0 ∷ 0 ∷ 0 ∷ []) (8 ∷ []) (6 ∷ [])
      ≡ take 4 (p_stream digest (8 ∷ []) (6 ∷ []) 4 (digest (8 ∷ []) (6 ∷ []))))
    × (length (p_hash digest (0 ∷ 0 ∷ 0 ∷ 0 ∷ []) (8 ∷ []) (6 ∷ [])) ≡ 4)
p_hash-p_stream_example =
    p_hash-p_stream digest (8 ∷ []) (6 ∷ []) (λ m. omega arith) (0 ∷ 0 ∷ 0 ∷ 0 ∷ [])
