-- ===== src/Crypto/Prf.antt =====
-- `pHash`, `prf12` and `NewPrf12` of crypto/keyExchange.go. `hmac secret message` stands for one
-- HMAC of crypto/hmac: New or Reset, the Writes joined, and Sum.
pub mod Laws
use lunnel.Base.{
  ℕ, zero, suc, ◌+◌, ◌-◌, List, [], ◌∷◌, ◌++◌, ltb, if◌then◌else◌, length, take, drop,
}

-- copy(result[j:j+todo], b), where todo fits both.
unfoldable pub copy_at : ℕ → ℕ → List ℕ → List ℕ → List ℕ
copy_at j todo b result = take j result ++ (take todo b ++ drop (j + todo) result)

module _ (hmac : List ℕ → List ℕ → List ℕ) where
  -- The loop at offset `j` with the chaining value `a`. Each round writes at least one byte, so
  -- `length result` rounds are enough.
  unfoldable pub p_hash_loop : ℕ → List ℕ → List ℕ → ℕ → List ℕ → List ℕ → List ℕ
  p_hash_loop zero secret seed j a result = result
  p_hash_loop (suc fuel) secret seed j a result =
      let b = hmac secret (a ++ seed) in
      let todo = if ltb (length result) (j + length b) then length result - j else length b in
      let rest =
        p_hash_loop fuel secret seed (j + todo) (hmac secret a) (copy_at j todo b result) in
      if ltb j (length result) then rest else result

  -- The content of `result` after the call.
  unfoldable pub p_hash : List ℕ → List ℕ → List ℕ → List ℕ
  p_hash result secret seed = p_hash_loop (length result) secret seed 0 (hmac secret seed) result

  unfoldable pub prf12 : List ℕ → List ℕ → List ℕ → List ℕ → List ℕ
  prf12 result secret label seed = p_hash result secret (label ++ seed)
