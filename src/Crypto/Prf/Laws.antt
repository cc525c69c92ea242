-- ===== src/Crypto/Prf/Laws.antt =====
-- `pHash` fills the buffer with the first bytes of P_hash of RFC 4346.
use lunnel.Base.{
  ℕ, zero, suc, ◌+◌, ◌-◌, ◌≤◌, ◌<◌, ◌≡◌, refl, sym, ap, ◌∙◌, Bool-cases, inl, inr, List, [], ◌∷◌,
  ◌++◌, append_assoc, append-nil, take-append_length, arith, ltb, if◌then◌else◌, length, take, drop,
  length-append, length-take, length-drop,
}
use native.Mathlib.Nat.{sub-zero}
use lunnel.Crypto.Prf.{copy_at, p_hash_loop, p_hash}

take_all : (xs : List ℕ) (n : ℕ) → length xs ≤ n → take n xs ≡ xs
take_all [] zero h = refl
take_all [] (suc n) h = refl
take_all (x ∷ xs) zero h = absurd (omega arith)
take_all (x ∷ xs) (suc n) h = ap (◌∷◌ x) (take_all xs n (omega arith))

take-append : (n : ℕ) (xs ys : List ℕ) → take n (xs ++ ys) ≡ take n xs ++ take (n - length xs) ys
take-append zero [] ys = refl
take-append (suc n) [] ys = simp sub-zero
take-append zero (x ∷ xs) ys = let z : 0 - length (x ∷ xs) ≡ 0 = omega arith in rw z
take-append (suc n) (x ∷ xs) ys =
    let z : suc n - length (x ∷ xs) ≡ n - length xs = omega arith in
    rw z (ap (◌∷◌ x) (take-append n xs ys))

take-take : (m n : ℕ) (xs : List ℕ) → m ≤ n → take m (take n xs) ≡ take m xs
take-take zero n xs h = refl
take-take (suc m) zero xs h = absurd (omega arith)
take-take (suc m) (suc n) [] h = refl
take-take (suc m) (suc n) (x ∷ xs) h = ap (◌∷◌ x) (take-take m n xs (omega arith))

length-copy_at :
    (j todo : ℕ) (b result : List ℕ)
    → todo ≤ length b
    → j + todo ≤ length result
    → length (copy_at j todo b result) ≡ length result
unfolding copy_at
length-copy_at j todo b result h k = omega (
  arith,
  length-append (take j result) (take todo b ++ drop (j + todo) result),
  length-append (take todo b) (drop (j + todo) result),
  length-take j result,
  length-take todo b,
  length-drop (j + todo) result,
)

take-copy_at :
    (j todo : ℕ) (b result : List ℕ)
    → todo ≤ length b
    → j + todo ≤ length result
    → take (j + todo) (copy_at j todo b result) ≡ take j result ++ take todo b
unfolding copy_at
take-copy_at j todo b result h k =
    let done = take j result ++ take todo b in
    let size : length done ≡ j + todo = omega (
      arith,
      length-append (take j result) (take todo b),
      length-take j result,
      length-take todo b,
    ) in
    rw (← append_assoc (take j result) (take todo b), ← size)
      (take-append_length done (drop (length done) result))

-- The number of bytes that one round copies.
abbrev chunk : ℕ → ℕ → ℕ → ℕ
chunk size j n = if ltb size (j + n) then size - j else n

take-chunk :
    (size j : ℕ) (b rest : List ℕ)
    → j ≤ size
    → take (chunk size j (length b)) b ++ take (size - (j + chunk size j (length b))) rest
      ≡ take (size - j) (b ++ rest)
take-chunk size j b rest h = elim (Bool-cases (ltb size (j + length b))) [
  | inl cut ↦
      let none_left : size - (j + (size - j)) ≡ size - j - length b = ground arith in
      rw (cut, none_left) (sym (take-append (size - j) b rest))
  | inr whole ↦
      let same : size - (j + length b) ≡ size - j - length b = omega arith in
      let fits : length b ≤ size - j = ground arith in
      rw (whole, same, take_all b (length b) (omega arith))
        (sym (
          take-append (size - j) b rest
          ∙ ap (λ t. t ++ take (size - j - length b) rest) (take_all b (size - j) fits)))
]

module _ (hmac : List ℕ → List ℕ → List ℕ) (secret seed : List ℕ) where
  -- HMAC(A(i) + seed) for `n` values of i from the one with A(i) = a on, joined;
  -- A(i + 1) = HMAC(A(i)).
  unfoldable pub p_stream : ℕ → List ℕ → List ℕ
  p_stream zero a = []
  p_stream (suc n) a = hmac secret (a ++ seed) ++ p_stream n (hmac secret a)

  module _ (some_bytes : (m : List ℕ) → 0 < length (hmac secret m)) where
    p_hash_loop-p_stream :
        (fuel j : ℕ) (a result : List ℕ)
        → j ≤ length result
        → length result ≤ j + fuel
        → p_hash_loop hmac fuel secret seed j a result
          ≡ take j result ++ take (length result - j) (p_stream fuel a)
    unfolding p_hash_loop p_stream
    p_hash_loop-p_stream zero j a result h k =
        let e : length result - j ≡ 0 = omega arith in
        rw (e, take_all result j (omega arith)) (sym (append-nil result))
    p_hash_loop-p_stream (suc fuel) j a result h k =
        let b = hmac secret (a ++ seed) in
        let todo = chunk (length result) j (length b) in
        let next = copy_at j todo b result in
        let todo_b : todo ≤ length b = ground arith in
        let fits : j + todo ≤ length result = ground arith in
        elim (Bool-cases (ltb j (length result))) [
          | inl more ↦
              let moves : 0 < todo = ground (arith, some_bytes (a ++ seed)) in
              let size = length-copy_at j todo b result todo_b fits in
              let ih =
                p_hash_loop-p_stream fuel (j + todo) (hmac secret a) next (omega (arith, size))
                  (omega (arith, size)) in
              rw more (
                ih
                ∙ rw (size, take-copy_at j todo b result todo_b fits, append_assoc)
                    (ap (◌++◌ (take j result))
                      (take-chunk (length result) j b (p_stream fuel (hmac secret a)) h)))
          | inr full ↦
              let e : length result - j ≡ 0 = ground arith in
              rw (full, e, take_all result j (ground arith)) (sym (append-nil result))
        ]

    le-length-p_stream : (n : ℕ) (a : List ℕ) → n ≤ length (p_stream n a)
    unfolding p_stream
    le-length-p_stream zero a = omega arith
    le-length-p_stream (suc n) a = omega (
      arith,
      length-append (hmac secret (a ++ seed)) (p_stream n (hmac secret a)),
      some_bytes (a ++ seed),
      le-length-p_stream n (hmac secret a),
    )

    -- If each HMAC has at least one byte, then whatever the buffer held, `pHash` fills it with the
    -- first bytes of the stream of RFC 4346, and keeps its length.
    pub p_hash-p_stream :
        (result : List ℕ)
        → (p_hash hmac result secret seed
            ≡ take (length result) (p_stream (length result) (hmac secret seed)))
          × (length (p_hash hmac result secret seed) ≡ length result)
    unfolding p_hash
    p_hash-p_stream result =
        let stream = p_stream (length result) (hmac secret seed) in
        let filled : p_hash hmac result secret seed ≡ take (length result) stream = rw sub-zero at (
          p_hash_loop-p_stream (length result) 0 (hmac secret seed) result (omega arith)
            (omega arith)) in
        (
          filled,
          ap length filled
              ∙ omega (
                arith,
                length-take (length result) stream,
                le-length-p_stream (length result) (hmac secret seed),
              ),
        )
