-- ===== src/Vhost/Handshake/Skips.antt =====
-- What the parts of `readHandshake` of vhost/vhost.go before the extensions take off an encoding.
use lunnel.Base.{
  ℕ, zero, suc, ◌+◌, ◌%◌, ◌≤◌, ◌<◌, ◌≡◌, refl, sym, ap, ◌∙◌, List, [], ◌∷◌, ◌++◌, append_assoc,
  append-nil, arith, length, length-append, get_or,
}
use lunnel.Base.Bytes.{uint8, ◌>>>◌, big16_split}
use lunnel.Base.Result.{
  ok, index, index-ok, slice_from, slice_from-append, slice_to, slice_to-append,
}
use lunnel.Vhost.Handshake.{
  HandshakeError, big16_at, skip_session, skip_cipher_suites, skip_compression, open_extensions,
}
use lunnel.Vhost.Handshake.Encoding.{vec16}

get_or-append_left :
    (xs ys : List ℕ) (i : ℕ) → i < length xs → get_or (xs ++ ys) i 0 ≡ get_or xs i 0
get_or-append_left [] ys i h = absurd (omega arith)
get_or-append_left (x ∷ xs) ys zero h = refl
get_or-append_left (x ∷ xs) ys (suc i) h = get_or-append_left xs ys i (omega arith)

get_or-append_length : (xs : List ℕ) (y : ℕ) (ys : List ℕ) → get_or (xs ++ y ∷ ys) (length xs) 0 ≡ y
get_or-append_length [] y ys = refl
get_or-append_length (x ∷ xs) y ys = get_or-append_length xs y ys

-- Two bytes that hold a length give it back.
pub big16_at-vec16 :
    (xs ys : List ℕ) → length xs < 65536 → big16_at (vec16 xs ++ ys) 0 ≡ ok (length xs)
unfolding big16_at index
big16_at-vec16 xs ys h = ap ok (big16_split (length xs) h)

module _ (xs ys : List ℕ) (fits : length xs < 65536) where
  pub big16_at-second : (a : ℕ) → big16_at (a ∷ (vec16 xs ++ ys)) 1 ≡ ok (length xs)
  unfolding big16_at index
  big16_at-second a = ap ok (big16_split (length xs) fits)

  pub big16_at-third : (a b : ℕ) → big16_at (a ∷ b ∷ (vec16 xs ++ ys)) 2 ≡ ok (length xs)
  unfolding big16_at index
  big16_at-third a b = ap ok (big16_split (length xs) fits)

pub big16_at-type :
    (t : ℕ) (ys : List ℕ) → t < 65536 → big16_at (uint8 (t >>> 8) ∷ uint8 t ∷ ys) 0 ≡ ok t
unfolding big16_at index
big16_at-type t ys h = ap ok (big16_split t h)

-- A slice from the end of a known first part.
pub slice_from-length :
    (n : ℕ) (xs ys : List ℕ) → n ≡ length xs → slice_from {E = HandshakeError} n (xs ++ ys) ≡ ok ys
slice_from-length n xs ys e = rw e (slice_from-append xs ys)

pub slice_to-length :
    (n : ℕ) (xs ys : List ℕ) → n ≡ length xs → slice_to {E = HandshakeError} n (xs ++ ys) ≡ ok xs
slice_to-length n xs ys e = rw e (slice_to-append xs ys)

pub skip_session-encode :
    (start session rest : List ℕ)
    → length start ≡ 43
    → get_or start 5 0 ≡ 1
    → length session ≤ 32
    → 3 ≤ length rest
    → skip_session (start ++ (length session ∷ (session ++ rest))) ≡ ok rest
unfolding skip_session
skip_session-encode start session rest n t s r =
    let d = start ++ (length session ∷ (session ++ rest)) in
    let size : length d ≡ 44 + length session + length rest = omega (
      arith,
      length-append start (length session ∷ (session ++ rest)),
      length-append session rest,
    ) in
    let kind : get_or d 5 0 ≡ 1 =
      get_or-append_left start (length session ∷ (session ++ rest)) 5 (omega arith) ∙ t in
    let len : get_or d 43 0 ≡ length session =
      ap (λ (i : ℕ). get_or d i 0) (sym n)
      ∙ get_or-append_length start (length session) (session ++ rest) in
    let cut : slice_from {E = HandshakeError} (44 + length session) d ≡ ok rest =
      rw (← append_assoc start (length session ∷ session) rest) (
        slice_from-length (44 + length session) (start ++ (length session ∷ session)) rest
          (omega (arith, length-append start (length session ∷ session)))) in
    ground (
      arith,
      size,
      kind,
      len,
      cut,
      index-ok {E = HandshakeError} d 5,
      index-ok {E = HandshakeError} d 43,
    )

pub skip_cipher_suites-encode :
    (suites rest : List ℕ)
    → length suites % 2 ≡ 0
    → length suites < 65536
    → skip_cipher_suites (vec16 suites ++ rest) ≡ ok rest
unfolding skip_cipher_suites
skip_cipher_suites-encode suites rest even fits = ground (
  arith,
  big16_at-vec16 suites rest fits,
  slice_from-length (2 + length suites) (vec16 suites) rest (omega arith),
  length-append suites rest,
)

pub skip_compression-encode :
    (methods rest : List ℕ) → skip_compression (length methods ∷ (methods ++ rest)) ≡ ok rest
unfolding skip_compression
skip_compression-encode methods rest = ground (
  arith,
  index-ok {E = HandshakeError} (length methods ∷ (methods ++ rest)) 0,
  slice_from-length (1 + length methods) (length methods ∷ methods) rest (omega arith),
  length-append methods rest,
)

pub open_extensions-encode :
    (body : List ℕ) → length body < 65536 → open_extensions (vec16 body) ≡ ok body
unfolding open_extensions
open_extensions-encode body fits = ground (
  arith,
  ap (λ t. big16_at t 0) (sym (append-nil (vec16 body))) ∙ big16_at-vec16 body [] fits,
  slice_from-length 2 (uint8 (length body >>> 8) ∷ uint8 (length body) ∷ []) body refl,
)
