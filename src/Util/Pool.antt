-- ===== src/Util/Pool.antt =====
-- `GetBuf` and `PutBuf` of util/pool.go. A buffer is known by its capacity; the four pools are
-- lists, and the number `pick` is the choice that sync.Pool makes: a buffer of the list, or none.
use lunnel.Base.{
  ℕ, zero, suc, ◌*◌, ◌≤◌, ◌≡◌, refl, Option, none, some, List, [], ◌∷◌, arith, ltb, leb,
  if◌then◌else◌, All,
}

pub record Pools : Type 0 where
  pub buf_pool_5k : List ℕ
  pub buf_pool_2k : List ℕ
  pub buf_pool_1k : List ℕ
  pub buf_pool : List ℕ

pub data Class : Type 0 where
  k5 k2 k1 small : Class

-- The tests that both functions make of a size.
unfoldable pub class_of : ℕ → Class
class_of size =
    if leb (5 * 1024) size
    then k5
    else if leb (2 * 1024) size
    then k2
    else if leb (1 * 1024) size
    then k1
    else small

unfoldable pub pool_of : Class → Pools → List ℕ
pool_of k5 p = p.buf_pool_5k
pool_of k2 p = p.buf_pool_2k
pool_of k1 p = p.buf_pool_1k
pool_of small p = p.buf_pool

unfoldable pub with_pool : Class → List ℕ → Pools → Pools
with_pool k5 bs p = record p { buf_pool_5k = bs }
with_pool k2 bs p = record p { buf_pool_2k = bs }
with_pool k1 bs p = record p { buf_pool_1k = bs }
with_pool small bs p = record p { buf_pool = bs }

-- A buffer that is handed out: its length and its capacity.
pub record Buf : Type 0 where
  pub len : ℕ
  pub cap : ℕ

-- `Get` takes the chosen buffer out of the pool; there is none if the choice is beyond its end.
unfoldable pub get : ℕ → List ℕ → Option ℕ × List ℕ
get pick [] = (none, [])
get zero (b ∷ bs) = (some b, bs)
get (suc pick) (b ∷ bs) = let (x, rest) = get pick bs in (x, b ∷ rest)

unfoldable pub sized : ℕ → Option ℕ → Buf
sized size none = record { len = size; cap = size }
sized size (some cap) =
    if ltb cap size then record { len = size; cap = size } else record { len = size; cap = cap }

unfoldable pub get_buf : ℕ → ℕ → Pools → Buf × Pools
get_buf pick size p =
    let k = class_of size in
    let (x, rest) = get pick (pool_of k p) in (sized size x, with_pool k rest p)

unfoldable pub put_buf : Buf → Pools → Pools
put_buf buf p = let k = class_of buf.cap in with_pool k (buf.cap ∷ pool_of k p) p

-- Every buffer is in the pool of its own capacity.
pub record IsSorted (p : Pools) : Type 0 where
  pub at_5k : All (λ b. class_of b ≡ k5) p.buf_pool_5k
  pub at_2k : All (λ b. class_of b ≡ k2) p.buf_pool_2k
  pub at_1k : All (λ b. class_of b ≡ k1) p.buf_pool_1k
  pub at_small : All (λ b. class_of b ≡ small) p.buf_pool

pool_of-All : (k : Class) (p : Pools) → IsSorted p → All (λ b. class_of b ≡ k) (pool_of k p)
unfolding pool_of
pool_of-All k5 p v = v.at_5k
pool_of-All k2 p v = v.at_2k
pool_of-All k1 p v = v.at_1k
pool_of-All small p v = v.at_small

with_pool-IsSorted :
    (k : Class) (bs : List ℕ) (p : Pools)
    → IsSorted p
    → All (λ b. class_of b ≡ k) bs
    → IsSorted (with_pool k bs p)
unfolding with_pool
with_pool-IsSorted k5 bs p v h = record {
  at_5k = h;
  at_2k = v.at_2k;
  at_1k = v.at_1k;
  at_small = v.at_small;
}
with_pool-IsSorted k2 bs p v h = record {
  at_5k = v.at_5k;
  at_2k = h;
  at_1k = v.at_1k;
  at_small = v.at_small;
}
with_pool-IsSorted k1 bs p v h = record {
  at_5k = v.at_5k;
  at_2k = v.at_2k;
  at_1k = h;
  at_small = v.at_small;
}
with_pool-IsSorted small bs p v h = record {
  at_5k = v.at_5k;
  at_2k = v.at_2k;
  at_1k = v.at_1k;
  at_small = h;
}

-- `PutBuf` keeps every buffer in the pool of its capacity.
pub put_buf-IsSorted : (buf : Buf) (p : Pools) → IsSorted p → IsSorted (put_buf buf p)
unfolding put_buf
put_buf-IsSorted buf p v =
    let k = class_of buf.cap in
    with_pool-IsSorted k (buf.cap ∷ pool_of k p) p v (refl, pool_of-All k p v)

get-All : (Q : ℕ → Type 0) (pick : ℕ) (bs : List ℕ) → All Q bs → All Q (get pick bs).1
unfolding get
get-All Q pick [] h = tt
get-All Q zero (b ∷ bs) h = h.1
get-All Q (suc pick) (b ∷ bs) h = (h.0, get-All Q pick bs h.1)

sized-fits : (size : ℕ) (x : Option ℕ) → ((sized size x).len ≡ size) × (size ≤ (sized size x).cap)
unfolding sized
sized-fits size none = omega arith
sized-fits size (some cap) = ground arith

-- From sorted pools `GetBuf` returns a buffer of the length that was asked for and at least that
-- capacity, and the pools stay sorted.
pub get_buf-fits :
    (pick size : ℕ) (p : Pools)
    → IsSorted p
    → ((get_buf pick size p).0.len ≡ size)
      × (size ≤ (get_buf pick size p).0.cap)
      × IsSorted (get_buf pick size p).1
unfolding get_buf
get_buf-fits pick size p v =
    let k = class_of size in
    let (len, cap) = sized-fits size (get pick (pool_of k p)).0 in
    (
      len,
      cap,
      with_pool-IsSorted k (get pick (pool_of k p)).1 p v
          (get-All (λ b. class_of b ≡ k) pick (pool_of k p) (pool_of-All k p v)),
    )
