-- ===== src/Vhost/Shared.antt =====
-- `sharedConn` of vhost/vhost.go: a connection whose first bytes are looked at and read again.
use lunnel.Base.{
  ℕ, ◌≡◌, refl, sym, ap, ◌∙◌, Option, none, some, Option-cases, inl, inr, List, [], ◌∷◌, ◌++◌,
  append_assoc, arith, ◌==◌, if◌then◌else◌, take, drop, take-append-drop, Bool-cases,
}
use lunnel.Msg.Conn.{Event, chunk, fails, bytes_of}
use lunnel.Msg.Read.{push_back}

-- `Read` of the connection below, into a slice of `n` bytes; none is an error.
unfoldable pub raw_read : ℕ → List Event → Option (List ℕ) × List Event
raw_read n [] = (none, [])
raw_read n (fails ∷ es) = (none, es)
raw_read n (chunk c ∷ es) = (some (take n c), push_back (drop n c) es)

-- A buffer that is none is nil: all has been read from it.
pub record SharedConn : Type 0 where
  pub buff : Option (List ℕ)
  pub incoming : List Event

unfoldable pub new_share_conn : List Event → SharedConn
new_share_conn es = record { buff = some []; incoming = es }

-- The bytes of a buffer, or of a read.
abbrev pub buffered : Option (List ℕ) → List ℕ
buffered none = []
buffered (some bs) = bs

abbrev pub keep : List ℕ → Option (List ℕ) → Option (List ℕ)
keep bs none = none
keep bs (some buff) = some (buff ++ bs)

-- A read through the `io.TeeReader`: what it brings is kept in the buffer.
unfoldable pub tee_read : ℕ → SharedConn → Option (List ℕ) × SharedConn
tee_read n sc =
    let (got, es) = raw_read n sc.incoming in
    (got, record { buff = keep (buffered got) sc.buff; incoming = es })

abbrev pub read_through : ℕ → List Event → Option (List ℕ) × SharedConn
read_through n es =
    let (got, rest) = raw_read n es in (got, record { buff = none; incoming = rest })

-- An empty buffer ends, except for a slice of no bytes, and the connection below is read.
unfoldable pub read_buff : ℕ → Option (List ℕ) → List Event → Option (List ℕ) × SharedConn
read_buff n none es = read_through n es
read_buff n (some []) es =
    if n == 0 then (some [], record { buff = some []; incoming = es }) else read_through n es
read_buff n (some (b ∷ bs)) es =
    (some (take n (b ∷ bs)), record { buff = some (drop n (b ∷ bs)); incoming = es })

unfoldable pub read : ℕ → SharedConn → Option (List ℕ) × SharedConn
read n sc = read_buff n sc.buff sc.incoming

-- What `WriteBuff` makes of the buffer; that of a nil buffer panics, which is none.
unfoldable pub write_buff : List ℕ → SharedConn → Option SharedConn
write_buff bytes sc = elim sc.buff [
  | none ↦ none
  | some old ↦ some (record sc { buff = some bytes })
]

-- All bytes that can still be read before the connection below fails.
unfoldable pub stream : SharedConn → List ℕ
stream sc = buffered sc.buff ++ bytes_of sc.incoming

abbrev pub and_then {ℓ} : {A : Type ℓ} → Option (List ℕ) → Option A → Option A
and_then none more = none
and_then (some bs) more = more

-- Looks with slices of these sizes; none if one of them fails.
unfoldable pub looks : List ℕ → SharedConn → Option SharedConn
looks [] sc = some sc
looks (n ∷ ns) sc = let (got, sc') = tee_read n sc in and_then got (looks ns sc')

abbrev pub join : Option (List ℕ) → List ℕ → List ℕ
join none more = []
join (some bs) more = bs ++ more

-- Reads with slices of these sizes, up to the first that fails: all bytes that they bring.
unfoldable pub reads : List ℕ → SharedConn → List ℕ
reads [] sc = []
reads (n ∷ ns) sc = let (got, sc') = read n sc in join got (reads ns sc')

bytes_of-push_back :
    (bs : List ℕ) (es : List Event) → bytes_of (push_back bs es) ≡ bs ++ bytes_of es
bytes_of-push_back [] es = refl
bytes_of-push_back (b ∷ bs) es = refl

-- A read that succeeds takes its bytes off the front of the connection's.
raw_read-bytes :
    (n : ℕ) (es : List Event) (bs : List ℕ)
    → (raw_read n es).0 ≡ some bs
    → bs ++ bytes_of (raw_read n es).1 ≡ bytes_of es
unfolding raw_read
raw_read-bytes n [] bs e = absurd (ground (arith, e))
raw_read-bytes n (fails ∷ es) bs e = absurd (ground (arith, e))
raw_read-bytes n (chunk c ∷ es) bs e =
    let same : take n c ≡ bs = ground (arith, e) in
    rw (← same, bytes_of-push_back (drop n c) es)
      (sym (append_assoc (take n c) (drop n c) (bytes_of es))
        ∙ ap (λ xs. xs ++ bytes_of es) (take-append-drop n c))

read_buff-stream :
    (n : ℕ) (buff : Option (List ℕ)) (es : List Event) (bs : List ℕ)
    → (read_buff n buff es).0 ≡ some bs
    → bs ++ stream (read_buff n buff es).1 ≡ buffered buff ++ bytes_of es
unfolding read_buff stream
read_buff-stream n none es bs e = raw_read-bytes n es bs e
read_buff-stream n (some []) es bs e = elim (Bool-cases (n == 0)) [
  | inl none_asked ↦
      let same : [] ≡ bs = ground (arith, rw none_asked at e) in rw (none_asked, ← same) refl
  | inr asked ↦ rw asked (raw_read-bytes n es bs (rw asked at e))
]
read_buff-stream n (some (b ∷ buff)) es bs e =
    let same : take n (b ∷ buff) ≡ bs = ground (arith, e) in
    rw (← same) (
      sym (append_assoc (take n (b ∷ buff)) (drop n (b ∷ buff)) (bytes_of es))
      ∙ ap (λ xs. xs ++ bytes_of es) (take-append-drop n (b ∷ buff)))

reads-stream : (ns : List ℕ) (sc : SharedConn) → (left : List ℕ) × (reads ns sc ++ left ≡ stream sc)
unfolding reads read
reads-stream [] sc = (stream sc, refl)
reads-stream (n ∷ ns) sc = elim (Option-cases ((read_buff n sc.buff sc.incoming).0)) [
  | inl failed ↦ (stream sc, rw failed refl)
  | inr (bs, got) ↦
      let after = (read_buff n sc.buff sc.incoming).1 in
      let (left, rest) = reads-stream ns after in
      (
        left,
        rw got (
            append_assoc bs (reads ns after) left
            ∙ ap (λ xs. bs ++ xs) rest
            ∙ (unfold stream in read_buff-stream n sc.buff sc.incoming bs got)),
      )
]

-- A look keeps all bytes that a connection brings.
tee_read-stream :
    (n : ℕ) (old : List ℕ) (es : List Event) (bs : List ℕ)
    → (raw_read n es).0 ≡ some bs
    → (old ++ bs) ++ bytes_of (raw_read n es).1 ≡ old ++ bytes_of es
tee_read-stream n old es bs e =
    append_assoc old bs (bytes_of (raw_read n es).1)
    ∙ ap (λ xs. old ++ xs) (raw_read-bytes n es bs e)

looks-stream :
    (ns : List ℕ) (old : List ℕ) (es : List Event) (sc' : SharedConn)
    → looks ns (record { buff = some old; incoming = es }) ≡ some sc'
    → (stream sc' ≡ old ++ bytes_of es) × ((bs : List ℕ) × (sc'.buff ≡ some bs))
unfolding looks tee_read stream
looks-stream [] old es sc' e =
    let same : record { buff = some old; incoming = es } ≡ sc' = ground (arith, e) in
    rw (← same) (refl, (old, refl))
looks-stream (n ∷ ns) old es sc' e = elim (Option-cases ((raw_read n es).0)) [
  | inl failed ↦ absurd (ground (arith, rw failed at e))
  | inr (bs, got) ↦
      let (same, kept) = looks-stream ns (old ++ bs) (raw_read n es).1 sc' (rw got at e) in
      (same ∙ tee_read-stream n old es bs got, kept)
]

-- What is looked at is not lost: whatever the sizes of the slices, after looks that succeed, reads
-- bring the bytes of the connection in their order, from the first one on.
pub looks-reads :
    (ns ms : List ℕ) (es : List Event) (sc : SharedConn)
    → looks ns (new_share_conn es) ≡ some sc
    → (left : List ℕ) × (reads ms sc ++ left ≡ bytes_of es)
unfolding new_share_conn
looks-reads ns ms es sc e =
    let (left, front) = reads-stream ms sc in (left, front ∙ (looks-stream ns [] es sc e).0)

-- After `WriteBuff` reads bring its bytes, and then those of the connection that were not looked at.
pub write_buff-reads :
    (ns ms : List ℕ) (es : List Event) (sc : SharedConn) (bytes : List ℕ)
    → looks ns (new_share_conn es) ≡ some sc
    → (sc' : SharedConn) × ((left : List ℕ) × (write_buff bytes sc ≡ some sc')
        × (reads ms sc' ++ left ≡ bytes ++ bytes_of sc.incoming))
unfolding new_share_conn write_buff
write_buff-reads ns ms es sc bytes e =
    let (old, kept) = (looks-stream ns [] es sc e).1 in
    let sc' = record sc { buff = some bytes } in
    let (left, front) = reads-stream ms sc' in
    (sc', (left, rw kept refl, front ∙ (unfold stream in refl)))

-- The bytes of a connection after looks that succeed.
pub looks-kept :
    (ns : List ℕ) (es : List Event) (sc : SharedConn)
    → looks ns (new_share_conn es) ≡ some sc
    → stream sc ≡ bytes_of es
unfolding new_share_conn
looks-kept ns es sc e = (looks-stream ns [] es sc e).0
