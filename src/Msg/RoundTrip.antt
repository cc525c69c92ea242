-- ===== src/Msg/RoundTrip.antt =====
-- Whole conversations: what a row of `WriteMsg` sends, `ReadMsg` returns in order.
use lunnel.Base.{
  ℕ, zero, suc, ◌<◌, ◌≡◌, ◌≢◌, refl, sym, ap, ◌∙◌, ◌⊎◌, Option, none, some, List, [], ◌∷◌, ◌++◌,
  append_assoc, append-nil, arith, length, take, append_cancel,
}
use lunnel.Base.Result.{Result, ok, err}
use lunnel.Msg.{Body}
use lunnel.Msg.Conn.{Conn, bytes_of}
use lunnel.Msg.Write.{WriteError, write_failed, frame, encode, send, write_msg}
use lunnel.Msg.Read.{ReadError, bare, bodied, kind_of, read_msg}
use lunnel.Msg.Framing.{read_msg-frame, read_msg-bare}

-- A type byte and a value, as the arguments of `WriteMsg` and the results of `ReadMsg`.
abbrev pub Message : Type 0
Message = ℕ × Option Body

module _ (marshal : Body → Option (List ℕ)) where
  -- `WriteMsg` in a row, up to the first error.
  unfoldable pub write_all : List Message → Conn → Result WriteError (Unit {0}) × Conn
  write_all [] w = (ok tt, w)
  write_all ((t, b) ∷ ms) w =
      let (done, w') = write_msg marshal t b w in
      let rest = write_all ms w' in
      elim done [ ok _ ↦ rest | err e ↦ (err e, w') | Result.panic ↦ (Result.panic, w') ]

  abbrev pub body_bytes : Option Body → List ℕ
  body_bytes none = []
  body_bytes (some b) = elim (marshal b) [ none ↦ [] | some body ↦ body ]

  abbrev pub frames : List Message → List ℕ
  frames [] = []
  frames ((t, b) ∷ ms) = frame t (body_bytes b) ++ frames ms

  -- A write that succeeds adds the frame to what was sent, its body has less than 2^24 bytes, and
  -- the write deadline is taken back.
  pub write_msg-frame :
      (t : ℕ) (b : Option Body) (w : Conn) {w' : Conn}
      → write_msg marshal t b w ≡ (ok tt, w')
      → (w'.sent ≡ w.sent ++ frame t (body_bytes b))
        × (length (body_bytes b) < 16777216)
        × (w'.write_deadline ≡ none)
  unfolding write_msg encode send
  write_msg-frame t none w e = ground arith
  write_msg-frame t (some b) w e = ground arith

  -- A write that fails before the network is used leaves the connection as it was; otherwise
  -- exactly the part of the frame that the peer takes has been sent, which is not all of it, and
  -- the deadline stays.
  pub write_msg-err :
      (t : ℕ) (b : Option Body) (w : Conn) {w' : Conn} {e : WriteError}
      → write_msg marshal t b w ≡ (err e, w')
      → ((e ≢ write_failed) × (w' ≡ w))
        ⊎ ((e ≡ write_failed)
            × (w'.sent ≡ w.sent ++ take w.accepts (frame t (body_bytes b)))
            × (w.accepts < length (frame t (body_bytes b)))
            × (w'.write_deadline ≡ some 15))
  unfolding write_msg encode send
  write_msg-err t none w e = ground arith
  write_msg-err t (some b) w e = ground arith

  write_all-cons :
      (t : ℕ) (b : Option Body) (ms : List Message) (w : Conn) {w' : Conn}
      → write_all ((t, b) ∷ ms) w ≡ (ok tt, w')
      → let w1 = (write_msg marshal t b w).1 in
        (write_msg marshal t b w ≡ (ok tt, w1)) × (write_all ms w1 ≡ (ok tt, w'))
  unfolding write_all
  write_all-cons t b ms w e = ground arith

  write_all-frames :
      (ms : List Message) (w : Conn) {w' : Conn}
      → write_all ms w ≡ (ok tt, w')
      → w'.sent ≡ w.sent ++ frames ms
  write_all-frames [] w {w'} e =
      let same : w ≡ w' = unfold write_all in ground arith in rw (← same) (sym (append-nil w.sent))
  write_all-frames ((t, b) ∷ ms) w e =
      let (first, rest) = write_all-cons t b ms w e in
      let w1 = (write_msg marshal t b w).1 in
      write_all-frames ms w1 rest
      ∙ ap (λ s. s ++ frames ms) (write_msg-frame t b w first).0
      ∙ append_assoc w.sent (frame t (body_bytes b)) (frames ms)

  module _ (unmarshal : ℕ → List ℕ → Option Body) where
    -- A message that the reader can tell: of a type without a body, or of a type with one and a
    -- value that its decoder gives back from a non-empty encoding.
    abbrev pub IsSendable : Message → Type 0
    IsSendable (t, none) = kind_of t ≡ bare
    IsSendable (t, some b) =
        (out : Body) × (kind_of t ≡ bodied out)
        × (0 < length (body_bytes (some b)))
        × (unmarshal t (body_bytes (some b)) ≡ some b)

    abbrev pub AreSendable : List Message → Type 0
    AreSendable [] = Unit {0}
    AreSendable (m ∷ ms) = IsSendable m × AreSendable ms

    abbrev ShortBodies : List Message → Type 0
    ShortBodies [] = Unit {0}
    ShortBodies ((t, b) ∷ ms) = (length (body_bytes b) < 16777216) × ShortBodies ms

    write_all-short :
        (ms : List Message) (w : Conn) {w' : Conn} → write_all ms w ≡ (ok tt, w') → ShortBodies ms
    write_all-short [] w e = tt
    write_all-short ((t, b) ∷ ms) w e =
        let (first, rest) = write_all-cons t b ms w e in
        ((write_msg-frame t b w first).1, write_all-short ms (write_msg marshal t b w).1 rest)

    -- `ReadMsg` n times, up to the first error.
    unfoldable pub read_all : ℕ → ℕ → Conn → Result ReadError (List Message) × Conn
    read_all timeout zero r = (ok [], r)
    read_all timeout (suc n) r =
        let (got, r') = read_msg unmarshal timeout r in
        let rest = read_all timeout n r' in
        elim got [
          | ok m ↦ (
            elim rest.0 [ ok ms ↦ ok (m ∷ ms) | err e ↦ err e | Result.panic ↦ Result.panic ],
            rest.1,
          )
          | err e ↦ (err e, r')
          | Result.panic ↦ (Result.panic, r')
        ]

    read_msg-message :
        (timeout t : ℕ) (b : Option Body) (rest : List ℕ) (r : Conn)
        → IsSendable (t, b)
        → length (body_bytes b) < 16777216
        → bytes_of r.incoming ≡ frame t (body_bytes b) ++ rest
        → (r' : Conn) × (read_msg unmarshal timeout r ≡ (ok (t, b), r'))
          × (bytes_of r'.incoming ≡ rest)
    read_msg-message timeout t none rest r s h e =
        let (r', got, left, _) = read_msg-bare unmarshal t timeout rest r s e in (r', got, left)
    read_msg-message timeout t (some b) rest r (out, kind, pos, decodes) h e =
        let (r', got, left, _) =
          read_msg-frame unmarshal t timeout b out (body_bytes (some b)) rest r kind pos h decodes
            e in
        (r', got, left)

    read_all-frames :
        (timeout : ℕ) (ms : List Message) (rest : List ℕ) (r : Conn)
        → AreSendable ms
        → ShortBodies ms
        → bytes_of r.incoming ≡ frames ms ++ rest
        → (r' : Conn) × (read_all timeout (length ms) r ≡ (ok ms, r'))
          × (bytes_of r'.incoming ≡ rest)
    unfolding read_all
    read_all-frames timeout [] rest r s h e = (r, refl, e)
    read_all-frames timeout ((t, b) ∷ ms) rest r s h e =
        let (r1, got, left) =
          read_msg-message timeout t b (frames ms ++ rest) r s.0 h.0
            (e ∙ append_assoc (frame t (body_bytes b)) (frames ms) rest) in
        let (r2, others, left2) = read_all-frames timeout ms rest r1 s.1 h.1 left in
        (r2, ground (arith, got, others), left2)

    -- If one end writes messages without an error, all of known types and with bodies that the
    -- decoder gives back, and the connection of the other end brings what was thereby sent, then
    -- `rest`, in chunks of any size, that end reads exactly these messages and is left with
    -- `rest`.
    pub read_all-write_all :
        (timeout : ℕ) (ms : List Message) (w w' r : Conn) (rest : List ℕ)
        → AreSendable ms
        → write_all ms w ≡ (ok tt, w')
        → w.sent ++ bytes_of r.incoming ≡ w'.sent ++ rest
        → (r' : Conn) × (read_all timeout (length ms) r ≡ (ok ms, r'))
          × (bytes_of r'.incoming ≡ rest)
    read_all-write_all timeout ms w w' r rest s e same =
        read_all-frames timeout ms rest r s (write_all-short ms w e) (
          append_cancel w.sent _ _ (
            same
            ∙ ap (λ t. t ++ rest) (write_all-frames ms w e)
            ∙ append_assoc w.sent (frames ms) rest))
