-- ===== src/Msg/Framing.antt =====
-- Messages survive the framing of msg/msg.go, however the network cuts the bytes into reads.
use lunnel.Base.{
  ℕ, ◌-◌, ◌<◌, ◌≡◌, ◌≢◌, refl, sym, ap, ◌∙◌, Bool-cases, inl, inr, Option, none, some, List, [],
  ◌∷◌, ◌++◌, arith, leb, length, drop, get_or, length-append, append_cut, length-drop,
  take-append-drop,
}
use lunnel.Base.Bytes.{uint8, ◌>>>◌, big24_split}
use lunnel.Base.Result.{ok}
use lunnel.Msg.{Body}
use lunnel.Msg.Conn.{Event, chunk, fails, Conn, bytes_of}
use lunnel.Msg.Write.{frame}
use lunnel.Msg.Read.{
  push_back, read_loop, read_in_size, Kind, bare, bodied, invalid, kind_of, read_body, read_kind,
  read_msg,
}

bytes_of-push_back :
    (bs : List ℕ) (es : List Event) → bytes_of (push_back bs es) ≡ bs ++ bytes_of es
bytes_of-push_back [] es = refl
bytes_of-push_back (b ∷ bs) es = refl

-- The loop of `readInSize` returns the next `remain` bytes, whatever the chunks.
read_loop-bytes :
    (es : List Event) (remain : ℕ) (bs rest : List ℕ)
    → 0 < remain
    → length bs ≡ remain
    → bytes_of es ≡ bs ++ rest
    → (es' : List Event) × (read_loop remain es ≡ (some bs, es')) × (bytes_of es' ≡ rest)
unfolding read_loop
read_loop-bytes [] remain bs rest p n e = absurd (omega (arith, ap length e, length-append bs rest))
read_loop-bytes (fails ∷ es) remain bs rest p n e =
    absurd (omega (arith, ap length e, length-append bs rest))
read_loop-bytes (chunk c ∷ es) remain bs rest p n e = elim (Bool-cases (leb remain (length c))) [
  | inl last ↦
      let cut = append_cut bs c rest (bytes_of es) e (ground arith) in
      (
        push_back (drop remain c) es,
        rw (last, ← n) (ap (λ (t : List ℕ). (some t, push_back (drop (length bs) c) es)) cut.0),
        rw (bytes_of-push_back (drop remain c) es, ← n) cut.1,
      )
  | inr more ↦
      let short : length c < remain = ground arith in
      let cut = append_cut c bs (bytes_of es) rest (sym e) (omega arith) in
      let left : length (drop (length c) bs) ≡ remain - length c =
        length-drop (length c) bs ∙ ap (λ (t : ℕ). t - length c) n in
      let whole : c ++ drop (length c) bs ≡ bs =
        ap (λ t. t ++ drop (length c) bs) (sym cut.0) ∙ take-append-drop (length c) bs in
      let ih =
        read_loop-bytes es (remain - length c) (drop (length c) bs) rest (omega arith) left
          (sym cut.1) in
      (ih.0, rw (more, ih.1) (ap (λ (t : List ℕ). (some t, ih.0)) whole), ih.2)
]

-- So `readInSize` returns them, and takes its deadline back.
read_in_size-bytes :
    (size timeout : ℕ) (r : Conn) (bs rest : List ℕ)
    → 0 < size
    → length bs ≡ size
    → bytes_of r.incoming ≡ bs ++ rest
    → (r' : Conn) × (read_in_size size timeout r ≡ (some bs, r'))
      × (bytes_of r'.incoming ≡ rest)
      × (r'.read_deadline ≡ none)
unfolding read_in_size
read_in_size-bytes size timeout r bs rest p n e =
    let (es', got, left) = read_loop-bytes r.incoming size bs rest p n e in
    (record r { incoming = es'; read_deadline = none }, rw got, left, refl)

kind_of-lt : (t : ℕ) → kind_of t ≢ invalid → t < 256
unfolding kind_of
kind_of-lt t valid = ground arith

abbrev header : ℕ → List ℕ → List ℕ
header t body = let n = length body in t ∷ uint8 (n >>> 16) ∷ uint8 (n >>> 8) ∷ uint8 n ∷ []

frame-header : (t : ℕ) (body : List ℕ) → t < 256 → frame t body ≡ header t body ++ body
unfolding frame
frame-header t body h = let e : uint8 t ≡ t = omega arith in rw e

module _ (unmarshal : ℕ → List ℕ → Option Body) (timeout : ℕ) (r r1 : Conn) where
  read_msg-read_kind :
      (h : List ℕ) (k : Kind)
      → read_in_size 4 timeout r ≡ (some h, r1)
      → kind_of (get_or h 0 0) ≡ k
      → read_msg unmarshal timeout r ≡ read_kind unmarshal k h timeout r1
  unfolding read_msg
  read_msg-read_kind h k e f = rw (e, read_msg, f) (rw e)

  read_body-ok :
      (t : ℕ) (b out : Body) (body : List ℕ)
      → 0 < length body
      → unmarshal t body ≡ some b
      → read_in_size (length body) timeout r ≡ (some body, r1)
      → read_body unmarshal t (length body) out timeout r ≡ (ok (t, some b), r1)
  unfolding read_body
  read_body-ok t b out body pos decodes e = ground arith

-- `readMsg` takes a framed body back, if the decoder takes the body back.
pub read_msg-frame :
    (unmarshal : ℕ → List ℕ → Option Body) (t timeout : ℕ) (b out : Body) (body rest : List ℕ)
    (r : Conn)
    → kind_of t ≡ bodied out
    → 0 < length body
    → length body < 16777216
    → unmarshal t body ≡ some b
    → bytes_of r.incoming ≡ frame t body ++ rest
    → (r' : Conn) × (read_msg unmarshal timeout r ≡ (ok (t, some b), r'))
      × (bytes_of r'.incoming ≡ rest)
      × (r'.read_deadline ≡ none)
unfolding read_kind
read_msg-frame unmarshal t timeout b out body rest r kind pos fits decodes e =
    let small : t < 256 = kind_of-lt t (λ h. cc) in
    let e' = e ∙ ap (λ f. f ++ rest) (frame-header t body small) in
    let (r1, got, left, d) =
      read_in_size-bytes 4 timeout r (header t body) (body ++ rest) (omega arith) refl e' in
    let size = big24_split (length body) fits in
    let (r2, got2, left2, d2) =
      read_in_size-bytes (length body) timeout r1 body rest pos refl left in
    (
      r2,
      read_msg-read_kind unmarshal timeout r r1 (header t body) (bodied out) got kind
          ∙ rw size (read_body-ok unmarshal timeout r1 r2 t b out body pos decodes got2),
      left2,
      d2,
    )

pub read_msg-bare :
    (unmarshal : ℕ → List ℕ → Option Body) (t timeout : ℕ) (rest : List ℕ) (r : Conn)
    → kind_of t ≡ bare
    → bytes_of r.incoming ≡ frame t [] ++ rest
    → (r' : Conn) × (read_msg unmarshal timeout r ≡ (ok (t, none), r'))
      × (bytes_of r'.incoming ≡ rest)
      × (r'.read_deadline ≡ none)
unfolding read_kind
read_msg-bare unmarshal t timeout rest r kind e =
    let small : t < 256 = kind_of-lt t (λ h. cc) in
    let e' = e ∙ ap (λ f. f ++ rest) (frame-header t [] small) in
    let (r1, got, left, d) =
      read_in_size-bytes 4 timeout r (header t []) rest (omega arith) refl e' in
    (r1, read_msg-read_kind unmarshal timeout r r1 (header t []) bare got kind, left, d)
