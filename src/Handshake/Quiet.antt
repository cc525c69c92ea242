-- ===== src/Handshake/Quiet.antt =====
-- What `ReadMsg` and `WriteMsg` leave alone on a connection.
use lunnel.Base.{
  ℕ, ◌≡◌, refl, ◌∙◌, Bool-cases, inl, inr, Option, Option-cases, none, some, List, arith, ltb,
}
use lunnel.Base.Result.{ok}
use lunnel.Msg.{Body}
use lunnel.Msg.Conn.{Conn}
use lunnel.Msg.Write.{write_msg, encode, send}
use lunnel.Msg.Read.{Kind, bare, bodied, invalid, read_msg, read_kind, read_body, read_in_size}

-- Reading sends nothing, and writing takes nothing in.
read_in_size-sent : (n t : ℕ) (r : Conn) → (read_in_size n t r).1.sent ≡ r.sent
unfolding read_in_size
read_in_size-sent n t r = refl

module _ (unmarshal : ℕ → List ℕ → Option Body) where
  read_body-sent :
      (t n : ℕ) (out : Body) (timeout : ℕ) (r : Conn)
      → (read_body unmarshal t n out timeout r).1.sent ≡ r.sent
  unfolding read_body
  read_body-sent t n out timeout r =
      let got = read_in_size n timeout r in
      elim (Bool-cases (ltb 0 n)) [
        | inr none_left ↦ rw (read_body, none_left) refl
        | inl more ↦ elim (Option-cases got.0) [
          | inl e ↦ rw (read_body, more, e) (read_in_size-sent n timeout r)
          | inr (body, e) ↦ elim (Option-cases (unmarshal t body)) [
            | inl f ↦ rw (read_body, more, e, f) (read_in_size-sent n timeout r)
            | inr (b, f) ↦ rw (read_body, more, e, f) (read_in_size-sent n timeout r)
          ]
        ]
      ]

  read_kind-sent :
      (k : Kind) (h : List ℕ) (timeout : ℕ) (r : Conn)
      → (read_kind unmarshal k h timeout r).1.sent ≡ r.sent
  unfolding read_kind
  read_kind-sent bare h timeout r = refl
  read_kind-sent (bodied out) h timeout r = read_body-sent _ _ out timeout r
  read_kind-sent invalid h timeout r = refl

  pub read_msg-sent : (timeout : ℕ) (r : Conn) → (read_msg unmarshal timeout r).1.sent ≡ r.sent
  unfolding read_msg
  read_msg-sent timeout r =
      let got = read_in_size 4 timeout r in
      elim (Option-cases got.0) [
        | inl e ↦ rw (read_msg, e) (read_in_size-sent 4 timeout r)
        | inr (h, e) ↦
            rw (read_msg, e) (read_kind-sent _ h timeout got.1 ∙ read_in_size-sent 4 timeout r)
      ]

pub write_msg-incoming :
    (marshal : Body → Option (List ℕ)) (t : ℕ) (b : Option Body) (w : Conn) {w' : Conn}
    → write_msg marshal t b w ≡ (ok tt, w')
    → w'.incoming ≡ w.incoming
unfolding write_msg encode send
write_msg-incoming marshal t none w e = ground arith
write_msg-incoming marshal t (some b) w e = ground arith
