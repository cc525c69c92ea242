-- ===== src/Msg/Typed.antt =====
-- The dynamic types of the bodies that `readMsg` of msg/msg.go returns.
use lunnel.Base.{
  ℕ, ◌≡◌, Bool, true, ◌||◌, Bool-cases, inl, inr, Option, none, some, Option-cases, List, arith,
  ltb, ◌==◌, get_or,
}
use lunnel.Base.Result.{Result, ok, err, panic}
use lunnel.Msg.{
  Body, error, client_hello, control_client_hello, control_server_hello, pipe_client_hello,
  add_tunnels, type_client_hello, type_server_hello, type_control_client_hello,
  type_control_server_hello, type_pipe_client_hello, type_add_tunnels, type_pipe_req, type_ping,
  type_pong, type_error, type_exit,
}
use lunnel.Msg.Conn.{Conn}
use lunnel.Msg.Read.{
  ReadError, Kind, bare, bodied, invalid, kind_of, read_in_size, read_body, read_kind, read_msg,
}

-- Whether a body has the type that goes with the type byte.
unfoldable pub fits : ℕ → Option Body → Bool
fits t none =
    t == type_pipe_req
    || t == type_ping
    || t == type_pong
    || t == type_server_hello
    || t == type_exit
fits t (some (error x)) = t == type_error
fits t (some (client_hello h)) = t == type_client_hello
fits t (some (control_client_hello h)) = t == type_control_client_hello
fits t (some (control_server_hello h)) = t == type_control_server_hello
fits t (some (pipe_client_hello h)) = t == type_pipe_client_hello
fits t (some (add_tunnels ts)) = t == type_add_tunnels

-- json.Unmarshal fills the value that it is given, and does not change its type.
abbrev pub KeepsType : (ℕ → List ℕ → Option Body) → Type 0
KeepsType unmarshal =
    (t : ℕ) (xs : List ℕ) (b : Body) → unmarshal t xs ≡ some b → fits t (some b) ≡ true

abbrev KindFits : ℕ → Kind → Type 0
KindFits t bare = fits t none ≡ true
KindFits t (bodied b) = fits t (some b) ≡ true
KindFits t invalid = Unit

kind_of-fits : (t : ℕ) → KindFits t (kind_of t)
unfolding kind_of fits
kind_of-fits t = ground arith

-- A read is no panic, and the body of a message has the type that goes with its type byte.
abbrev pub GotFits : Result ReadError (ℕ × Option Body) → Type 0
GotFits (ok (t, b)) = fits t b ≡ true
GotFits (err e) = Unit
GotFits panic = ⊥

module _ (unmarshal : ℕ → List ℕ → Option Body) (keeps : KeepsType unmarshal) where
  read_body-fits :
      (t size timeout : ℕ) (out : Body) (c : Conn)
      → fits t (some out) ≡ true
      → GotFits (read_body unmarshal t size out timeout c).0
  unfolding read_body
  read_body-fits t size timeout out c h =
      let got = (read_in_size size timeout c).0 in
      elim (Bool-cases (ltb 0 size)) [
        | inr empty ↦ rw empty h
        | inl some_bytes ↦ elim (Option-cases got) [
          | inl e ↦ rw (some_bytes, e) tt
          | inr (body, e) ↦ elim (Option-cases (unmarshal t body)) [
            | inl bad ↦ rw (some_bytes, e, bad) tt
            | inr (b, good) ↦ rw (some_bytes, e, good) (keeps t body b good)
          ]
        ]
      ]

  read_kind-fits :
      (k : Kind) (header : List ℕ) (timeout : ℕ) (c : Conn)
      → KindFits (get_or header 0 0) k
      → GotFits (read_kind unmarshal k header timeout c).0
  unfolding read_kind
  read_kind-fits bare header timeout c h = h
  read_kind-fits (bodied out) header timeout c h = read_body-fits _ _ timeout out c h
  read_kind-fits invalid header timeout c h = tt

  -- If json.Unmarshal keeps the type of what it fills, the body of every message that `readMsg`
  -- returns has the type that goes with its type byte, whatever comes in; and no read panics.
  pub read_msg-GotFits : (timeout : ℕ) (c : Conn) → GotFits (read_msg unmarshal timeout c).0
  unfolding read_msg
  read_msg-GotFits timeout c = elim (Option-cases ((read_in_size 4 timeout c).0)) [
    | inl e ↦ rw (e, GotFits) tt
    | inr (h, e) ↦
        rw (e, GotFits) (read_kind-fits (kind_of (get_or h 0 0)) h timeout _ (kind_of-fits _))
  ]
