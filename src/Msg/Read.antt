-- ===== src/Msg/Read.antt =====
-- `readMsg` and `readInSize` of msg/msg.go. `unmarshal` stands for json.Unmarshal into a new value
-- of the type that the header chooses.
use lunnel.Base.{
  ℕ, ◌-◌, false, ◌||◌, Option, none, some, List, [], ◌∷◌, ◌++◌, ltb, leb, ◌==◌, if◌then◌else◌,
  length, take, drop, get_or,
}
use lunnel.Base.Bytes.{big24}
use lunnel.Base.Result.{Result, ok, err}
use lunnel.Msg.{
  Body, error, client_hello, control_client_hello, control_server_hello, pipe_client_hello,
  add_tunnels, Uuid, type_client_hello, type_server_hello, type_control_client_hello,
  type_control_server_hello, type_pipe_client_hello, type_add_tunnels, type_pipe_req, type_ping,
  type_pong, type_error, type_exit,
}
use lunnel.Msg.Conn.{Event, chunk, fails, Conn}

pub data ReadError : Type 0 where
  read_in_size_header read_in_size_body invalid_type json_unmarshal : ReadError

-- Bytes that a read leaves behind come first in the next one.
abbrev pub push_back : List ℕ → List Event → List Event
push_back [] es = es
push_back (b ∷ bs) es = chunk (b ∷ bs) ∷ es

-- The loop of `readInSize`, `remain` bytes from its end: the bytes read, unless a read fails, and
-- what is still to come.
unfoldable pub read_loop : ℕ → List Event → Option (List ℕ) × List Event
read_loop remain [] = (none, [])
read_loop remain (fails ∷ es) = (none, es)
read_loop remain (chunk c ∷ es) =
    let rest = read_loop (remain - length c) es in
    if leb remain (length c)
    then (some (take remain c), push_back (drop remain c) es)
    else (elim rest.0 [ none ↦ none | some bs ↦ some (c ++ bs) ], rest.1)

-- A timeout of 0 is none. The deadline of a read that fails stays.
unfoldable pub read_in_size : ℕ → ℕ → Conn → Option (List ℕ) × Conn
read_in_size size timeout r =
    let (out, es) = read_loop size r.incoming in
    let armed = if timeout == 0 then none else some timeout in
    (out, record r { incoming = es; read_deadline = elim out [ none ↦ armed | some bs ↦ none ] })

-- What the type byte says of a message: that it has no body, the zero value of its body, or that
-- there is no such type.
pub data Kind : Type 0 where
  bare : Kind
  bodied : Body → Kind
  invalid : Kind

abbrev pub zero_uuid : Uuid
zero_uuid = 0 ∷ 0 ∷ 0 ∷ 0 ∷ 0 ∷ 0 ∷ 0 ∷ 0 ∷ 0 ∷ 0 ∷ 0 ∷ 0 ∷ 0 ∷ 0 ∷ 0 ∷ 0 ∷ []

unfoldable pub kind_of : ℕ → Kind
kind_of t =
    if t == type_control_client_hello
    then bodied
        (control_client_hello (record { cipher_key = []; auth_token = []; client_id = none }))
    else if t == type_control_server_hello
    then bodied (control_server_hello (record { client_id = zero_uuid; cipher_key = [] }))
    else if t == type_pipe_client_hello
    then bodied (pipe_client_hello (record { once = zero_uuid; client_id = zero_uuid }))
    else if t == type_add_tunnels
    then bodied (add_tunnels [])
    else if t == type_pipe_req
        || t == type_ping
        || t == type_pong
        || t == type_server_hello
        || t == type_exit
    then bare
    else if t == type_client_hello
    then bodied (client_hello (record { encrypt_mode = []; enable_compress = false; version = [] }))
    else if t == type_error
    then bodied (error [])
    else invalid

module _ (unmarshal : ℕ → List ℕ → Option Body) where
  -- The rest of `readMsg` for a type with a body of `size` bytes; `out` is the zero value.
  unfoldable pub read_body : ℕ → ℕ → Body → ℕ → Conn → Result ReadError (ℕ × Option Body) × Conn
  read_body t size out timeout r =
      let (got, r') = read_in_size size timeout r in
      if ltb 0 size
      then elim got [
        | none ↦ (err read_in_size_body, r')
        | some body ↦ elim (unmarshal t body) [
          | none ↦ (err json_unmarshal, r')
          | some b ↦ (ok (t, some b), r')
        ]
      ]
      else (ok (t, some out), r)

  -- The type byte decides before the length is looked at.
  unfoldable pub read_kind : Kind → List ℕ → ℕ → Conn → Result ReadError (ℕ × Option Body) × Conn
  read_kind bare header timeout r = (ok (get_or header 0 0, none), r)
  read_kind (bodied out) header timeout r =
      read_body (get_or header 0 0)
        (big24 (get_or header 1 0) (get_or header 2 0) (get_or header 3 0)) out timeout r
  read_kind invalid header timeout r = (err invalid_type, r)

  unfoldable pub read_msg : ℕ → Conn → Result ReadError (ℕ × Option Body) × Conn
  read_msg timeout r =
      let (header, r') = read_in_size 4 timeout r in
      elim header [
        | none ↦ (err read_in_size_header, r')
        | some h ↦ read_kind (kind_of (get_or h 0 0)) h timeout r'
      ]

  abbrev pub ReadMsg : Type 0
  ReadMsg = Conn → Result ReadError (ℕ × Option Body) × Conn

  unfoldable pub read_msg_without_timeout : ReadMsg
  read_msg_without_timeout r = read_msg 0 r

  unfoldable pub read_msg_timed : ReadMsg
  read_msg_timed r = read_msg 12 r
