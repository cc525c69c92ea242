-- ===== src/Msg/Write.antt =====
-- `WriteMsg` of msg/msg.go. `marshal` stands for json.Marshal.
use lunnel.Base.{ℕ, Option, none, some, List, [], ◌∷◌, ltb, if◌then◌else◌, length}
use lunnel.Base.Bytes.{uint8, ◌>>>◌}
use lunnel.Base.Result.{Result, ok, err}
use lunnel.Msg.{Body}
use lunnel.Msg.Conn.{Conn, write_bytes}

pub data WriteError : Type 0 where
  json_marshal out_of_size_limit write_failed : WriteError

-- What `WriteMsg` sends: four bytes of header, and the encoded body.
unfoldable pub frame : ℕ → List ℕ → List ℕ
frame m_type body =
    let n = length body in uint8 m_type ∷ uint8 (n >>> 16) ∷ uint8 (n >>> 8) ∷ uint8 n ∷ body

module _ (marshal : Body → Option (List ℕ)) where
  -- The encoded body; no value means none.
  unfoldable pub encode : Option Body → Result WriteError (List ℕ)
  encode none = ok []
  encode (some b) = elim (marshal b) [
    | none ↦ err json_marshal
    | some body ↦ if ltb 16777215 (length body) then err out_of_size_limit else ok body
  ]

  -- The write deadline is taken back only after a write that succeeds.
  unfoldable pub send : List ℕ → Conn → Result WriteError (Unit {0}) × Conn
  send x w =
      let (done, w') = write_bytes x (record w { write_deadline = some 15 }) in
      if done then (ok tt, record w' { write_deadline = none }) else (err write_failed, w')

  unfoldable pub write_msg : ℕ → Option Body → Conn → Result WriteError (Unit {0}) × Conn
  write_msg m_type input w = elim (encode input) [
    | ok body ↦ send (frame m_type body) w
    | err e ↦ (err e, w)
    | Result.panic ↦ (Result.panic, w)
  ]
