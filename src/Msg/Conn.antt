-- ===== src/Msg/Conn.antt =====
-- A `net.Conn` as msg/msg.go uses it: what its reads will return, what its peer still takes, and its
-- two deadlines. Times are the seconds that a deadline was set ahead.
use lunnel.Base.{
  ℕ, ◌-◌, Bool, true, false, Option, List, [], ◌∷◌, ◌++◌, ltb, if◌then◌else◌, length, take,
}

-- What the network does next for a reader: bytes come in, or the read fails (closed, timed out).
pub data Event : Type 0 where
  chunk : List ℕ → Event
  fails : Event

pub record Conn : Type 0 where
  pub incoming : List Event
  pub sent : List ℕ
  pub accepts : ℕ
  pub read_deadline : Option ℕ
  pub write_deadline : Option ℕ

-- All bytes that come in before the first failure.
abbrev pub bytes_of : List Event → List ℕ
bytes_of [] = []
bytes_of (chunk c ∷ es) = c ++ bytes_of es
bytes_of (fails ∷ es) = []

-- `Write`: the bytes that the peer still takes are sent; fewer than all is an error.
abbrev pub write_bytes : List ℕ → Conn → Bool × Conn
write_bytes x w =
    if ltb w.accepts (length x)
    then (false, record w { sent = w.sent ++ take w.accepts x; accepts = 0 })
    else (true, record w { sent = w.sent ++ x; accepts = w.accepts - length x })
