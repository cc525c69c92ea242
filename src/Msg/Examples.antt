-- ===== src/Msg/Examples.antt =====
-- A short conversation, with a stand-in for encoding/json that knows error messages only.
use lunnel.Base.{ℕ, ◌≡◌, refl, arith, Option, none, some, List, [], ◌∷◌}
use lunnel.Base.Text.{text}
use lunnel.Base.Result.{ok}
use lunnel.Msg.{Body, error}
use lunnel.Msg.Conn.{Conn, Event, chunk, bytes_of}
use lunnel.Msg.Write.{frame, encode, send, write_msg}
use lunnel.Msg.Read.{kind_of}
use lunnel.Msg.RoundTrip.{Message, write_all, read_all, read_all-write_all}

abbrev marshal : Body → Option (List ℕ)
marshal (error s) = some (34 ∷ s)
marshal _ = none

abbrev unmarshal : ℕ → List ℕ → Option Body
unmarshal t [] = none
unmarshal t (b ∷ s) = some (error s)

abbrev conn : List Event → ℕ → Conn
conn incoming accepts = record {
  incoming = incoming;
  sent = [];
  accepts = accepts;
  read_deadline = none;
  write_deadline = none;
}

abbrev talk : List Message
talk = (9, some (error (text "no"))) ∷ (7, none) ∷ []

-- The bytes of both messages, cut at odd places, with one more behind.
abbrev network : List Event
network =
    chunk (9 ∷ 0 ∷ []) ∷ chunk (0 ∷ 3 ∷ 34 ∷ []) ∷ chunk (110 ∷ 111 ∷ 7 ∷ 0 ∷ 0 ∷ 0 ∷ 5 ∷ []) ∷ []

abbrev after : Conn
after = record (conn [] 89) { sent = 9 ∷ 0 ∷ 0 ∷ 3 ∷ 34 ∷ 110 ∷ 111 ∷ 7 ∷ 0 ∷ 0 ∷ 0 ∷ [] }

read_all-write_all_example :
    (r' : Conn) × (read_all marshal unmarshal 12 2 (conn network 0) ≡ (ok talk, r'))
    × (bytes_of r'.incoming ≡ 5 ∷ [])
unfolding write_all write_msg encode send frame kind_of
read_all-write_all_example =
    read_all-write_all marshal unmarshal 12 talk (conn [] 100) after (conn network 0) (5 ∷ [])
      ((error [], refl, omega arith, refl), (refl, tt)) refl refl
