-- ===== src/Server/Loops/Receipt.antt =====
-- The type assertion of `recvLoop` in server/serControl.go.
use lunnel.Base.{ℕ, ◌≡◌, refl, true, Bool-cases, inl, inr, Option, none, some, List, arith, ◌==◌}
use lunnel.Base.Result.{Result, ok, err, panic}
use lunnel.Msg.{
  Body, error, client_hello, control_client_hello, control_server_hello, pipe_client_hello,
  add_tunnels, type_add_tunnels, type_ping, type_exit,
}
use lunnel.Msg.Conn.{Conn}
use lunnel.Msg.Read.{ReadError, read_msg_without_timeout}
use lunnel.Msg.Typed.{fits, KeepsType, GotFits, read_msg-GotFits}
use lunnel.Server.Loops.{Incoming, failed, pinged, exited, ignored, adds, incoming, as_add_tunnels}

as_add_tunnels-some :
    (t : ℕ) (b : Option Body)
    → t ≡ type_add_tunnels
    → fits t b ≡ true
    → (i : Incoming) × (as_add_tunnels b ≡ some i)
unfolding fits
as_add_tunnels-some t none e h = absurd (ground arith)
as_add_tunnels-some t (some (error x)) e h = absurd (ground arith)
as_add_tunnels-some t (some (client_hello x)) e h = absurd (ground arith)
as_add_tunnels-some t (some (control_client_hello x)) e h = absurd (ground arith)
as_add_tunnels-some t (some (control_server_hello x)) e h = absurd (ground arith)
as_add_tunnels-some t (some (pipe_client_hello x)) e h = absurd (ground arith)
as_add_tunnels-some t (some (add_tunnels ts)) e h = (adds ts, refl)

incoming-some :
    (r : Result ReadError (ℕ × Option Body)) → GotFits r → (i : Incoming) × (incoming r ≡ some i)
unfolding incoming
incoming-some panic h = elim h [ ]
incoming-some (err e) h = (failed, refl)
incoming-some (ok (t, b)) h = elim (Bool-cases (t == type_add_tunnels)) [
  | inl adds' ↦ rw adds' (as_add_tunnels-some t b (ground (arith, adds')) h)
  | inr a ↦ elim (Bool-cases (t == type_ping)) [
    | inl p ↦ rw (a, p) (pinged, refl)
    | inr p ↦ elim (Bool-cases (t == type_exit)) [
      | inl x ↦ rw (a, p, x) (exited, refl)
      | inr x ↦ rw (a, p, x) (ignored, refl)
    ]
  ]
]

-- If json.Unmarshal keeps the type of what it fills, `recvLoop` of the server gets on with whatever
-- the client sends: the type assertion on the body never panics.
pub read-incoming :
    (unmarshal : ℕ → List ℕ → Option Body) (c : Conn)
    → KeepsType unmarshal
    → (i : Incoming) × (incoming (read_msg_without_timeout unmarshal c).0 ≡ some i)
unfolding read_msg_without_timeout
read-incoming unmarshal c keeps = incoming-some _ (read_msg-GotFits unmarshal keeps 0 c)
