-- ===== src/Client/Loops/Receipt.antt =====
-- The type assertions of `recvLoop` in client/clientControl.go.
use lunnel.Base.{ℕ, ◌≡◌, refl, true, Bool-cases, inl, inr, Option, none, some, List, arith, ◌==◌}
use lunnel.Base.Result.{Result, ok, err, panic}
use lunnel.Msg.{
  Body, error, client_hello, control_client_hello, control_server_hello, pipe_client_hello,
  add_tunnels, type_add_tunnels, type_ping, type_pong, type_pipe_req, type_error, type_exit,
}
use lunnel.Msg.Conn.{Conn}
use lunnel.Msg.Read.{ReadError, read_msg_without_timeout}
use lunnel.Msg.Typed.{fits, KeepsType, GotFits, read_msg-GotFits}
use lunnel.Client.Loops.{
  Incoming, failed, pinged, piped, refused, exited, ignored, synced, incoming, as_synced,
  as_refused,
}

as_synced-some :
    (t : ℕ) (b : Option Body)
    → t ≡ type_add_tunnels
    → fits t b ≡ true
    → (i : Incoming) × (as_synced b ≡ some i)
unfolding fits
as_synced-some t none e h = absurd (ground arith)
as_synced-some t (some (error x)) e h = absurd (ground arith)
as_synced-some t (some (client_hello x)) e h = absurd (ground arith)
as_synced-some t (some (control_client_hello x)) e h = absurd (ground arith)
as_synced-some t (some (control_server_hello x)) e h = absurd (ground arith)
as_synced-some t (some (pipe_client_hello x)) e h = absurd (ground arith)
as_synced-some t (some (add_tunnels ts)) e h = (synced ts, refl)

as_refused-some :
    (t : ℕ) (b : Option Body)
    → t ≡ type_error
    → fits t b ≡ true
    → (i : Incoming) × (as_refused b ≡ some i)
unfolding fits
as_refused-some t none e h = absurd (ground arith)
as_refused-some t (some (error x)) e h = (refused, refl)
as_refused-some t (some (client_hello x)) e h = absurd (ground arith)
as_refused-some t (some (control_client_hello x)) e h = absurd (ground arith)
as_refused-some t (some (control_server_hello x)) e h = absurd (ground arith)
as_refused-some t (some (pipe_client_hello x)) e h = absurd (ground arith)
as_refused-some t (some (add_tunnels ts)) e h = absurd (ground arith)

incoming-some :
    (r : Result ReadError (ℕ × Option Body)) → GotFits r → (i : Incoming) × (incoming r ≡ some i)
unfolding incoming
incoming-some panic h = elim h [ ]
incoming-some (err e) h = (failed, refl)
incoming-some (ok (t, b)) h = elim (Bool-cases (t == type_pong)) [
  | inl a ↦ rw a (ignored, refl)
  | inr a ↦ elim (Bool-cases (t == type_ping)) [
    | inl p ↦ rw (a, p) (pinged, refl)
    | inr p ↦ elim (Bool-cases (t == type_pipe_req)) [
      | inl q ↦ rw (a, p, q) (piped, refl)
      | inr q ↦ elim (Bool-cases (t == type_add_tunnels)) [
        | inl s ↦ rw (a, p, q, s) (as_synced-some t b (ground (arith, s)) h)
        | inr s ↦ elim (Bool-cases (t == type_error)) [
          | inl x ↦ rw (a, p, q, s, x) (as_refused-some t b (ground (arith, x)) h)
          | inr x ↦ elim (Bool-cases (t == type_exit)) [
            | inl y ↦ rw (a, p, q, s, x, y) (exited, refl)
            | inr y ↦ rw (a, p, q, s, x, y) (ignored, refl)
          ]
        ]
      ]
    ]
  ]
]

-- If json.Unmarshal keeps the type of what it fills, `recvLoop` of the client gets on with whatever
-- the server sends: the type assertions on the bodies never panic.
pub receives-incoming :
    (unmarshal : ℕ → List ℕ → Option Body) (c : Conn)
    → KeepsType unmarshal
    → (i : Incoming) × (incoming (read_msg_without_timeout unmarshal c).0 ≡ some i)
unfolding read_msg_without_timeout
receives-incoming unmarshal c keeps = incoming-some _ (read_msg-GotFits unmarshal keeps 0 c)
