-- ===== src/Handshake/Safety.antt =====
-- No message makes `ServerHandShake` of server/serControl.go panic.
use lunnel.Base.{
  ℕ, ◌≡◌, Bool, true, false, not, Bool-cases, inl, inr, Option, none, some, Option-cases, subst,
  List, [], arith, ltb, ◌==◌, if◌then◌else◌, length,
}
use lunnel.Base.Text.{Text, text, text_eq}
use lunnel.Base.Result.{ok, ◌>>=◌, ◌>>◌, fail_if, NoPanic, NoPanic-bind, Result-cases}
use lunnel.Msg.{
  Body, error, client_hello, control_client_hello, control_server_hello, pipe_client_hello,
  add_tunnels, Uuid, ControlClientHello, ControlServerHello, type_control_client_hello,
  type_control_server_hello,
}
use lunnel.Msg.Conn.{Conn}
use lunnel.Msg.Write.{write_msg, encode}
use lunnel.Msg.Write
use lunnel.Msg.Read.{read_msg_timed, read_msg}
use lunnel.Msg.Typed.{fits, KeepsType, GotFits, read_msg-GotFits}
use lunnel.Crypto.KeyExchange.{Curve, process_key_exchange, generate_key_exchange}
use lunnel.Crypto.KeyExchange.Agreement.{IsCurve, process-NoPanic}
use lunnel.Handshake.{
  HandshakeError, Agreed, as_client_hello, check_auth, make_key, secret_of, answer, send_hello,
  server_hand_shake, invalid_msg_type,
}

-- The assertion that `ServerHandShake` makes holds for every message with the type it has checked.
as_client_hello-NoPanic :
    (t : ℕ) (b : Option Body)
    → t ≡ type_control_client_hello
    → fits t b ≡ true
    → NoPanic (as_client_hello b)
unfolding fits as_client_hello
as_client_hello-NoPanic t none e h = ground arith
as_client_hello-NoPanic t (some (error x)) e h = ground arith
as_client_hello-NoPanic t (some (client_hello x)) e h = ground arith
as_client_hello-NoPanic t (some (control_client_hello x)) e h = tt
as_client_hello-NoPanic t (some (control_server_hello x)) e h = ground arith
as_client_hello-NoPanic t (some (pipe_client_hello x)) e h = ground arith
as_client_hello-NoPanic t (some (add_tunnels x)) e h = ground arith

check_auth-NoPanic :
    (auth : Option (ControlClientHello → Option Bool)) (h : ControlClientHello)
    → NoPanic (check_auth auth h)
unfolding check_auth
check_auth-NoPanic none h = tt
check_auth-NoPanic (some auth) h = elim (Option-cases (auth h)) [
  | inl e ↦ rw (e, NoPanic) tt
  | inr (is_ok, e) ↦ rw e (fail_if-NoPanic (not is_ok))
]
  where
    fail_if-NoPanic : (b : Bool) → NoPanic (fail_if b HandshakeError.auth_failed)
    fail_if-NoPanic true = tt
    fail_if-NoPanic false = tt

module _ (curve : Curve) (laws : IsCurve curve) where
  make_key-NoPanic : (mode : Text) (random : ℕ) → NoPanic (make_key curve mode random)
  unfolding make_key
  make_key-NoPanic mode random = elim (Bool-cases (text_eq mode (text "none"))) [
    | inl off ↦ rw (off, NoPanic) tt
    | inr on ↦ elim (Option-cases (generate_key_exchange curve random)) [
      | inl e ↦ rw (on, e, NoPanic) tt
      | inr (pair, e) ↦ rw (on, e, NoPanic) tt
    ]
  ]

  secret_of-NoPanic : (priv ct : List ℕ) → NoPanic (secret_of curve priv ct)
  unfolding secret_of
  secret_of-NoPanic priv ct = elim (Result-cases (process_key_exchange curve priv ct)) [
    | inl (s, e) ↦ rw (e, NoPanic) tt
    | inr (inl (x, e)) ↦ rw (e, NoPanic) tt
    | inr (inr e) ↦ absurd (subst NoPanic e (process-NoPanic curve laws priv ct))
  ]

  secret_or_none-NoPanic :
      (off : Bool) (priv ct : List ℕ) → NoPanic (if off then ok [] else secret_of curve priv ct)
  secret_or_none-NoPanic true priv ct = tt
  secret_or_none-NoPanic false priv ct = secret_of-NoPanic priv ct

  answer-NoPanic :
      (auth : Option (ControlClientHello → Option Bool)) (mode : Text) (random : ℕ) (new : Uuid)
      (h : ControlClientHello)
      → NoPanic (answer curve auth mode random new h)
  unfolding answer
  answer-NoPanic auth mode random new h =
      NoPanic-bind (check_auth auth h) _ (check_auth-NoPanic auth h) (λ _ _.
        NoPanic-bind (make_key curve mode random) _ (make_key-NoPanic mode random) (λ pair _.
          NoPanic-bind
            (if text_eq mode (text "none") then ok [] else secret_of curve pair.0 h.cipher_key) _
            (secret_or_none-NoPanic (text_eq mode (text "none")) pair.0 h.cipher_key) (λ _ _. tt)))

send-NoPanic :
    (marshal : Body → Option (List ℕ)) (x : List ℕ) (c : Conn) → NoPanic (Write.send marshal x c).0
unfolding Write.send
send-NoPanic marshal x c = elim (Bool-cases (ltb c.accepts (length x))) [
  | inl short ↦ rw (short, NoPanic) tt
  | inr whole ↦ rw (whole, NoPanic) tt
]

write_msg-NoPanic :
    (marshal : Body → Option (List ℕ)) (t : ℕ) (b : Option Body) (c : Conn)
    → NoPanic (write_msg marshal t b c).0
unfolding write_msg encode
write_msg-NoPanic marshal t none c = send-NoPanic marshal _ c
write_msg-NoPanic marshal t (some b) c = elim (Option-cases (marshal b)) [
  | inl e ↦ rw (e, NoPanic) tt
  | inr (body, e) ↦ elim (Bool-cases (ltb 16777215 (length body))) [
    | inl long ↦ rw (e, long, NoPanic) tt
    | inr short ↦ rw (e, short, write_msg, encode) (send-NoPanic marshal _ c)
  ]
]

module _ (marshal : Body → Option (List ℕ)) (unmarshal : ℕ → List ℕ → Option Body) where
  send_hello-NoPanic :
      (curve : Curve) (r : ControlServerHello × Agreed) (c : Conn)
      → NoPanic (send_hello curve marshal unmarshal r c).0
  send_hello-NoPanic curve r c =
      let done = write_msg marshal type_control_server_hello (some (control_server_hello r.0)) c in
      elim (Result-cases (done.0)) [
        | inl (u, e) ↦ rw (e, NoPanic) tt
        | inr (inl (x, e)) ↦ rw (e, NoPanic) tt
        | inr (inr e) ↦
            absurd (subst NoPanic e (write_msg-NoPanic marshal type_control_server_hello _ c))
      ]

  -- The reply to a message that was read.
  reply-NoPanic :
      (curve : Curve)
      → IsCurve curve
      → (auth : Option (ControlClientHello → Option Bool)) (mode : Text) (random : ℕ) (new : Uuid)
      → (t : ℕ) (b : Option Body) → fits t b ≡ true
      → NoPanic (do
        fail_if (not (t == type_control_client_hello)) invalid_msg_type
        h ← as_client_hello b
        answer curve auth mode random new h)
  reply-NoPanic curve laws auth mode random new t b good =
      elim (Bool-cases (t == type_control_client_hello)) [
        | inr other ↦ rw (other, NoPanic) tt
        | inl hello ↦ rw hello (
            NoPanic-bind (as_client_hello b) _
              (as_client_hello-NoPanic t b (ground (arith, hello)) good)
              (λ h _. answer-NoPanic curve laws auth mode random new h))
      ]

  -- On a curve with the documented laws, and if json.Unmarshal keeps the type of what it fills,
  -- nothing that comes in on a connection makes `ServerHandShake` panic.
  pub server_hand_shake-NoPanic :
      (curve : Curve)
      → IsCurve curve
      → KeepsType unmarshal
      → (auth : Option (ControlClientHello → Option Bool)) (mode : Text) (random : ℕ) (new : Uuid)
        (c : Conn)
      → NoPanic (server_hand_shake curve marshal unmarshal auth mode random new c).0
  unfolding server_hand_shake read_msg_timed
  server_hand_shake-NoPanic curve laws keeps auth mode random new c =
      let got = read_msg unmarshal 12 c in
      elim (Result-cases (got.0)) [
        | inr (inl (x, e)) ↦ rw (e, NoPanic) tt
        | inr (inr e) ↦ absurd (subst GotFits e (read_msg-GotFits unmarshal keeps 12 c))
        | inl ((t, b), e) ↦
            let good : fits t b ≡ true = subst GotFits e (read_msg-GotFits unmarshal keeps 12 c) in
            let fine = reply-NoPanic curve laws auth mode random new t b good in
            let reply = (do
              fail_if (not (t == type_control_client_hello)) invalid_msg_type
              h ← as_client_hello b
              answer curve auth mode random new h) in
            elim (Result-cases reply) [
              | inl (r, f) ↦ rw (e, f, server_hand_shake) (send_hello-NoPanic curve r _)
              | inr (inl (x, f)) ↦ rw (e, f, NoPanic) tt
              | inr (inr f) ↦ absurd (subst NoPanic f fine)
            ]
      ]
