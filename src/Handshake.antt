-- ===== src/Handshake.antt =====
-- The handshakes on a new control connection and on a new pipe: `ServerHandShake` and
-- `PipeHandShake` of server/serControl.go, `clientHandShake` and `pipeHandShake` of
-- client/clientControl.go. JSON, the curve, AES, the HMAC, the check of a client and new UUIDs are
-- parameters.
pub mod Parts
pub mod Quiet
pub mod Secrets
pub mod Agreement
mod Examples
pub mod Pipe
pub mod Safety
use lunnel.Base.{
  ℕ, Bool, true, false, not, Option, none, some, List, [], ◌∷◌, ltb, ◌==◌, if◌then◌else◌, length,
  replicate,
}
use lunnel.Base.Text.{Text, text, text_eq}
use lunnel.Base.Result.{Result, ok, err, panic, ◌>>=◌, ◌>>◌, fail_if}
use lunnel.Msg.{
  Body, control_client_hello, control_server_hello, error, Uuid, ControlClientHello,
  ControlServerHello, type_control_client_hello, type_control_server_hello, type_error,
}
use lunnel.Msg.Conn.{Conn}
use lunnel.Msg.Write.{WriteError, write_msg}
use lunnel.Msg.Read.{ReadError, read_msg_timed}
use lunnel.Crypto.KeyExchange.{Curve, process_key_exchange, generate_key_exchange}
use lunnel.Crypto.Prf.{prf12}
use lunnel.Crypto.Stream.{CryptoStream, new_crypto_stream}

pub data HandshakeError : Type 0 where
  reading : ReadError → HandshakeError
  writing : WriteError → HandshakeError
  invalid_msg_type auth_error auth_failed exchange_key_nil process_key server_error : HandshakeError

-- What both ends have then: `ClientID` and `preMasterSecret`.
pub record Agreed : Type 0 where
  pub client_id : Uuid
  pub pre_master_secret : List ℕ

abbrev pub Hs {ℓ} : Type ℓ → Type ℓ
Hs A = Result HandshakeError A

-- The dynamic type of a body; another one makes the assertion panic.
unfoldable pub as_client_hello : Option Body → Hs ControlClientHello
as_client_hello (some (control_client_hello h)) = ok h
as_client_hello _ = panic

unfoldable pub as_server_hello : Option Body → Hs ControlServerHello
as_server_hello (some (control_server_hello h)) = ok h
as_server_hello _ = panic

-- `contrib.Auth` if it is enabled; none is its error.
unfoldable pub check_auth :
    Option (ControlClientHello → Option Bool) → ControlClientHello → Hs (Unit {0})
check_auth none h = ok tt
check_auth (some auth) h = elim (auth h) [
  | none ↦ err auth_error
  | some is_ok ↦ fail_if (not is_ok) auth_failed
]

-- The identity of a client that names none is a new one.
unfoldable pub choose_id : Uuid → Option Uuid → Uuid
choose_id new none = new
choose_id new (some u) = u

module _ (curve : Curve) where
  -- A pair of keys, unless the mode is none: the private key, and the message for the peer.
  unfoldable pub make_key : Text → ℕ → Hs (List ℕ × List ℕ)
  make_key mode random =
      if text_eq mode (text "none")
      then ok ([], [])
      else elim (generate_key_exchange curve random) [
        | none ↦ err exchange_key_nil
        | some pair ↦ ok pair
      ]

  unfoldable pub secret_of : List ℕ → List ℕ → Hs (List ℕ)
  secret_of priv ciphertext = elim (process_key_exchange curve priv ciphertext) [
    | ok s ↦ ok s
    | err _ ↦ err process_key
    | panic ↦ panic
  ]

  -- The server's answer to a hello, and what the server has then.
  unfoldable pub answer :
      Option (ControlClientHello → Option Bool)
      → Text
      → ℕ
      → Uuid
      → ControlClientHello
      → Hs (ControlServerHello × Agreed)
  answer auth mode random new h = do
    check_auth auth h
    pair ← make_key mode random
    secret ← (if text_eq mode (text "none") then ok [] else secret_of pair.0 h.cipher_key)
    (let id = choose_id new h.client_id in
        ok (
          record { client_id = id; cipher_key = pair.1 },
          record { client_id = id; pre_master_secret = secret },
        ))

  -- What the client makes of the server's message.
  unfoldable pub finish : List ℕ → ℕ × Option Body → Hs Agreed
  finish priv (t, b) = if t == type_error then err server_error else do
    h ← as_server_hello b
    secret ← (if ltb 0 (length h.cipher_key) then secret_of priv h.cipher_key else ok [])
    ok (record { client_id = h.client_id; pre_master_secret = secret })

  module _ (marshal : Body → Option (List ℕ)) (unmarshal : ℕ → List ℕ → Option Body) where
    abbrev pub send_hello : ControlServerHello × Agreed → Conn → Hs Agreed × Conn
    send_hello (h, agreed) c =
        let (done, c') =
          write_msg marshal type_control_server_hello (some (control_server_hello h)) c in
        elim done [ ok _ ↦ (ok agreed, c') | err e ↦ (err (writing e), c') | panic ↦ (panic, c') ]

    unfoldable pub server_hand_shake :
        Option (ControlClientHello → Option Bool) → Text → ℕ → Uuid → Conn → Hs Agreed × Conn
    server_hand_shake auth mode random new c =
        let (got, c1) = read_msg_timed unmarshal c in
        elim got [
          | ok (t, b) ↦
              (let reply = (do
                fail_if (not (t == type_control_client_hello)) invalid_msg_type
                h ← as_client_hello b
                answer auth mode random new h) in
                elim reply [ ok r ↦ send_hello r c1 | err e ↦ (err e, c1) | panic ↦ (panic, c1) ])
          | err e ↦ (err (reading e), c1)
          | panic ↦ (panic, c1)
        ]

    abbrev pub hello_of : Text → Option Uuid → List ℕ × List ℕ → ControlClientHello
    hello_of token id pair = record { cipher_key = pair.1; auth_token = token; client_id = id }

    abbrev pub await : List ℕ → Conn → Hs Agreed × Conn
    await priv c =
        let (got, c') = read_msg_timed unmarshal c in
        elim got [
          | ok m ↦ (finish priv m, c')
          | err e ↦ (err (reading e), c')
          | panic ↦ (panic, c')
        ]

    -- The file that keeps the identity is left out.
    unfoldable pub client_hand_shake : Text → ℕ → Text → Option Uuid → Conn → Hs Agreed × Conn
    client_hand_shake mode random token id c = elim (make_key mode random) [
      | ok pair ↦
          (let (done, c1) =
              write_msg marshal type_control_client_hello
                (some (control_client_hello (hello_of token id pair))) c in
            elim done [
              | ok _ ↦ await pair.0 c1
              | err e ↦ (err (writing e), c1)
              | panic ↦ (panic, c1)
            ])
      | err e ↦ (err e, c)
      | panic ↦ (panic, c)
    ]

-- The cipher stream of a pipe at the client; none is the error of `NewCryptoStream`.
unfoldable pub pipe_stream :
    (List ℕ → List ℕ → List ℕ) → (List ℕ → List ℕ → List ℕ) → Agreed → Uuid → Option CryptoStream
pipe_stream hmac aes a once =
    new_crypto_stream aes (prf12 hmac (replicate 16 0) a.pre_master_secret a.client_id once)
