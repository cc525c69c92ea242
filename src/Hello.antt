-- ===== src/Hello.antt =====
-- The first messages on a connection, before the handshakes of Handshake: `handleConn` of
-- server/server.go and `dialAndRun` of client/client.go. TLS, the multiplexer and AES are parameters.
pub mod Taken
pub mod Piped
pub mod Agreement
pub mod Greeting
mod Examples
use lunnel.Base.{
  ℕ, Bool, true, false, not, ◌&&◌, ◌||◌, Option, none, some, List, ◌==◌, if◌then◌else◌,
}
use lunnel.Base.Text.{Text, text, text_eq}
use lunnel.Base.Numbers.{is_empty}
use lunnel.Base.Result.{Result, ok, err, panic}
use lunnel.Msg.{
  Body, error, client_hello, pipe_client_hello, ClientHello, PipeClientHello, type_client_hello,
  type_server_hello, type_pipe_client_hello, type_error,
}
use lunnel.Msg.Conn.{Conn}
use lunnel.Msg.Read.{ReadError, read_msg_timed}
use lunnel.Msg.Write.{WriteError, write_msg}
use lunnel.Crypto.Stream.{CryptoStream, new_crypto_stream}

-- What lies over the raw connection: TLS, a cipher stream, or nothing.
pub data Transport : Type 0 where
  tls plain : Transport
  aes : CryptoStream → Transport

pub record ServerModes : Type 0 where
  pub tls_cert : Text
  pub tls_key : Text
  pub secret_key : Text

pub record ClientModes : Type 0 where
  pub encrypt_mode : Text
  pub enable_compress : Bool
  pub version : Text
  pub secret_key : Text

-- What becomes of a connection to the server: it is closed, or left open without a use, makes the
-- server panic, or goes to `handleControl` or to `handlePipe`.
pub data Accepted : Type 0 where
  closed left_open crashed : Accepted
  control : Transport → ClientHello → Accepted
  pipe : PipeClientHello → Accepted

-- What becomes of a dial: it is given up, ends the program, or gets to the client's handshake.
pub data Dialled : Type 0 where
  failed fatal crashed : Dialled
  connected : Transport → Dialled

abbrev pub hello_of : ClientModes → ClientHello
hello_of m = record {
  encrypt_mode = m.encrypt_mode;
  enable_compress = m.enable_compress;
  version = m.version;
}

-- Which mode the server lacks the means for.
unfoldable pub refusal : ServerModes → Text → Option Text
refusal conf mode =
    if text_eq mode (text "tls") && (is_empty conf.tls_cert || is_empty conf.tls_key)
    then some (text "server not support tls mode")
    else if text_eq mode (text "aes") && is_empty conf.secret_key
    then some (text "server not support aes mode")
    else none

module _ (cipher : List ℕ → List ℕ → List ℕ) where
  -- None is the error of `NewCryptoStream`.
  unfoldable pub aes_over : Text → Option Transport
  aes_over key = elim (new_crypto_stream cipher key) [ none ↦ none | some s ↦ some (aes s) ]

  -- The layer for a mode; none where it cannot be had, and a mode that is not known has none.
  unfoldable pub layer : Bool → Text → Text → Option Transport
  layer has_tls key mode =
      if text_eq mode (text "tls")
      then (if has_tls then some tls else none)
      else if text_eq mode (text "aes")
      then aes_over key
      else if text_eq mode (text "none")
      then some plain
      else none

  abbrev pub is_known : Text → Bool
  is_known mode =
      text_eq mode (text "tls") || (text_eq mode (text "aes") || text_eq mode (text "none"))

  module _ (marshal : Body → Option (List ℕ)) (unmarshal : ℕ → List ℕ → Option Body) where
    -- The server's answer to a hello: a refusal does not end the handler.
    unfoldable pub reply : Option Text → Conn → Result WriteError (Unit {0}) × Conn
    reply (some m) c = write_msg marshal type_error (some (error m)) c
    reply none c = write_msg marshal type_server_hello none c

    -- A mode that is not known is told after the answer.
    unfoldable pub with_layer : Bool → ClientHello → Conn → Option Transport → Accepted × Conn
    with_layer muxed h c (some t) = (if muxed then control t h else closed, c)
    with_layer muxed h c none = (
      closed,
      if is_known h.encrypt_mode
          then c
          else (write_msg marshal type_error (some (error (text "invalid encryption mode"))) c).1,
    )

    -- `muxed` tells whether the multiplexer has been set up over the layer and its first stream
    -- accepted.
    unfoldable pub set_up : ServerModes → Bool → Bool → ClientHello → Conn → Accepted × Conn
    set_up conf has_cert muxed h c =
        with_layer muxed h c (layer has_cert conf.secret_key h.encrypt_mode)

    abbrev pub after_reply :
        ServerModes
        → Bool
        → Bool
        → ClientHello
        → Result WriteError (Unit {0}) × Conn
        → Accepted × Conn
    after_reply conf has_cert muxed h (ok u, c) = set_up conf has_cert muxed h c
    after_reply conf has_cert muxed h (err e, c) = (closed, c)
    after_reply conf has_cert muxed h (panic, c) = (crashed, c)

    unfoldable pub greet : ServerModes → Bool → Bool → Option Body → Conn → Accepted × Conn
    greet conf has_cert muxed (some (client_hello h)) c =
        after_reply conf has_cert muxed h (reply (refusal conf h.encrypt_mode) c)
    greet conf has_cert muxed b c = (crashed, c)

    unfoldable pub take_pipe : Option Body → Accepted
    take_pipe (some (pipe_client_hello h)) = pipe h
    take_pipe b = crashed

    -- The switch over the type of the first message.
    unfoldable pub dispatch :
        ServerModes → Bool → Bool → Result ReadError (ℕ × Option Body) × Conn → Accepted × Conn
    dispatch conf has_cert muxed (err e, c) = (closed, c)
    dispatch conf has_cert muxed (panic, c) = (crashed, c)
    dispatch conf has_cert muxed (ok (t, b), c) =
        if t == type_client_hello
        then greet conf has_cert muxed b c
        else if t == type_pipe_client_hello
        then (take_pipe b, c)
        else (left_open, c)

    unfoldable pub handle_conn : ServerModes → Bool → Bool → Conn → Accepted × Conn
    handle_conn conf has_cert muxed c = dispatch conf has_cert muxed (read_msg_timed unmarshal c)

    -- The client's side of the layer; a certificate that cannot be loaded ends the program.
    unfoldable pub put_on : ClientModes → Bool → Bool → Dialled
    put_on m has_ca muxed =
        if text_eq m.encrypt_mode (text "tls") && not has_ca
        then fatal
        else elim (layer has_ca m.secret_key m.encrypt_mode) [
          | none ↦ failed
          | some t ↦ if muxed then connected t else failed
        ]

    -- Any message but an error lets the client go on.
    unfoldable pub after_answer :
        ClientModes → Bool → Bool → Result ReadError (ℕ × Option Body) × Conn → Dialled × Conn
    after_answer m has_ca muxed (err e, c) = (failed, c)
    after_answer m has_ca muxed (panic, c) = (crashed, c)
    after_answer m has_ca muxed (ok (t, b), c) =
        (if t == type_error then failed else put_on m has_ca muxed, c)

    abbrev pub after_hello :
        ClientModes → Bool → Bool → Result WriteError (Unit {0}) × Conn → Dialled × Conn
    after_hello m has_ca muxed (ok u, c) = after_answer m has_ca muxed (read_msg_timed unmarshal c)
    after_hello m has_ca muxed (err e, c) = (failed, c)
    after_hello m has_ca muxed (panic, c) = (crashed, c)

    unfoldable pub dial : ClientModes → Bool → Bool → Conn → Dialled × Conn
    dial m has_ca muxed c =
        after_hello m has_ca muxed
          (write_msg marshal type_client_hello (some (client_hello (hello_of m))) c)
