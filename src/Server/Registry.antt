-- ===== src/Server/Registry.antt =====
-- `ControlMap`: the end of `ServerHandShake`, where a control takes over the tunnels of the one
-- before it, and `PipeHandShake`, of server/serControl.go; `pipeHandShake` of
-- client/clientControl.go is the other end. AES, the HMAC and the multiplexer are parameters.
pub mod TakeOver
pub mod Pipes
mod Examples
use lunnel.Base.{ℕ, Bool, Option, none, some, List, [], ◌∷◌, ◌==◌, if◌then◌else◌}
use lunnel.Base.{not, replicate}
use lunnel.Base.Text.{Text, text, text_eq}
use lunnel.Base.Maps.{Map, store}
use lunnel.Base.Result.{Result, ok, err}
use lunnel.Msg.{Uuid, PipeClientHello, Body, pipe_client_hello, type_pipe_client_hello}
use lunnel.Msg.Conn.{Conn}
use lunnel.Msg.Write.{WriteError, write_msg}
use lunnel.Crypto.Prf.{prf12}
use lunnel.Crypto.Stream.{CryptoStream, new_crypto_stream}
use lunnel.Handshake.{Agreed, pipe_stream}
use lunnel.Server.Tunnels.{World, Control, close_tunnels}

-- A control, with what its hello and its handshake have settled.
pub record Entry : Type 0 where
  pub ctl : Control
  pub encrypt_mode : Text
  pub enable_compress : Bool
  pub agreed : Agreed

-- All controls, and `ControlMap` with the text of an identity as its key.
pub record Registry : Type 0 where
  pub entries : ℕ → Entry
  pub control_map : Map ℕ
  pub world : World

-- c.tunnels[oldTunnel.name] = oldTunnel, for the tunnels of a list.
unfoldable pub adopt : World → List ℕ → Map ℕ → Map ℕ
adopt w [] m = m
adopt w (t ∷ ts) m = adopt w ts (store (w.tunnels t).name t m)

abbrev pub with_tunnels : Map ℕ → Entry → Entry
with_tunnels m e = record e { ctl = record (e.ctl) { tunnels = m } }

-- The old control's tunnels are closed, and the new one gets them; they share the lock from then on.
unfoldable pub take_over : ℕ → List ℕ → Option ℕ → Registry → Registry
take_over c order none r = r
take_over c order (some old) r =
    let w = close_tunnels order r.world in
    record r {
      world = w;
      entries = λ q.
          if c == q
          then with_tunnels (adopt w order ((r.entries c).ctl.tunnels)) (r.entries c)
          else r.entries q;
    }

-- The end of `ServerHandShake` of control `c`; `order` is the traversal of the old one's tunnels.
unfoldable pub enter_control : ℕ → List ℕ → Registry → Registry
enter_control c order r =
    let id = (r.entries c).agreed.client_id in
    let r' =
      take_over c order (r.control_map id) (record r { control_map = store id c r.control_map }) in
    record r' { control_map = store id c r'.control_map }

pub data PipeError : Type 0 where
  write_hello invalid_client_id crypto_conn smux : PipeError

-- What lies over the connection of a pipe: a cipher stream or nothing, and whether with compression.
pub record PipeLayer : Type 0 where
  pub stream : Option CryptoStream
  pub compress : Bool

module _ (hmac : List ℕ → List ℕ → List ℕ) (aes : List ℕ → List ℕ → List ℕ) where
  -- The server's end. The key is made from the identity in the hello, not from the control's.
  abbrev pub over : Bool → Option CryptoStream → Result PipeError PipeLayer
  over compress none = err crypto_conn
  over compress (some s) = ok (record { stream = some s; compress = compress })

  unfoldable pub server_layer : Entry → PipeClientHello → Result PipeError PipeLayer
  server_layer ctl phs =
      if not (text_eq ctl.encrypt_mode (text "none"))
      then over ctl.enable_compress (
          new_crypto_stream aes
            (prf12 hmac (replicate 16 0) ctl.agreed.pre_master_secret phs.client_id phs.once))
      else ok (record { stream = none; compress = ctl.enable_compress })

  -- The control whose pool gets the pipe, with the layer; `muxed` tells whether the multiplexer has
  -- been set up.
  abbrev pub put : Bool → ℕ → Result PipeError PipeLayer → Result PipeError (ℕ × PipeLayer)
  put muxed c (ok l) = if muxed then ok (c, l) else err smux
  put muxed c (err e) = err e
  put muxed c Result.panic = Result.panic

  unfoldable pub hand_to :
      Bool → PipeClientHello → Option ℕ → Registry → Result PipeError (ℕ × PipeLayer)
  hand_to muxed phs none r = err invalid_client_id
  hand_to muxed phs (some c) r = put muxed c (server_layer (r.entries c) phs)

  unfoldable pub pipe_hand_shake :
      Bool → PipeClientHello → Registry → Result PipeError (ℕ × PipeLayer)
  pipe_hand_shake muxed phs r = hand_to muxed phs (r.control_map phs.client_id) r

  -- The client's end, with a cipher stream from what the client itself has.
  abbrev pub client_over : Bool → Option CryptoStream → Result PipeError PipeLayer
  client_over compress none = err crypto_conn
  client_over compress (some s) = ok (record { stream = some s; compress = compress })

  unfoldable pub client_layer : Text → Bool → Agreed → Uuid → Result PipeError PipeLayer
  client_layer mode compress a once =
      if not (text_eq mode (text "none"))
      then client_over compress (pipe_stream hmac aes a once)
      else ok (record { stream = none; compress = compress })

  abbrev pub muxed_over : Bool → Result PipeError PipeLayer → Result PipeError PipeLayer
  muxed_over muxed (ok l) = if muxed then ok l else err smux
  muxed_over muxed (err e) = err e
  muxed_over muxed Result.panic = Result.panic

  abbrev pub pipe_hello : Agreed → Uuid → PipeClientHello
  pipe_hello a once = record { once = once; client_id = a.client_id }

  abbrev pub after_write :
      Bool
      → Text
      → Bool
      → Agreed
      → Uuid
      → Result WriteError (Unit {0}) × Conn
      → Result PipeError PipeLayer × Conn
  after_write muxed mode compress a once (ok u, conn) =
      (muxed_over muxed (client_layer mode compress a once), conn)
  after_write muxed mode compress a once (err e, conn) = (err write_hello, conn)
  after_write muxed mode compress a once (Result.panic, conn) = (Result.panic, conn)

  unfoldable pub client_pipe :
      (Body → Option (List ℕ))
      → Bool
      → Text
      → Bool
      → Agreed
      → Uuid
      → Conn
      → Result PipeError PipeLayer × Conn
  client_pipe marshal muxed mode compress a once conn =
      after_write muxed mode compress a once (
        write_msg marshal type_pipe_client_hello (some (pipe_client_hello (pipe_hello a once)))
          conn)
