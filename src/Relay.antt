-- ===== src/Relay.antt =====
-- `proxyConn` of server/serControl.go and the goroutine of a stream in `createPipe` of
-- client/clientControl.go: which connections of both ends belong together. The multiplexer and the
-- network are parameters.
pub mod Same
pub mod Answer
pub mod Local
pub mod Reach
mod Examples
use lunnel.Base.{ℕ, Bool, Option, none, some, if◌then◌else◌}
use lunnel.Base.Text.{Text}
use lunnel.Base.Maps.{Map}
use lunnel.Msg.{Tunnel}
use lunnel.Client.Tunnels.{Target, dial_target}

-- What becomes of a user's connection: the pipe that goes back to the manager, and the pipe and the
-- tunnel's name of the stream to which the connection is copied.
pub record Proxied : Type 0 where
  pub put_back : Option ℕ
  pub stream : Option (ℕ × Text)

-- `pipe` is what the manager hands out; `open_stream` tells which streams can be opened.
unfoldable pub proxy_conn : (ℕ → Text → Bool) → Option ℕ → Text → Proxied
proxy_conn open_stream none name = record { put_back = none; stream = none }
proxy_conn open_stream (some p) name =
    if open_stream p name
    then record { put_back = some p; stream = some (p, name) }
    else record { put_back = some p; stream = none }

-- What becomes of a stream at the client: there is no tunnel of its name or no port to dial, the
-- local address does not answer, or the stream is copied to it.
pub data Served : Type 0 where
  unknown no_port : Served
  unreachable connected : Target → Served

module _ (dial : Target → Bool) where
  abbrev pub connect : Option Target → Served
  connect none = no_port
  connect (some g) = if dial g then connected g else unreachable g

  abbrev pub serve_tunnel : Option Tunnel → Served
  serve_tunnel none = unknown
  serve_tunnel (some t) = connect (dial_target t)

  unfoldable pub serve_stream : Map Tunnel → Text → Served
  serve_stream tunnels name = serve_tunnel (tunnels name)

  -- The stream of a user's connection, as the client serves it.
  abbrev pub served_by : Map Tunnel → Option (ℕ × Text) → Option Served
  served_by tunnels none = none
  served_by tunnels (some (p, name)) = some (serve_stream tunnels name)
