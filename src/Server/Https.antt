-- ===== src/Server/Https.antt =====
-- `handleHttpsConn` of server/server.go, with `GetHttpsHostname` of vhost/vhost.go: to which tunnel a
-- connection goes.
use lunnel.Base.{
  ℕ, ◌<◌, ◌≤◌, ◌≡◌, refl, Bool, true, false, Option, none, some, List, ◌∷◌, ◌++◌, if◌then◌else◌,
  length, take, take_all,
}
use lunnel.Base.Text.{Text, text, decimal}
use lunnel.Base.Result.{ok, err, panic}
use lunnel.Msg.{public_addr}
use lunnel.Msg.Conn.{Event, chunk}
use lunnel.Vhost.Shared.{tee_read, new_share_conn, raw_read}
use lunnel.Vhost.Handshake.{read_handshake}
use lunnel.Vhost.Handshake.Encoding.{Hello, IsHello, hello_bytes, chosen_host}
use lunnel.Vhost.Handshake.ServerName.{read_handshake-hello_bytes}
use lunnel.Server.Tunnels.{World, ServerConf}
use lunnel.Server.Tunnels.Routing.{IsRouted}

-- The connection is closed at once, is answered that there is no such tunnel, goes to the control and
-- the name of a tunnel, or makes the server panic.
pub data Route : Type 0 where
  closed bad_gateway crashed : Route
  proxied : (ctl : ℕ) → (name : Text) → Route

unfoldable pub route_to : Option ℕ → World → Route
route_to none w = bad_gateway
route_to (some t) w = proxied (w.tunnels t).ctl (w.tunnels t).name

-- `has_cert` tells whether the certificate can be loaded. The name is looked for in what one read
-- into a buffer of 1024 bytes brings.
unfoldable pub handle_https_conn : ServerConf → Bool → List Event → World → Route
handle_https_conn conf has_cert es w = elim (read_handshake (tee_read 1024 (new_share_conn es)).0) [
  | err _ ↦ closed
  | panic ↦ crashed
  | ok host ↦
      if has_cert
      then route_to
          (w.tunnel_map
            (text "https" ++ (text "://" ++ (host ++ (text ":" ++ decimal conf.https_port)))))
          w
      else closed
]

-- A hello that the first read brings whole, with a certificate: the tunnel is looked up by its host.
pub handle_https_conn-found :
    (conf : ServerConf) (w : World) (t : ℕ) (h : Hello) (es : List Event) (host : Text)
    → IsHello h
    → length (hello_bytes h) ≤ 1024
    → chosen_host h.extensions ≡ ok host
    → w.tunnel_map (text "https" ++ (text "://" ++ (host ++ (text ":" ++ decimal conf.https_port))))
      ≡ some t
    → handle_https_conn conf true (chunk (hello_bytes h) ∷ es) w
      ≡ proxied (w.tunnels t).ctl (w.tunnels t).name
unfolding handle_https_conn route_to tee_read new_share_conn raw_read
handle_https_conn-found conf w t h es host good short chosen found =
    let whole : take 1024 (hello_bytes h) ≡ hello_bytes h = take_all 1024 (hello_bytes h) short in
    rw (handle_https_conn, whole, read_handshake-hello_bytes h good, chosen, found) refl

-- With a certificate and the map of public addresses in order, a client hello of at most 1024 bytes
-- that the first read brings whole, and whose chosen host is that of an open HTTPS tunnel at the
-- server's port, goes to that tunnel.
pub handle_https_conn-proxied :
    (conf : ServerConf) (w : World) (t : ℕ) (h : Hello) (es : List Event)
    → IsRouted w
    → t < w.fresh
    → (w.tunnels t).is_closed ≡ false
    → (w.tunnels t).tunnel_config.public.schema ≡ text "https"
    → (w.tunnels t).tunnel_config.public.port ≡ conf.https_port
    → IsHello h
    → length (hello_bytes h) ≤ 1024
    → chosen_host h.extensions ≡ ok (w.tunnels t).tunnel_config.public.host
    → handle_https_conn conf true (chunk (hello_bytes h) ∷ es) w
      ≡ proxied (w.tunnels t).ctl (w.tunnels t).name
unfolding public_addr
handle_https_conn-proxied conf w t h es v made live schema port good short host =
    let listed = v.listed t made live in
    handle_https_conn-found conf w t h es _ good short host (rw (schema, port) at listed)
