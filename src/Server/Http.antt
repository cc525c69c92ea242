-- ===== src/Server/Http.antt =====
-- `handleHttpConn` of server/server.go: to which tunnel a connection goes, and with which bytes.
use lunnel.Base.{
  ℕ, ◌<◌, ◌≡◌, refl, ap, ◌∙◌, true, false, Option, none, some, List, ◌++◌, if◌then◌else◌, replicate,
}
use lunnel.Base.Text.{Text, text, decimal}
use lunnel.Base.Numbers.{is_empty}
use lunnel.Base.Result.{Result, ok, err, panic}
use lunnel.Msg.{public_addr}
use lunnel.Msg.Conn.{Event, bytes_of}
use lunnel.Vhost.Shared.{SharedConn, new_share_conn, looks, buffered, stream, looks-kept}
use lunnel.Vhost.Rewrite.{split, RewriteError, Url}
use lunnel.Vhost.Request.{
  Request, Info, info_of, first_part, request_info, get_http_request_info, http_host_name_rewrite,
}
use lunnel.Server.Tunnels.{World, ServerConf}
use lunnel.Server.Tunnels.Routing.{IsRouted}

-- The connection is closed, is answered that there is no such tunnel, makes the server panic, or
-- goes to the control and the name of a tunnel, which gets these bytes until the connection fails.
pub data Route : Type 0 where
  closed bad_gateway crashed : Route
  proxied : (ctl : ℕ) → (name : Text) → (bytes : List ℕ) → Route

unfoldable pub after_rewrite : ℕ → Text → Result RewriteError (Text × SharedConn) → Route
after_rewrite ctl name (ok (ret, sc)) = proxied ctl name (ret ++ stream sc)
after_rewrite ctl name (err e) = closed
after_rewrite ctl name panic = crashed

abbrev pub http_addr : ServerConf → Text → Text
http_addr conf host = text "http" ++ (text "://" ++ (host ++ (text ":" ++ decimal conf.http_port)))

module _ (parse_request_uri : Text → Option Url) where
  -- The host is rewritten where the tunnel asks for it.
  unfoldable pub pass_on : Text → SharedConn → World → ℕ → Route
  pass_on old sc w t =
      let tun = w.tunnels t in
      let rewrite = tun.tunnel_config.http_host_rewrite in
      if is_empty rewrite
      then proxied tun.ctl tun.name (stream sc)
      else after_rewrite tun.ctl tun.name (http_host_name_rewrite parse_request_uri old rewrite sc)

  unfoldable pub find_tunnel : Text → SharedConn → World → Option ℕ → Route
  find_tunnel old sc w none = bad_gateway
  find_tunnel old sc w (some t) = pass_on old sc w t

  unfoldable pub by_host : ServerConf → Text → World → Option (Info × SharedConn) → Route
  by_host conf old w none = closed
  by_host conf old w (some (info, sc)) =
      find_tunnel old sc w (w.tunnel_map (http_addr conf info.host))

  -- `fills` and `old` are those of `GetHttpRequestInfo` and of `HttpHostNameRewrite`.
  unfoldable pub handle_http_conn :
      (Text → Option Request) → ServerConf → ℕ → Text → List Event → World → Route
  handle_http_conn read_request conf fills old es w =
      by_host conf old w (get_http_request_info read_request fills es)

  module _ (read_request : Text → Option Request) (conf : ServerConf) (w : World) (t fills : ℕ)
      (old : Text) (es : List Event) (sc : SharedConn) (r : Request) where
    -- With the map of public addresses in order, a connection whose request is read, and whose host,
    -- up to a port, is that of an open HTTP tunnel at the server's port that asks for no rewriting of
    -- the host, goes to that tunnel, which gets every byte of the connection, in their order.
    pub handle_http_conn-proxied :
        IsRouted w
        → t < w.fresh
        → (w.tunnels t).is_closed ≡ false
        → (w.tunnels t).tunnel_config.public.schema ≡ text "http"
        → (w.tunnels t).tunnel_config.public.port ≡ conf.http_port
        → is_empty ((w.tunnels t).tunnel_config.http_host_rewrite) ≡ true
        → looks (replicate fills 4096) (new_share_conn es) ≡ some sc
        → read_request (buffered sc.buff) ≡ some r
        → first_part (split 58 r.host) ≡ (w.tunnels t).tunnel_config.public.host
        → handle_http_conn read_request conf fills old es w
          ≡ proxied (w.tunnels t).ctl (w.tunnels t).name (bytes_of es)
    unfolding handle_http_conn get_http_request_info request_info by_host find_tunnel pass_on
        public_addr info_of
    handle_http_conn-proxied v made live schema port plain looked parsed host =
        let listed = v.listed t made live in
        let kept = looks-kept (replicate fills 4096) es sc looked in
        rw (looked, parsed, host)
          (ap (find_tunnel old sc w) (rw (schema, port) at listed) ∙ rw (plain, kept) refl)
