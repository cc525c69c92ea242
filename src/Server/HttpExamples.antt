-- ===== src/Server/HttpExamples.antt =====
-- A connection to the one tunnel of a control, and a question for its address.
use lunnel.Base.{◌≡◌, refl, arith, true, false, Option, none, some, [], ◌∷◌}
use lunnel.Base.Text.{Text, text}
use lunnel.Msg
use lunnel.Msg.Conn.{chunk}
use lunnel.Vhost.Shared.{looks, new_share_conn, tee_read, raw_read}
use lunnel.Vhost.Rewrite.{split}
use lunnel.Vhost.Request.{Request}
use lunnel.Server.Tunnels.{World, Control, register}
use lunnel.Server.Tunnels.Routing.{IsRouted, register-IsRouted}
use lunnel.Msg.{public_addr}
use lunnel.Server.Http.{proxied, handle_http_conn, handle_http_conn-proxied}

abbrev web : Msg.Tunnel
web = record {
  public = record { schema = text "http"; host = text "a.b"; port = 80; allow_reallocate = false };
  local = record { schema = text "http"; host = text "c"; port = 0 };
  http_host_rewrite = [];
}

abbrev empty : World
empty = record {
  tunnels =
      λ t. record { tunnel_config = web; listener = none; name = []; ctl = 0; is_closed = true };
  fresh = 0;
  tunnel_map = λ a. none;
  sub_domain_idx = 0;
  listener_closed = λ l. false;
}

empty-IsRouted : IsRouted empty
empty-IsRouted = record {
  leads = λ a t e. absurd (ground arith);
  listed = λ t b o. absurd (omega arith);
}

abbrev control : Control
control = record { id = 1; tunnels = λ n. none; write_chan = []; is_done = false }

abbrev one : World
one = (register (text "t") web none control empty).1

-- Every request is for this host.
abbrev read_request : Text → Option Request
read_request s = some (record { host = text "a.b:80"; path = []; scheme = []; authorization = [] })

handle_http_conn-proxied_example :
    handle_http_conn
      (λ u. none)
      read_request
      (record { server_domain = []; http_port = 80; https_port = 443 })
      1
      []
      (chunk (1 ∷ 2 ∷ []) ∷ [])
      one
    ≡ proxied 1 (text "t") (1 ∷ 2 ∷ [])
unfolding register looks new_share_conn tee_read raw_read split
handle_http_conn-proxied_example =
    handle_http_conn-proxied (λ u. none) read_request
      (record { server_domain = []; http_port = 80; https_port = 443 }) one 0 1 []
      (chunk (1 ∷ 2 ∷ []) ∷ []) _ _
      (register-IsRouted (text "t") web none control empty empty-IsRouted refl) (omega arith) refl
      refl refl refl refl refl refl
