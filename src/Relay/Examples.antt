-- ===== src/Relay/Examples.antt =====
-- One client with one tunnel, which is opened and used.
use lunnel.Base.{
  ℕ, ◌≡◌, refl, true, false, Bool, Option, none, some, List, [], ◌∷◌, ◌++◌, All, if◌then◌else◌,
}
use lunnel.Base.Text.{Text, text, text_eq, decimal, decimal_fuel}
use lunnel.Base.Maps.{Map}
use lunnel.Msg
use lunnel.Msg.{public_addr}
use lunnel.Server.Tunnels.{
  World, Control, ServerConf, WriteReq, added, close_old, register, enter, finish_tunnel,
  add_tunnel, open_tunnel, named_host, web_port, server_add_tunnels, add_loop, send,
}
use lunnel.Server.Tunnels.Served.{IsOpen}
use lunnel.Base.{arith, inl, replicate}
use lunnel.Base.Text.{trim_space, trim_fuel, space_size}
use lunnel.Msg.Conn.{chunk}
use lunnel.Vhost.Handshake.Encoding.{
  Hello, IsHello, hello_bytes, chosen_host, host_name, server_names,
}
use lunnel.Relay.Local.{plain_default}
use lunnel.Server.Https.{handle_https_conn, proxied}
use lunnel.Client.Tunnels.{Target, sync_tunnels}
use lunnel.Relay.{served_by, connected, proxy_conn}
use lunnel.Relay.Answer.{KeepsTunnels, server_add_tunnels-KeepsTunnels}
use lunnel.Relay.Reach.{add_tunnel-reaches}

abbrev web : Msg.Tunnel
web = record {
  public = record { schema = text "http"; host = text "a.b"; port = 80; allow_reallocate = false };
  local = record { schema = text "http"; host = text "c"; port = 0 };
  http_host_rewrite = [];
}

abbrev empty : World
empty = record {
  tunnels =
      λ t. record { tunnel_config = web; listener = none; name = []; ctl = 0; is_closed = true };
  fresh = 0;
  tunnel_map = λ a. none;
  sub_domain_idx = 0;
  listener_closed = λ l. false;
}

abbrev control : Control
control = record { id = 7; tunnels = λ n. none; write_chan = []; is_done = false }

abbrev conf : ServerConf
conf = record { server_domain = text "d.e"; http_port = 8080; https_port = 443 }

abbrev no_listen : Text → ℕ → World → Option (ℕ × ℕ)
no_listen schema port w = none

-- The client's tunnels.
abbrev mine : Map Msg.Tunnel
mine n = if text_eq (text "t") n then some web else none

-- The server changes the port.
abbrev opened_web : Msg.Tunnel
opened_web = record web { public = record (web.public) { port = 8080 } }

server_add_tunnels-KeepsTunnels_example :
    (more : List WriteReq) × ((server_add_tunnels no_listen conf
        ((text "t", web) ∷ [])
        control
        empty).0.write_chan
      ≡ [] ++ more)
    × All (KeepsTunnels mine) more
server_add_tunnels-KeepsTunnels_example =
    server_add_tunnels-KeepsTunnels no_listen conf ((text "t", web) ∷ []) mine control empty
      (refl, tt)

-- What is queued in this run.
queued :
    (server_add_tunnels no_listen conf ((text "t", web) ∷ []) control empty).0.write_chan
    ≡ added ((text "t", opened_web) ∷ []) ∷ []
unfolding server_add_tunnels add_loop send add_tunnel close_old open_tunnel named_host web_port
    finish_tunnel enter register
queued = refl

abbrev target : Target
target = record { network = text "tcp"; address = text "c:80"; with_tls = false }

abbrev secure_web : Msg.Tunnel
secure_web = record web {
  public = record { schema = text "https"; host = text "a.b"; port = 0; allow_reallocate = false };
}

abbrev round : Control × World × Msg.Tunnel × Bool
round = add_tunnel no_listen conf (text "t") secure_web control empty

round-IsOpen : IsOpen (text "t") round
unfolding add_tunnel close_old open_tunnel named_host web_port finish_tunnel enter register
    public_addr decimal decimal_fuel
round-IsOpen = record {
  tunnel = 0;
  mine = refl;
  routed = refl;
  config = refl;
  live = refl;
  goes_on = refl;
}

-- The client's tunnel.
abbrev mine_secure : Map Msg.Tunnel
mine_secure n = if text_eq (text "t") n then some secure_web else none

abbrev hello : Hello
hello = record {
  start = 22 ∷ 3 ∷ 1 ∷ 0 ∷ 80 ∷ 1 ∷ replicate 37 0;
  session_id = [];
  cipher_suites = 19 ∷ 1 ∷ [];
  compression = 0 ∷ [];
  extensions = server_names ((0, text "a.b") ∷ []) ∷ [];
}

hello-IsHello : IsHello hello
hello-IsHello = record {
  start_length = refl;
  handshake_type = refl;
  session_short = omega arith;
  suites_even = refl;
  suites_fit = omega arith;
  compression_fits = omega arith;
  extensions_fit = omega arith;
  types = tt;
}

add_tunnel-reaches_example :
    (handle_https_conn conf true (chunk (hello_bytes hello) ∷ []) round.1 ≡ proxied 7 (text "t"))
    × (served_by (λ g. true) mine_secure (proxy_conn (λ p n. true) (some 3) (text "t")).stream
        ≡ some (connected target))
    × (served_by
          (λ g. true)
          (sync_tunnels ((text "t", round.2) ∷ []) mine_secure)
          (proxy_conn (λ p n. true) (some 3) (text "t")).stream
        ≡ some (connected target))
unfolding decimal decimal_fuel chosen_host host_name trim_space trim_fuel space_size add_tunnel
    close_old open_tunnel named_host web_port finish_tunnel enter register
add_tunnel-reaches_example =
    add_tunnel-reaches no_listen conf (text "t") secure_web control empty mine_secure hello []
      (λ g. true) target (λ p n. true) 3 round-IsOpen refl refl hello-IsHello (omega arith) refl
      (plain_default (inl refl) refl) refl refl
