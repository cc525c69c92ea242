-- ===== src/Server/Tunnels/Examples.antt =====
-- Two controls with a tunnel each.
use lunnel.Base.{ℕ, refl, arith, true, false, Option, none, [], ◌∷◌, replicate, ◌≡◌}
use lunnel.Base.Text.{Text, text, trim_space, trim_fuel, space_size}
use lunnel.Msg.{public_addr}
use lunnel.Msg
use lunnel.Server.Tunnels.{World, Control, ServerConf, register, add_tunnel, server_add_tunnels}
use lunnel.Server.Tunnels.Routing.{IsRouted, register-IsRouted}
use lunnel.Server.Tunnels.Served.{Served, add_tunnel-Served}
use lunnel.Vhost.Handshake.Encoding.{
  Hello, IsHello, server_names, hello_bytes, chosen_host, host_name,
}
use lunnel.Msg.Conn.{chunk}
use lunnel.Server.Https.{proxied, handle_https_conn, handle_https_conn-proxied}
use lunnel.Server.Tunnels.Isolation.{Safe, server_add_tunnels-Safe}

abbrev web : Msg.Tunnel
web = record {
  public = record { schema = text "http"; host = text "a.b"; port = 80; allow_reallocate = false };
  local = record { schema = text "http"; host = text "c"; port = 0 };
  http_host_rewrite = [];
}

-- No tunnel yet, one control, and its first request.
abbrev empty : World
empty = record {
  tunnels =
      λ t. record { tunnel_config = web; listener = none; name = []; ctl = 0; is_closed = true };
  fresh = 0;
  tunnel_map = λ a. none;
  sub_domain_idx = 0;
  listener_closed = λ l. false;
}

empty-IsRouted : IsRouted empty
empty-IsRouted = record {
  leads = λ a t e. absurd (ground arith);
  listed = λ t b o. absurd (omega arith);
}

abbrev control : Control
control = record { id = 1; tunnels = λ n. none; write_chan = []; is_done = false }

abbrev conf : ServerConf
conf = record { server_domain = text "d.e"; http_port = 80; https_port = 443 }

abbrev no_listen : Text → ℕ → World → Option (ℕ × ℕ)
no_listen schema port w = none

server_add_tunnels-Safe_example :
    let (c', w') = server_add_tunnels no_listen conf ((text "t", web) ∷ []) control empty in
    Safe control empty c' w'
server_add_tunnels-Safe_example =
    server_add_tunnels-Safe no_listen conf ((text "t", web) ∷ []) control empty empty-IsRouted
      (λ n t e. absurd (ground arith))

add_tunnel-Served_example :
    Served (text "t") web (add_tunnel no_listen conf (text "t") web control empty)
add_tunnel-Served_example = add_tunnel-Served no_listen conf (text "t") web control empty

abbrev one : World
one = (register (text "t") web none control empty).1

one-IsRouted : IsRouted one
one-IsRouted = register-IsRouted (text "t") web none control empty empty-IsRouted refl

abbrev secure : Msg.Tunnel
secure = record {
  public = record {
    schema = text "https";
    host = text "a.b";
    port = 443;
    allow_reallocate = false;
  };
  local = record { schema = text "http"; host = text "c"; port = 0 };
  http_host_rewrite = [];
}

abbrev two : World
two = (register (text "t") secure none control empty).1

two-IsRouted : IsRouted two
two-IsRouted = register-IsRouted (text "t") secure none control empty empty-IsRouted refl

abbrev hello : Hello
hello = record {
  start = 22 ∷ 3 ∷ 1 ∷ 0 ∷ 80 ∷ 1 ∷ replicate 37 0;
  session_id = [];
  cipher_suites = 19 ∷ 1 ∷ [];
  compression = 0 ∷ [];
  extensions = server_names ((0, text "a.b") ∷ []) ∷ [];
}

hello-IsHello : IsHello hello
hello-IsHello = record {
  start_length = refl;
  handshake_type = refl;
  session_short = omega arith;
  suites_even = refl;
  suites_fit = omega arith;
  compression_fits = omega arith;
  extensions_fit = omega arith;
  types = tt;
}

handle_https_conn-proxied_example :
    handle_https_conn conf true (chunk (hello_bytes hello) ∷ []) two ≡ proxied 1 (text "t")
unfolding register chosen_host host_name trim_space trim_fuel space_size
handle_https_conn-proxied_example =
    handle_https_conn-proxied conf two 0 hello [] two-IsRouted (omega arith) refl refl refl
      hello-IsHello (omega arith) refl
