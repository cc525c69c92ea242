-- ===== src/Server/Registry/Examples.antt =====
-- A client with one tunnel that connects again.
use lunnel.Base.{
  ℕ, ◌≡◌, refl, sym, ap, ◌∙◌, Bool-cases, inl, inr, arith, true, false, none, some, [], ◌∷◌, ◌==◌,
  if◌then◌else◌,
}
use lunnel.Base.Text.{text, text_eq, eq_of_text_eq, decimal, decimal_fuel}
use lunnel.Base.Result.{ok}
use lunnel.Msg
use lunnel.Msg.{local_addr}
use lunnel.Server.Tunnels.{World, Control, ServerConf, register, close, close_tunnels, add_tunnel}
use lunnel.Server.Tunnels.Served.{IsOpen}
use lunnel.Msg.{public_addr}
use lunnel.Base.{Option}
use lunnel.Base.Text.{Text}
use lunnel.Server.Tunnels.Routing.{IsRouted, Owned, register-IsRouted}
use lunnel.Server.Loops.{IsOrder}
use lunnel.Base.{List}
use lunnel.Base.Bytes.{big24}
use lunnel.Msg.{Body, PipeClientHello, pipe_client_hello}
use lunnel.Msg.Conn.{Conn, Event, chunk}
use lunnel.Msg.Write.{write_msg, encode, frame, send}
use lunnel.Msg.Read.{
  read_msg_timed, read_msg, read_kind, read_body, read_in_size, read_loop, kind_of,
}
use lunnel.Handshake.{Agreed}
use lunnel.Hello.{ServerModes, handle_conn, dispatch, take_pipe}
use lunnel.Server.Registry.{
  client_layer, Entry, Registry, enter_control, take_over, client_pipe, pipe_hand_shake,
}
use lunnel.Server.Registry.TakeOver.{TookOver, IsNamed, enter_control-TookOver, TookOver-add_tunnel}
use lunnel.Server.Registry.Pipes.{client_pipe-pipe_hand_shake}

abbrev shell : Msg.Tunnel
shell = record {
  public = record { schema = text "tcp"; host = text "d.e"; port = 4022; allow_reallocate = true };
  local = record { schema = text "tcp"; host = text "c"; port = 22 };
  http_host_rewrite = [];
}

abbrev asked : Msg.Tunnel
asked = record shell {
  public = record { schema = text "tcp"; host = []; port = 0; allow_reallocate = true };
}

abbrev empty : World
empty = record {
  tunnels =
      λ t. record { tunnel_config = shell; listener = none; name = []; ctl = 0; is_closed = true };
  fresh = 0;
  tunnel_map = λ a. none;
  sub_domain_idx = 0;
  listener_closed = λ l. false;
}

empty-IsRouted : IsRouted empty
empty-IsRouted = record {
  leads = λ a t e. absurd (ground arith);
  listed = λ t b o. absurd (omega arith);
}

abbrev bare : ℕ → Control
bare c = record { id = c; tunnels = λ n. none; write_chan = []; is_done = false }

abbrev old : Control
old = (register (text "t") shell (some 3) (bare 0) empty).0

abbrev world : World
world = (register (text "t") shell (some 3) (bare 0) empty).1

old-Owned : Owned old world
unfolding register
old-Owned name t e = ground arith

old-IsOrder : IsOrder (0 ∷ []) old.tunnels
unfolding register
old-IsOrder = record { every = λ name t e. ground arith; only = ((text "t", refl), tt) }

old-IsNamed : IsNamed old world
unfolding register
old-IsNamed name t e = elim (Bool-cases (text_eq (text "t") name)) [
  | inl here ↦
      let e' = rw here at e in
      let first : 0 ≡ t = ground (arith, e') in
      ap (λ q. (world.tunnels q).name) (sym first) ∙ eq_of_text_eq (text "t") name here
  | inr away ↦ absurd (ground (arith, rw away at e))
]

abbrev entry : Control → Entry
entry c = record {
  ctl = c;
  encrypt_mode = text "none";
  enable_compress = true;
  agreed = record { client_id = 5 ∷ []; pre_master_secret = [] };
}

abbrev registry : Registry
registry = record {
  entries = λ c. if c == 0 then entry old else entry (bare c);
  control_map = λ id. if text_eq (5 ∷ []) id then some 0 else none;
  world = world;
}

again : TookOver old world 1 (5 ∷ []) (enter_control 1 (0 ∷ []) registry)
again =
    enter_control-TookOver 1 0 (0 ∷ []) registry refl
      (register-IsRouted (text "t") shell (some 3) (bare 0) empty empty-IsRouted refl) old-Owned
      old-IsOrder old-IsNamed

enter_control-TookOver_example : TookOver old world 1 (5 ∷ []) (enter_control 1 (0 ∷ []) registry)
unfolding register
enter_control-TookOver_example =
    enter_control-TookOver 1 0 (0 ∷ []) registry refl
      (register-IsRouted (text "t") shell (some 3) (bare 0) empty empty-IsRouted refl) old-Owned
      old-IsOrder old-IsNamed

abbrev conf : ServerConf
conf = record { server_domain = text "d.e"; http_port = 80; https_port = 443 }

abbrev listen : Text → ℕ → World → Option (ℕ × ℕ)
listen schema port w = some (4, port)

TookOver-add_tunnel_example :
    let r = enter_control 1 (0 ∷ []) registry in
    let x = add_tunnel listen conf (text "t") asked (r.entries 1).ctl r.world in
    IsOpen (text "t") x × (x.2.public.host ≡ text "d.e") × (x.2.public.port ≡ 4022)
unfolding register local_addr decimal decimal_fuel public_addr enter_control take_over close_tunnels
    close
TookOver-add_tunnel_example =
    TookOver-add_tunnel listen conf old world 1 (5 ∷ []) (text "t")
      (enter_control 1 (0 ∷ []) registry) 0 4 asked again refl refl refl refl (omega arith) refl
      refl

abbrev agreed : Agreed
agreed = record { client_id = 5 ∷ []; pre_master_secret = [] }

abbrev hello : PipeClientHello
hello = record { once = 9 ∷ []; client_id = 5 ∷ [] }

-- A stand-in for encoding/json that knows this hello only.
abbrev marshal : Body → Option (List ℕ)
marshal b = some (8 ∷ [])

abbrev unmarshal : ℕ → List ℕ → Option Body
unmarshal t bs = some (pipe_client_hello hello)

abbrev conn : List Event → List ℕ → ℕ → Conn
conn incoming sent accepts = record {
  incoming = incoming;
  sent = sent;
  accepts = accepts;
  read_deadline = none;
  write_deadline = none;
}

abbrev modes : ServerModes
modes = record { tls_cert = []; tls_key = []; secret_key = [] }

client_pipe-pipe_hand_shake_example :
    pipe_hand_shake (λ s m. m) (λ k b. b) true hello (enter_control 1 (0 ∷ []) registry)
    ≡ ok (1, record { stream = none; compress = true })
unfolding client_pipe client_layer handle_conn dispatch take_pipe write_msg encode frame send
    read_msg_timed read_msg read_kind read_body read_in_size read_loop kind_of big24
client_pipe-pipe_hand_shake_example =
    client_pipe-pipe_hand_shake (λ s m. m) (λ k b. b) marshal unmarshal 1 (0 ∷ []) registry agreed
      (9 ∷ []) (record { stream = none; compress = true }) modes false true true (conn [] [] 100)
      (conn [] (4 ∷ 0 ∷ 0 ∷ 1 ∷ 8 ∷ []) 95) (conn (chunk (4 ∷ 0 ∷ 0 ∷ 1 ∷ 8 ∷ []) ∷ []) [] 100)
      hello refl (omega arith, refl) refl refl refl
