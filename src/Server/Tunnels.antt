-- ===== src/Server/Tunnels.antt =====
-- `ServerAddTunnels`, `Tunnel.Close` and `closeTunnels` of server/serControl.go: the tunnels of the
-- controls and the map of all public addresses, as explicit state.
pub mod Routing
pub mod Isolation
pub mod Served
pub mod Queue
pub mod Shutdown
mod Examples
use lunnel.Base.{
  ℕ, ◌+◌, ◌%◌, ◌^◌, Bool, true, false, ◌&&◌, ◌||◌, Option, none, some, List, [], ◌∷◌, ◌++◌, ltb,
  ◌==◌, if◌then◌else◌, length,
}
use lunnel.Base.Text.{Text, text, text_eq}
use lunnel.Base.Maps.{Map, store, delete}
use lunnel.Msg.{Public, public_addr, local_addr}
use lunnel.Msg
use lunnel.Util.{int_to_short}

-- A `*Tunnel` is an index into the store. `ctl` is the control that made it.
pub record Tunnel : Type 0 where
  pub tunnel_config : Msg.Tunnel
  pub listener : Option ℕ
  pub name : Text
  pub ctl : ℕ
  pub is_closed : Bool

-- What is sent to the client through `writeChan`.
pub data WriteReq : Type 0 where
  refused : Text → WriteReq
  added : Msg.AddTunnels → WriteReq
  pipe_req ping pong : WriteReq

-- All tunnels that there have been, `TunnelMap`, `subDomainIdx`, and which listeners are closed.
pub record World : Type 0 where
  pub tunnels : ℕ → Tunnel
  pub fresh : ℕ
  pub tunnel_map : Map ℕ
  pub sub_domain_idx : ℕ
  pub listener_closed : ℕ → Bool

-- `Control`, as far as its tunnels go.
pub record Control : Type 0 where
  pub id : ℕ
  pub tunnels : Map ℕ
  pub write_chan : List WriteReq
  pub is_done : Bool

abbrev pub close_listener : Option ℕ → (ℕ → Bool) → ℕ → Bool
close_listener none closed = closed
close_listener (some l) closed = λ q. if l == q then true else closed q

-- `t.Close()`. The notification of another server has no effect here.
unfoldable pub close : ℕ → World → World
close t w =
    let tun = w.tunnels t in
    if tun.is_closed then w else record w {
      tunnels =
          λ q. if t == q then record tun { is_closed = true; listener = none } else w.tunnels q;
      tunnel_map = delete (public_addr tun.tunnel_config) w.tunnel_map;
      listener_closed = close_listener tun.listener w.listener_closed;
    }

-- A send on `writeChan`, which holds 64 requests; when it is full, the control is closed.
unfoldable pub send : WriteReq → Control → Control × Bool
send r c =
    if ltb (length c.write_chan) 64
    then (record c { write_chan = c.write_chan ++ r ∷ [] }, true)
    else (record c { is_done = true }, false)

pub record ServerConf : Type 0 where
  pub server_domain : Text
  pub http_port : ℕ
  pub https_port : ℕ

abbrev pub refusal : Text → WriteReq
refusal addr =
    refused (text "add tunnels failed!forbidden,remote addrs(" ++ (addr ++ text ") already in use"))

-- What is done with a tunnel: refused before or at the registration, or registered.
pub data Outcome : Type 0 where
  opened : Msg.Tunnel → Option ℕ → Outcome
  not_opened : Msg.Tunnel → Outcome

-- Whether the old tunnel of the name has the new one's schema and local address.
abbrev pub same_target : Msg.Tunnel → Msg.Tunnel → Bool
same_target t old =
    text_eq t.public.schema old.public.schema && text_eq (local_addr t) (local_addr old)

-- A port of the system's choice takes over the old tunnel's port.
unfoldable pub take_port : Msg.Tunnel → Option Msg.Tunnel → Msg.Tunnel
take_port t none = t
take_port t (some old) =
    if t.public.port == 0 && same_target t old
    then record t { public = record (t.public) { allow_reallocate = true; port = old.public.port } }
    else t

-- The old tunnel of a name is closed and leaves the control's map.
unfoldable pub close_old : Text → Option ℕ → Control → World → Control × World
close_old name none c w = (c, w)
close_old name (some t) c w = (record c { tunnels = delete name c.tunnels }, close t w)

abbrev pub old_config : Option ℕ → World → Option Msg.Tunnel
old_config none w = none
old_config (some t) w = some ((w.tunnels t).tunnel_config)

unfoldable pub register : Text → Msg.Tunnel → Option ℕ → Control → World → Control × World
register name t lis c w = (
  record c { tunnels = store name w.fresh c.tunnels },
  record w {
    tunnels = λ q.
        if w.fresh == q
        then record {
          tunnel_config = t;
          listener = lis;
          name = name;
          ctl = c.id;
          is_closed = false;
        }
        else w.tunnels q;
    fresh = w.fresh + 1;
    tunnel_map = store (public_addr t) w.fresh w.tunnel_map;
  },
)

-- A refusal is sent; the flag says whether the loop goes on.
abbrev pub refuse : Msg.Tunnel → Msg.Tunnel → Control → World → Control × World × Msg.Tunnel × Bool
refuse asked t c w = let (c', goes_on) = send (refusal (public_addr t)) c in (c', w, asked, goes_on)

unfoldable pub enter :
    Text
    → Msg.Tunnel
    → Msg.Tunnel
    → Option ℕ
    → Option ℕ
    → Control
    → World
    → Control × World × Msg.Tunnel × Bool
enter name asked t lis (some other) c w =
    refuse asked t c (record w { listener_closed = close_listener lis w.listener_closed })
enter name asked t lis none c w = let (c', w') = register name t lis c w in (c', w', t, true)

unfoldable pub finish_tunnel :
    Text → Msg.Tunnel → Outcome → Control → World → Control × World × Msg.Tunnel × Bool
finish_tunnel name asked (not_opened t) c w = refuse asked t c w
finish_tunnel name asked (opened t lis) c w =
    enter name asked t lis (w.tunnel_map (public_addr t)) c w

-- `listen schema port`: the listener and its port, if the address can be had.
module _ (listen : Text → ℕ → World → Option (ℕ × ℕ)) (conf : ServerConf) where
  -- The second attempt, at any port. The goroutine that accepts the connections of a listener is left
  -- out.
  unfoldable pub listen_again : Msg.Tunnel → World → Option (ℕ × ℕ) → Option (ℕ × ℕ)
  listen_again t w (some l) = some l
  listen_again t w none = if t.public.allow_reallocate then listen t.public.schema 0 w else none

  unfoldable pub bound_tunnel : Msg.Tunnel → Option (ℕ × ℕ) → Outcome
  bound_tunnel t none = not_opened t
  bound_tunnel t (some (l, port)) =
      opened
        (record t {
          public = record (t.public) { port = port % 2 ^ 16; host = conf.server_domain };
        })
        (some l)

  unfoldable pub open_stream : Msg.Tunnel → Option Msg.Tunnel → World → Outcome
  open_stream t old w =
      let t' = take_port t old in
      bound_tunnel t' (listen_again t' w (listen t'.public.schema t'.public.port w))

  unfoldable pub new_host : World → Msg.Tunnel → Msg.Tunnel
  new_host w t =
      let sub_domain = int_to_short ((w.sub_domain_idx + 1) % 2 ^ 64) in
      record t {
        public = record (t.public) { host = sub_domain ++ (text "." ++ conf.server_domain) };
      }

  -- The host of a tunnel that asks for none: the old tunnel's, or a new subdomain, which is counted.
  unfoldable pub take_host : Msg.Tunnel → Option Msg.Tunnel → World → Msg.Tunnel × ℕ
  take_host t none w = (new_host w t, (w.sub_domain_idx + 1) % 2 ^ 64)
  take_host t (some old) w =
      if same_target t old
      then (
        record t { public = record (t.public) { allow_reallocate = true; host = old.public.host } },
        w.sub_domain_idx,
      )
      else (new_host w t, (w.sub_domain_idx + 1) % 2 ^ 64)

  unfoldable pub named_host : Msg.Tunnel → Option Msg.Tunnel → World → Msg.Tunnel × ℕ
  named_host t old w = if text_eq t.public.host [] then take_host t old w else (t, w.sub_domain_idx)

  unfoldable pub web_port : Msg.Tunnel → Msg.Tunnel
  web_port t = record t {
    public = record (t.public) {
      port = if text_eq t.public.schema (text "http") then conf.http_port else conf.https_port;
    };
  }

  -- The part of the loop up to the registration: what becomes of the tunnel, and the counter.
  unfoldable pub open_tunnel : Msg.Tunnel → Option Msg.Tunnel → World → Outcome × ℕ
  open_tunnel t old w =
      let schema = t.public.schema in
      let (t', idx) = named_host t old w in
      if text_eq schema (text "tcp") || text_eq schema (text "udp")
      then (open_stream t old w, w.sub_domain_idx)
      else if text_eq schema (text "http") || text_eq schema (text "https")
      then (opened (web_port t') none, idx)
      else (opened t none, w.sub_domain_idx)

  -- One round of the loop: the state, the entry of `sstm.Tunnels` after it, and whether it goes on.
  unfoldable pub add_tunnel :
      Text → Msg.Tunnel → Control → World → Control × World × Msg.Tunnel × Bool
  add_tunnel name t c w =
      let old = c.tunnels name in
      let (c1, w1) = close_old name old c w in
      let (outcome, idx) = open_tunnel t (old_config old w1) w1 in
      finish_tunnel name t outcome c1 (record w1 { sub_domain_idx = idx })

  -- The loop, with the entries that are through, and the answer with all of them.
  unfoldable pub add_loop : Msg.AddTunnels → Msg.AddTunnels → Control → World → Control × World
  add_loop through [] c w = ((send (added through) c).0, w)
  add_loop through ((name, t) ∷ rest) c w =
      let (c', w', t', goes_on) = add_tunnel name t c w in
      let more = add_loop (through ++ (name, t') ∷ []) rest c' w' in
      if goes_on then more else (c', w')

  unfoldable pub server_add_tunnels : Msg.AddTunnels → Control → World → Control × World
  server_add_tunnels sstm c w = add_loop [] sstm c w

-- `closeTunnels`, with the control's tunnels in the order of one traversal.
unfoldable pub close_tunnels : List ℕ → World → World
close_tunnels [] w = w
close_tunnels (t ∷ ts) w = close_tunnels ts (close t w)
