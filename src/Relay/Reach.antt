-- ===== src/Relay/Reach.antt =====
-- From the public host of a tunnel to the local address: `proxyConn` of server/serControl.go opens
-- a stream by the name under which `ServerAddTunnels` has entered the tunnel, and `createPipe` of
-- client/clientControl.go finds it by that name.
use lunnel.Base.{ℕ, ◌≡◌, refl, ap, ◌∙◌, subst, Bool, true, Option, none, some, [], ◌∷◌, arith, ◌==◌}
use lunnel.Base.Text.{Text, text_eq_refl}
use lunnel.Base.Maps.{Map}
use lunnel.Msg
use lunnel.Msg.{public_addr}
use lunnel.Server.Tunnels.{
  World, Control, ServerConf, Outcome, opened, not_opened, close_old, register, enter, refusal,
  finish_tunnel, add_tunnel,
}
use lunnel.Server.Tunnels.Isolation.{send-tunnels}
use lunnel.Server.Tunnels.Served.{IsOpen, close_old-gone}
use lunnel.Base.{List, length, ◌≤◌, false}
use lunnel.Base.Text.{text, text_eq}
use lunnel.Base.Result.{ok}
use lunnel.Msg.Conn.{Event, chunk}
use lunnel.Vhost.Handshake.Encoding.{Hello, IsHello, hello_bytes, chosen_host}
use lunnel.Server.Tunnels.{open_tunnel, named_host, web_port}
use lunnel.Relay.Same.{named_host-Same}
use lunnel.Relay.Local.{IsLocal, IsLocal-dial_target}
use lunnel.Server.Https.{proxied, handle_https_conn, handle_https_conn-found}
use lunnel.Client.Tunnels.{Target, sync_tunnels, sync_tunnel}
use lunnel.Relay.{served_by, connected, proxy_conn, serve_stream}
use lunnel.Relay.Answer.{add_tunnel-RoundAnswers, Same-agrees}

-- The tunnel to which a name leads has that name and that control.
abbrev IsNamed : Text → ℕ → Control × World × Msg.Tunnel × Bool → Type 0
IsNamed name ctl r =
    (t : ℕ)
    → r.0.tunnels name ≡ some t
    → ((r.1.tunnels t).name ≡ name) × ((r.1.tunnels t).ctl ≡ ctl)

none_absurd : (t : ℕ) (o : Option ℕ) → o ≡ none → o ≡ some t → ⊥
none_absurd t none e f = ground arith
none_absurd t (some u) e f = ground arith

same_index : (a b : ℕ) → some a ≡ some b → a ≡ b
same_index a b e = ground arith

enter-IsNamed :
    (name : Text) (asked t : Msg.Tunnel) (lis taken : Option ℕ) (c : Control) (w : World)
    → c.tunnels name ≡ none
    → IsNamed name c.id (enter name asked t lis taken c w)
unfolding enter register
enter-IsNamed name asked t lis none c w gone u e =
    let here : w.fresh ≡ u = same_index w.fresh u (rw (text_eq_refl name) at e) in
    let found : (w.fresh == u) ≡ true = ground (arith, here) in rw found (refl, refl)
enter-IsNamed name asked t lis (some other) c w gone u e =
    absurd (none_absurd u _ (ap (λ m. m name) (send-tunnels (refusal (public_addr t)) c) ∙ gone) e)

finish_tunnel-IsNamed :
    (name : Text) (asked : Msg.Tunnel) (o : Outcome) (c : Control) (w : World)
    → c.tunnels name ≡ none
    → IsNamed name c.id (finish_tunnel name asked o c w)
unfolding finish_tunnel
finish_tunnel-IsNamed name asked (not_opened t) c w gone u e =
    absurd (none_absurd u _ (ap (λ m. m name) (send-tunnels (refusal (public_addr t)) c) ∙ gone) e)
finish_tunnel-IsNamed name asked (opened t lis) c w gone u e =
    enter-IsNamed name asked t lis _ c w gone u e

-- A tunnel that is opened has this port.
abbrev OutcomeAt : ℕ → Outcome → Type 0
OutcomeAt port (opened v lis) = v.public.port ≡ port
OutcomeAt port (not_opened v) = Unit {0}

enter-port :
    (name : Text) (asked t : Msg.Tunnel) (lis taken : Option ℕ) (c : Control) (w : World)
    (port u : ℕ)
    → t.public.port ≡ port
    → c.tunnels name ≡ none
    → (enter name asked t lis taken c w).0.tunnels name ≡ some u
    → (enter name asked t lis taken c w).2.public.port ≡ port
unfolding enter register
enter-port name asked t lis none c w port u same gone e = same
enter-port name asked t lis (some other) c w port u same gone e =
    absurd (none_absurd u _ (ap (λ m. m name) (send-tunnels (refusal (public_addr t)) c) ∙ gone) e)

finish_tunnel-port :
    (name : Text) (asked : Msg.Tunnel) (o : Outcome) (c : Control) (w : World) (port u : ℕ)
    → OutcomeAt port o
    → c.tunnels name ≡ none
    → (finish_tunnel name asked o c w).0.tunnels name ≡ some u
    → (finish_tunnel name asked o c w).2.public.port ≡ port
unfolding finish_tunnel
finish_tunnel-port name asked (not_opened t) c w port u same gone e =
    absurd (none_absurd u _ (ap (λ m. m name) (send-tunnels (refusal (public_addr t)) c) ∙ gone) e)
finish_tunnel-port name asked (opened t lis) c w port u same gone e =
    enter-port name asked t lis _ c w port u same gone e

close_old-id :
    (name : Text) (o : Option ℕ) (c : Control) (w : World) → (close_old name o c w).0.id ≡ c.id
unfolding close_old
close_old-id name none c w = refl
close_old-id name (some t) c w = refl

module _ (listen : Text → ℕ → World → Option (ℕ × ℕ)) (conf : ServerConf) where
  add_tunnel-IsNamed :
      (name : Text) (t : Msg.Tunnel) (c : Control) (w : World)
      → IsNamed name c.id (add_tunnel listen conf name t c w)
  unfolding add_tunnel
  add_tunnel-IsNamed name t c w =
      let old = c.tunnels name in
      subst (λ i. IsNamed name i (add_tunnel listen conf name t c w)) (close_old-id name old c w)
        (finish_tunnel-IsNamed name t _ _ _ (close_old-gone name old c w refl))

  -- An HTTPS tunnel that is opened has the server's port.
  open_tunnel-port :
      (t : Msg.Tunnel) (old : Option Msg.Tunnel) (w : World)
      → t.public.schema ≡ text "https"
      → OutcomeAt conf.https_port (open_tunnel listen conf t old w).0
  unfolding open_tunnel web_port
  open_tunnel-port t old w https =
      let a : text_eq t.public.schema (text "tcp") ≡ false = rw https refl in
      let b : text_eq t.public.schema (text "udp") ≡ false = rw https refl in
      let c : text_eq t.public.schema (text "http") ≡ false = rw https refl in
      let d : text_eq t.public.schema (text "https") ≡ true = rw https refl in
      let kept = (named_host-Same listen conf t old w).schema ∙ https in
      let e : text_eq (named_host listen conf t old w).0.public.schema (text "http") ≡ false =
        rw kept refl in
      rw (a, b, c, d, e) refl

  add_tunnel-port :
      (name : Text) (t : Msg.Tunnel) (c : Control) (w : World) (u : ℕ)
      → t.public.schema ≡ text "https"
      → (add_tunnel listen conf name t c w).0.tunnels name ≡ some u
      → (add_tunnel listen conf name t c w).2.public.port ≡ conf.https_port
  unfolding add_tunnel
  add_tunnel-port name t c w u https e =
      finish_tunnel-port name t _ _ _ conf.https_port u (open_tunnel-port t _ _ https)
        (close_old-gone name (c.tunnels name) c w refl) e

-- When `ServerAddTunnels` has opened an HTTPS tunnel that the client has under the same name, a user
-- of its host gets to the local address that the client was configured with: with a certificate,
-- and a client hello of at most 1024 bytes that the first read brings whole, `handleHttpsConn`
-- passes the connection on under the tunnel's control and name; once `proxyConn` has a pipe that
-- opens a stream, the client connects the stream to that address, with TLS if it is HTTPS, before
-- the server's answer comes in as after it, if the address can be dialled.
pub add_tunnel-reaches :
    (listen : Text → ℕ → World → Option (ℕ × ℕ)) (conf : ServerConf) (name : Text) (v : Msg.Tunnel)
    (c : Control) (w : World) (m : Map Msg.Tunnel) (h : Hello) (es : List Event)
    (dial : Target → Bool) (g : Target) (open_stream : ℕ → Text → Bool) (p : ℕ)
    → let r = add_tunnel listen conf name v c w in
      IsOpen name r
      → m name ≡ some v
      → v.public.schema ≡ text "https"
      → IsHello h
      → length (hello_bytes h) ≤ 1024
      → chosen_host h.extensions ≡ ok r.2.public.host
      → IsLocal v g
      → dial g ≡ true
      → open_stream p name ≡ true
      → (handle_https_conn conf true (chunk (hello_bytes h) ∷ es) r.1 ≡ proxied c.id name)
        × (served_by dial m (proxy_conn open_stream (some p) name).stream ≡ some (connected g))
        × (served_by dial
              (sync_tunnels ((name, r.2) ∷ []) m)
              (proxy_conn open_stream (some p) name).stream
            ≡ some (connected g))
unfolding proxy_conn serve_stream sync_tunnels sync_tunnel public_addr
add_tunnel-reaches listen conf name v c w m h es dial g open_stream p o has https good short host
      local answers streams =
    let r = add_tunnel listen conf name v c w in
    let (named, owner) = add_tunnel-IsNamed listen conf name v c w o.tunnel o.mine in
    let same = (add_tunnel-RoundAnswers listen conf [] name v c w).0 in
    let secure : r.2.public.schema ≡ text "https" = same.schema ∙ https in
    let port = add_tunnel-port listen conf name v c w o.tunnel https o.mine in
    let target = IsLocal-dial_target v g local in
    let routed =
      handle_https_conn-found conf r.1 o.tunnel h es r.2.public.host good short host
        (rw (secure, port) at o.routed) in
    (
      rw (named, owner) at routed,
      rw (streams, has, target, answers) refl,
      rw (streams, has, Same-agrees v r.2 same, has, target, answers) refl,
    )
