-- ===== src/Server/Registry/TakeOver.antt =====
-- What a client that connects again finds of its tunnels, server/serControl.go.
use lunnel.Base.{
  ℕ, ◌<◌, ◌%◌, ◌^◌, Option, none, ◌++◌, ◌≡◌, refl, sym, ap, ◌∙◌, true, Bool-cases, inl, inr, some,
  List, [], ◌∷◌, arith, ◌==◌, All, All-map,
}
use lunnel.Base.Text.{Text, text, decimal, text_eq, eq_of_text_eq, text_eq_refl}
use lunnel.Base.Maps.{Map}
use lunnel.Msg
use lunnel.Server.Pipes.Shut.{is_in}
use lunnel.Server.Tunnels.{
  World, Control, ServerConf, close, close_tunnels, close_old, take_port, same_target, open_tunnel,
  open_stream, listen_again, bound_tunnel, opened, add_tunnel, finish_tunnel, enter,
}
use lunnel.Server.Tunnels.Routing.{IsRouted, Owned, close_tunnels-IsRouted}
use lunnel.Server.Tunnels.Shutdown.{close_tunnels-closed}
use lunnel.Server.Loops.{IsOrder}
use lunnel.Server.Tunnels.Served.{IsOpen, register-IsOpen}
use lunnel.Msg.{public_addr}
use lunnel.Server.Loops.Invariant.{made}
use lunnel.Server.Registry.{Registry, adopt, take_over, enter_control}

-- Closing a tunnel leaves what it is called and how it is configured.
pub SameTunnel : World → World → ℕ → Type 0
SameTunnel w w' t =
    ((w'.tunnels t).name ≡ (w.tunnels t).name)
    × ((w'.tunnels t).tunnel_config ≡ (w.tunnels t).tunnel_config)

close-SameTunnel : (u t : ℕ) (w : World) → SameTunnel w (close u w) t
unfolding close SameTunnel
close-SameTunnel u t w = elim (Bool-cases ((w.tunnels u).is_closed)) [
  | inl shut ↦ rw shut (refl, refl)
  | inr live ↦ elim (Bool-cases (u == t)) [
    | inl here ↦
        let same : u ≡ t = ground (arith, here) in
        rw (live, here)
          (ap (λ q. (w.tunnels q).name) same, ap (λ q. (w.tunnels q).tunnel_config) same)
    | inr away ↦ rw (live, away) (refl, refl)
  ]
]

close_tunnels-SameTunnel : (ts : List ℕ) (t : ℕ) (w : World) → SameTunnel w (close_tunnels ts w) t
unfolding close_tunnels SameTunnel
close_tunnels-SameTunnel [] t w = (refl, refl)
close_tunnels-SameTunnel (u ∷ ts) t w =
    let (n, c) = close_tunnels-SameTunnel ts t (close u w) in
    let (m, d) = close-SameTunnel u t w in (n ∙ m, c ∙ d)

-- A list of tunnels in which a name belongs to one tunnel only.
Only : World → Text → ℕ → List ℕ → Type 0
Only w name t us = All (λ u. (w.tunnels u).name ≡ name → u ≡ t) us

adopt-keeps :
    (w : World) (name : Text) (t : ℕ) (us : List ℕ) (m : Map ℕ)
    → Only w name t us
    → m name ≡ some t
    → adopt w us m name ≡ some t
unfolding adopt Only
adopt-keeps w name t [] m o e = e
adopt-keeps w name t (u ∷ us) m o e =
    adopt-keeps w name t us _ o.1 (elim (Bool-cases (text_eq (w.tunnels u).name name)) [
      | inl here ↦ rw here (ap some (o.0 (eq_of_text_eq _ _ here)))
      | inr away ↦ rw away e
    ])

adopt-finds :
    (w : World) (name : Text) (t : ℕ) (us : List ℕ) (m : Map ℕ)
    → Only w name t us
    → (w.tunnels t).name ≡ name
    → is_in t us ≡ true
    → adopt w us m name ≡ some t
unfolding adopt Only
adopt-finds w name t [] m o n e = absurd (ground (arith, e))
adopt-finds w name t (u ∷ us) m o n e = elim (Bool-cases (u == t)) [
  | inl here ↦
      let same : u ≡ t = ground (arith, here) in
      let named : text_eq (w.tunnels u).name name ≡ true = rw (same, n) (text_eq_refl name) in
      adopt-keeps w name t us _ o.1 (rw named (ap some same))
  | inr away ↦ adopt-finds w name t us _ o.1 n (rw away at e)
]

-- The tunnels of a control are called what it knows them as.
abbrev pub IsNamed : Control → World → Type 0
IsNamed c w = (name : Text) (t : ℕ) → c.tunnels name ≡ some t → (w.tunnels t).name ≡ name

some_inj : (t u : ℕ) → some t ≡ some u → t ≡ u
some_inj t u e = ground (arith, e)

module _ (order : List ℕ) (old : Control) (w : World) (o : IsOrder order old.tunnels)
    (named : IsNamed old w) where
  names_kept : (u : ℕ) → ((close_tunnels order w).tunnels u).name ≡ (w.tunnels u).name
  names_kept u = unfold SameTunnel in (close_tunnels-SameTunnel order u w).0

  order-Only :
      (name : Text) (t : ℕ) → old.tunnels name ≡ some t → Only (close_tunnels order w) name t order
  unfolding Only
  order-Only name t e =
      All-map order
        (λ u h f.
          let same : h.0 ≡ name = sym (named h.0 u h.1) ∙ sym (names_kept u) ∙ f in
          some_inj u t (sym h.1 ∙ ap old.tunnels same ∙ e))
        o.only

  adopted :
      (m : Map ℕ) (name : Text) (t : ℕ)
      → old.tunnels name ≡ some t
      → adopt (close_tunnels order w) order m name ≡ some t
  adopted m name t e =
      adopt-finds (close_tunnels order w) name t order m (order-Only name t e)
        (names_kept t ∙ named name t e) (o.every name t e)

-- What a control has when it has taken over the tunnels of another one.
pub record TookOver (old : Control) (w : World) (c : ℕ) (id : Text) (r : Registry) : Type 0 where
  pub current : r.control_map id ≡ some c
  pub routed : IsRouted r.world
  pub knows :
      (name : Text) (t : ℕ) → old.tunnels name ≡ some t → (r.entries c).ctl.tunnels name ≡ some t
  pub closed :
      (name : Text) (t : ℕ) → old.tunnels name ≡ some t → (r.world.tunnels t).is_closed ≡ true
  pub config : (t : ℕ) → (r.world.tunnels t).tunnel_config ≡ (w.tunnels t).tunnel_config

-- When a client connects again under its identity, the new control is found under it, the map of
-- public addresses stays in order, and the new control knows every tunnel of the old one under its
-- name, closed, with its configuration.
pub enter_control-TookOver :
    (c o : ℕ) (order : List ℕ) (r : Registry)
    → r.control_map ((r.entries c).agreed.client_id) ≡ some o
    → IsRouted r.world
    → Owned (r.entries o).ctl r.world
    → IsOrder order (r.entries o).ctl.tunnels
    → IsNamed (r.entries o).ctl r.world
    → TookOver
        (r.entries o).ctl
        r.world
        c
        ((r.entries c).agreed.client_id)
        (enter_control c order r)
unfolding enter_control take_over SameTunnel
enter_control-TookOver c o order r e v owned ord named =
    let id = (r.entries c).agreed.client_id in
    let here : (c == c) ≡ true = ground arith in
    rw e (record {
      current = rw (text_eq_refl id) refl;
      routed =
          close_tunnels-IsRouted order r.world v
            (made order (r.entries o).ctl r.world ord.only owned);
      knows = λ name t f. rw here (adopted order (r.entries o).ctl r.world ord named _ name t f);
      closed = λ name t f. close_tunnels-closed order t r.world (ord.every name t f);
      config = λ t. (close_tunnels-SameTunnel order t r.world).1;
    })

-- A TCP tunnel whose port is left to the system, with an old one of its name: it listens on the old
-- port, where that can be had.
open_tunnel-again :
    (listen : Text → ℕ → World → Option (ℕ × ℕ)) (conf : ServerConf) (asked config : Msg.Tunnel)
    (w : World) (l port : ℕ)
    → asked.public.schema ≡ text "tcp"
    → asked.public.port ≡ 0
    → same_target asked config ≡ true
    → listen (text "tcp") config.public.port w ≡ some (l, port)
    → (open_tunnel listen conf asked (some config) w).0
      ≡ opened
          (record asked {
            public = record (asked.public) {
              allow_reallocate = true;
              port = port % 2 ^ 16;
              host = conf.server_domain;
            };
          })
          (some l)
unfolding open_tunnel open_stream take_port listen_again bound_tunnel
open_tunnel-again listen conf asked config w l port tcp zero_port target got =
    let zero : (asked.public.port == 0) ≡ true = ground arith in
    let is_tcp : text_eq asked.public.schema (text "tcp") ≡ true = rw tcp refl in
    let got' : listen asked.public.schema config.public.port w ≡ some (l, port) = rw tcp got in
    rw (is_tcp, zero, target, got') refl

-- A TCP tunnel that such a client asks for again, with the port left to the system, comes back at
-- the port that it had, if that can be listened on and the address is free: it is open at the
-- server's domain and this port.
pub TookOver-add_tunnel :
    (listen : Text → ℕ → World → Option (ℕ × ℕ)) (conf : ServerConf) (old : Control) (w : World)
    (c : ℕ) (id name : Text) (r : Registry) (t l : ℕ) (asked : Msg.Tunnel)
    → TookOver old w c id r
    → old.tunnels name ≡ some t
    → asked.public.schema ≡ text "tcp"
    → asked.public.port ≡ 0
    → same_target asked ((w.tunnels t).tunnel_config) ≡ true
    → let port = (w.tunnels t).tunnel_config.public.port in
      port < 2 ^ 16
      → listen (text "tcp") port r.world ≡ some (l, port)
      → r.world.tunnel_map
          (text "tcp" ++ (text "://" ++ (conf.server_domain ++ (text ":" ++ decimal port))))
        ≡ none
      → let x = add_tunnel listen conf name asked (r.entries c).ctl r.world in
        IsOpen name x × (x.2.public.host ≡ conf.server_domain) × (x.2.public.port ≡ port)
unfolding add_tunnel close_old close finish_tunnel enter public_addr
TookOver-add_tunnel listen conf old w c id name r t l asked k e tcp zero_port target small got
      free =
    let port = (w.tunnels t).tunnel_config.public.port in
    let again =
      open_tunnel-again listen conf asked ((w.tunnels t).tunnel_config) r.world l port tcp zero_port
        target got in
    let fits : port % 2 ^ 16 ≡ port = omega (arith, small) in
    rw (k.knows name t e, k.closed name t e, k.config t, again, tcp, fits, free)
      (register-IsOpen name _ _ _ _, refl, refl)
