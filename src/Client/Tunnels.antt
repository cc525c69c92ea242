-- ===== src/Client/Tunnels.antt =====
-- The tunnels of the client: their making in `Main` of client/client.go, `SyncTunnels` and the
-- choice of the local address in `createPipe` of client/clientControl.go.
use lunnel.Base.{
  ℕ, ◌%◌, ◌^◌, ◌≡◌, refl, sym, ◌∙◌, subst, Bool, true, false, ◌&&◌, ◌||◌, Bool-cases, inl, inr,
  Option, none, some, [], ◌∷◌, ◌++◌, arith, ◌==◌, if◌then◌else◌,
}
use lunnel.Base.Text.{Text, text, text_eq, eq_of_text_eq, text_eq_refl, decimal}
use lunnel.Base.Maps.{Map, store}
use lunnel.Base.Numbers.{is_empty}
use lunnel.Msg.{Tunnel, AddTunnels, local_addr}
use lunnel.Client.Config.{TunnelConfig}
use lunnel.Client.Config.Ready.{IsTunnel}
use lunnel.Util.Addr.{parse_addr, parse_addr-port}

-- The tunnel that a configuration asks for.
unfoldable pub make_tunnel : TunnelConfig → Option Tunnel
make_tunnel tc =
    let addr = parse_addr tc.local_addr in
    elim addr.failed [
      | some _ ↦ none
      | none ↦ some (record {
        public = record {
          schema = tc.schema;
          host = tc.host;
          port = tc.port;
          allow_reallocate = is_empty tc.host && tc.port == 0;
        };
        local = record { schema = addr.schema; host = addr.hostname; port = addr.port % 2 ^ 16 };
        http_host_rewrite = tc.http_host_rewrite;
      })
    ]

-- Whether the client keeps its own tunnel: the answer has the same rewrite, local address and
-- public schema.
unfoldable pub agrees : Tunnel → Tunnel → Bool
agrees t v =
    text_eq t.http_host_rewrite v.http_host_rewrite
    && text_eq (local_addr t) (local_addr v)
    && text_eq t.public.schema v.public.schema

unfoldable pub sync_tunnel : Text → Tunnel → Option Tunnel → Map Tunnel → Map Tunnel
sync_tunnel k v none m = store k v m
sync_tunnel k v (some t) m = if agrees t v then m else store k v m

unfoldable pub sync_tunnels : AddTunnels → Map Tunnel → Map Tunnel
sync_tunnels [] m = m
sync_tunnels ((k, v) ∷ ts) m = sync_tunnels ts (sync_tunnel k v (m k) m)

-- What a stream is connected to: the network, the address, and whether with TLS.
pub record Target : Type 0 where
  pub network : Text
  pub address : Text
  pub with_tls : Bool

abbrev pub is_web : Text → Bool
is_web s = text_eq s (text "http") || text_eq s (text "https") || text_eq s (text "tcp")

abbrev pub web_port : Tunnel → ℕ
web_port t =
    if t.local.port == 0
    then (if text_eq t.local.schema (text "https") then 443 else 80)
    else t.local.port

unfoldable pub dial_target : Tunnel → Option Target
dial_target t =
    if is_web t.local.schema
    then some (record {
      network = text "tcp";
      address = t.local.host ++ (text ":" ++ decimal (web_port t));
      with_tls = text_eq t.local.schema (text "https");
    })
    else if text_eq t.local.schema (text "unix")
    then some (record { network = text "unix"; address = t.local.host; with_tls = false })
    else if t.local.port == 0
    then none
    else some (record {
      network = t.local.schema;
      address = t.local.host ++ (text ":" ++ decimal t.local.port);
      with_tls = false;
    })

-- A tunnel of a name that has the same rewrite, local address and public schema as `v`.
abbrev pub Follows : Tunnel → Option Tunnel → Type 0
Follows v none = ⊥
Follows v (some t) =
    (t.http_host_rewrite ≡ v.http_host_rewrite)
    × (local_addr t ≡ local_addr v)
    × (t.public.schema ≡ v.public.schema)

abbrev pub is_named : Text → AddTunnels → Bool
is_named q [] = false
is_named q ((k, v) ∷ ts) = text_eq k q || is_named q ts

-- The names of the entries are distinct, as those of a map are.
abbrev pub AreDistinct : AddTunnels → Type 0
AreDistinct [] = Unit {0}
AreDistinct ((k, v) ∷ ts) = (is_named k ts ≡ false) × AreDistinct ts

and_true : (a b : Bool) → (a && b) ≡ true → (a ≡ true) × (b ≡ true)
and_true true b e = (refl, e)
and_true false b e = absurd (ground (arith, e))

agrees-Follows : (t v : Tunnel) → agrees t v ≡ true → Follows v (some t)
unfolding agrees
agrees-Follows t v e =
    let (ab, c) = and_true _ _ e in
    let (a, b) = and_true _ _ ab in (eq_of_text_eq _ _ a, eq_of_text_eq _ _ b, eq_of_text_eq _ _ c)

sync_tunnel-here :
    (k : Text) (v : Tunnel) (o : Option Tunnel) (m : Map Tunnel)
    → m k ≡ o
    → Follows v (sync_tunnel k v o m k)
unfolding sync_tunnel
sync_tunnel-here k v none m e = rw (text_eq_refl k) (refl, refl, refl)
sync_tunnel-here k v (some t) m e = elim (Bool-cases (agrees t v)) [
  | inl same ↦ rw (same, e) (agrees-Follows t v same)
  | inr other ↦ rw (other, text_eq_refl k) (refl, refl, refl)
]

sync_tunnel-away :
    (k q : Text) (v : Tunnel) (o : Option Tunnel) (m : Map Tunnel)
    → text_eq k q ≡ false
    → sync_tunnel k v o m q ≡ m q
unfolding sync_tunnel
sync_tunnel-away k q v none m h = rw h refl
sync_tunnel-away k q v (some t) m h = ground (arith, h)

or_false : (a b : Bool) → (a || b) ≡ false → (a ≡ false) × (b ≡ false)
or_false true b e = absurd (ground (arith, e))
or_false false b e = (refl, e)

sync_tunnels-away :
    (ts : AddTunnels) (m : Map Tunnel) (q : Text)
    → is_named q ts ≡ false
    → sync_tunnels ts m q ≡ m q
unfolding sync_tunnels
sync_tunnels-away [] m q h = refl
sync_tunnels-away ((k, v) ∷ ts) m q h =
    let (away, rest) = or_false _ _ h in
    sync_tunnels-away ts (sync_tunnel k v (m k) m) q rest ∙ sync_tunnel-away k q v (m k) m away

-- Every entry of a list of tunnels is followed.
abbrev pub AllFollowed : AddTunnels → Map Tunnel → Type 0
AllFollowed [] m = Unit {0}
AllFollowed ((k, v) ∷ ts) m = Follows v (m k) × AllFollowed ts m

sync_tunnels-All :
    (ts : AddTunnels) (m : Map Tunnel) → AreDistinct ts → AllFollowed ts (sync_tunnels ts m)
unfolding sync_tunnels
sync_tunnels-All [] m d = tt
sync_tunnels-All ((k, v) ∷ ts) m d =
    let m' = sync_tunnel k v (m k) m in
    (
      subst (Follows v) (sym (sync_tunnels-away ts m' k d.0)) (sync_tunnel-here k v (m k) m refl),
      sync_tunnels-All ts m' d.1,
    )

-- After `SyncTunnels` on the entries of a map, every name of the answer leads to a tunnel with the
-- rewrite, the local address and the public schema of the answer, and all other names lead to what
-- they led to before.
pub sync_tunnels-AllFollowed :
    (ts : AddTunnels) (m : Map Tunnel)
    → AreDistinct ts
    → AllFollowed ts (sync_tunnels ts m)
      × ((q : Text) → is_named q ts ≡ false → sync_tunnels ts m q ≡ m q)
sync_tunnels-AllFollowed ts m d = (sync_tunnels-All ts m d, sync_tunnels-away ts m)

-- From a tunnel that `LoadConfig` has accepted `Main` makes one, with the local address of the
-- configuration, no digit of its port lost, and a public schema.
pub make_tunnel-some :
    (name : Text) (tc : TunnelConfig)
    → IsTunnel (name, tc)
    → let addr = parse_addr tc.local_addr in
      (t : Tunnel) × (make_tunnel tc ≡ some t)
      × (t.local ≡ record { schema = addr.schema; host = addr.hostname; port = addr.port })
      × (is_empty t.public.schema ≡ false)
unfolding make_tunnel
make_tunnel-some name tc (fine, host, schema, small) =
    let addr = parse_addr tc.local_addr in
    let fits : addr.port % 2 ^ 16 ≡ addr.port = omega (arith, (parse_addr-port tc.local_addr).0) in
    (
      record {
        public = record {
          schema = tc.schema;
          host = tc.host;
          port = tc.port;
          allow_reallocate = is_empty tc.host && tc.port == 0;
        };
        local = record { schema = addr.schema; host = addr.hostname; port = addr.port };
        http_host_rewrite = tc.http_host_rewrite;
      },
      rw (make_tunnel, fine, fits) refl,
      refl,
      schema,
    )
