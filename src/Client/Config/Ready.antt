-- ===== src/Client/Config/Ready.antt =====
-- What `LoadConfig` of client/clientConfig.go guarantees to the rest of the client.
use lunnel.Base.{
  ℕ, ◌≤◌, ◌≡◌, ◌≢◌, ◌⊎◌, refl, sym, ◌∙◌, Bool, true, false, Bool-cases, inl, inr, Option,
  Option-cases, none, some, List, [], ◌∷◌, arith, length, length-take, ltb, subst, All,
}
use lunnel.Base.Int.{pos}
use lunnel.Base.Text.{Text, text, text_eq, eq_of_text_eq}
use lunnel.Base.Defaults.{or_text, or_text-some, or_nat-some, or_int-some}
use lunnel.Base.Numbers.{is_empty}
use lunnel.Base.Result.{Result, ok, bind-ok, ok-injective, slice_to-ok}
use lunnel.Util.Addr.{parse_addr}
use lunnel.Client.Config.{
  Config, TunnelConfig, ConfigError, choose_mode, check_tunnel, check_tunnels, decode,
  resolve_server_name, tls_name, aes_key, check_mode, check_transport, load_config,
}

-- A tunnel that can be asked for: its local address has been parsed and names a host, and it has a
-- public schema.
abbrev pub IsTunnel : Text × TunnelConfig → Type 0
IsTunnel (name, t) =
    ((parse_addr t.local_addr).failed ≡ none)
    × (is_empty ((parse_addr t.local_addr).hostname) ≡ false)
    × (is_empty t.schema ≡ false)
    × (t.port ≤ 65535)

check_tunnel-ok :
    (name : Text) (t t' : TunnelConfig) → check_tunnel name t ≡ ok t' → IsTunnel (name, t')
unfolding check_tunnel
check_tunnel-ok name t t' e =
    let addr = parse_addr t.local_addr in
    elim (Option-cases addr.failed) [
      | inr (bad, failed) ↦ absurd (ground (arith, failed, e))
      | inl fine ↦ elim (Bool-cases (is_empty addr.hostname)) [
        | inl no_host ↦ absurd (ground (arith, fine, no_host, e))
        | inr host ↦ elim (Bool-cases (ltb 65535 t.port)) [
          | inl out ↦ absurd (ground (arith, fine, host, out, e))
          | inr fits ↦
              subst (λ u. IsTunnel (name, u))
                (ok-injective (rw (check_tunnel, fine, host, fits) at e))
                (
                  fine,
                  host,
                  or_text-some _ t.schema (or_text-some (text "tcp") addr.schema refl),
                  ground (arith, fits),
                )
        ]
      ]
    ]

check_tunnels-All :
    (ts us : List (Text × TunnelConfig)) → check_tunnels ts ≡ ok us → All IsTunnel us
unfolding check_tunnels
check_tunnels-All [] us e = subst (All IsTunnel) (ok-injective e) tt
check_tunnels-All ((name, t) ∷ ts) us e =
    let (t', first, e1) = bind-ok (check_tunnel name t) _ us e in
    let (ts', others, e2) = bind-ok (check_tunnels ts) _ us e1 in
    subst (All IsTunnel) (ok-injective e2)
      (check_tunnel-ok name t t' first, check_tunnels-All ts ts' others)

-- One of the three transports.
abbrev pub IsTransport : Text → Type 0
IsTransport t = (t ≡ text "kcp") ⊎ ((t ≡ text "tcp") ⊎ (t ≡ text "mix"))

module _ (split : Text → Option Text) (is_ip : Text → Bool) where
  -- A mode with what it needs: a key of 16 bytes, or a server name, which is given or the host of
  -- the server's address.
  abbrev pub IsMode : Text → Text → Text → Text → Type 0
  IsMode mode addr key name =
      (mode ≡ text "none")
      ⊎ (((mode ≡ text "aes") × (length key ≡ 16))
          ⊎ ((mode ≡ text "tls")
              × ((is_empty name ≡ false) ⊎ ((split addr ≡ some name) × (is_ip name ≡ false)))))

  pub record IsReady (c : Config) : Type 0 where
    pub mode : IsMode c.encrypt_mode c.server_addr c.aes_secret_key c.tls.server_name
    pub transport : IsTransport c.transport
    pub tunnels : All IsTunnel c.tunnels
    pub server_addr : is_empty c.server_addr ≡ false
    pub dsn : is_empty c.dsn ≡ false
    pub id_file : c.durable ≡ true → is_empty c.durable_file ≡ false
    pub interval : c.health.interval ≢ pos 0
    pub time_out : c.health.time_out ≢ pos 0
    pub manage_port : c.manage_port ≢ 0

  tls_name-ok :
      (addr name name' : Text)
      → tls_name split is_ip addr name ≡ ok name'
      → (is_empty name' ≡ false) ⊎ ((split addr ≡ some name') × (is_ip name' ≡ false))
  unfolding tls_name resolve_server_name
  tls_name-ok addr name name' e = elim (Bool-cases (is_empty name)) [
    | inr given ↦ inl (ground (arith, given, e))
    | inl left_out ↦ elim (Option-cases (split addr)) [
      | inl bad ↦ absurd (ground (arith, left_out, bad, e))
      | inr (host, found) ↦ inr (ground (arith, left_out, found, e))
    ]
  ]

  module _ (derive : Text → List ℕ) (long : (s : Text) → length (derive s) ≡ 32) where
    aes_key-ok : (key key' : Text) → aes_key derive key ≡ ok key' → length key' ≡ 16
    unfolding aes_key
    aes_key-ok key key' e =
        let size = long key in
        let cut = slice_to-ok {E = ConfigError} 16 (derive key) (omega (arith, size)) in
        ground (arith, cut, e, size, length-take 16 (derive key))

    check_mode-ok :
        (mode addr : Text) (c : Config) (keys : Text × Text)
        → check_mode split is_ip derive mode addr c ≡ ok keys
        → IsMode mode addr keys.0 keys.1
    unfolding check_mode
    check_mode-ok mode addr c keys e = elim (Bool-cases (text_eq mode (text "aes"))) [
      | inl aes ↦
          let (key, made, pair) =
            bind-ok (aes_key derive c.aes_secret_key) _ keys (rw (check_mode, aes) at e) in
          inr (
            inl (
              eq_of_text_eq mode (text "aes") aes,
              subst (λ k. length k.0 ≡ 16) (ok-injective pair)
                  (aes_key-ok c.aes_secret_key key made),
            ))
      | inr not_aes ↦ elim (Bool-cases (text_eq mode (text "tls"))) [
        | inl tls ↦
            let (name, made, pair) =
              bind-ok (tls_name split is_ip addr c.tls.server_name) _ keys
                (rw (check_mode, not_aes, tls) at e) in
            inr (
              inr (
                eq_of_text_eq mode (text "tls") tls,
                subst
                    (λ k. (is_empty k.1 ≡ false) ⊎ ((split addr ≡ some k.1) × (is_ip k.1 ≡ false)))
                    (ok-injective pair) (tls_name-ok addr c.tls.server_name name made),
              ))
        | inr not_tls ↦ elim (Bool-cases (text_eq mode (text "none"))) [
          | inl plain ↦ inl (eq_of_text_eq mode (text "none") plain)
          | inr other ↦ absurd (ground (arith, not_aes, not_tls, other, e))
        ]
      ]
    ]

check_transport-ok : (t u : Text) → check_transport t ≡ ok u → IsTransport u
unfolding check_transport
check_transport-ok t u e = elim (Bool-cases (is_empty t)) [
  | inl left_out ↦ inr (inr (sym (ok-injective (rw (check_transport, left_out) at e))))
  | inr given ↦
      let k = text_eq t (text "kcp") in
      let c = text_eq t (text "tcp") in
      let x = text_eq t (text "mix") in
      elim (Bool-cases k) [
        | inl kcp ↦ inl (same (text "kcp") kcp (rw (check_transport, given, kcp) at e))
        | inr a ↦ elim (Bool-cases c) [
          | inl tcp ↦ inr (inl (same (text "tcp") tcp (rw (check_transport, given, a, tcp) at e)))
          | inr b ↦ elim (Bool-cases x) [
            | inl mix ↦
                inr (inr (same (text "mix") mix (rw (check_transport, given, a, b, mix) at e)))
            | inr d ↦ absurd (ground (arith, rw (check_transport, given, a, b, d) at e))
          ]
        ]
      ]
]
  where
    same : (s : Text) → text_eq t s ≡ true → ◌≡◌ {A = Result ConfigError Text} (ok t) (ok u) → u ≡ s
    same s h f = sym (ok-injective f) ∙ eq_of_text_eq t s h

-- A configuration that the client's `LoadConfig` accepts is ready for use, whatever the file says
-- or leaves out, if the derived keys have 32 bytes: its mode has what it needs, the transport is
-- one of the three, and every tunnel can be asked for.
pub load_config-IsReady :
    (json yaml : Text → Config → Option Config) (derive : Text → List ℕ)
    (split : Text → Option Text) (is_ip : Text → Bool) (lower upper detail kind : Text)
    (start c : Config)
    → ((s : Text) → length (derive s) ≡ 32)
    → load_config json yaml derive split is_ip lower upper detail kind start ≡ ok c
    → IsReady split is_ip c
unfolding load_config
load_config-IsReady json yaml derive split is_ip lower upper detail kind start c long e =
    let (d, read, e1) = bind-ok (decode json yaml detail kind start) _ c e in
    let addr = or_text (text "example.com:8080") d.server_addr in
    let (keys, made, e2) = bind-ok (check_mode split is_ip derive (choose_mode d) addr d) _ c e1 in
    let (t, chosen, e3) = bind-ok (check_transport d.transport) _ c e2 in
    let (ts, checked, e4) = bind-ok (check_tunnels d.tunnels) _ c e3 in
    subst (IsReady split is_ip) (ok-injective e4) (record {
      mode = check_mode-ok split is_ip derive long (choose_mode d) addr d keys made;
      transport = check_transport-ok d.transport t chosen;
      tunnels = check_tunnels-All d.tunnels ts checked;
      server_addr = or_text-some (text "example.com:8080") d.server_addr refl;
      dsn = or_text-some _ d.dsn refl;
      id_file = λ on. rw on (or_text-some (text "./lunnel.id") d.durable_file refl);
      interval = or_int-some 20 d.health.interval (λ f. omega arith);
      time_out = or_int-some 50 d.health.time_out (λ f. omega arith);
      manage_port = or_nat-some 8082 d.manage_port (λ f. omega arith);
    })
