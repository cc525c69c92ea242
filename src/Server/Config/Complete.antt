-- ===== src/Server/Config/Complete.antt =====
-- What `LoadConfig` of server/serConfig.go guarantees to the rest of the server.
use lunnel.Base.{
  ℕ, ◌≡◌, ◌≢◌, ◌⊎◌, refl, false, Bool-cases, inl, inr, Option, Option-cases, none, List, [], ◌∷◌,
  arith, length, length-take, subst,
}
use lunnel.Base.Int.{pos}
use lunnel.Base.Text.{Text, text}
use lunnel.Base.Defaults.{or_text-some, or_nat-some, or_int-some}
use lunnel.Base.Numbers.{parse_uint, parse_loop, is_empty}
use lunnel.Base.Result.{ok, bind-ok, ok-injective, slice_to-ok}
use lunnel.Server.Config.{
  Config, ConfigError, max_idle_pipes_invalid, max_streams_invalid, check_uint, decode, secret_key,
  load_config, limits,
}

-- Every port, address and interval is set, the key is empty or has 16 bytes, and the limits of the
-- pool are numbers.
pub record IsComplete (c : Config) : Type 0 where
  pub listen_ip : is_empty c.listen_ip ≡ false
  pub listen_port : c.listen_port ≢ pos 0
  pub http_port : c.http_port ≢ 0
  pub https_port : c.https_port ≢ 0
  pub manage_port : c.manage_port ≢ 0
  pub dsn : is_empty c.dsn ≡ false
  pub interval : c.health.interval ≢ pos 0
  pub time_out : c.health.time_out ≢ pos 0
  pub key : (c.aes_secret_key ≡ []) ⊎ (length c.aes_secret_key ≡ 16)
  pub pool : (n : ℕ × ℕ) × (limits c ≡ ok n)

abbrev Parses : Text → Type 0
Parses s = (parse_uint s 64).1 ≡ none

check_uint-Parses : (d s t : Text) (e : ConfigError) → Parses d → check_uint d s e ≡ ok t → Parses t
unfolding check_uint
check_uint-Parses d s t e h f = elim (Bool-cases (is_empty s)) [
  | inl left_out ↦ ground (arith, left_out)
  | inr given ↦ elim (Option-cases ((parse_uint s 64).1)) [
    | inl fine ↦ ground (arith, given, fine)
    | inr (bad, failed) ↦ absurd (ground (arith, given, failed))
  ]
]

limits-ok :
    (c : Config) → Parses c.max_idle_pipes → Parses c.max_streams → (n : ℕ × ℕ) × (limits c ≡ ok n)
unfolding limits
limits-ok c h k =
    (((parse_uint c.max_idle_pipes 64).0, (parse_uint c.max_streams 64).0), rw (h, limits, k) refl)

module _ (json yaml : Text → Config → Option Config) (derive : Text → List ℕ)
    (long : (s : Text) → length (derive s) ≡ 32) where
  secret_key-length :
      (s key : Text) → secret_key json yaml derive s ≡ ok key → (key ≡ []) ⊎ (length key ≡ 16)
  unfolding secret_key
  secret_key-length [] key e = inl (ground (arith, e))
  secret_key-length (b ∷ s) key e =
      let size = long (b ∷ s) in
      let cut = slice_to-ok {E = ConfigError} 16 (derive (b ∷ s)) (omega (arith, size)) in
      inr (ground (arith, cut, e, size, length-take 16 (derive (b ∷ s))))

  -- A configuration that the server's `LoadConfig` accepts is complete, whatever the file says or
  -- leaves out, if the derived keys have 32 bytes: every port, address and interval is set, the
  -- key is empty or has 16 bytes, and `Main` can parse the limits of the pool.
  pub load_config-IsComplete :
      (detail kind : Text) (start c : Config)
      → load_config json yaml derive detail kind start ≡ ok c
      → IsComplete c
  unfolding load_config
  load_config-IsComplete detail kind start c e =
      let (d, read, e1) = bind-ok (decode json yaml derive detail kind start) _ c e in
      let (key, made, e2) = bind-ok (secret_key json yaml derive d.aes_secret_key) _ c e1 in
      let (idle, first, e3) =
        bind-ok (check_uint (text "5") d.max_idle_pipes max_idle_pipes_invalid) _ c e2 in
      let (streams, second, e4) =
        bind-ok (check_uint (text "6") d.max_streams max_streams_invalid) _ c e3 in
      let five : Parses (text "5") = unfold parse_uint parse_loop in refl in
      let six : Parses (text "6") = unfold parse_uint parse_loop in refl in
      subst IsComplete (ok-injective e4) (record {
        listen_ip = or_text-some (text "0.0.0.0") d.listen_ip refl;
        listen_port = or_int-some 8080 d.listen_port (λ f. omega arith);
        http_port = or_nat-some 80 d.http_port (λ f. omega arith);
        https_port = or_nat-some 443 d.https_port (λ f. omega arith);
        manage_port = or_nat-some 8081 d.manage_port (λ f. omega arith);
        dsn = or_text-some _ d.dsn refl;
        interval = or_int-some 20 d.health.interval (λ f. omega arith);
        time_out = or_int-some 50 d.health.time_out (λ f. omega arith);
        key = secret_key-length d.aes_secret_key key made;
        pool =
            limits-ok _ (check_uint-Parses _ d.max_idle_pipes idle _ five first)
              (check_uint-Parses _ d.max_streams streams _ six second);
      })
