-- ===== src/Client/Config.antt =====
-- `LoadConfig` of client/clientConfig.go. The decoders of JSON and YAML, the key derivation, and
-- net.SplitHostPort with net.ParseIP are parameters; `log.Fatalln` ends the program, as an error here.
pub mod Ready
use lunnel.Base.{
  ℕ, ◌≡◌, Bool, true, false, not, ◌&&◌, ◌||◌, Option, none, some, List, [], ◌∷◌, ltb, ◌==◌,
  if◌then◌else◌,
}
use lunnel.Base.Int.{ℤ}
use lunnel.Base.Text.{Text, text, text_eq}
use lunnel.Base.Defaults.{or_text, or_nat, or_int, default_dsn}
use lunnel.Base.Numbers.{is_empty}
use lunnel.Base.Result.{Result, ok, err, panic, ◌>>=◌, ◌>>◌, fail_if, slice_to}
use lunnel.Util.Addr.{Addr, parse_addr}

pub record Tls : Type 0 where
  pub trusted_cert : Text
  pub server_name : Text

pub record TunnelConfig : Type 0 where
  pub schema : Text
  pub host : Text
  pub port : ℕ
  pub local_addr : Text
  pub http_host_rewrite : Text

pub record Health : Type 0 where
  pub interval : ℤ
  pub time_out : ℤ

-- The tunnels are the entries of the map in the order of one traversal.
pub record Config : Type 0 where
  pub debug : Bool
  pub log_file : Text
  pub client_id : Text
  pub server_addr : Text
  pub aes_secret_key : Text
  pub tls : Tls
  pub encrypt_mode : Text
  pub tunnels : List (Text × TunnelConfig)
  pub auth_token : Text
  pub transport : Text
  pub http_proxy : Text
  pub dsn : Text
  pub enable_compress : Bool
  pub durable : Bool
  pub durable_file : Text
  pub health : Health
  pub manage_port : ℕ

pub data ConfigError : Type 0 where
  json_decode yaml_decode no_secret_key invalid_encryption split_host_port ip_format : ConfigError
  invalid_transport : ConfigError
  parse_local_address local_host_empty port_greater : Text → ConfigError

-- The mode that the other settings ask for, where none is given; a certificate or a server name
-- comes before a key.
unfoldable pub choose_mode : Config → Text
choose_mode c =
    if is_empty c.encrypt_mode
    then (if not (is_empty c.tls.trusted_cert) || not (is_empty c.tls.server_name)
        then text "tls"
        else if is_empty c.aes_secret_key
        then text "none"
        else text "aes")
    else c.encrypt_mode

-- The public schema of a tunnel, and the guards on its local address and its port.
unfoldable pub check_tunnel : Text → TunnelConfig → Result ConfigError TunnelConfig
check_tunnel name t =
    let addr = parse_addr t.local_addr in
    elim addr.failed [
      | some _ ↦ err (parse_local_address name)
      | none ↦ (do
        fail_if (is_empty addr.hostname) (local_host_empty name)
        fail_if (ltb 65535 t.port) (port_greater name)
        ok (record t { schema = or_text (or_text (text "tcp") addr.schema) t.schema }))
    ]

unfoldable pub check_tunnels :
    List (Text × TunnelConfig) → Result ConfigError (List (Text × TunnelConfig))
check_tunnels [] = ok []
check_tunnels ((name, t) ∷ ts) =
    check_tunnel name t >>= (λ t'. check_tunnels ts >>= (λ ts'. ok ((name, t') ∷ ts')))

unfoldable pub check_transport : Text → Result ConfigError Text
check_transport t =
    if is_empty t
    then ok (text "mix")
    else if text_eq t (text "kcp") || text_eq t (text "tcp") || text_eq t (text "mix")
    then ok t
    else err invalid_transport

-- `lower` and `upper` are the values of the two proxy variables of the environment.
unfoldable pub choose_proxy : Text → Text → Text → Text
choose_proxy lower upper proxy = or_text (or_text upper lower) proxy

unfoldable pub decode :
    (json yaml : Text → Config → Option Config) → Text → Text → Config → Result ConfigError Config
decode json yaml detail kind c =
    if is_empty detail
    then ok c
    else if text_eq kind (text "json")
    then elim (json detail c) [ none ↦ err json_decode | some c' ↦ ok c' ]
    else elim (yaml detail c) [ none ↦ err yaml_decode | some c' ↦ ok c' ]

unfoldable pub aes_key : (Text → List ℕ) → Text → Result ConfigError Text
aes_key derive key = if is_empty key then err no_secret_key else slice_to 16 (derive key)

-- What `split` returns is the host of an address; `is_ip` tells whether it is an IP address.
module _ (split : Text → Option Text) (is_ip : Text → Bool) where
  unfoldable pub resolve_server_name : Text → Result ConfigError Text
  resolve_server_name addr = elim (split addr) [
    | none ↦ err split_host_port
    | some host ↦ if is_ip host then err ip_format else ok host
  ]

  unfoldable pub tls_name : Text → Text → Result ConfigError Text
  tls_name addr name = if is_empty name then resolve_server_name addr else ok name

  -- The key and the server name by the mode.
  unfoldable pub check_mode :
      (Text → List ℕ) → Text → Text → Config → Result ConfigError (Text × Text)
  check_mode derive mode addr c =
      if text_eq mode (text "aes")
      then (aes_key derive c.aes_secret_key >>= (λ key. ok (key, c.tls.server_name)))
      else if text_eq mode (text "tls")
      then (tls_name addr c.tls.server_name >>= (λ name. ok (c.aes_secret_key, name)))
      else if text_eq mode (text "none")
      then ok (c.aes_secret_key, c.tls.server_name)
      else err invalid_encryption

module _ (json yaml : Text → Config → Option Config) (derive : Text → List ℕ)
    (split : Text → Option Text) (is_ip : Text → Bool) (lower upper : Text) where
  unfoldable pub load_config : Text → Text → Config → Result ConfigError Config
  load_config detail kind start = do
    c ← decode json yaml detail kind start
    keys ←
        check_mode split is_ip derive (choose_mode c)
          (or_text (text "example.com:8080") c.server_addr) c
    transport ← check_transport c.transport
    tunnels ← check_tunnels c.tunnels
    ok (record c {
      server_addr = or_text (text "example.com:8080") c.server_addr;
      encrypt_mode = choose_mode c;
      aes_secret_key = keys.0;
      tls = record (c.tls) { server_name = keys.1 };
      transport = transport;
      http_proxy = choose_proxy lower upper c.http_proxy;
      dsn = or_text default_dsn c.dsn;
      tunnels = tunnels;
      durable_file =
          if c.durable then or_text (text "./lunnel.id") c.durable_file else c.durable_file;
      health = record {
        interval = or_int 20 c.health.interval;
        time_out = or_int 50 c.health.time_out;
      };
      manage_port = or_nat 8082 c.manage_port;
    })
