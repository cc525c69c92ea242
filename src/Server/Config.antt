-- ===== src/Server/Config.antt =====
-- `LoadConfig` of server/serConfig.go, and the limits that `Main` of server/server.go parses. The decoders of
-- JSON and YAML and the key derivation are parameters; `log.Fatalln` ends the program, as an error here.
pub mod Complete
use lunnel.Base.{
  ℕ, zero, suc, ◌+◌, ◌-◌, ◌^◌, ◌<◌, ◌≤◌, ◌≡◌, ◌≢◌, refl, Bool, true, false, Bool-cases, inl, inr,
  ◌||◌, Option, none, some, List, [], ◌∷◌, arith, ◌==◌, if◌then◌else◌, length, take,
}
use lunnel.Base.Int.{ℤ, pos, negsuc}
use lunnel.Base.Text.{Text, text, text_eq}
use lunnel.Base.Defaults.{or_text, or_nat, or_int, default_dsn}
use lunnel.Base.Numbers.{NumError, parse_uint, is_empty}
use lunnel.Base.Result.{Result, ok, err, panic, ◌>>=◌, ◌>>◌, fail_if, slice_to}

pub record Tls : Type 0 where
  pub tls_cert : Text
  pub tls_key : Text

pub record Health : Type 0 where
  pub interval : ℤ
  pub time_out : ℤ

pub record Config : Type 0 where
  pub debug : Bool
  pub log_file : Text
  pub listen_port : ℤ
  pub listen_ip : Text
  pub http_port : ℕ
  pub https_port : ℕ
  pub manage_port : ℕ
  pub server_domain : Text
  pub aes_secret_key : Text
  pub tls : Tls
  pub auth_enable : Bool
  pub auth_url : Text
  pub notify_enable : Bool
  pub notify_url : Text
  pub notify_key : Text
  pub dsn : Text
  pub health : Health
  pub max_idle_pipes : Text
  pub max_streams : Text

pub data ConfigError : Type 0 where
  json_decode yaml_decode max_idle_pipes_invalid max_streams_invalid : ConfigError

-- A number that is given as text must be one.
unfoldable pub check_uint : Text → Text → ConfigError → Result ConfigError Text
check_uint d s e =
    if is_empty s then ok d else elim (parse_uint s 64).1 [ none ↦ ok s | some _ ↦ err e ]

-- `derive` is pbkdf2.Key with the salt, the rounds and the length of the source.
module _ (json yaml : Text → Config → Option Config) (derive : Text → List ℕ) where
  unfoldable pub decode : Text → Text → Config → Result ConfigError Config
  decode detail kind c =
      if is_empty detail
      then ok c
      else if text_eq kind (text "json")
      then elim (json detail c) [ none ↦ err json_decode | some c' ↦ ok c' ]
      else elim (yaml detail c) [ none ↦ err yaml_decode | some c' ↦ ok c' ]

  unfoldable pub secret_key : Text → Result ConfigError Text
  secret_key s = if is_empty s then ok s else slice_to 16 (derive s)

  unfoldable pub load_config : Text → Text → Config → Result ConfigError Config
  load_config detail kind start = do
    c ← decode detail kind start
    key ← secret_key c.aes_secret_key
    idle ← check_uint (text "5") c.max_idle_pipes max_idle_pipes_invalid
    streams ← check_uint (text "6") c.max_streams max_streams_invalid
    ok (record c {
      listen_ip = or_text (text "0.0.0.0") c.listen_ip;
      listen_port = or_int 8080 c.listen_port;
      http_port = or_nat 80 c.http_port;
      https_port = or_nat 443 c.https_port;
      manage_port = or_nat 8081 c.manage_port;
      aes_secret_key = key;
      dsn = or_text default_dsn c.dsn;
      health = record {
        interval = or_int 20 c.health.interval;
        time_out = or_int 50 c.health.time_out;
      };
      max_idle_pipes = idle;
      max_streams = streams;
    })

-- The two limits that `Main` sets; it ends the program where a text is no number.
unfoldable pub limits : Config → Result ConfigError (ℕ × ℕ)
limits c =
    let (idle, e) = parse_uint c.max_idle_pipes 64 in
    let (streams, f) = parse_uint c.max_streams 64 in
    elim e [
      | some _ ↦ err max_idle_pipes_invalid
      | none ↦ elim f [ some _ ↦ err max_streams_invalid | none ↦ ok (idle, streams) ]
    ]
