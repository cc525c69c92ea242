-- ===== src/Client/Examples.antt =====
-- Runs of package client.
use lunnel.Base.{◌≡◌, refl, false, none, [], ◌∷◌, replicate}
use lunnel.Base.Int.{pos}
use lunnel.Base.Text.{Text, text}
use lunnel.Base.Numbers.{parse_uint, parse_loop}
use lunnel.Base.Result.{slice_to}
use lunnel.Msg.{Tunnel, AddTunnels}
use lunnel.Util.Addr.{parse_addr, parse_host, parse_port, split_first, split_last}
use lunnel.Client.Config.{
  Config, TunnelConfig, choose_mode, check_tunnel, check_tunnels, check_transport, choose_proxy,
  decode, aes_key, check_mode, load_config,
}
use lunnel.Client.Config.Ready.{IsReady, load_config-IsReady}
use lunnel.Client.Switch.{modes}
use lunnel.Client.Tunnels.{sync_tunnels, AllFollowed, is_named, sync_tunnels-AllFollowed}

-- Twice kcp, then tcp.
first_four : modes 0 4 ≡ text "kcp" ∷ text "kcp" ∷ text "tcp" ∷ text "tcp" ∷ []
unfolding modes
first_four = refl

abbrev ssh : TunnelConfig
ssh = record { schema = []; host = []; port = 0; local_addr = text "h:22"; http_host_rewrite = [] }

-- A configuration with one tunnel, and the one that it is filled up to.
abbrev blank : Config
blank = record {
  debug = false;
  log_file = [];
  client_id = [];
  server_addr = text "s:1";
  aes_secret_key = text "k";
  tls = record { trusted_cert = []; server_name = [] };
  encrypt_mode = [];
  tunnels = (text "t", ssh) ∷ [];
  auth_token = [];
  transport = [];
  http_proxy = [];
  dsn = text "d";
  enable_compress = false;
  durable = false;
  durable_file = [];
  health = record { interval = pos 0; time_out = pos 7 };
  manage_port = 0;
}

abbrev filled : Config
filled = record blank {
  aes_secret_key = replicate 16 1;
  encrypt_mode = text "aes";
  tunnels = (text "t", record ssh { schema = text "tcp" }) ∷ [];
  transport = text "mix";
  health = record { interval = pos 20; time_out = pos 7 };
  manage_port = 8082;
}

load_config-IsReady_example : IsReady (λ a. none) (λ h. false) filled
unfolding load_config decode check_mode choose_mode aes_key check_transport check_tunnels
    check_tunnel choose_proxy parse_addr parse_host parse_port parse_uint parse_loop split_first
    split_last slice_to
load_config-IsReady_example =
    load_config-IsReady (λ t c. none) (λ t c. none) (λ s. replicate 32 1) (λ a. none) (λ h. false)
      [] [] [] [] blank filled (λ s. refl) refl

abbrev web : Tunnel
web = record {
  public = record { schema = text "http"; host = text "a"; port = 80; allow_reallocate = false };
  local = record { schema = text "http"; host = text "c"; port = 0 };
  http_host_rewrite = [];
}

abbrev answer : AddTunnels
answer = (text "t", web) ∷ (text "u", web) ∷ []

sync_tunnels-AllFollowed_example :
    AllFollowed answer (sync_tunnels answer (λ n. none))
    × ((q : Text) → is_named q answer ≡ false → sync_tunnels answer (λ n. none) q ≡ none)
sync_tunnels-AllFollowed_example = sync_tunnels-AllFollowed answer (λ n. none) (refl, (refl, tt))
