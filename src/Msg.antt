-- ===== src/Msg.antt =====
-- Package msg: the messages of the control connection and their framing, msg/msg.go.
pub mod Conn
pub mod Write
pub mod Read
pub mod Framing
pub mod RoundTrip
pub mod Typed
mod Examples
use lunnel.Base.{ℕ, Bool, Option, none, some, List, [], ◌∷◌, ◌++◌, ◌==◌, if◌then◌else◌}
use lunnel.Base.Text.{Text, text, decimal}

-- `MsgType`, a uint8.
abbrev pub type_client_hello : ℕ
type_client_hello = 0

abbrev pub type_server_hello : ℕ
type_server_hello = 1

abbrev pub type_control_client_hello : ℕ
type_control_client_hello = 2

abbrev pub type_control_server_hello : ℕ
type_control_server_hello = 3

abbrev pub type_pipe_client_hello : ℕ
type_pipe_client_hello = 4

abbrev pub type_add_tunnels : ℕ
type_add_tunnels = 5

abbrev pub type_pipe_req : ℕ
type_pipe_req = 6

abbrev pub type_ping : ℕ
type_ping = 7

abbrev pub type_pong : ℕ
type_pong = 8

abbrev pub type_error : ℕ
type_error = 9

abbrev pub type_exit : ℕ
type_exit = 10

-- `uuid.UUID`: 16 bytes.
abbrev pub Uuid : Type 0
Uuid = List ℕ

pub record ClientHello : Type 0 where
  pub encrypt_mode : Text
  pub enable_compress : Bool
  pub version : Text

pub record ControlClientHello : Type 0 where
  pub cipher_key : List ℕ
  pub auth_token : Text
  pub client_id : Option Uuid

pub record ControlServerHello : Type 0 where
  pub client_id : Uuid
  pub cipher_key : List ℕ

pub record PipeClientHello : Type 0 where
  pub once : Uuid
  pub client_id : Uuid

pub record Public : Type 0 where
  pub schema : Text
  pub host : Text
  pub port : ℕ
  pub allow_reallocate : Bool

pub record Local : Type 0 where
  pub schema : Text
  pub host : Text
  pub port : ℕ

pub record Tunnel : Type 0 where
  pub public : Public
  pub local : Local
  pub http_host_rewrite : Text

-- fmt.Sprintf("%s://%s:%d", ...)
unfoldable pub public_addr : Tunnel → Text
public_addr tc =
    tc.public.schema ++ (text "://" ++ (tc.public.host ++ (text ":" ++ decimal tc.public.port)))

unfoldable pub local_addr : Tunnel → Text
local_addr tc =
    if tc.local.port == 0
    then tc.local.schema ++ (text "://" ++ tc.local.host)
    else tc.local.schema ++ (text "://" ++ (tc.local.host ++ (text ":" ++ decimal tc.local.port)))

-- `AddTunnels` holds a map from names to tunnels; here, its entries in the order of one traversal.
abbrev pub AddTunnels : Type 0
AddTunnels = List (Text × Tunnel)

-- The values that travel in a message.
pub data Body : Type 0 where
  error : Text → Body
  client_hello : ClientHello → Body
  control_client_hello : ControlClientHello → Body
  control_server_hello : ControlServerHello → Body
  pipe_client_hello : PipeClientHello → Body
  add_tunnels : AddTunnels → Body
