-- ===== src/Vhost/Handshake/Encoding.antt =====
-- The TLS encoding of a client hello (RFC 5246, RFC 6066), written independently of the parser of
-- vhost/vhost.go, and what its extensions say of the host.
use lunnel.Base.{
  ℕ, ◌%◌, ◌<◌, ◌≤◌, ◌≡◌, ◌≢◌, Option, none, some, List, [], ◌∷◌, ◌++◌, ◌==◌, if◌then◌else◌, length,
  get_or,
}
use lunnel.Base.Text.{Text, text_eq, trim_space}
use lunnel.Base.Bytes.{uint8, ◌>>>◌}
use lunnel.Base.Result.{ok, err}
use lunnel.Vhost.Handshake.{
  Hs, unknown_error, renegotiation_info_short, extension_renegotiation_info,
}

-- Bytes behind their number in two bytes.
abbrev pub vec16 : List ℕ → List ℕ
vec16 xs = uint8 (length xs >>> 8) ∷ uint8 (length xs) ∷ xs

-- An extension: a list of names with their types, or a type and raw bytes.
pub data Extension : Type 0 where
  server_names : List (ℕ × Text) → Extension
  other : ℕ → List ℕ → Extension

abbrev pub name_bytes : List (ℕ × Text) → List ℕ
name_bytes [] = []
name_bytes ((t, name) ∷ ns) = t ∷ (vec16 name ++ name_bytes ns)

abbrev pub extension_type : Extension → ℕ
extension_type (server_names ns) = 0
extension_type (other t b) = t

abbrev pub extension_body : Extension → List ℕ
extension_body (server_names ns) = vec16 (name_bytes ns)
extension_body (other t b) = b

abbrev pub extension_bytes : List Extension → List ℕ
extension_bytes [] = []
extension_bytes (e ∷ es) =
    uint8 (extension_type e >>> 8)
    ∷ uint8 (extension_type e)
    ∷ (vec16 (extension_body e) ++ extension_bytes es)

-- `start` is all that stands before the length of the session id: 43 bytes.
pub record Hello : Type 0 where
  pub start : List ℕ
  pub session_id : List ℕ
  pub cipher_suites : List ℕ
  pub compression : List ℕ
  pub extensions : List Extension

abbrev pub hello_bytes : Hello → List ℕ
hello_bytes h =
    h.start
    ++ (length h.session_id
        ∷ (h.session_id
            ++ (vec16 h.cipher_suites
                ++ (length h.compression
                    ∷ (h.compression ++ vec16 (extension_bytes h.extensions))))))

-- The raw extensions are of types of two bytes other than that of the server names.
abbrev pub HaveTypes : List Extension → Type 0
HaveTypes [] = Unit {0}
HaveTypes (server_names ns ∷ es) = HaveTypes es
HaveTypes (other t b ∷ es) = (t < 65536) × (t ≢ 0) × HaveTypes es

pub record IsHello (h : Hello) : Type 0 where
  pub start_length : length h.start ≡ 43
  pub handshake_type : get_or h.start 5 0 ≡ 1
  pub session_short : length h.session_id ≤ 32
  pub suites_even : length h.cipher_suites % 2 ≡ 0
  pub suites_fit : length h.cipher_suites < 65536
  pub compression_fits : length h.compression < 256
  pub extensions_fit : length (extension_bytes h.extensions) < 65536
  pub types : HaveTypes h.extensions

-- The first name of type 0, without white space round it.
unfoldable pub host_name : List (ℕ × Text) → Option Text
host_name [] = none
host_name ((t, name) ∷ ns) = if t == 0 then some (trim_space name) else host_name ns

-- The first host name of the extensions. A renegotiation info that is not one zero byte is an error
-- where no host name stands before it.
unfoldable pub chosen_host : List Extension → Hs Text
chosen_host [] = err unknown_error
chosen_host (server_names ns ∷ es) = elim (host_name ns) [
  | some host ↦ ok host
  | none ↦ chosen_host es
]
chosen_host (other t b ∷ es) =
    if t == extension_renegotiation_info
    then (if text_eq b (0 ∷ []) then chosen_host es else err renegotiation_info_short)
    else chosen_host es
