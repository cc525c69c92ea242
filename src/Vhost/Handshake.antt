-- ===== src/Vhost/Handshake.antt =====
-- `readHandshake` of vhost/vhost.go: the server name in a TLS client hello. An index or a slice
-- bound out of range is a panic, and so is a loop that runs out of its fuel.
pub mod Safety
pub mod Encoding
pub mod Skips
pub mod ServerName
use lunnel.Base.{
  ℕ, zero, suc, ◌+◌, ◌%◌, Bool, true, false, not, ◌||◌, ◌&&◌, Option, none, some, List, [], ◌∷◌,
  ltb, leb, ◌==◌, if◌then◌else◌, length,
}
use lunnel.Base.Text.{Text, trim_space}
use lunnel.Base.Bytes.{big16}
use lunnel.Base.Result.{Result, ok, err, panic, ◌>>=◌, ◌>>◌, fail_if, index, slice_from, slice_to}

-- The messages of the errors, in the order of the source.
pub data HandshakeError : Type 0 where
  read_failed proto_too_short not_client_hello session_id_long short_after_session : HandshakeError
  short_after_cipher_suite cipher_suite_long compression_methods_long : HandshakeError
  no_extension_data extension_too_short extensions_len_differs : HandshakeError
  extensions_data_too_short extension_long renegotiation_info_short : HandshakeError
  remaining_data_short name_list_differs server_name_short name_differs unknown_error :
      HandshakeError

abbrev pub Hs {ℓ} : Type ℓ → Type ℓ
Hs A = Result HandshakeError A

abbrev pub type_client_hello : ℕ
type_client_hello = 1

abbrev pub extension_server_name : ℕ
extension_server_name = 0

abbrev pub extension_renegotiation_info : ℕ
extension_renegotiation_info = 0xff01

-- int(d[i])<<8 | int(d[i+1])
unfoldable pub big16_at : List ℕ → ℕ → Hs ℕ
big16_at d i = do a ← index d i; b ← index d (i + 1); ok (big16 a b)

-- From the record header to the end of the session id.
unfoldable pub skip_session : List ℕ → Hs (List ℕ)
skip_session d = do
  fail_if (ltb (length d) 47) proto_too_short
  kind ← index d 5
  fail_if (not (kind == type_client_hello)) not_client_hello
  session_id_len ← index d 43
  fail_if (ltb 32 session_id_len || ltb (length d) (44 + session_id_len)) session_id_long
  slice_from (44 + session_id_len) d

unfoldable pub skip_cipher_suites : List ℕ → Hs (List ℕ)
skip_cipher_suites d = do
  fail_if (ltb (length d) 2) short_after_session
  cipher_suite_len ← big16_at d 0
  fail_if (cipher_suite_len % 2 == 1 || ltb (length d) (2 + cipher_suite_len))
      short_after_cipher_suite
  slice_from (2 + cipher_suite_len) d

unfoldable pub skip_compression : List ℕ → Hs (List ℕ)
skip_compression d = do
  fail_if (ltb (length d) 1) cipher_suite_long
  compression_methods_len ← index d 0
  fail_if (ltb (length d) (1 + compression_methods_len)) compression_methods_long
  slice_from (1 + compression_methods_len) d

unfoldable pub open_extensions : List ℕ → Hs (List ℕ)
open_extensions d = do
  fail_if (length d == 0) no_extension_data
  fail_if (ltb (length d) 2) extension_too_short
  extensions_length ← big16_at d 0
  rest ← slice_from 2 d
  fail_if (not (extensions_length == length rest)) extensions_len_differs
  ok rest

-- The loop over the entries of a name list: the first one of type 0, if there is one.
unfoldable pub names_loop : ℕ → List ℕ → Hs (Option Text)
names_loop zero d = panic
names_loop (suc fuel) d = if leb (length d) 0 then ok none else do
  fail_if (ltb (length d) 3) server_name_short
  name_type ← index d 0
  name_len ← big16_at d 1
  d ← slice_from 3 d
  fail_if (ltb (length d) name_len) name_differs
  server_name ← slice_to name_len d
  d ← slice_from name_len d
  elim (name_type == 0) [ true ↦ ok (some (trim_space server_name)) | false ↦ names_loop fuel d ]

unfoldable pub server_name : List ℕ → Hs (Option Text)
server_name d = do
  fail_if (ltb (length d) 2) remaining_data_short
  names_len ← big16_at d 0
  d ← slice_from 2 d
  fail_if (not (length d == names_len)) name_list_differs
  names_loop (suc (length d)) d

-- The switch over the type of an extension; `d` is all that follows its header.
unfoldable pub extension_case : ℕ → ℕ → List ℕ → Hs (Option Text)
extension_case extension length' d =
    if extension == extension_renegotiation_info
    then (if length' == 1
        then (do b ← index d 0; fail_if (not (b == 0)) renegotiation_info_short; ok none)
        else err renegotiation_info_short)
    else if extension == extension_server_name
    then (do own ← slice_to length' d; server_name own)
    else ok none

-- The loop over the extensions. Each round takes at least four bytes.
unfoldable pub extensions_loop : ℕ → List ℕ → Hs Text
extensions_loop zero d = panic
extensions_loop (suc fuel) d = if length d == 0 then err unknown_error else do
  fail_if (ltb (length d) 4) extensions_data_too_short
  extension ← big16_at d 0
  length' ← big16_at d 2
  d ← slice_from 4 d
  fail_if (ltb (length d) length') extension_long
  found ← extension_case extension length' d
  rest ← slice_from length' d
  elim found [ some host ↦ ok host | none ↦ extensions_loop fuel rest ]

-- `data` is what one `Read` into a buffer of 1024 bytes has brought; none if it failed.
unfoldable pub read_handshake : Option (List ℕ) → Hs Text
read_handshake none = err read_failed
read_handshake (some d) = do
  d ← skip_session d
  d ← skip_cipher_suites d
  d ← skip_compression d
  d ← open_extensions d
  extensions_loop (suc (length d)) d
