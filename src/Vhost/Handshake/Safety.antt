-- ===== src/Vhost/Handshake/Safety.antt =====
-- No client hello makes `readHandshake` read out of range or loop for ever.
use lunnel.Base.{
  ℕ, zero, suc, ◌+◌, ◌≤◌, ◌<◌, ◌≡◌, Option, none, some, List, arith, length, drop, take,
  length-drop, get_or,
}
use lunnel.Base.Result.{ok, NoPanic, NoPanic-bind, index-ok, slice_from-ok, slice_to-ok}
use lunnel.Base.Bytes.{big16}
use lunnel.Vhost.Handshake.{
  HandshakeError, big16_at, skip_session, skip_cipher_suites, skip_compression, open_extensions,
  names_loop, server_name, extension_case, extensions_loop, read_handshake,
}

big16_at-ok :
    (d : List ℕ) (i : ℕ)
    → i + 1 < length d
    → big16_at d i ≡ ok (big16 (get_or d i 0) (get_or d (i + 1) 0))
unfolding big16_at
big16_at-ok d i h = rw (index-ok d i (omega arith), index-ok d (i + 1) h)

skip_session-NoPanic : (d : List ℕ) → NoPanic (skip_session d)
unfolding skip_session
skip_session-NoPanic d = ground (
  arith,
  index-ok {E = HandshakeError} d 5,
  index-ok {E = HandshakeError} d 43,
  slice_from-ok {E = HandshakeError} (44 + get_or d 43 0) d,
)

skip_cipher_suites-NoPanic : (d : List ℕ) → NoPanic (skip_cipher_suites d)
unfolding skip_cipher_suites
skip_cipher_suites-NoPanic d = ground (
  arith,
  big16_at-ok d 0,
  slice_from-ok {E = HandshakeError} (2 + big16 (get_or d 0 0) (get_or d 1 0)) d,
)

skip_compression-NoPanic : (d : List ℕ) → NoPanic (skip_compression d)
unfolding skip_compression
skip_compression-NoPanic d = ground (
  arith,
  index-ok {E = HandshakeError} d 0,
  slice_from-ok {E = HandshakeError} (1 + get_or d 0 0) d,
)

open_extensions-NoPanic : (d : List ℕ) → NoPanic (open_extensions d)
unfolding open_extensions
open_extensions-NoPanic d = ground (arith, big16_at-ok d 0, slice_from-ok {E = HandshakeError} 2 d)

names_loop-NoPanic : (fuel : ℕ) (d : List ℕ) → length d < fuel → NoPanic (names_loop fuel d)
unfolding names_loop
names_loop-NoPanic zero d h = absurd (omega arith)
names_loop-NoPanic (suc fuel) d h =
    let n = big16 (get_or d 1 0) (get_or d 2 0) in
    let d3 = drop 3 d in
    ground (
      arith,
      index-ok {E = HandshakeError} d 0,
      big16_at-ok d 1,
      slice_from-ok {E = HandshakeError} 3 d,
      slice_to-ok {E = HandshakeError} n d3,
      slice_from-ok {E = HandshakeError} n d3,
      length-drop 3 d,
      length-drop n d3,
      names_loop-NoPanic fuel (drop n d3),
    )

server_name-NoPanic : (d : List ℕ) → NoPanic (server_name d)
unfolding server_name
server_name-NoPanic d = ground (
  arith,
  big16_at-ok d 0,
  slice_from-ok {E = HandshakeError} 2 d,
  names_loop-NoPanic (suc (length (drop 2 d))) (drop 2 d),
)

extension_case-NoPanic : (e n : ℕ) (d : List ℕ) → n ≤ length d → NoPanic (extension_case e n d)
unfolding extension_case
extension_case-NoPanic e n d h = ground (
  arith,
  index-ok {E = HandshakeError} d 0,
  slice_to-ok {E = HandshakeError} n d,
  server_name-NoPanic (take n d),
)

extensions_loop-NoPanic :
    (fuel : ℕ) (d : List ℕ) → length d < fuel → NoPanic (extensions_loop fuel d)
unfolding extensions_loop
extensions_loop-NoPanic zero d h = absurd (omega arith)
extensions_loop-NoPanic (suc fuel) d h =
    let e = big16 (get_or d 0 0) (get_or d 1 0) in
    let n = big16 (get_or d 2 0) (get_or d 3 0) in
    let d4 = drop 4 d in
    ground (
      arith,
      big16_at-ok d 0,
      big16_at-ok d 2,
      slice_from-ok {E = HandshakeError} 4 d,
      slice_from-ok {E = HandshakeError} n d4,
      extension_case-NoPanic e n d4,
      length-drop 4 d,
      length-drop n d4,
      extensions_loop-NoPanic fuel (drop n d4),
    )

-- Whatever the peer sends, `readHandshake` returns a name or an error: it reads no byte out of
-- range, and its two loops end within the fuel that they are given.
pub read_handshake-NoPanic : (d : Option (List ℕ)) → NoPanic (read_handshake d)
unfolding read_handshake
read_handshake-NoPanic none = tt
read_handshake-NoPanic (some d) = NoPanic-bind (skip_session d) _ (skip_session-NoPanic d) λ d1 _.
    NoPanic-bind (skip_cipher_suites d1) _ (skip_cipher_suites-NoPanic d1) λ d2 _.
      NoPanic-bind (skip_compression d2) _ (skip_compression-NoPanic d2) λ d3 _.
        NoPanic-bind (open_extensions d3) _ (open_extensions-NoPanic d3)
          λ d4 _. extensions_loop-NoPanic (suc (length d4)) d4 (omega arith)
