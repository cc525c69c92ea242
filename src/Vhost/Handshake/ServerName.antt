-- ===== src/Vhost/Handshake/ServerName.antt =====
-- `readHandshake` on well-formed client hellos.
use lunnel.Base.{
  ℕ, zero, suc, ◌≤◌, ◌<◌, ◌≡◌, ◌≢◌, refl, sym, ap, ◌∙◌, Option, none, some, List, [], ◌∷◌, ◌++◌,
  append-nil, arith, length, length-append, ◌==◌, if◌then◌else◌,
}
use lunnel.Base.Text.{Text, text_eq}
use lunnel.Base.Bytes.{uint8, ◌>>>◌}
use lunnel.Base.Result.{ok, err, ◌>>=◌, index, index-ok}
use lunnel.Vhost.Handshake.{
  HandshakeError, Hs, big16_at, names_loop, server_name, extension_case, extensions_loop,
  read_handshake,
}
use lunnel.Vhost.Handshake.Encoding.{
  vec16, Extension, server_names, other, name_bytes, extension_type, extension_body,
  extension_bytes, Hello, hello_bytes, HaveTypes, IsHello, host_name, chosen_host,
}
use lunnel.Vhost.Handshake.Skips.{
  big16_at-second, big16_at-third, big16_at-vec16, big16_at-type, slice_from-length,
  slice_to-length, skip_session-encode, skip_cipher_suites-encode, skip_compression-encode,
  open_extensions-encode,
}

-- The loop over the names finds the first host name.
names_loop-encode :
    (fuel : ℕ) (ns : List (ℕ × Text))
    → length (name_bytes ns) < fuel
    → length (name_bytes ns) < 65536
    → names_loop fuel (name_bytes ns) ≡ ok (host_name ns)
unfolding names_loop host_name
names_loop-encode zero ns h k = absurd (omega arith)
names_loop-encode (suc fuel) [] h k = refl
names_loop-encode (suc fuel) ((t, name) ∷ ns) h k =
    let rest = name_bytes ns in
    let size = length-append name rest in
    ground (
      arith,
      size,
      index-ok {E = HandshakeError} (name_bytes ((t, name) ∷ ns)) 0,
      big16_at-second name rest (omega (arith, size)) t,
      slice_from-length 3 (t ∷ uint8 (length name >>> 8) ∷ uint8 (length name) ∷ []) (name ++ rest)
          refl,
      slice_to-length (length name) name rest refl,
      slice_from-length (length name) name rest refl,
      names_loop-encode fuel ns (omega (arith, size)) (omega (arith, size)),
    )

server_name-encode :
    (ns : List (ℕ × Text))
    → length (name_bytes ns) < 65536
    → server_name (vec16 (name_bytes ns)) ≡ ok (host_name ns)
unfolding server_name
server_name-encode ns fits =
    let body = name_bytes ns in
    ground (
      arith,
      ap (λ t. big16_at t 0) (sym (append-nil (vec16 body))) ∙ big16_at-vec16 body [] fits,
      slice_from-length 2 (uint8 (length body >>> 8) ∷ uint8 (length body) ∷ []) body refl,
      names_loop-encode (suc (length body)) ns (omega arith) fits,
    )

-- What the switch makes of an extension, by the specification.
abbrev case_of : Extension → Hs (Option Text)
case_of (server_names ns) = ok (host_name ns)
case_of (other t b) =
    if t == 0xff01
    then (if text_eq b (0 ∷ []) then ok none else err HandshakeError.renegotiation_info_short)
    else ok none

abbrev HasType : Extension → Type 0
HasType (server_names ns) = Unit {0}
HasType (other t b) = (t < 65536) × (t ≢ 0)

extension_case-raw :
    (t : ℕ) (b rest : List ℕ)
    → t ≢ 0
    → extension_case t (length b) (b ++ rest) ≡ case_of (other t b)
unfolding extension_case index
extension_case-raw t [] rest h = ground arith
extension_case-raw t (x ∷ []) rest h = ground arith
extension_case-raw t (x ∷ y ∷ b) rest h = ground arith

extension_case-encode :
    (e : Extension) (rest : List ℕ)
    → HasType e
    → length (extension_body e) < 65536
    → extension_case (extension_type e) (length (extension_body e)) (extension_body e ++ rest)
      ≡ case_of e
extension_case-encode (other t b) rest h fits = extension_case-raw t b rest h.1
extension_case-encode (server_names ns) rest h fits =
    unfold extension_case in
    ground (
      arith,
      slice_to-length (length (vec16 (name_bytes ns))) (vec16 (name_bytes ns)) rest refl,
      server_name-encode ns (omega arith),
    )

abbrev ext_head : ℕ → List ℕ → List ℕ
ext_head t b = uint8 (t >>> 8) ∷ uint8 t ∷ uint8 (length b >>> 8) ∷ uint8 (length b) ∷ []

-- One round of the loop over the extensions.
extensions_loop-round :
    (fuel t : ℕ) (b rest : List ℕ) (r : Hs (Option Text))
    → t < 65536
    → length b < 65536
    → extension_case t (length b) (b ++ rest) ≡ r
    → extensions_loop (suc fuel) (ext_head t b ++ (b ++ rest))
      ≡ (r >>= λ found. elim found [ some host ↦ ok host | none ↦ extensions_loop fuel rest ])
unfolding extensions_loop
extensions_loop-round fuel t b rest r h fits e = ground (
  arith,
  big16_at-type t (vec16 b ++ rest) h,
  big16_at-third b rest fits (uint8 (t >>> 8)) (uint8 t),
  slice_from-length 4 (ext_head t b) (b ++ rest) refl,
  slice_from-length (length b) b rest refl,
  length-append b rest,
  e,
)

extensions_loop-encode :
    (fuel : ℕ) (es : List Extension)
    → length (extension_bytes es) < fuel
    → length (extension_bytes es) < 65536
    → HaveTypes es
    → extensions_loop fuel (extension_bytes es) ≡ chosen_host es
unfolding chosen_host
extensions_loop-encode zero es h k types = absurd (omega arith)
extensions_loop-encode (suc fuel) [] h k types = unfold extensions_loop in refl
extensions_loop-encode (suc fuel) (server_names ns ∷ es) h k types =
    let b = vec16 (name_bytes ns) in
    let size = length-append b (extension_bytes es) in
    let ih = extensions_loop-encode fuel es (omega (arith, size)) (omega (arith, size)) types in
    extensions_loop-round fuel 0 b (extension_bytes es) (ok (host_name ns)) (omega arith)
      (omega (arith, size))
      (extension_case-encode (server_names ns) (extension_bytes es) tt (omega (arith, size)))
    ∙ ground (arith, ih)
extensions_loop-encode (suc fuel) (other t b ∷ es) h k types =
    let size = length-append b (extension_bytes es) in
    let ih = extensions_loop-encode fuel es (omega (arith, size)) (omega (arith, size)) types.2 in
    extensions_loop-round fuel t b (extension_bytes es) (case_of (other t b)) types.0
      (omega (arith, size)) (extension_case-raw t b (extension_bytes es) types.1)
    ∙ ground (arith, ih)

-- On the encoding of a valid client hello that one read brings, `readHandshake` returns the first
-- host name of its extensions, without white space round it; an error, if there is none or a
-- renegotiation info before it is not one zero byte.
pub read_handshake-hello_bytes :
    (h : Hello) → IsHello h → read_handshake (some (hello_bytes h)) ≡ chosen_host h.extensions
unfolding read_handshake
read_handshake-hello_bytes h v =
    let body = extension_bytes h.extensions in
    let rest3 = length h.compression ∷ (h.compression ++ vec16 body) in
    let rest2 = vec16 h.cipher_suites ++ rest3 in
    let room : 3 ≤ length rest2 = omega (arith, length-append h.cipher_suites rest3) in
    rw
      (
        skip_session-encode h.start h.session_id rest2 v.start_length v.handshake_type
            v.session_short room,
        skip_cipher_suites-encode h.cipher_suites rest3 v.suites_even v.suites_fit,
        skip_compression-encode h.compression (vec16 body),
        open_extensions-encode body v.extensions_fit,
      )
      (extensions_loop-encode (suc (length body)) h.extensions (omega arith) v.extensions_fit
        v.types)
