-- ===== src/Hello/Agreement.antt =====
-- Both ends of a connection put the same layer over it.
use lunnel.Base.{
  ℕ, ◌≡◌, refl, sym, ap, ◌∙◌, Bool, true, false, not, ◌&&◌, Bool-cases, inl, inr, Option, none,
  some, Option-cases, List, ◌++◌, append_cancel, arith, ◌==◌, if◌then◌else◌,
}
use lunnel.Base.Text.{Text, text, text_eq}
use lunnel.Base.Result.{Result, ok, err, panic, Result-cases}
use lunnel.Msg.{Body, client_hello, ClientHello, type_client_hello}
use lunnel.Msg.Conn.{Conn, bytes_of}
use lunnel.Msg.Read.{ReadError, kind_of, read_msg, read_msg_timed}
use lunnel.Msg.Write.{write_msg}
use lunnel.Msg.RoundTrip.{write_msg-frame}
use lunnel.Handshake.Quiet.{read_msg-sent}
use lunnel.Handshake.Agreement.{Decodes, passes}
use lunnel.Hello.{
  Transport, tls, ServerModes, ClientModes, control, connected, hello_of, layer, handle_conn,
  put_on, after_answer, dial,
}
use lunnel.Hello.Taken.{handle_conn-Taken}

tls_only : (b : Bool) (t : Transport) → (if b then some tls else none) ≡ some t → tls ≡ t
tls_only true t e = ground (arith, e)
tls_only false t e = absurd (ground (arith, e))

hello_of_body : (g h : ClientHello) → some (client_hello g) ≡ some (client_hello h) → g ≡ h
hello_of_body g h e = ground (arith, e)

module _ (cipher : List ℕ → List ℕ → List ℕ) (marshal : Body → Option (List ℕ))
    (unmarshal : ℕ → List ℕ → Option Body) where
  -- The end of a dial that gets through.
  put_on-layer :
      (m : ClientModes) (has_ca muxed : Bool) (t : Transport)
      → put_on cipher marshal unmarshal m has_ca muxed ≡ connected t
      → layer cipher has_ca m.secret_key m.encrypt_mode ≡ some t
  unfolding put_on
  put_on-layer m has_ca muxed t e =
      elim (Bool-cases (text_eq m.encrypt_mode (text "tls") && not has_ca)) [
        | inl bad ↦ absurd (ground (arith, rw bad at e))
        | inr good ↦ elim (Option-cases (layer cipher has_ca m.secret_key m.encrypt_mode)) [
          | inl gone ↦ absurd (ground (arith, rw (good, gone) at e))
          | inr (u, got) ↦ elim (Bool-cases muxed) [
            | inl up ↦ let e' = rw (good, got, up) at e in got ∙ ground (arith, e')
            | inr down ↦ absurd (ground (arith, rw (good, got, down) at e))
          ]
        ]
      ]

  -- The calls of a dial that gets through.
  record Parts (m : ClientModes) (has_ca : Bool) (c : Conn) (t : Transport) (c' : Conn)
      : Type 0 where
    c1 : Conn
    wrote : write_msg marshal type_client_hello (some (client_hello (hello_of m))) c ≡ (ok tt, c1)
    kept : c'.sent ≡ c1.sent
    made : layer cipher has_ca m.secret_key m.encrypt_mode ≡ some t

  answered :
      (m : ClientModes) (has_ca muxed : Bool) (r : Result ReadError (ℕ × Option Body))
      (c1 c' : Conn) (t : Transport)
      → after_answer cipher marshal unmarshal m has_ca muxed (r, c1) ≡ (connected t, c')
      → (c' ≡ c1) × (layer cipher has_ca m.secret_key m.encrypt_mode ≡ some t)
  unfolding after_answer
  answered m has_ca muxed (err x) c1 c' t e = absurd (ground (arith, ap (λ p. p.0) e))
  answered m has_ca muxed panic c1 c' t e = absurd (ground (arith, ap (λ p. p.0) e))
  answered m has_ca muxed (ok (k, b)) c1 c' t e = elim (Bool-cases (k == 9)) [
    | inl refused ↦ absurd (ground (arith, rw refused at e))
    | inr on ↦
        let e' = rw on at e in
        (sym (ap (λ p. p.1) e'), put_on-layer m has_ca muxed t (ap (λ p. p.0) e'))
  ]

  dial-Parts :
      (m : ClientModes) (has_ca muxed : Bool) (c : Conn) (t : Transport) (c' : Conn)
      → dial cipher marshal unmarshal m has_ca muxed c ≡ (connected t, c')
      → Parts m has_ca c t c'
  unfolding dial read_msg_timed
  dial-Parts m has_ca muxed c t c' e =
      let w = write_msg marshal type_client_hello (some (client_hello (hello_of m))) c in
      elim (Result-cases w.0) [
        | inr (inl (x, f)) ↦ absurd (ground (arith, rw f at e))
        | inr (inr f) ↦ absurd (ground (arith, rw f at e))
        | inl (_, f) ↦
            let r = read_msg unmarshal 12 w.1 in
            let (same, made) = answered m has_ca muxed r.0 r.1 c' t (rw f at e) in
            record {
              c1 = w.1;
              wrote = λ i. (f i, w.1);
              kept = ap (λ x. x.sent) same ∙ read_msg-sent unmarshal 12 w.1;
              made = made;
            }
      ]

  -- The layer depends on the key only for AES, and on the certificates only for TLS.
  layer-same :
      (a b : Bool) (key mode : Text) (s t : Transport)
      → layer cipher a key mode ≡ some s
      → layer cipher b key mode ≡ some t
      → s ≡ t
  unfolding layer
  layer-same a b key mode s t e f = elim (Bool-cases (text_eq mode (text "tls"))) [
    | inr other ↦ let e' = rw other at e in let f' = rw other at f in ground (arith, sym e' ∙ f')
    | inl here ↦
        let e' = rw here at e in
        let f' = rw here at f in ground (arith, tls_only a s e', tls_only b t f')
  ]

  -- When a dial gets through and the server hands the connection to `handleControl`, on connections
  -- that bring to each end what the other has sent, and the hello is decoded as it was encoded, then
  -- both ends use the same layer, with one key for AES, and the server has the client's hello.
  pub dial-handle_conn_agree :
      (conf : ServerModes) (m : ClientModes) (has_cert has_ca muxed muxed' : Bool)
      (c s c' s' : Conn) (t u : Transport) (h : ClientHello)
      → Decodes marshal unmarshal 0 (client_hello (hello_of m))
      → m.secret_key ≡ conf.secret_key
      → dial cipher marshal unmarshal m has_ca muxed c ≡ (connected t, c')
      → handle_conn cipher marshal unmarshal conf has_cert muxed' s ≡ (control u h, s')
      → c'.sent ≡ c.sent ++ bytes_of s.incoming
      → (h ≡ hello_of m) × (t ≡ u)
  unfolding kind_of
  dial-handle_conn_agree conf m has_cert has_ca muxed muxed' c s c' s' t u h decodes key ec es
        wire =
      let p = dial-Parts m has_ca muxed c t c' ec in
      let k = handle_conn-Taken cipher marshal unmarshal conf has_cert muxed' s s' u h es in
      let sent = (write_msg-frame marshal 0 (some (client_hello (hello_of m))) c p.wrote).0 in
      let arrives = sym (append_cancel c.sent _ _ (sym (p.kept ∙ sent) ∙ wire)) in
      let first =
        passes marshal unmarshal 0 (client_hello (hello_of m)) _ c s k.s1
          (k.kind, some (client_hello h)) refl decodes p.wrote arrives k.got in
      let same : h ≡ hello_of m = hello_of_body h (hello_of m) (ap (λ x. x.1) first) in
      (
        same,
        layer-same has_ca has_cert conf.secret_key m.encrypt_mode t u (rw key at p.made) (
            ap (λ (y : ClientHello). layer cipher has_cert conf.secret_key y.encrypt_mode)
              (sym same)
            ∙ k.made),
      )
