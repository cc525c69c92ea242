-- ===== src/Hello/Greeting.antt =====
-- `handleConn` of server/server.go sets no control up that it has refused.
use lunnel.Base.{
  ℕ, ◌≡◌, refl, sym, ap, ◌∙◌, Bool, true, false, Bool-cases, inl, inr, Option, none, some, List, [],
  ◌∷◌, ◌++◌, arith, if◌then◌else◌,
}
use lunnel.Base.Text.{Text, text, text_eq, eq_of_text_eq}
use lunnel.Base.Numbers.{is_empty}
use lunnel.Msg.{Body, ClientHello}
use lunnel.Msg.Conn.{Conn}
use lunnel.Msg.Read.{read_msg_timed}
use lunnel.Msg.Write.{frame}
use lunnel.Msg.RoundTrip.{write_msg-frame}
use lunnel.Crypto.Stream.{new_crypto_stream, new_cipher}
use lunnel.Handshake.Quiet.{read_msg-sent}
use lunnel.Hello.{Transport, ServerModes, control, refusal, aes_over, layer, reply, handle_conn}
use lunnel.Hello.Taken.{handle_conn-Taken}

-- tls.LoadX509KeyPair fails where a file name is missing.
abbrev pub NeedsFiles : ServerModes → Bool → Type 0
NeedsFiles conf has_cert =
    has_cert ≡ true → (is_empty conf.tls_cert ≡ false) × (is_empty conf.tls_key ≡ false)

no_key : (key : Text) → is_empty key ≡ true → key ≡ []
no_key [] e = refl
no_key (c ∷ s) e = absurd (ground (arith, e))

tls_false :
    (b : Bool) (t : Transport) → (if b then some Transport.tls else none) ≡ some t → b ≡ true
tls_false true t e = refl
tls_false false t e = absurd (ground (arith, e))

module _ (cipher : List ℕ → List ℕ → List ℕ) where
  -- AES has no empty key.
  aes_empty : (t : Transport) → aes_over cipher [] ≡ some t → ⊥
  unfolding aes_over new_crypto_stream new_cipher
  aes_empty t e = ground (arith, e)

  -- A layer that can be had is not refused.
  layer-refusal :
      (conf : ServerModes) (has_cert : Bool) (mode : Text) (t : Transport)
      → NeedsFiles conf has_cert
      → layer cipher has_cert conf.secret_key mode ≡ some t
      → refusal conf mode ≡ none
  unfolding layer refusal
  layer-refusal conf has_cert mode t files e = elim (Bool-cases (text_eq mode (text "tls"))) [
    | inl is_tls ↦
        let (cert, key) = files (tls_false has_cert t (rw is_tls at e)) in
        let mode_tls : mode ≡ text "tls" = eq_of_text_eq mode (text "tls") is_tls in
        rw (is_tls, cert, key, mode_tls) refl
    | inr no_tls ↦ elim (Bool-cases (text_eq mode (text "aes"))) [
      | inr no_aes ↦ rw (no_tls, no_aes) refl
      | inl is_aes ↦ elim (Bool-cases (is_empty conf.secret_key)) [
        | inr some_key ↦ rw (no_tls, is_aes, some_key) refl
        | inl none_set ↦
            absurd (aes_empty t (rw (no_tls, is_aes, no_key conf.secret_key none_set) at e))
      ]
    ]
  ]

  module _ (marshal : Body → Option (List ℕ)) (unmarshal : ℕ → List ℕ → Option Body) where
    -- If a certificate is loaded only from files that are named: a connection that `handleConn`
    -- hands to `handleControl` has been answered with a server hello and nothing else, so the
    -- server never goes on with a client that it has refused.
    pub handle_conn-greeted :
        (conf : ServerModes) (has_cert muxed : Bool) (s s' : Conn) (t : Transport) (h : ClientHello)
        → NeedsFiles conf has_cert
        → handle_conn cipher marshal unmarshal conf has_cert muxed s ≡ (control t h, s')
        → s'.sent ≡ s.sent ++ frame 1 []
    unfolding read_msg_timed reply
    handle_conn-greeted conf has_cert muxed s s' t h files e =
        let k = handle_conn-Taken cipher marshal unmarshal conf has_cert muxed s s' t h e in
        let granted = layer-refusal conf has_cert h.encrypt_mode t files k.made in
        let wrote = rw granted at k.replied in
        let kept = sym (ap (λ x. x.1.sent) k.got) ∙ read_msg-sent unmarshal 12 s in
        (write_msg-frame marshal 1 none k.s1 wrote).0 ∙ ap (λ xs. xs ++ frame 1 []) kept
