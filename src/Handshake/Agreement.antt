-- ===== src/Handshake/Agreement.antt =====
-- Both ends of a control connection come out of their handshakes with the same identity and secret.
use lunnel.Base.{
  ℕ, ◌<◌, ◌≡◌, refl, sym, ap, ◌∙◌, subst, Bool, Option, some, List, [], ◌++◌, append-nil,
  append_cancel, if◌then◌else◌, length,
}
use lunnel.Base.Text.{Text, text, text_eq}
use lunnel.Base.Result.{ok, ok-injective}
use lunnel.Msg.{
  Body, control_client_hello, control_server_hello, Uuid, ControlClientHello, ControlServerHello,
}
use lunnel.Msg.Conn.{Conn, bytes_of}
use lunnel.Msg.Write.{write_msg, frame}
use lunnel.Msg.Read.{kind_of, bodied, read_msg_timed}
use lunnel.Msg.Framing.{read_msg-frame}
use lunnel.Msg.RoundTrip.{body_bytes, write_msg-frame}
use lunnel.Crypto.KeyExchange.{Curve}
use lunnel.Crypto.KeyExchange.Agreement.{IsCurve}
use lunnel.Handshake.{
  Agreed, as_client_hello, make_key, secret_of, answer, server_hand_shake, hello_of,
  client_hand_shake,
}
use lunnel.Handshake.Parts.{client-ClientParts, server-ServerParts}
use lunnel.Handshake.Quiet.{read_msg-sent, write_msg-incoming}
use lunnel.Handshake.Secrets.{answer-Answered, finish-hello, secrets_agree}

-- The decoder gives back what the encoder makes of the values of one kind.
abbrev pub Decodes :
    (marshal : Body → Option (List ℕ)) (unmarshal : ℕ → List ℕ → Option Body) → ℕ → Body → Type 0
Decodes marshal unmarshal t b =
    (0 < length (body_bytes marshal (some b)))
    × (unmarshal t (body_bytes marshal (some b)) ≡ some b)

module _ (marshal : Body → Option (List ℕ)) (unmarshal : ℕ → List ℕ → Option Body) where
  -- A frame that one end writes without an error is what the other end reads.
  pub passes :
      (t : ℕ) (b out : Body) (w : Conn) {w' : Conn} (r r' : Conn) (m : ℕ × Option Body)
      → kind_of t ≡ bodied out
      → Decodes marshal unmarshal t b
      → write_msg marshal t (some b) w ≡ (ok tt, w')
      → bytes_of r.incoming ≡ frame t (body_bytes marshal (some b))
      → read_msg_timed unmarshal r ≡ (ok m, r')
      → m ≡ (t, some b)
  unfolding read_msg_timed
  passes t b out w r r' m kind (some_bytes, decodes) wrote arrives got =
      let (_, fits, _) = write_msg-frame marshal t (some b) w wrote in
      let (r2, got2, _, _) =
        read_msg-frame unmarshal t 12 b out (body_bytes marshal (some b)) [] r kind some_bytes fits
          decodes (arrives ∙ sym (append-nil _)) in
      ok-injective (λ i. ((sym got ∙ got2) i).0)

module _ (curve : Curve) (laws : IsCurve curve) (marshal : Body → Option (List ℕ))
    (unmarshal : ℕ → List ℕ → Option Body) where
  -- On a curve with the documented laws: when both handshakes succeed, on connections that bring
  -- to each end what the other has sent, and the two hellos are decoded as they were encoded, both
  -- ends have the same identity and the same secret, with encryption as without.
  pub hand_shakes-agree :
      (auth : Option (ControlClientHello → Option Bool)) (mode : Text) (r q : ℕ) (token : Text)
      (id : Option Uuid) (new : Uuid) (c s c' s' : Conn) (a b : Agreed)
      → ((pair : List ℕ × List ℕ)
          → make_key curve mode r ≡ ok pair
          → Decodes marshal unmarshal 2
              (control_client_hello (hello_of curve marshal unmarshal token id pair)))
      → ((pair : List ℕ × List ℕ) (reply : ControlServerHello) (agreed : Agreed)
          → make_key curve mode r ≡ ok pair
          → answer curve auth mode q new (hello_of curve marshal unmarshal token id pair)
            ≡ ok (reply, agreed)
          → Decodes marshal unmarshal 3 (control_server_hello reply))
      → client_hand_shake curve marshal unmarshal mode r token id c ≡ (ok a, c')
      → server_hand_shake curve marshal unmarshal auth mode q new s ≡ (ok b, s')
      → c'.sent ≡ c.sent ++ bytes_of s.incoming
      → s'.sent ≡ s.sent ++ bytes_of c.incoming
      → a ≡ b
  unfolding kind_of as_client_hello read_msg_timed
  hand_shakes-agree auth mode r q token id new c s c' s' a b dc ds ec es wire back =
      let p = client-ClientParts curve marshal unmarshal mode r token id c a c' ec in
      let k = server-ServerParts curve marshal unmarshal auth mode q new s b s' es in
      let hello = hello_of curve marshal unmarshal token id p.pair in
      let sent = (write_msg-frame marshal 2 (some (control_client_hello hello)) c p.wrote).0 in
      let kept = sym (ap (λ x. x.1.sent) p.got) ∙ read_msg-sent unmarshal 12 p.c1 in
      let arrives = sym (append_cancel c.sent _ _ (sym (kept ∙ sent) ∙ wire)) in
      let first =
        passes marshal unmarshal 2 (control_client_hello hello) _ c s k.s1 (k.t, k.body) refl
          (dc p.pair p.key) p.wrote arrives k.got in
      let same_hello : hello ≡ k.h = ok-injective (rw (ap (λ m. m.1) first) at k.is_hello) in
      let replied =
        subst (λ x. answer curve auth mode q new x ≡ ok (k.reply, b)) (sym same_hello) k.answered in
      let z = answer-Answered curve auth mode q new k.h k.reply b k.answered in
      let sent2 =
        (write_msg-frame marshal 3 (some (control_server_hello k.reply)) k.s1 k.wrote).0 in
      let kept2 = sym (ap (λ x. x.1.sent) k.got) ∙ read_msg-sent unmarshal 12 s in
      let arrives2 = sym (
        append_cancel s.sent _ _ (
          sym (
            sent2
            ∙ ap (λ x. x ++ frame 3 (body_bytes marshal (some (control_server_hello k.reply))))
                kept2)
          ∙ back)) in
      let taken = write_msg-incoming marshal 2 (some (control_client_hello hello)) c p.wrote in
      let second =
        passes marshal unmarshal 3 (control_server_hello k.reply) _ k.s1 p.c1 c' p.m refl
          (ds p.pair k.reply b p.key replied) k.wrote (ap bytes_of taken ∙ arrives2) p.got in
      let made : (if text_eq mode (text "none") then ok [] else secret_of curve z.pair.0 p.pair.1)
          ≡ ok z.secret =
        rw (ap (λ x. x.cipher_key) same_hello) z.made in
      let mine = secrets_agree curve laws mode r q p.pair z.pair z.secret p.key z.key made in
      let key : k.reply.cipher_key ≡ z.pair.1 = ap (λ x. x.cipher_key) z.same_reply in
      finish-hello curve p.pair.0 k.reply a z.secret (rw second at p.made) (rw key mine)
      ∙ ap (λ x. record { client_id = x.client_id; pre_master_secret = z.secret }) z.same_reply
      ∙ sym z.same
