-- ===== src/Handshake/Secrets.antt =====
-- The secrets of the two ends of a handshake.
use lunnel.Base.{
  ℕ, ◌≡◌, refl, sym, ap, ◌∙◌, Bool, true, false, Bool-cases, inl, inr, Option, Option-cases, some,
  List, [], ◌∷◌, arith, ltb, if◌then◌else◌, length,
}
use lunnel.Base.Text.{Text, text, text_eq}
use lunnel.Base.Result.{ok, bind-ok, ok-injective}
use lunnel.Msg.{control_server_hello, Uuid, ControlClientHello, ControlServerHello}
use lunnel.Crypto.KeyExchange.{Curve, process_key_exchange, generate_key_exchange}
use lunnel.Crypto.KeyExchange.Agreement.{IsCurve, process-generate_agree}
use lunnel.Handshake.{
  Agreed, as_server_hello, check_auth, choose_id, make_key, secret_of, answer, finish,
}

module _ (curve : Curve) where
  -- What a server has answered.
  pub record Answered (mode : Text) (random : ℕ) (new : Uuid) (h : ControlClientHello)
      (reply : ControlServerHello) (b : Agreed) : Type 0 where
    pub pair : List ℕ × List ℕ
    pub secret : List ℕ
    pub key : make_key curve mode random ≡ ok pair
    pub made :
        (if text_eq mode (text "none") then ok [] else secret_of curve pair.0 h.cipher_key)
        ≡ ok secret
    pub same_reply : reply ≡ record { client_id = choose_id new h.client_id; cipher_key = pair.1 }
    pub same : b ≡ record { client_id = choose_id new h.client_id; pre_master_secret = secret }

  pub answer-Answered :
      (auth : Option (ControlClientHello → Option Bool)) (mode : Text) (random : ℕ) (new : Uuid)
      (h : ControlClientHello) (reply : ControlServerHello) (b : Agreed)
      → answer curve auth mode random new h ≡ ok (reply, b)
      → Answered mode random new h reply b
  unfolding answer
  answer-Answered auth mode random new h reply b e =
      let (_, allowed, e1) = bind-ok (check_auth auth h) _ (reply, b) e in
      let (pair, key, e2) = bind-ok (make_key curve mode random) _ (reply, b) e1 in
      let (secret, made, e3) =
        bind-ok (if text_eq mode (text "none") then ok [] else secret_of curve pair.0 h.cipher_key)
          _ (reply, b) e2 in
      let both = ok-injective e3 in
      record {
        pair = pair;
        secret = secret;
        key = key;
        made = made;
        same_reply = λ i. (sym both i).0;
        same = λ i. (sym both i).1;
      }

  pub finish-hello :
      (priv : List ℕ) (h : ControlServerHello) (a : Agreed) (secret : List ℕ)
      → finish curve priv (3, some (control_server_hello h)) ≡ ok a
      → (if ltb 0 (length h.cipher_key) then secret_of curve priv h.cipher_key else ok [])
        ≡ ok secret
      → a ≡ record { client_id = h.client_id; pre_master_secret = secret }
  unfolding finish as_server_hello
  finish-hello priv h a secret e f = sym (ok-injective (rw f at e))

  secret_of-ok :
      (priv ct secret : List ℕ)
      → process_key_exchange curve priv ct ≡ ok secret
      → secret_of curve priv ct ≡ ok secret
  unfolding secret_of
  secret_of-ok priv ct secret e = rw (secret_of, e) refl

  -- A message that is processed is not empty.
  process-some :
      (priv ct secret : List ℕ)
      → process_key_exchange curve priv ct ≡ ok secret
      → ltb 0 (length ct) ≡ true
  unfolding process_key_exchange
  process-some priv [] secret e = absurd (ground (arith, e))
  process-some priv (b ∷ ct) secret e = ground arith

  make_key-none :
      (mode : Text) (random : ℕ) (pair : List ℕ × List ℕ)
      → text_eq mode (text "none") ≡ true
      → make_key curve mode random ≡ ok pair
      → pair ≡ ([], [])
  unfolding make_key
  make_key-none mode random pair h e = sym (ok-injective (rw (make_key, h) at e))

  make_key-pair :
      (mode : Text) (random : ℕ) (pair : List ℕ × List ℕ)
      → text_eq mode (text "none") ≡ false
      → make_key curve mode random ≡ ok pair
      → generate_key_exchange curve random ≡ some pair
  unfolding make_key
  make_key-pair mode random pair h e = elim (Option-cases (generate_key_exchange curve random)) [
    | inl f ↦ absurd (ground (arith, rw (make_key, h, f) at e))
    | inr (p, f) ↦ f ∙ ap some (ok-injective (rw (make_key, h, f) at e))
  ]

  -- The two secrets are one.
  pub secrets_agree :
      (laws : IsCurve curve) (mode : Text) (r q : ℕ) (mine theirs : List ℕ × List ℕ)
      (secret : List ℕ)
      → make_key curve mode r ≡ ok mine
      → make_key curve mode q ≡ ok theirs
      → (if text_eq mode (text "none") then ok [] else secret_of curve theirs.0 mine.1) ≡ ok secret
      → (if ltb 0 (length theirs.1) then secret_of curve mine.0 theirs.1 else ok []) ≡ ok secret
  secrets_agree laws mode r q mine theirs secret k l e =
      elim (Bool-cases (text_eq mode (text "none"))) [
        | inl plain ↦
            let empty = make_key-none mode q theirs plain l in
            rw (ap (λ p. p.1) empty) (rw plain at e)
        | inr secured ↦
            let (s, here, there, size) =
              process-generate_agree curve laws r q mine.0 theirs.0 mine.1 theirs.1
                (make_key-pair mode r mine secured k) (make_key-pair mode q theirs secured l) in
            let same : s ≡ secret =
              ok-injective (sym (secret_of-ok theirs.0 mine.1 s there) ∙ (rw secured at e)) in
            rw (process-some mine.0 theirs.1 s here)
              (secret_of-ok mine.0 theirs.1 s here ∙ ap ok same)
      ]
