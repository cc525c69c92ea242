-- ===== src/Handshake/Parts.antt =====
-- The calls of which the handshakes of server/serControl.go and client/clientControl.go consist.
use lunnel.Base.{ℕ, ◌≡◌, ap, ◌∙◌, Bool, not, inl, inr, Option, some, List, arith, ◌==◌}
use lunnel.Base.Text.{Text}
use lunnel.Base.Result.{ok, ◌>>=◌, ◌>>◌, bind-ok, ok-injective, Result-cases, fail_if}
use lunnel.Msg.{
  Body, control_client_hello, control_server_hello, Uuid, ControlClientHello, ControlServerHello,
  type_control_client_hello, type_control_server_hello,
}
use lunnel.Msg.Conn.{Conn}
use lunnel.Msg.Write.{write_msg}
use lunnel.Msg.Read.{read_msg_timed}
use lunnel.Crypto.KeyExchange.{Curve}
use lunnel.Handshake.{
  HandshakeError, Agreed, Hs, as_client_hello, make_key, answer, finish, send_hello,
  server_hand_shake, hello_of, await, client_hand_shake,
}

module _ (curve : Curve) (marshal : Body → Option (List ℕ))
    (unmarshal : ℕ → List ℕ → Option Body) where
  -- The calls of a client's handshake that succeeds.
  pub record ClientParts (mode : Text) (random : ℕ) (token : Text) (id : Option Uuid) (c : Conn)
      (a : Agreed) (c' : Conn) : Type 0 where
    pub pair : List ℕ × List ℕ
    pub c1 : Conn
    pub m : ℕ × Option Body
    pub key : make_key curve mode random ≡ ok pair
    pub wrote :
        write_msg marshal type_control_client_hello
          (some (control_client_hello (hello_of curve marshal unmarshal token id pair)))
          c
        ≡ (ok tt, c1)
    pub got : read_msg_timed unmarshal c1 ≡ (ok m, c')
    pub made : finish curve pair.0 m ≡ ok a

  pub client-ClientParts :
      (mode : Text) (random : ℕ) (token : Text) (id : Option Uuid) (c : Conn) (a : Agreed)
      (c' : Conn)
      → client_hand_shake curve marshal unmarshal mode random token id c ≡ (ok a, c')
      → ClientParts mode random token id c a c'
  unfolding client_hand_shake
  client-ClientParts mode random token id c a c' e =
      elim (Result-cases (make_key curve mode random)) [
        | inr (inl (x, f)) ↦ absurd (ground (arith, rw (client_hand_shake, f) at e))
        | inr (inr f) ↦ absurd (ground (arith, rw (client_hand_shake, f) at e))
        | inl (pair, key) ↦
            let e1 = rw (client_hand_shake, key) at e in
            let h = control_client_hello (hello_of curve marshal unmarshal token id pair) in
            let w = write_msg marshal type_control_client_hello (some h) c in
            elim (Result-cases w.0) [
              | inr (inl (x, f)) ↦ absurd (ground (arith, rw f at e1))
              | inr (inr f) ↦ absurd (ground (arith, rw f at e1))
              | inl (_, f) ↦
                  let e2 = rw f at e1 in
                  let r = read_msg_timed unmarshal w.1 in
                  elim (Result-cases r.0) [
                    | inr (inl (x, g)) ↦ absurd (ground (arith, rw (await, g) at e2))
                    | inr (inr g) ↦ absurd (ground (arith, rw (await, g) at e2))
                    | inl (m, g) ↦
                        let e3 = rw (await, g) at e2 in
                        record {
                          pair = pair;
                          c1 = w.1;
                          m = m;
                          key = key;
                          wrote = λ i. (f i, w.1);
                          got = λ i. (g i, (e3 i).1);
                          made = λ i. (e3 i).0;
                        }
                  ]
            ]
      ]

  -- The calls of a server's handshake that succeeds.
  pub record ServerParts (auth : Option (ControlClientHello → Option Bool)) (mode : Text)
      (random : ℕ) (new : Uuid) (s : Conn) (b : Agreed) (s' : Conn) : Type 0 where
    pub t : ℕ
    pub body : Option Body
    pub s1 : Conn
    pub h : ControlClientHello
    pub reply : ControlServerHello
    pub got : read_msg_timed unmarshal s ≡ (ok (t, body), s1)
    pub is_hello : as_client_hello body ≡ ok h
    pub answered : answer curve auth mode random new h ≡ ok (reply, b)
    pub wrote :
        write_msg marshal type_control_server_hello (some (control_server_hello reply)) s1
        ≡ (ok tt, s')

  pub server-ServerParts :
      (auth : Option (ControlClientHello → Option Bool)) (mode : Text) (random : ℕ) (new : Uuid)
      (s : Conn) (b : Agreed) (s' : Conn)
      → server_hand_shake curve marshal unmarshal auth mode random new s ≡ (ok b, s')
      → ServerParts auth mode random new s b s'
  unfolding server_hand_shake
  server-ServerParts auth mode random new s b s' e =
      let r = read_msg_timed unmarshal s in
      elim (Result-cases r.0) [
        | inr (inl (x, f)) ↦ absurd (ground (arith, rw (server_hand_shake, f) at e))
        | inr (inr f) ↦ absurd (ground (arith, rw (server_hand_shake, f) at e))
        | inl ((t, body), f) ↦
            let e1 = rw (server_hand_shake, f) at e in
            let reply : Hs (ControlServerHello × Agreed) =
              fail_if (not (t == type_control_client_hello)) HandshakeError.invalid_msg_type
              >> (as_client_hello body >>= λ h. answer curve auth mode random new h) in
            elim (Result-cases reply) [
              | inr (inl (x, g)) ↦ absurd (ground (arith, rw g at e1))
              | inr (inr g) ↦ absurd (ground (arith, rw g at e1))
              | inl ((hello, agreed), g) ↦
                  let e2 = rw g at e1 in
                  let (_, guard, g1) =
                    bind-ok
                      (fail_if (not (t == type_control_client_hello))
                        HandshakeError.invalid_msg_type)
                      _ (hello, agreed) g in
                  let (h, is_hello, g2) = bind-ok (as_client_hello body) _ (hello, agreed) g1 in
                  let w =
                    write_msg marshal type_control_server_hello (some (control_server_hello hello))
                      r.1 in
                  elim (Result-cases w.0) [
                    | inr (inl (x, k)) ↦ absurd (ground (arith, rw (send_hello, k) at e2))
                    | inr (inr k) ↦ absurd (ground (arith, rw (send_hello, k) at e2))
                    | inl (_, k) ↦
                        let e3 = rw (send_hello, k) at e2 in
                        let same : agreed ≡ b = ok-injective (λ i. (e3 i).0) in
                        record {
                          t = t;
                          body = body;
                          s1 = r.1;
                          h = h;
                          reply = hello;
                          got = λ i. (f i, r.1);
                          is_hello = is_hello;
                          answered = g2 ∙ ap (λ a. ok (hello, a)) same;
                          wrote = λ i. (k i, (e3 i).1);
                        }
                  ]
            ]
      ]
