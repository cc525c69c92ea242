-- ===== src/Hello/Taken.antt =====
-- The calls of a `handleConn` of server/server.go that gets to `handleControl`.
use lunnel.Base.{
  ℕ, ◌≡◌, refl, sym, ap, ◌∙◌, Bool, true, false, Bool-cases, inl, inr, Option, none, some, List,
  arith, ◌==◌,
}
use lunnel.Base.Result.{Result, ok, err, panic, Result-cases}
use lunnel.Msg.{
  Body, error, client_hello, control_client_hello, control_server_hello, pipe_client_hello,
  add_tunnels, ClientHello,
}
use lunnel.Msg.Conn.{Conn}
use lunnel.Msg.Read.{ReadError, read_msg_timed}
use lunnel.Hello.{
  Transport, ServerModes, control, refusal, layer, reply, with_layer, set_up, greet, dispatch,
  handle_conn, take_pipe,
}

module _ (cipher : List ℕ → List ℕ → List ℕ) (marshal : Body → Option (List ℕ))
    (unmarshal : ℕ → List ℕ → Option Body) where
  with_layer-control :
      (muxed : Bool) (h h' : ClientHello) (c c' : Conn) (o : Option Transport) (t : Transport)
      → with_layer cipher marshal unmarshal muxed h c o ≡ (control t h', c')
      → (h' ≡ h) × (c' ≡ c) × (o ≡ some t)
  unfolding with_layer
  with_layer-control muxed h h' c c' none t e = absurd (ground (arith, ap (λ p. p.0) e))
  with_layer-control false h h' c c' (some u) t e = absurd (ground (arith, ap (λ p. p.0) e))
  with_layer-control true h h' c c' (some u) t e =
      let first : control u h ≡ control t h' = ap (λ p. p.0) e in
      (ground (arith, first), sym (ap (λ p. p.1) e), ground (arith, first))

  -- The calls of a `handleConn` that gets to `handleControl`.
  pub record Taken (conf : ServerModes) (has_cert : Bool) (s : Conn) (t : Transport)
      (h : ClientHello) (s' : Conn) : Type 0 where
    pub kind : ℕ
    pub s1 : Conn
    pub got : read_msg_timed unmarshal s ≡ (ok (kind, some (client_hello h)), s1)
    pub replied : reply cipher marshal unmarshal (refusal conf h.encrypt_mode) s1 ≡ (ok tt, s')
    pub made : layer cipher has_cert conf.secret_key h.encrypt_mode ≡ some t

  greet-control :
      (conf : ServerModes) (has_cert muxed : Bool) (b : Option Body) (c c' : Conn) (t : Transport)
      (h : ClientHello)
      → greet cipher marshal unmarshal conf has_cert muxed b c ≡ (control t h, c')
      → (b ≡ some (client_hello h))
        × (reply cipher marshal unmarshal (refusal conf h.encrypt_mode) c ≡ (ok tt, c'))
        × (layer cipher has_cert conf.secret_key h.encrypt_mode ≡ some t)
  unfolding greet set_up
  greet-control conf has_cert muxed none c c' t h e = absurd (ground (arith, ap (λ p. p.0) e))
  greet-control conf has_cert muxed (some (error x)) c c' t h e =
      absurd (ground (arith, ap (λ p. p.0) e))
  greet-control conf has_cert muxed (some (control_client_hello x)) c c' t h e =
      absurd (ground (arith, ap (λ p. p.0) e))
  greet-control conf has_cert muxed (some (control_server_hello x)) c c' t h e =
      absurd (ground (arith, ap (λ p. p.0) e))
  greet-control conf has_cert muxed (some (pipe_client_hello x)) c c' t h e =
      absurd (ground (arith, ap (λ p. p.0) e))
  greet-control conf has_cert muxed (some (add_tunnels x)) c c' t h e =
      absurd (ground (arith, ap (λ p. p.0) e))
  greet-control conf has_cert muxed (some (client_hello x)) c c' t h e =
      let w = reply cipher marshal unmarshal (refusal conf x.encrypt_mode) c in
      elim (Result-cases w.0) [
        | inr (inl (y, f)) ↦ absurd (ground (arith, ap (λ p. p.0) (rw f at e)))
        | inr (inr f) ↦ absurd (ground (arith, ap (λ p. p.0) (rw f at e)))
        | inl (_, f) ↦
            let (same, conn, made) = with_layer-control muxed x h w.1 c' _ t (rw f at e) in
            (
              ap (λ y. some (client_hello y)) (sym same),
              ap
                    (λ (y : ClientHello).
                      reply cipher marshal unmarshal (refusal conf y.encrypt_mode) c)
                    same
                  ∙ (λ i. (f i, sym conn i)),
              ap (λ (y : ClientHello). layer cipher has_cert conf.secret_key y.encrypt_mode) same
                  ∙ made,
            )
      ]

  not_control :
      (b : Option Body) (t : Transport) (h : ClientHello)
      → take_pipe cipher marshal unmarshal b ≡ control t h
      → ⊥
  unfolding take_pipe
  not_control none t h e = ground (arith, e)
  not_control (some (error x)) t h e = ground (arith, e)
  not_control (some (client_hello x)) t h e = ground (arith, e)
  not_control (some (control_client_hello x)) t h e = ground (arith, e)
  not_control (some (control_server_hello x)) t h e = ground (arith, e)
  not_control (some (pipe_client_hello x)) t h e = ground (arith, e)
  not_control (some (add_tunnels x)) t h e = ground (arith, e)

  dispatched :
      (conf : ServerModes) (has_cert muxed : Bool) (r : Result ReadError (ℕ × Option Body))
      (s s1 s' : Conn) (t : Transport) (h : ClientHello)
      → read_msg_timed unmarshal s ≡ (r, s1)
      → dispatch cipher marshal unmarshal conf has_cert muxed (r, s1) ≡ (control t h, s')
      → Taken conf has_cert s t h s'
  unfolding dispatch
  dispatched conf has_cert muxed (err x) s s1 s' t h g e = absurd (ground (arith, ap (λ p. p.0) e))
  dispatched conf has_cert muxed panic s s1 s' t h g e = absurd (ground (arith, ap (λ p. p.0) e))
  dispatched conf has_cert muxed (ok (k, b)) s s1 s' t h g e = elim (Bool-cases (k == 0)) [
    | inl hello ↦
        let (body, replied, made) = greet-control conf has_cert muxed b s1 s' t h (rw hello at e) in
        record {
          kind = k;
          s1 = s1;
          got = g ∙ (λ i. (ok (k, body i), s1));
          replied = replied;
          made = made;
        }
    | inr other ↦ elim (Bool-cases (k == 4)) [
      | inl pipe' ↦ absurd (not_control b t h (ap (λ p. p.0) (rw (other, pipe') at e)))
      | inr neither ↦ absurd (ground (arith, ap (λ p. p.0) (rw (other, neither) at e)))
    ]
  ]

  pub handle_conn-Taken :
      (conf : ServerModes) (has_cert muxed : Bool) (s s' : Conn) (t : Transport) (h : ClientHello)
      → handle_conn cipher marshal unmarshal conf has_cert muxed s ≡ (control t h, s')
      → Taken conf has_cert s t h s'
  unfolding handle_conn
  handle_conn-Taken conf has_cert muxed s s' t h e =
      let r = read_msg_timed unmarshal s in dispatched conf has_cert muxed r.0 s r.1 s' t h refl e
