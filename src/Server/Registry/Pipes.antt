-- ===== src/Server/Registry/Pipes.antt =====
-- Which control the pipe of a client reaches, and what lies over it at both ends: `PipeHandShake` of
-- server/serControl.go and `pipeHandShake` of client/clientControl.go.
use lunnel.Base.{
  ℕ, ◌≡◌, refl, sym, ap, subst, ◌∙◌, Bool, true, false, Bool-cases, Option-cases, inl, inr, Option,
  none, some, List, ◌++◌, append_cancel, replicate, arith, ◌==◌,
}
use lunnel.Base.Text.{Text, text, text_eq, text_eq_refl}
use lunnel.Base.Maps.{store}
use lunnel.Base.Result.{Result, ok, err, Result-cases}
use lunnel.Msg.{Uuid, Body, PipeClientHello, pipe_client_hello}
use lunnel.Msg.Conn.{Conn, bytes_of}
use lunnel.Msg.Read.{kind_of, read_msg_timed}
use lunnel.Msg.Write.{write_msg}
use lunnel.Msg.RoundTrip.{write_msg-frame}
use lunnel.Crypto.Prf.{prf12}
use lunnel.Crypto.Stream.{new_crypto_stream}
use lunnel.Handshake.{Agreed, pipe_stream}
use lunnel.Handshake.Agreement.{Decodes, passes}
use lunnel.Hello.{ServerModes, pipe, handle_conn}
use lunnel.Hello.Piped.{handle_conn-pipe}
use lunnel.Server.Registry.{
  Entry, Registry, take_over, enter_control, PipeError, PipeLayer, server_layer, client_layer,
  pipe_hello, muxed_over, hand_to, pipe_hand_shake, client_pipe,
}

-- Taking over leaves what the hello and the handshake have settled.
abbrev Settled : Entry → Entry → Type 0
Settled e f =
    (f.encrypt_mode ≡ e.encrypt_mode)
    × (f.enable_compress ≡ e.enable_compress)
    × (f.agreed ≡ e.agreed)

take_over-Settled :
    (c : ℕ) (order : List ℕ) (o : Option ℕ) (r : Registry)
    → Settled (r.entries c) ((take_over c order o r).entries c)
unfolding take_over
take_over-Settled c order none r = (refl, refl, refl)
take_over-Settled c order (some old) r =
    let here : (c == c) ≡ true = ground arith in rw here (refl, refl, refl)

-- One body of a pipe's hello has one hello.
hello_of_body :
    (g h : PipeClientHello) → some (pipe_client_hello g) ≡ some (pipe_client_hello h) → g ≡ h
hello_of_body g h e = ground (arith, e)

module _ (hmac : List ℕ → List ℕ → List ℕ) (aes : List ℕ → List ℕ → List ℕ)
    (marshal : Body → Option (List ℕ)) (unmarshal : ℕ → List ℕ → Option Body) where
  -- Both ends make the same layer of what they have agreed on.
  client_layer-server_layer :
      (e : Entry) (once : Uuid)
      → server_layer hmac aes e (pipe_hello hmac aes e.agreed once)
        ≡ client_layer hmac aes e.encrypt_mode e.enable_compress e.agreed once
  unfolding server_layer client_layer pipe_stream
  client_layer-server_layer e once =
      let key = prf12 hmac (replicate 16 0) e.agreed.pre_master_secret e.agreed.client_id once in
      elim (Bool-cases (text_eq e.encrypt_mode (text "none"))) [
        | inl plain ↦ rw plain refl
        | inr coded ↦ elim (Option-cases (new_crypto_stream aes key)) [
          | inl gone ↦ rw (coded, gone) refl
          | inr (s, made) ↦ rw (coded, made) refl
        ]
      ]

  server_layer-Settled :
      (f e : Entry) (h : PipeClientHello)
      → Settled e f
      → server_layer hmac aes f h ≡ server_layer hmac aes e h
  unfolding server_layer
  server_layer-Settled f e h (mode, compress, agreed) = rw (mode, compress, agreed) refl

  muxed_over-ok :
      (muxed : Bool) (r : Result PipeError PipeLayer) (l : PipeLayer)
      → muxed_over hmac aes muxed r ≡ ok l
      → r ≡ ok l
  muxed_over-ok true (ok x) l e = e
  muxed_over-ok false (ok x) l e = absurd (ground (arith, e))
  muxed_over-ok muxed (err x) l e = absurd (ground (arith, e))
  muxed_over-ok muxed Result.panic l e = absurd (ground (arith, e))

  -- The calls of a client that gets a pipe.
  client_pipe-Made :
      (muxed : Bool) (mode : Text) (compress : Bool) (a : Agreed) (once : Uuid) (c c' : Conn)
      (l : PipeLayer)
      → client_pipe hmac aes marshal muxed mode compress a once c ≡ (ok l, c')
      → (write_msg marshal 4 (some (pipe_client_hello (pipe_hello hmac aes a once))) c
          ≡ (ok tt, c'))
        × (client_layer hmac aes mode compress a once ≡ ok l)
  unfolding client_pipe
  client_pipe-Made muxed mode compress a once c c' l e =
      let w = write_msg marshal 4 (some (pipe_client_hello (pipe_hello hmac aes a once))) c in
      elim (Result-cases w.0) [
        | inr (inl (y, f)) ↦ absurd (ground (arith, ap (λ p. p.0) (rw f at e)))
        | inr (inr f) ↦ absurd (ground (arith, ap (λ p. p.0) (rw f at e)))
        | inl (_, f) ↦
            let e' = rw f at e in
            (λ i. (f i, ap (λ p. p.1) e' i), muxed_over-ok muxed _ l (ap (λ p. p.0) e'))
      ]

  -- Once a control has been entered under the identity that both ends have agreed on, with the
  -- client's mode and compression: each pipe that the client gets, on a connection that brings its
  -- hello to the server and is handed to `handlePipe`, reaches that control and none before it, and
  -- the server puts the client's layer over it, with the same key for its cipher.
  pub client_pipe-pipe_hand_shake :
      (c : ℕ) (order : List ℕ) (r : Registry) (a : Agreed) (once : Uuid) (l : PipeLayer)
      (conf : ServerModes) (has_cert muxed muxed' : Bool) (w w' s : Conn) (h : PipeClientHello)
      → (r.entries c).agreed ≡ a
      → Decodes marshal unmarshal 4 (pipe_client_hello (pipe_hello hmac aes a once))
      → client_pipe hmac aes marshal muxed
          (r.entries c).encrypt_mode
          (r.entries c).enable_compress
          a
          once
          w
        ≡ (ok l, w')
      → w'.sent ≡ w.sent ++ bytes_of s.incoming
      → (handle_conn aes marshal unmarshal conf has_cert muxed' s).0 ≡ pipe h
      → pipe_hand_shake hmac aes true h (enter_control c order r) ≡ ok (c, l)
  unfolding pipe_hand_shake enter_control hand_to kind_of
  client_pipe-pipe_hand_shake c order r a once l conf has_cert muxed muxed' w w' s h agree decodes
        ec wire es =
      let e = r.entries c in
      let id = e.agreed.client_id in
      let mine = pipe_hello hmac aes a once in
      let (wrote, layered) =
        client_pipe-Made muxed e.encrypt_mode e.enable_compress a once w w' l ec in
      let sent = (write_msg-frame marshal 4 (some (pipe_client_hello mine)) w wrote).0 in
      let arrives = sym (append_cancel w.sent _ _ (sym sent ∙ wire)) in
      let (k, got) = handle_conn-pipe aes marshal unmarshal conf has_cert muxed' s h es in
      let first =
        passes marshal unmarshal 4 (pipe_client_hello mine) _ w s (read_msg_timed unmarshal s).1
          (k, some (pipe_client_hello h)) refl decodes wrote arrives
          (λ i. (got i, (read_msg_timed unmarshal s).1)) in
      let same : h ≡ pipe_hello hmac aes e.agreed once =
        hello_of_body h mine (ap (λ x. x.1) first)
        ∙ ap (λ x. pipe_hello hmac aes x once) (sym agree) in
      let r1 = record r { control_map = store id c r.control_map } in
      let kept = take_over-Settled c order (r.control_map id) r1 in
      let layer =
        server_layer-Settled ((take_over c order (r.control_map id) r1).entries c) e
          (pipe_hello hmac aes e.agreed once) kept
        ∙ client_layer-server_layer e once
        ∙ ap (λ x. client_layer hmac aes e.encrypt_mode e.enable_compress x once) agree
        ∙ layered in
      subst (λ x. pipe_hand_shake hmac aes true x (enter_control c order r) ≡ ok (c, l)) (sym same)
        (rw (text_eq_refl id, layer) refl)
