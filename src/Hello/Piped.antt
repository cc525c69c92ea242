-- ===== src/Hello/Piped.antt =====
-- The message of a `handleConn` of server/server.go that gets to `handlePipe`.
use lunnel.Base.{
  ℕ, ◌≡◌, ap, Bool, true, false, Bool-cases, inl, inr, Option, none, some, List, arith, ◌==◌,
}
use lunnel.Base.Result.{Result, ok, err, panic, Result-cases}
use lunnel.Msg.{
  Body, error, client_hello, control_client_hello, control_server_hello, pipe_client_hello,
  add_tunnels, ClientHello, PipeClientHello,
}
use lunnel.Msg.Conn.{Conn}
use lunnel.Msg.Read.{ReadError, read_msg_timed}
use lunnel.Hello.{
  Transport, ServerModes, pipe, refusal, reply, with_layer, set_up, greet, dispatch, handle_conn,
  take_pipe,
}

module _ (cipher : List ℕ → List ℕ → List ℕ) (marshal : Body → Option (List ℕ))
    (unmarshal : ℕ → List ℕ → Option Body) where
  with_layer-no_pipe :
      (muxed : Bool) (h : ClientHello) (c : Conn) (o : Option Transport) (p : PipeClientHello)
      → (with_layer cipher marshal unmarshal muxed h c o).0 ≡ pipe p
      → ⊥
  unfolding with_layer
  with_layer-no_pipe muxed h c none p e = ground (arith, e)
  with_layer-no_pipe false h c (some u) p e = ground (arith, e)
  with_layer-no_pipe true h c (some u) p e = ground (arith, e)

  greet-no_pipe :
      (conf : ServerModes) (has_cert muxed : Bool) (b : Option Body) (c : Conn)
      (p : PipeClientHello)
      → (greet cipher marshal unmarshal conf has_cert muxed b c).0 ≡ pipe p
      → ⊥
  unfolding greet set_up
  greet-no_pipe conf has_cert muxed none c p e = ground (arith, e)
  greet-no_pipe conf has_cert muxed (some (error x)) c p e = ground (arith, e)
  greet-no_pipe conf has_cert muxed (some (control_client_hello x)) c p e = ground (arith, e)
  greet-no_pipe conf has_cert muxed (some (control_server_hello x)) c p e = ground (arith, e)
  greet-no_pipe conf has_cert muxed (some (pipe_client_hello x)) c p e = ground (arith, e)
  greet-no_pipe conf has_cert muxed (some (add_tunnels x)) c p e = ground (arith, e)
  greet-no_pipe conf has_cert muxed (some (client_hello x)) c p e =
      let w = reply cipher marshal unmarshal (refusal conf x.encrypt_mode) c in
      elim (Result-cases w.0) [
        | inr (inl (y, f)) ↦ absurd (ground (arith, rw f at e))
        | inr (inr f) ↦ absurd (ground (arith, rw f at e))
        | inl (_, f) ↦ with_layer-no_pipe muxed x w.1 _ p (rw f at e)
      ]

  take_pipe-hello :
      (b : Option Body) (p : PipeClientHello)
      → take_pipe cipher marshal unmarshal b ≡ pipe p
      → b ≡ some (pipe_client_hello p)
  unfolding take_pipe
  take_pipe-hello none p e = absurd (ground (arith, e))
  take_pipe-hello (some (error x)) p e = absurd (ground (arith, e))
  take_pipe-hello (some (client_hello x)) p e = absurd (ground (arith, e))
  take_pipe-hello (some (control_client_hello x)) p e = absurd (ground (arith, e))
  take_pipe-hello (some (control_server_hello x)) p e = absurd (ground (arith, e))
  take_pipe-hello (some (pipe_client_hello x)) p e = ground (arith, e)
  take_pipe-hello (some (add_tunnels x)) p e = absurd (ground (arith, e))

  dispatch-pipe :
      (conf : ServerModes) (has_cert muxed : Bool) (r : Result ReadError (ℕ × Option Body))
      (s1 : Conn) (p : PipeClientHello)
      → (dispatch cipher marshal unmarshal conf has_cert muxed (r, s1)).0 ≡ pipe p
      → (k : ℕ) × (r ≡ ok (k, some (pipe_client_hello p)))
  unfolding dispatch
  dispatch-pipe conf has_cert muxed (err x) s1 p e = absurd (ground (arith, e))
  dispatch-pipe conf has_cert muxed panic s1 p e = absurd (ground (arith, e))
  dispatch-pipe conf has_cert muxed (ok (k, b)) s1 p e = elim (Bool-cases (k == 0)) [
    | inl hello ↦ absurd (greet-no_pipe conf has_cert muxed b s1 p (rw hello at e))
    | inr other ↦ elim (Bool-cases (k == 4)) [
      | inl here ↦ (k, ap (λ x. ok (k, x)) (take_pipe-hello b p (rw (other, here) at e)))
      | inr neither ↦ absurd (ground (arith, rw (other, neither) at e))
    ]
  ]

  -- What is handed to `handlePipe` is the hello of a pipe that has been read.
  pub handle_conn-pipe :
      (conf : ServerModes) (has_cert muxed : Bool) (s : Conn) (p : PipeClientHello)
      → (handle_conn cipher marshal unmarshal conf has_cert muxed s).0 ≡ pipe p
      → (k : ℕ) × ((read_msg_timed unmarshal s).0 ≡ ok (k, some (pipe_client_hello p)))
  unfolding handle_conn
  handle_conn-pipe conf has_cert muxed s p e = dispatch-pipe conf has_cert muxed _ _ p e
