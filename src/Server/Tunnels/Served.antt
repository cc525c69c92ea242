-- ===== src/Server/Tunnels/Served.antt =====
-- What a round of the loop of `ServerAddTunnels` of server/serControl.go does for its name.
use lunnel.Base.{
  ℕ, ◌≡◌, ◌⊎◌, refl, ap, ◌∙◌, Bool, true, false, inl, inr, Option, none, some, arith, ◌==◌,
}
use lunnel.Base.Text.{Text, text_eq_refl}
use lunnel.Msg.{public_addr}
use lunnel.Msg
use lunnel.Server.Tunnels.{
  World, Control, ServerConf, WriteReq, Outcome, opened, not_opened, send, refusal, close_old,
  register, refuse, enter, finish_tunnel, add_tunnel,
}
use lunnel.Server.Tunnels.Isolation.{send-tunnels}

-- The name is served: it leads to an open tunnel, with the configuration that goes into the answer,
-- and so does the public address of that configuration; the loop goes on.
pub record IsOpen (name : Text) (r : Control × World × Msg.Tunnel × Bool) : Type 0 where
  pub tunnel : ℕ
  pub mine : r.0.tunnels name ≡ some tunnel
  pub routed : r.1.tunnel_map (public_addr r.2) ≡ some tunnel
  pub config : (r.1.tunnels tunnel).tunnel_config ≡ r.2
  pub live : (r.1.tunnels tunnel).is_closed ≡ false
  pub goes_on : r.3 ≡ true

-- The name is refused: the control has no tunnel of it, the answer has the request as it was, and
-- the loop goes on exactly if the control has not been closed by a full queue.
pub record IsRefused (name : Text) (asked : Msg.Tunnel) (r : Control × World × Msg.Tunnel × Bool)
    : Type 0 where
  pub gone : r.0.tunnels name ≡ none
  pub entry : r.2 ≡ asked
  pub stops : r.3 ≡ false → r.0.is_done ≡ true

abbrev pub Served : Text → Msg.Tunnel → Control × World × Msg.Tunnel × Bool → Type 0
Served name asked r = IsOpen name r ⊎ IsRefused name asked r

pub close_old-gone :
    (name : Text) (old : Option ℕ) (c : Control) (w : World)
    → c.tunnels name ≡ old
    → (close_old name old c w).0.tunnels name ≡ none
unfolding close_old
close_old-gone name none c w e = e
close_old-gone name (some t) c w e = rw (text_eq_refl name) refl

pub send-stops : (r : WriteReq) (c : Control) → (send r c).1 ≡ false → (send r c).0.is_done ≡ true
unfolding send
send-stops r c e = ground arith

refuse-IsRefused :
    (name : Text) (asked t : Msg.Tunnel) (c : Control) (w : World)
    → c.tunnels name ≡ none
    → IsRefused name asked (refuse asked t c w)
refuse-IsRefused name asked t c w e = record {
  gone = ap (λ m. m name) (send-tunnels (refusal (public_addr t)) c) ∙ e;
  entry = refl;
  stops = send-stops (refusal (public_addr t)) c;
}

pub register-IsOpen :
    (name : Text) (t : Msg.Tunnel) (lis : Option ℕ) (c : Control) (w : World)
    → let (c', w') = register name t lis c w in IsOpen name (c', w', t, true)
unfolding register
register-IsOpen name t lis c w =
    let here : (w.fresh == w.fresh) ≡ true = ground arith in
    record {
      tunnel = w.fresh;
      mine = rw (text_eq_refl name) refl;
      routed = rw (text_eq_refl (public_addr t)) refl;
      config = rw here refl;
      live = rw here refl;
      goes_on = refl;
    }

enter-Served :
    (name : Text) (asked t : Msg.Tunnel) (lis taken : Option ℕ) (c : Control) (w : World)
    → c.tunnels name ≡ none
    → Served name asked (enter name asked t lis taken c w)
unfolding enter
enter-Served name asked t lis none c w e = inl (register-IsOpen name t lis c w)
enter-Served name asked t lis (some other) c w e = inr (refuse-IsRefused name asked t c _ e)

finish_tunnel-Served :
    (name : Text) (asked : Msg.Tunnel) (r : Outcome) (c : Control) (w : World)
    → c.tunnels name ≡ none
    → Served name asked (finish_tunnel name asked r c w)
unfolding finish_tunnel
finish_tunnel-Served name asked (not_opened t) c w e = inr (refuse-IsRefused name asked t c w e)
finish_tunnel-Served name asked (opened t lis) c w e = enter-Served name asked t lis _ c w e

-- After a round of `ServerAddTunnels` its name either leads to an open tunnel that has the
-- configuration of the answer and its public address, or to none; then the request goes back as it
-- was, and a loop that stops has closed the control.
pub add_tunnel-Served :
    (listen : Text → ℕ → World → Option (ℕ × ℕ)) (conf : ServerConf) (name : Text) (t : Msg.Tunnel)
    (c : Control) (w : World)
    → Served name t (add_tunnel listen conf name t c w)
unfolding add_tunnel
add_tunnel-Served listen conf name t c w =
    finish_tunnel-Served name t _ _ _ (close_old-gone name (c.tunnels name) c w refl)
