-- ===== src/Server/Tunnels/Queue.antt =====
-- `writeChan` and the context of a control through `ServerAddTunnels` of server/serControl.go.
use lunnel.Base.{
  ℕ, ◌≤◌, ◌≡◌, refl, true, Bool-cases, inl, inr, Option, none, some, [], ◌∷◌, ◌++◌, arith, ltb,
  length, length-append,
}
use lunnel.Base.Text.{Text}
use lunnel.Msg
use lunnel.Server.Tunnels.{
  World, Control, ServerConf, WriteReq, Outcome, opened, not_opened, send, close_old, register,
  enter, finish_tunnel, add_tunnel, add_loop, server_add_tunnels,
}

-- A channel within its 64 places stays so, and a closed control stays closed.
pub record Kept (c d : Control) : Type 0 where
  pub room : length c.write_chan ≤ 64 → length d.write_chan ≤ 64
  pub done : c.is_done ≡ true → d.is_done ≡ true

Kept-trans : {c d e : Control} → Kept c d → Kept d e → Kept c e
Kept-trans f g = record { room = λ h. g.room (f.room h); done = λ h. g.done (f.done h) }

pub send-Kept : (r : WriteReq) (c : Control) → Kept c (send r c).0
unfolding send
send-Kept r c = elim (Bool-cases (ltb (length c.write_chan) 64)) [
  | inl room ↦
      rw room
        (record { room = λ h. ground (arith, length-append c.write_chan (r ∷ [])); done = λ h. h })
  | inr full ↦ rw full (record { room = λ h. h; done = λ h. refl })
]

close_old-Kept :
    (name : Text) (o : Option ℕ) (c : Control) (w : World) → Kept c (close_old name o c w).0
unfolding close_old
close_old-Kept name none c w = record { room = λ h. h; done = λ h. h }
close_old-Kept name (some t) c w = record { room = λ h. h; done = λ h. h }

enter-Kept :
    (name : Text) (asked t : Msg.Tunnel) (lis taken : Option ℕ) (c : Control) (w : World)
    → Kept c (enter name asked t lis taken c w).0
unfolding enter register
enter-Kept name asked t lis none c w = record { room = λ h. h; done = λ h. h }
enter-Kept name asked t lis (some other) c w = send-Kept _ c

finish_tunnel-Kept :
    (name : Text) (asked : Msg.Tunnel) (r : Outcome) (c : Control) (w : World)
    → Kept c (finish_tunnel name asked r c w).0
unfolding finish_tunnel
finish_tunnel-Kept name asked (not_opened t) c w = send-Kept _ c
finish_tunnel-Kept name asked (opened t lis) c w = enter-Kept name asked t lis _ c w

module _ (listen : Text → ℕ → World → Option (ℕ × ℕ)) (conf : ServerConf) where
  add_tunnel-Kept :
      (name : Text) (t : Msg.Tunnel) (c : Control) (w : World)
      → Kept c (add_tunnel listen conf name t c w).0
  unfolding add_tunnel
  add_tunnel-Kept name t c w =
      Kept-trans (close_old-Kept name _ c w) (finish_tunnel-Kept name t _ _ _)

  add_loop-Kept :
      (through ts : Msg.AddTunnels) (c : Control) (w : World)
      → Kept c (add_loop listen conf through ts c w).0
  unfolding add_loop
  add_loop-Kept through [] c w = send-Kept _ c
  add_loop-Kept through ((name, t) ∷ rest) c w =
      let r = add_tunnel listen conf name t c w in
      elim (Bool-cases (r.3)) [
        | inl on ↦ rw on (
            Kept-trans (add_tunnel-Kept name t c w)
              (add_loop-Kept (through ++ (name, r.2) ∷ []) rest _ _))
        | inr off ↦ rw off (add_tunnel-Kept name t c w)
      ]

  pub server_add_tunnels-Kept :
      (ts : Msg.AddTunnels) (c : Control) (w : World)
      → Kept c (server_add_tunnels listen conf ts c w).0
  unfolding server_add_tunnels
  server_add_tunnels-Kept ts c w = add_loop-Kept [] ts c w
