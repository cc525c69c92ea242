-- ===== src/Server/Tunnels/Isolation.antt =====
-- What `ServerAddTunnels` of server/serControl.go leaves alone: the tunnels of the other controls.
use lunnel.Base.{
  ℕ, ◌<◌, ◌≤◌, ◌≡◌, ◌≢◌, ◌⊎◌, refl, ap, ◌∙◌, Bool, Bool-cases, inl, inr, Option, Option-cases, none,
  some, [], ◌∷◌, ◌++◌, arith,
}
use lunnel.Base.Text.{Text}
use lunnel.Base.Maps.{Map, store, delete}
use lunnel.Msg.{public_addr}
use lunnel.Msg
use lunnel.Server.Tunnels.{
  World, Control, ServerConf, WriteReq, Outcome, opened, not_opened, close, send, close_old,
  register, refuse, enter, finish_tunnel, open_tunnel, old_config, add_tunnel, add_loop,
  server_add_tunnels, close_listener,
}
use lunnel.Server.Tunnels.Routing.{
  IsRouted, Owned, close-IsRouted, register-IsRouted, IsRouted-frame, close-fresh, fresh_other,
}

-- From the state `c`, `w` to `c'`, `w'`: the map is in order, the control's tunnels have been made,
-- and a tunnel that `c` did not have is as it was, and is not one of `c'`.
pub record Safe (c : Control) (w : World) (c' : Control) (w' : World) : Type 0 where
  pub routed : IsRouted w'
  pub owned : Owned c' w'
  pub grows : w.fresh ≤ w'.fresh
  pub others :
      (u : ℕ)
      → u < w.fresh
      → ((name : Text) → c.tunnels name ≢ some u)
      → (w'.tunnels u ≡ w.tunnels u) × ((name : Text) → c'.tunnels name ≢ some u)

Safe-refl : (c : Control) (w : World) → IsRouted w → Owned c w → Safe c w c w
Safe-refl c w v o = record {
  routed = v;
  owned = o;
  grows = omega arith;
  others = λ u b n. (refl, n);
}

Safe-trans :
    (c : Control) (w : World) (d : Control) (x : World) (e : Control) (y : World)
    → Safe c w d x
    → Safe d x e y
    → Safe c w e y
Safe-trans c w d x e y s t = record {
  routed = t.routed;
  owned = t.owned;
  grows = omega (arith, s.grows, t.grows);
  others = λ u b n.
      let (same, out) = s.others u b n in
      let (same', out') = t.others u (omega (arith, s.grows)) out in (same' ∙ same, out');
}

close-other : (t u : ℕ) (w : World) → t ≢ u → (close t w).tunnels u ≡ w.tunnels u
unfolding close
close-other t u w n = ground arith

delete-none : (k q : Text) (m : Map ℕ) (t : ℕ) → delete k m q ≡ some t → m q ≡ some t
delete-none k q m t e = ground arith

close_old-Safe :
    (name : Text) (c : Control) (w : World)
    → IsRouted w
    → Owned c w
    → let (c', w') = close_old name (c.tunnels name) c w in Safe c w c' w'
close_old-Safe name c w v o = elim (Option-cases (c.tunnels name)) [
  | inl e ↦ rw e (unfold close_old in Safe-refl c w v o)
  | inr (t, e) ↦ rw e (
      unfold close_old in
      record {
        routed = close-IsRouted w t v (o name t e);
        owned = λ q u f. rw (close-fresh t w) (o q u (delete-none name q c.tunnels u f));
        grows = rw (close-fresh t w) (omega arith);
        others = λ u b n. (
          close-other t u w (λ s. n name (e ∙ ap some s)),
          λ q f. n q (delete-none name q c.tunnels u f),
        );
      })
]

pub send-tunnels : (r : WriteReq) (c : Control) → (send r c).0.tunnels ≡ c.tunnels
unfolding send
send-tunnels r c = ground arith

send-Safe :
    (r : WriteReq) (c : Control) (w : World) → IsRouted w → Owned c w → Safe c w (send r c).0 w
send-Safe r c w v o = record {
  routed = v;
  owned = rw (send-tunnels r c) o;
  grows = omega arith;
  others = λ u b n. (refl, rw (send-tunnels r c) n);
}

store_cases : (k q : Text) (n u : ℕ) (m : Map ℕ) → store k n m q ≡ some u → (n ≡ u) ⊎ (m q ≡ some u)
store_cases k q n u m e = ground arith

register-Safe :
    (name : Text) (t : Msg.Tunnel) (lis : Option ℕ) (c : Control) (w : World)
    → IsRouted w
    → Owned c w
    → w.tunnel_map (public_addr t) ≡ none
    → let (c', w') = register name t lis c w in Safe c w c' w'
unfolding register
register-Safe name t lis c w v o e = record {
  routed = register-IsRouted name t lis c w v e;
  owned = λ q u f. elim (store_cases name q w.fresh u c.tunnels f) [
    | inl new ↦ omega (arith, new)
    | inr old ↦ omega (arith, o q u old)
  ];
  grows = omega arith;
  others = λ u b n. (
    rw (fresh_other w u b) refl,
    λ q f. elim (store_cases name q w.fresh u c.tunnels f) [
      | inl new ↦ omega (arith, new, b)
      | inr old ↦ n q old
    ],
  );
}

-- The state that a round returns, without its flag and entry.
abbrev SafeRound : Control → World → Control × World × Msg.Tunnel × Bool → Type 0
SafeRound c w r = Safe c w r.0 r.1

closed_listener-Safe :
    (c : Control) (w : World) (idx : ℕ) (closed : ℕ → Bool)
    → IsRouted w
    → Owned c w
    → Safe c w c (record w { sub_domain_idx = idx; listener_closed = closed })
closed_listener-Safe c w idx closed v o = record {
  routed = IsRouted-frame w idx closed v;
  owned = o;
  grows = omega arith;
  others = λ u b n. (refl, n);
}

refuse-Safe :
    (asked t : Msg.Tunnel) (c : Control) (w : World)
    → IsRouted w
    → Owned c w
    → SafeRound c w (refuse asked t c w)
refuse-Safe asked t c w v o = send-Safe _ c w v o

enter-Safe :
    (name : Text) (asked t : Msg.Tunnel) (lis : Option ℕ) (c : Control) (w : World)
    → IsRouted w
    → Owned c w
    → SafeRound c w (enter name asked t lis (w.tunnel_map (public_addr t)) c w)
enter-Safe name asked t lis c w v o = elim (Option-cases (w.tunnel_map (public_addr t))) [
  | inl free ↦ rw free (unfold enter in register-Safe name t lis c w v o free)
  | inr (other, taken) ↦ rw taken (
      unfold enter in
      let w' = record w { listener_closed = close_listener lis w.listener_closed } in
      let s =
        closed_listener-Safe c w w.sub_domain_idx (close_listener lis w.listener_closed) v o in
      Safe-trans c w c w' _ w' s (refuse-Safe asked t c w' s.routed s.owned))
]

finish_tunnel-Safe :
    (name : Text) (asked : Msg.Tunnel) (r : Outcome) (c : Control) (w : World)
    → IsRouted w
    → Owned c w
    → SafeRound c w (finish_tunnel name asked r c w)
unfolding finish_tunnel
finish_tunnel-Safe name asked (not_opened t) c w v o = refuse-Safe asked t c w v o
finish_tunnel-Safe name asked (opened t lis) c w v o = enter-Safe name asked t lis c w v o

module _ (listen : Text → ℕ → World → Option (ℕ × ℕ)) (conf : ServerConf) where
  pub add_tunnel-Safe :
      (name : Text) (t : Msg.Tunnel) (c : Control) (w : World)
      → IsRouted w
      → Owned c w
      → SafeRound c w (add_tunnel listen conf name t c w)
  unfolding add_tunnel
  add_tunnel-Safe name t c w v o =
      let (c1, w1) = close_old name (c.tunnels name) c w in
      let res = open_tunnel listen conf t (old_config (c.tunnels name) w1) w1 in
      let w2 = record w1 { sub_domain_idx = res.1 } in
      let s = close_old-Safe name c w v o in
      let s2 = closed_listener-Safe c1 w1 res.1 w1.listener_closed s.routed s.owned in
      let f = finish_tunnel name t res.0 c1 w2 in
      Safe-trans c w c1 w1 f.0 f.1 s (
        Safe-trans c1 w1 c1 w2 f.0 f.1 s2
          (finish_tunnel-Safe name t res.0 c1 w2 s2.routed s2.owned))

  add_loop-Safe :
      (through todo : Msg.AddTunnels) (c : Control) (w : World)
      → IsRouted w
      → Owned c w
      → let (c', w') = add_loop listen conf through todo c w in Safe c w c' w'
  unfolding add_loop
  add_loop-Safe through [] c w v o = send-Safe _ c w v o
  add_loop-Safe through ((name, t) ∷ todo) c w v o =
      let r = add_tunnel listen conf name t c w in
      let s = add_tunnel-Safe name t c w v o in
      let t' = r.2 in
      let more = add_loop listen conf (through ++ (name, t') ∷ []) todo r.0 r.1 in
      elim (Bool-cases (r.3)) [
        | inl on ↦ rw on (
            Safe-trans c w r.0 r.1 more.0 more.1 s
              (add_loop-Safe (through ++ (name, t') ∷ []) todo r.0 r.1 s.routed s.owned))
        | inr off ↦ rw off s
      ]

  -- From a map of public addresses in order, and a control whose tunnels have been made, whatever
  -- is asked for, `ServerAddTunnels` leaves the map in order, and every tunnel that the control
  -- did not have as it was.
  pub server_add_tunnels-Safe :
      (sstm : Msg.AddTunnels) (c : Control) (w : World)
      → IsRouted w
      → Owned c w
      → let (c', w') = server_add_tunnels listen conf sstm c w in Safe c w c' w'
  unfolding server_add_tunnels
  server_add_tunnels-Safe sstm c w v o = add_loop-Safe [] sstm c w v o
