-- ===== src/Server/Tunnels/Routing.antt =====
-- The map of public addresses against the tunnels, through every operation of
-- server/serControl.go on tunnels.
use lunnel.Base.{
  ℕ, ◌<◌, ◌≡◌, ◌≢◌, refl, sym, ap, ◌∙◌, Bool, true, false, Bool-cases, inl, inr, Option, none, some,
  List, [], ◌∷◌, arith, ◌==◌, ==_iff, All, if◌then◌else◌,
}
use lunnel.Base.Text.{Text, text_eq, eq_of_text_eq, text_eq_refl}
use lunnel.Base.Maps.{delete}
use lunnel.Msg.{public_addr}
use lunnel.Msg
use lunnel.Server.Tunnels.{World, Control, close, register, close_tunnels, close_listener}

abbrev pub addr_of : World → ℕ → Text
addr_of w t = public_addr ((w.tunnels t).tunnel_config)

-- The map leads to open tunnels at their own addresses, and to every open tunnel.
pub record IsRouted (w : World) : Type 0 where
  pub leads :
      (addr : Text) (t : ℕ)
      → w.tunnel_map addr ≡ some t
      → (t < w.fresh) × ((w.tunnels t).is_closed ≡ false) × (addr_of w t ≡ addr)
  pub listed :
      (t : ℕ) → t < w.fresh → (w.tunnels t).is_closed ≡ false → w.tunnel_map (addr_of w t) ≡ some t

-- The tunnels of a control have been made.
abbrev pub Owned : Control → World → Type 0
Owned c w = (name : Text) (t : ℕ) → c.tunnels name ≡ some t → t < w.fresh

-- Two open tunnels have two addresses.
pub addr_of-injective :
    (w : World) (t u : ℕ)
    → IsRouted w
    → t < w.fresh
    → u < w.fresh
    → (w.tunnels t).is_closed ≡ false
    → (w.tunnels u).is_closed ≡ false
    → addr_of w t ≡ addr_of w u
    → t ≡ u
addr_of-injective w t u v bt bu ot ou e =
    let same = sym (v.listed t bt ot) ∙ ap w.tunnel_map e ∙ v.listed u bu ou in ground (arith, same)

-- Two addresses that differ are those of two tunnels.
differ : (w : World) (t u : ℕ) → text_eq (addr_of w t) (addr_of w u) ≡ false → (t == u) ≡ false
differ w t u e = ground (arith, ap (addr_of w) {x = t} {y = u}, text_eq_refl (addr_of w u), same)
  where
    same : t ≡ u → text_eq (addr_of w t) (addr_of w u) ≡ true
    same f = rw f (text_eq_refl (addr_of w u))

some_absurd : {A : Type 0} {x : A} → none ≡ some x → ⊥
some_absurd e = ground arith

true_absurd : true ≡ false → ⊥
true_absurd e = ground arith

ne_of_test : (t u : ℕ) → (t == u) ≡ false → t ≢ u
ne_of_test t u e = ground arith

module _ (w : World) (t : ℕ) (v : IsRouted w) (made : t < w.fresh) where
  close_twice : (w.tunnels t).is_closed ≡ true → close t w ≡ w
  unfolding close
  close_twice e = rw e

  close_open :
      (w.tunnels t).is_closed ≡ false
      → close t w ≡ record w {
        tunnels = λ q.
            if t == q
            then record (w.tunnels t) { is_closed = true; listener = none }
            else w.tunnels q;
        tunnel_map = delete (addr_of w t) w.tunnel_map;
        listener_closed = close_listener ((w.tunnels t).listener) w.listener_closed;
      }
  unfolding close
  close_open e = rw e

  -- `Tunnel.Close` on a tunnel that has been made keeps the map in order: it leads to open tunnels
  -- at their own addresses, and to every open tunnel.
  pub close-IsRouted : IsRouted (close t w)
  close-IsRouted = elim (Bool-cases ((w.tunnels t).is_closed)) [
    | inl shut ↦ rw (close_twice shut) v
    | inr live ↦ rw (close_open live) (record {
      leads = λ addr u e. elim (Bool-cases (text_eq (addr_of w t) addr)) [
        | inl here ↦ absurd (some_absurd (rw here at e))
        | inr away ↦
            let (bu, ou, au) = v.leads addr u (rw away at e) in
            let other = differ w t u (rw au away) in rw other (bu, ou, au)
      ];
      listed = λ u bu ou. elim (Bool-cases (t == u)) [
        | inl here ↦ absurd (true_absurd (rw here at ou))
        | inr away ↦
            let open_u = rw away at ou in
            let apart : text_eq (addr_of w t) (addr_of w u) ≡ false =
              elim (Bool-cases (text_eq (addr_of w t) (addr_of w u))) [
                | inl same ↦ absurd (
                    omega (
                      arith,
                      addr_of-injective w t u v made bu live open_u
                          (eq_of_text_eq (addr_of w t) (addr_of w u) same),
                      ne_of_test t u away,
                    ))
                | inr e ↦ e
              ] in
            rw (away, apart) (v.listed u bu open_u)
      ];
    })
  ]

pub fresh_other : (w : World) (u : ℕ) → u < w.fresh → (w.fresh == u) ≡ false
fresh_other w u b = ground arith

fresh_here : (n u : ℕ) → some n ≡ some u → n ≡ u
fresh_here n u e = ground arith

-- A registration at an address that is free keeps the map in order.
pub register-IsRouted :
    (name : Text) (t : Msg.Tunnel) (lis : Option ℕ) (c : Control) (w : World)
    → IsRouted w
    → w.tunnel_map (public_addr t) ≡ none
    → IsRouted (register name t lis c w).1
unfolding register
register-IsRouted name t lis c w v e = record {
  leads = λ addr u f. elim (Bool-cases (text_eq (public_addr t) addr)) [
    | inl here ↦
        let mine : (w.fresh == u) ≡ true =
          (==_iff w.fresh u).1 (fresh_here w.fresh u (rw here at f)) in
        rw mine (
          omega (arith, fresh_here w.fresh u (rw here at f)),
          refl,
          eq_of_text_eq (public_addr t) addr here,
        )
    | inr away ↦
        let (bu, ou, au) = v.leads addr u (rw away at f) in
        rw (fresh_other w u bu) (omega arith, ou, au)
  ];
  listed = λ u bu ou. elim (Bool-cases (w.fresh == u)) [
    | inl here ↦ rw (here, text_eq_refl (public_addr t)) (ap some ((==_iff w.fresh u).0 here))
    | inr away ↦
        let old : u < w.fresh = omega (arith, ne_of_test w.fresh u away) in
        let open_u = rw away at ou in
        let apart : text_eq (public_addr t) (addr_of w u) ≡ false =
          elim (Bool-cases (text_eq (public_addr t) (addr_of w u))) [
            | inl same ↦ absurd (
                some_absurd (
                  sym e
                  ∙ ap w.tunnel_map (eq_of_text_eq (public_addr t) (addr_of w u) same)
                  ∙ v.listed u old open_u))
            | inr e ↦ e
          ] in
        rw (away, apart) (v.listed u old open_u)
  ];
}

-- Only these fields matter.
pub IsRouted-frame :
    (w : World) (idx : ℕ) (closed : ℕ → Bool)
    → IsRouted w
    → IsRouted (record w { sub_domain_idx = idx; listener_closed = closed })
IsRouted-frame w idx closed v = record { leads = v.leads; listed = v.listed }

pub close-fresh : (t : ℕ) (w : World) → (close t w).fresh ≡ w.fresh
unfolding close
close-fresh t w = ground arith

-- `closeTunnels` keeps the map of public addresses in order, for tunnels that have been made.
pub close_tunnels-IsRouted :
    (ts : List ℕ) (w : World)
    → IsRouted w
    → All (λ t. t < w.fresh) ts
    → IsRouted (close_tunnels ts w)
unfolding close_tunnels
close_tunnels-IsRouted [] w v h = v
close_tunnels-IsRouted (t ∷ ts) w v h =
    close_tunnels-IsRouted ts (close t w) (close-IsRouted w t v h.0) (rw (close-fresh t w) h.1)

pub close_tunnels-fresh : (ts : List ℕ) (w : World) → (close_tunnels ts w).fresh ≡ w.fresh
unfolding close_tunnels
close_tunnels-fresh [] w = refl
close_tunnels-fresh (t ∷ ts) w = close_tunnels-fresh ts (close t w) ∙ close-fresh t w
