-- ===== src/Server/Tunnels/Shutdown.antt =====
-- `closeTunnels` of server/serControl.go closes what it goes through.
use lunnel.Base.{ℕ, ◌≡◌, refl, true, Bool-cases, inl, inr, List, [], ◌∷◌, arith, ◌==◌}
use lunnel.Server.Pipes.Shut.{is_in}
use lunnel.Server.Tunnels.{World, close, close_tunnels}

close-closed : (t : ℕ) (w : World) → ((close t w).tunnels t).is_closed ≡ true
unfolding close
close-closed t w =
    let here : (t == t) ≡ true = ground arith in
    elim (Bool-cases ((w.tunnels t).is_closed)) [
      | inl shut ↦ rw (shut, shut) refl
      | inr live ↦ rw (live, here) refl
    ]

close-stays :
    (t u : ℕ) (w : World)
    → (w.tunnels u).is_closed ≡ true
    → ((close t w).tunnels u).is_closed ≡ true
unfolding close
close-stays t u w e = elim (Bool-cases ((w.tunnels t).is_closed)) [
  | inl shut ↦ rw shut e
  | inr live ↦ elim (Bool-cases (t == u)) [
    | inl here ↦ rw (live, here) refl
    | inr away ↦ rw (live, away) e
  ]
]

pub close_tunnels-stays :
    (ts : List ℕ) (u : ℕ) (w : World)
    → (w.tunnels u).is_closed ≡ true
    → ((close_tunnels ts w).tunnels u).is_closed ≡ true
unfolding close_tunnels
close_tunnels-stays [] u w e = e
close_tunnels-stays (t ∷ ts) u w e = close_tunnels-stays ts u (close t w) (close-stays t u w e)

pub close_tunnels-closed :
    (ts : List ℕ) (u : ℕ) (w : World)
    → is_in u ts ≡ true
    → ((close_tunnels ts w).tunnels u).is_closed ≡ true
unfolding close_tunnels
close_tunnels-closed [] u w e = absurd (ground (arith, e))
close_tunnels-closed (t ∷ ts) u w e = elim (Bool-cases (t == u)) [
  | inl here ↦
      let same : t ≡ u = ground (arith, here) in
      rw same (close_tunnels-stays ts u (close u w) (close-closed u w))
  | inr away ↦ close_tunnels-closed ts u (close t w) (rw away at e)
]
