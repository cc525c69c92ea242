-- ===== src/Client/Switch.antt =====
-- The loop of `Main` of client/client.go that dials the server again and again.
use lunnel.Base.{
  ℕ, zero, suc, ◌+◌, ◌/◌, ◌%◌, ◌≡◌, refl, ap, ◌∙◌, sym, Bool, true, false, Bool-cases, inl, inr,
  List, [], ◌∷◌, arith, leb, ◌==◌, if◌then◌else◌, All,
}
use lunnel.Base.Text.{Text, text, text_eq}

pub record Dialer : Type 0 where
  pub transport_mode : Text
  pub transport_retry : ℕ

unfoldable pub first : Text → Dialer
first transport = record {
  transport_mode = if text_eq transport (text "mix") then text "kcp" else transport;
  transport_retry = 0;
}

unfoldable pub other_mode : Text → Text
other_mode m = if text_eq m (text "kcp") then text "tcp" else text "kcp"

-- The part of a round before the call of `dialAndRun`.
unfoldable pub switch : Text → Dialer → Dialer
switch transport d =
    if text_eq transport (text "mix")
    then (if leb 3 (d.transport_retry + 1)
        then record { transport_mode = other_mode d.transport_mode; transport_retry = 0 }
        else record d { transport_retry = d.transport_retry + 1 })
    else d

-- The part behind it: whether the run was a long one.
unfoldable pub after : Bool → Dialer → Dialer
after long d = if long then record d { transport_retry = 0 } else d

-- The modes that are dialled, for the lengths of the runs.
unfoldable pub dials : Text → List Bool → Dialer → List Text
dials transport [] d = []
dials transport (long ∷ runs) d =
    let d' = switch transport d in d'.transport_mode ∷ dials transport runs (after long d')

-- The mode of the n-th dial, from 0 on, when no run is long: twice kcp, then three times each.
abbrev pub mode_at : ℕ → Text
mode_at n = if (n + 1) / 3 % 2 == 0 then text "kcp" else text "tcp"

unfoldable pub modes : ℕ → ℕ → List Text
modes from zero = []
modes from (suc n) = mode_at from ∷ modes (from + 1) n

abbrev pub short_runs : ℕ → List Bool
short_runs zero = []
short_runs (suc n) = false ∷ short_runs n

-- The dialer before the dial of number n.
abbrev before : ℕ → Dialer
before n = record {
  transport_mode = if n / 3 % 2 == 0 then text "kcp" else text "tcp";
  transport_retry = n % 3;
}

Dialer-path :
    {d e : Dialer}
    → d.transport_mode ≡ e.transport_mode
    → d.transport_retry ≡ e.transport_retry
    → d ≡ e
Dialer-path m r = λ i. record { transport_mode = m i; transport_retry = r i }

switch-before : (n : ℕ) → after false (switch (text "mix") (before n)) ≡ before (n + 1)
unfolding after switch other_mode
switch-before n = elim (Bool-cases (leb 3 (n % 3 + 1))) [
  | inl turn ↦
      let again : (n + 1) % 3 ≡ 0 = ground arith in
      elim (Bool-cases (n / 3 % 2 == 0)) [
        | inl even ↦
            let odd : ((n + 1) / 3 % 2 == 0) ≡ false = ground arith in
            rw (turn, even, odd) (Dialer-path refl (sym again))
        | inr odd ↦
            let even : ((n + 1) / 3 % 2 == 0) ≡ true = ground arith in
            rw (turn, odd, even) (Dialer-path refl (sym again))
      ]
  | inr stay ↦
      let third : (n + 1) / 3 ≡ n / 3 = ground arith in
      let more : (n + 1) % 3 ≡ n % 3 + 1 = ground arith in rw (stay, third, more) refl
]

after_short : (d : Dialer) → after false d ≡ d
unfolding after
after_short d = refl

dials-modes : (n from : ℕ) → dials (text "mix") (short_runs n) (before from) ≡ modes from n
unfolding dials modes
dials-modes zero from = refl
dials-modes (suc n) from =
    let step : switch (text "mix") (before from) ≡ before (from + 1) =
      sym (after_short _) ∙ switch-before from in
    rw (step, after_short) (ap (◌∷◌ (mode_at from)) (dials-modes n (from + 1)))

-- With the transport mix and short runs the client dials kcp twice, and from then on tcp and kcp in
-- turn, each three times.
pub dials-first_mix : (n : ℕ) → dials (text "mix") (short_runs n) (first (text "mix")) ≡ modes 0 n
unfolding first
dials-first_mix n = dials-modes n 0

after-mode : (long : Bool) (d : Dialer) → (after long d).transport_mode ≡ d.transport_mode
unfolding after
after-mode long d = ground arith

dials-fixed_from :
    (t : Text) (runs : List Bool) (d : Dialer)
    → text_eq t (text "mix") ≡ false
    → d.transport_mode ≡ t
    → All (λ m. m ≡ t) (dials t runs d)
unfolding dials switch
dials-fixed_from t [] d h e = tt
dials-fixed_from t (long ∷ runs) d h e =
    rw h (e, dials-fixed_from t runs (after long d) h (after-mode long d ∙ e))

-- With any transport other than mix the client dials that one every time, however long the runs
-- are.
pub dials-first_fixed :
    (t : Text) (runs : List Bool)
    → text_eq t (text "mix") ≡ false
    → All (λ m. m ≡ t) (dials t runs (first t))
unfolding first
dials-first_fixed t runs h = dials-fixed_from t runs (first t) h (rw h refl)
