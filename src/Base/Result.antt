-- ===== src/Base/Result.antt =====
-- Calls that may fail: a value, an error value, or a run-time panic (an index or a slice bound out
-- of range).
use Prim.Native.Nat.{ℕ, zero, suc, ◌≤◌, ◌<◌}
use mathlib.Core.Path.{◌≡◌, refl, ap, ◌∙◌}
use mathlib.Core.Bool.{Bool, true, false}
use mathlib.Core.Logic.{◌⊎◌, inl, inr}
use mathlib.Core.Option.{none, some}
use mathlib.Core.List.{List, [], ◌∷◌, ◌++◌}
use native.Mathlib.Omega.{arith}
use lunnel.Base.Tests.{ltb, if◌then◌else◌}
use lunnel.Base.Lists.{
  length, get_elem?, get_or, take, drop, length-append, drop-append_length, take-append_length,
}

pub data Result {ℓ κ} (E : Type ℓ) (A : Type κ) : Type (ℓ ⊔ κ) where
  ok : A → Result E A
  err : E → Result E A
  panic : Result E A

infixl 5 ◌>>=◌ ◌>>◌
abbrev pub ◌>>=◌ {ℓ κ μ} :
    {E : Type ℓ} {A : Type κ} {B : Type μ} → Result E A → (A → Result E B) → Result E B
ok a >>= f = f a
err e >>= f = err e
panic >>= f = panic

abbrev pub ◌>>◌ {ℓ μ} : {E : Type ℓ} {B : Type μ} → Result E (Unit {0}) → Result E B → Result E B
m >> k = m >>= λ _. k

-- Fails with `e` when the test holds, as the guards of the source do.
abbrev pub fail_if {ℓ} : {E : Type ℓ} → Bool → E → Result E (Unit {0})
fail_if true e = err e
fail_if false e = ok tt

abbrev pub NoPanic {ℓ κ} : {E : Type ℓ} {A : Type κ} → Result E A → Type 0
NoPanic (ok a) = Unit
NoPanic (err e) = Unit
NoPanic panic = ⊥

-- An element of a slice, and a slice from an offset on: both panic out of range.
unfoldable pub index {ℓ} : {E : Type ℓ} → List ℕ → ℕ → Result E ℕ
index xs i = elim (get_elem? xs i) [ none ↦ panic | some a ↦ ok a ]

unfoldable pub slice_from {ℓ} : {E : Type ℓ} → ℕ → List ℕ → Result E (List ℕ)
slice_from n xs = if ltb (length xs) n then panic else ok (drop n xs)

unfoldable pub slice_to {ℓ} : {E : Type ℓ} → ℕ → List ℕ → Result E (List ℕ)
slice_to n xs = if ltb (length xs) n then panic else ok (take n xs)

get_elem?-lt : (xs : List ℕ) (i : ℕ) → i < length xs → get_elem? xs i ≡ some (get_or xs i 0)
get_elem?-lt [] i h = absurd (omega arith)
get_elem?-lt (x ∷ xs) zero h = refl
get_elem?-lt (x ∷ xs) (suc i) h = get_elem?-lt xs i (omega arith)

module _ {ℓ} {E : Type ℓ} where
  pub index-ok : (xs : List ℕ) (i : ℕ) → i < length xs → index {E = E} xs i ≡ ok (get_or xs i 0)
  unfolding index
  index-ok xs i h = rw (get_elem?-lt xs i h, index)

  pub slice_from-ok :
      (n : ℕ) (xs : List ℕ) → n ≤ length xs → slice_from {E = E} n xs ≡ ok (drop n xs)
  unfolding slice_from
  slice_from-ok n xs h = ground arith

  pub slice_to-ok : (n : ℕ) (xs : List ℕ) → n ≤ length xs → slice_to {E = E} n xs ≡ ok (take n xs)
  unfolding slice_to
  slice_to-ok n xs h = ground arith

  pub slice_from-append : (xs ys : List ℕ) → slice_from {E = E} (length xs) (xs ++ ys) ≡ ok ys
  slice_from-append xs ys =
      slice_from-ok (length xs) (xs ++ ys) (omega (arith, length-append xs ys))
      ∙ ap ok (drop-append_length xs ys)

  pub slice_to-append : (xs ys : List ℕ) → slice_to {E = E} (length xs) (xs ++ ys) ≡ ok xs
  slice_to-append xs ys =
      slice_to-ok (length xs) (xs ++ ys) (omega (arith, length-append xs ys))
      ∙ ap ok (take-append_length xs ys)

  pub NoPanic-bind {κ μ} :
      {A : Type κ} {B : Type μ} (m : Result E A) (f : A → Result E B)
      → NoPanic m
      → ((a : A) → m ≡ ok a → NoPanic (f a))
      → NoPanic (m >>= f)
  NoPanic-bind (ok a) f p q = q a refl
  NoPanic-bind (err e) f p q = tt
  NoPanic-bind panic f p q = p

-- A bind that succeeds: so does its first part.
pub bind-ok {ℓ κ μ} :
    {E : Type ℓ} {A : Type κ} {B : Type μ} (m : Result E A) (f : A → Result E B) (b : B)
    → (m >>= f) ≡ ok b
    → (a : A) × (m ≡ ok a) × (f a ≡ ok b)
bind-ok (ok a) f b e = (a, refl, e)
bind-ok (err x) f b e = absurd (ground arith)
bind-ok panic f b e = absurd (ground arith)

abbrev from_ok {ℓ κ} : {E : Type ℓ} {A : Type κ} → A → Result E A → A
from_ok d (ok a) = a
from_ok d (err e) = d
from_ok d panic = d

pub ok-injective {ℓ κ} :
    {E : Type ℓ} {A : Type κ} {a b : A} → ◌≡◌ {A = Result E A} (ok a) (ok b) → a ≡ b
ok-injective {a} e = ap (from_ok a) e

pub Result-cases {ℓ κ} :
    {E : Type ℓ} {A : Type κ} (r : Result E A)
    → ((a : A) × (r ≡ ok a)) ⊎ (((e : E) × (r ≡ err e)) ⊎ (r ≡ panic))
Result-cases (ok a) = inl (a, refl)
Result-cases (err e) = inr (inl (e, refl))
Result-cases panic = inr (inr refl)
