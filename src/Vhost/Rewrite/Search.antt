-- ===== src/Vhost/Rewrite/Search.antt =====
-- Where bytes.IndexByte of vhost/vhost.go finds a byte.
use lunnel.Base.{
  ℕ, suc, ◌<◌, ◌≡◌, refl, ap, Bool-cases, inl, inr, Option, none, some, Option-cases, [], ◌∷◌, ◌++◌,
  arith, ◌==◌, take, drop, length,
}
use lunnel.Base.Text.{Text}
use lunnel.Vhost.Rewrite.{shift, index_byte}

pub some_absurd : {i : ℕ} → some i ≡ none → ⊥
some_absurd e = ground arith

pub shift-none : (o : Option ℕ) → shift o ≡ none → o ≡ none
shift-none none e = refl
shift-none (some i) e = absurd (some_absurd e)

-- A byte that a text lacks is found right behind it.
pub index_byte-behind :
    (b : ℕ) (s t : Text) → index_byte b s ≡ none → index_byte b (s ++ b ∷ t) ≡ some (length s)
unfolding index_byte
index_byte-behind b [] t e = ground arith
index_byte-behind b (c ∷ s) t e = elim (Bool-cases (c == b)) [
  | inl here ↦ absurd (some_absurd (rw here at e))
  | inr away ↦
      let rest : index_byte b s ≡ none = shift-none _ (rw away at e) in
      rw (away, index_byte-behind b s t rest) refl
]

-- The first part of a text lacks what the whole text lacks.
pub index_byte-front : (b : ℕ) (s t : Text) → index_byte b (s ++ t) ≡ none → index_byte b s ≡ none
unfolding index_byte
index_byte-front b [] t e = refl
index_byte-front b (c ∷ s) t e = elim (Bool-cases (c == b)) [
  | inl here ↦ absurd (some_absurd (rw here at e))
  | inr away ↦ rw (away, index_byte-front b s t (shift-none _ (rw away at e))) refl
]

-- What is found is within the text.
pub index_byte-lt : (b : ℕ) (s : Text) (i : ℕ) → index_byte b s ≡ some i → i < length s
unfolding index_byte
index_byte-lt b [] i e = absurd (ground (arith, e))
index_byte-lt b (c ∷ s) i e = elim (Bool-cases (c == b)) [
  | inl here ↦ let e' = rw here at e in ground (arith, e')
  | inr away ↦ elim (Option-cases (index_byte b s)) [
    | inl gone ↦ absurd (ground (arith, rw (away, gone) at e))
    | inr (j, found) ↦
        let e' = rw (away, found) at e in ground (arith, e', index_byte-lt b s j found)
  ]
]

-- A line is cut off with its end.
pub drop-suc-length : (s : Text) (b : ℕ) (t : Text) → drop (suc (length s)) (s ++ b ∷ t) ≡ t
drop-suc-length [] b t = refl
drop-suc-length (c ∷ s) b t = drop-suc-length s b t

pub take-suc-length :
    (s : Text) (b : ℕ) (t : Text) → take (suc (length s)) (s ++ b ∷ t) ≡ s ++ b ∷ []
take-suc-length [] b t = refl
take-suc-length (c ∷ s) b t = ap (◌∷◌ c) (take-suc-length s b t)
