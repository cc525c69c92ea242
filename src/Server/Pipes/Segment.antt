-- ===== src/Server/Pipes/Segment.antt =====
-- Doubly linked runs of nodes in the heap, as lists of addresses and pipes.
use lunnel.Base.{
  ℕ, ◌+◌, ◌<◌, ◌≡◌, refl, sym, ap, ◌∙◌, Bool, true, false, ◌||◌, none, some, List, [], ◌∷◌, ◌++◌,
  arith, ◌==◌,
}
use lunnel.Server.Pipes.{Ptr, Heap, write, link_prev}

-- The address of a node and the pipe in it.
abbrev pub Cells : Type 0
Cells = List (ℕ × ℕ)

-- Where a run that is followed by `n` starts, and where one that follows `p` ends.
abbrev pub head_or : Cells → Ptr → Ptr
head_or [] n = n
head_or ((a, s) ∷ xs) n = some a

abbrev pub last_or : Ptr → Cells → Ptr
last_or p [] = p
last_or p ((a, s) ∷ xs) = last_or (some a) xs

-- The nodes of `xs` follow one another from `p` on, and the last one leads to `n`.
abbrev pub Seg : Heap → Ptr → Cells → Ptr → Type 0
Seg h p [] n = Unit {0}
Seg h p ((a, s) ∷ xs) n =
    (h a ≡ record { prev = p; next = head_or xs n; pipe = s }) × Seg h (some a) xs n

-- Whether an address is one of a run's.
abbrev pub has : ℕ → Cells → Bool
has a [] = false
has a ((b, s) ∷ xs) = a == b || has a xs

abbrev pub Distinct : Cells → Type 0
Distinct [] = Unit {0}
Distinct ((a, s) ∷ xs) = (has a xs ≡ false) × Distinct xs

-- No address of one run is one of the other.
abbrev pub Apart : Cells → Cells → Type 0
Apart [] ys = Unit {0}
Apart ((a, s) ∷ xs) ys = (has a ys ≡ false) × Apart xs ys

-- All addresses of a run are below a bound.
abbrev pub Below : ℕ → Cells → Type 0
Below n [] = Unit {0}
Below n ((a, s) ∷ xs) = (a < n) × Below n xs

pub has-append : (a : ℕ) (xs ys : Cells) → has a (xs ++ ys) ≡ (has a xs || has a ys)
has-append a [] ys = refl
has-append a ((b, s) ∷ xs) ys = ground (arith, has-append a xs ys)

pub head_or-append : (xs ys : Cells) (n : Ptr) → head_or (xs ++ ys) n ≡ head_or xs (head_or ys n)
head_or-append [] ys n = refl
head_or-append ((a, s) ∷ xs) ys n = refl

pub last_or-append : (p : Ptr) (xs ys : Cells) → last_or p (xs ++ ys) ≡ last_or (last_or p xs) ys
last_or-append p [] ys = refl
last_or-append p ((a, s) ∷ xs) ys = last_or-append (some a) xs ys

pub Distinct-append :
    (xs ys : Cells) → Distinct (xs ++ ys) → Distinct xs × Distinct ys × Apart xs ys
Distinct-append [] ys d = (tt, d, tt)
Distinct-append ((a, s) ∷ xs) ys d =
    let (dx, dy, apart) = Distinct-append xs ys d.1 in
    ((ground (arith, has-append a xs ys), dx), dy, (ground (arith, has-append a xs ys), apart))

pub append-Distinct :
    (xs ys : Cells) → Distinct xs → Distinct ys → Apart xs ys → Distinct (xs ++ ys)
append-Distinct [] ys dx dy apart = dy
append-Distinct ((a, s) ∷ xs) ys dx dy apart =
    (ground (arith, has-append a xs ys), append-Distinct xs ys dx.1 dy apart.1)

-- An address of one run is none of the other's.
pub Apart-has : (a : ℕ) (xs ys : Cells) → Apart xs ys → has a xs ≡ true → has a ys ≡ false
Apart-has a [] ys apart i = ground arith
Apart-has a ((b, s) ∷ xs) ys apart i = ground (arith, Apart-has a xs ys apart.1)

pub Apart-append_right : (xs ys zs : Cells) → Apart xs ys → Apart xs zs → Apart xs (ys ++ zs)
Apart-append_right [] ys zs p q = tt
Apart-append_right ((a, s) ∷ xs) ys zs p q =
    (ground (arith, has-append a ys zs), Apart-append_right xs ys zs p.1 q.1)

pub Apart-nil : (xs : Cells) → Apart xs []
Apart-nil [] = tt
Apart-nil ((a, s) ∷ xs) = (refl, Apart-nil xs)

pub Apart-sym_cons :
    (a s : ℕ) (xs ys : Cells) → Apart xs ys → has a xs ≡ false → Apart xs ((a, s) ∷ ys)
Apart-sym_cons a s [] ys p out = tt
Apart-sym_cons a s ((b, t) ∷ xs) ys p out =
    (ground arith, Apart-sym_cons a s xs ys p.1 (ground arith))

pub Below-fresh : (n : ℕ) (xs : Cells) → Below n xs → has n xs ≡ false
Below-fresh n [] b = refl
Below-fresh n ((a, s) ∷ xs) b = ground (arith, Below-fresh n xs b.1)

pub Below-suc : (n : ℕ) (xs : Cells) → Below n xs → Below (n + 1) xs
Below-suc n [] b = tt
Below-suc n ((a, s) ∷ xs) b = (omega arith, Below-suc n xs b.1)

-- A run survives a change of the heap that spares its nodes.
pub Seg-frame :
    (xs : Cells) (h g : Heap) (p n : Ptr)
    → Seg h p xs n
    → ((a : ℕ) → has a xs ≡ true → g a ≡ h a)
    → Seg g p xs n
Seg-frame [] h g p n s same = tt
Seg-frame ((a, t) ∷ xs) h g p n s same =
    (same a (ground arith) ∙ s.0, Seg-frame xs h g (some a) n s.1 (λ b i. same b (ground arith)))

pub Seg-append :
    (xs ys : Cells) (h : Heap) (p n : Ptr)
    → Seg h p (xs ++ ys) n
    → Seg h p xs (head_or ys n) × Seg h (last_or p xs) ys n
Seg-append [] ys h p n s = (tt, s)
Seg-append ((a, t) ∷ xs) ys h p n s =
    let (front, back) = Seg-append xs ys h (some a) n s.1 in
    (
      (
        s.0 ∙ ap (λ (q : Ptr). record { prev = p; next = q; pipe = t }) (head_or-append xs ys n),
        front,
      ),
      back,
    )

pub append-Seg :
    (xs ys : Cells) (h : Heap) (p n : Ptr)
    → Seg h p xs (head_or ys n)
    → Seg h (last_or p xs) ys n
    → Seg h p (xs ++ ys) n
append-Seg [] ys h p n front back = back
append-Seg ((a, t) ∷ xs) ys h p n front back = (
  front.0
      ∙ ap (λ (q : Ptr). record { prev = p; next = q; pipe = t }) (sym (head_or-append xs ys n)),
  append-Seg xs ys h (some a) n front.1 back,
)

-- Away from the run, `link_prev` to its head changes nothing.
pub link_prev-out :
    (xs : Cells) (q : Ptr) (h : Heap) (b : ℕ)
    → has b xs ≡ false
    → link_prev (head_or xs none) q h b ≡ h b
unfolding link_prev
link_prev-out [] q h b out = refl
link_prev-out ((a, s) ∷ xs) q h b out = ground arith

-- A run that ends a list, behind another node.
pub Seg-link_prev :
    (xs : Cells) (h : Heap) (p q : Ptr)
    → Seg h p xs none
    → Distinct xs
    → Seg (link_prev (head_or xs none) q h) q xs none
unfolding link_prev
Seg-link_prev [] h p q s d = tt
Seg-link_prev ((a, t) ∷ xs) h p q s d =
    (ground (arith, s.0), Seg-frame xs h _ (some a) none s.1 (λ b i. ground arith))

pub last-has : (a s l : ℕ) (xs : Cells) → last_or (some a) xs ≡ some l → has l ((a, s) ∷ xs) ≡ true
last-has a s l [] e = ground arith
last-has a s l ((b, t) ∷ xs) e = ground (arith, last-has b t l xs e)

-- A run before another node.
pub Seg-set_next :
    (a t l : ℕ) (xs : Cells) (h : Heap) (p n m : Ptr)
    → Seg h p ((a, t) ∷ xs) n
    → Distinct ((a, t) ∷ xs)
    → last_or (some a) xs ≡ some l
    → Seg (write l (record (h l) { next = m }) h) p ((a, t) ∷ xs) m
Seg-set_next a t l [] h p n m s d e = (ground (arith, s.0), tt)
Seg-set_next a t l ((b, u) ∷ xs) h p n m s d e =
    let inside = last-has b u l xs e in
    (ground (arith, s.0, inside), Seg-set_next b u l xs h (some a) n m s.1 d.1 e)
