-- ===== src/Server/Pipes/Unlink.antt =====
-- Taking a node out of a doubly linked list, and putting one in at its head.
use lunnel.Base.{ℕ, ◌≡◌, refl, ap, ◌∙◌, true, false, none, some, [], ◌∷◌, ◌++◌, arith, ◌==◌}
use lunnel.Server.Pipes.{Ptr, PipeNode, Heap, write, link_prev, unlink_at, unlink, push_front}
use lunnel.Server.Pipes.Segment.{
  Cells, head_or, last_or, Seg, has, Distinct, Apart, has-append, Distinct-append, Apart-has,
  Seg-frame, Seg-append, append-Seg, append-Distinct, link_prev-out, Seg-link_prev, last-has,
  Seg-set_next,
}

-- `head` and `h` hold the list `xs` of distinct nodes.
pub record IsDll (h : Heap) (head : Ptr) (xs : Cells) : Type 0 where
  pub starts : head ≡ head_or xs none
  pub links : Seg h none xs none
  pub distinct : Distinct xs

-- What is outside the list stays.
abbrev pub SameOutside : Cells → Heap → Heap → Type 0
SameOutside xs h g = (b : ℕ) → has b xs ≡ false → g b ≡ h b

last-some : (a : ℕ) (xs : Cells) → (l : ℕ) × (last_or (some a) xs ≡ some l)
last-some a [] = (a, refl)
last-some a ((b, s) ∷ xs) = last-some b xs

head-has : (xs : Cells) (b : ℕ) → head_or xs none ≡ some b → has b xs ≡ true
head-has [] b e = ground arith
head-has ((a, s) ∷ xs) b e = ground arith

Apart-tail : (xs : Cells) (a s : ℕ) (ys : Cells) → Apart xs ((a, s) ∷ ys) → Apart xs ys
Apart-tail [] a s ys p = tt
Apart-tail ((b, t) ∷ xs) a s ys p = (ground arith, Apart-tail xs a s ys p.1)

write-ne : (l : ℕ) (n : PipeNode) (h : Heap) (b : ℕ) → (l == b) ≡ false → write l n h b ≡ h b
write-ne l n h b e = ground arith

ne_of_has : (l b : ℕ) (xs : Cells) → has l xs ≡ true → has b xs ≡ false → (l == b) ≡ false
ne_of_has l b [] i o = ground arith
ne_of_has l b ((c, s) ∷ xs) i o = ground (arith, ne_of_has l b xs)

ne_sym : (c l : ℕ) → (c == l) ≡ false → (l == c) ≡ false
ne_sym c l e = ground arith

-- The run `front`, that ends in `l`, joined to `post`.
module _ (h : Heap) (b t l : ℕ) (pre post : Cells) (last : last_or (some b) pre ≡ some l)
    (apart : Apart ((b, t) ∷ pre) post) where
  abbrev front : Cells
  front = (b, t) ∷ pre

  abbrev skipped : Heap
  skipped = write l (record (h l) { next = head_or post none }) h

  abbrev joined : Heap
  joined = link_prev (head_or post none) (some l) skipped

  l_in : has l front ≡ true
  l_in = last-has b t l pre last

  l_out : has l post ≡ false
  l_out = Apart-has l front post apart l_in

  joined-front :
      (n : Ptr) → Seg h none front n → Distinct front → Seg joined none front (head_or post none)
  joined-front n s d =
      Seg-frame front skipped joined none (head_or post none)
        (Seg-set_next b t l pre h none n (head_or post none) s d last)
        (λ c i. link_prev-out post (some l) skipped c (Apart-has c front post apart i))

  joined-post :
      (p : Ptr) → Seg h p post none → Distinct post → Seg joined (last_or none front) post none
  joined-post p s d = rw last (
      Seg-link_prev post skipped p (some l)
        (Seg-frame post h skipped p none s
          (λ c i. write-ne l _ h c (ne_sym c l (ne_of_has c l post i l_out))))
        d)

  joined-outside : SameOutside (front ++ post) h joined
  joined-outside c o =
      let o_front : has c front ≡ false = ground (arith, has-append c front post) in
      let o_post : has c post ≡ false = ground (arith, has-append c front post) in
      link_prev-out post (some l) skipped c o_post
      ∙ write-ne l _ h c (ne_of_has l c front l_in o_front)

module _ (h : Heap) (head : Ptr) (a s : ℕ) (post : Cells) where
  -- What is promised of `unlink`: the list without the node, and nothing else changed.
  abbrev pub After : Cells → Type 0
  After pre =
      let (head', h') = unlink a head h in
      IsDll h' head' (pre ++ post) × SameOutside (pre ++ post) h h'

  unlink-first : IsDll h head ((a, s) ∷ post) → After []
  unfolding unlink unlink_at
  unlink-first v = rw (v.links.0) (
    record {
      starts = refl;
      links = Seg-link_prev post h (some a) none v.links.1 v.distinct.1;
      distinct = v.distinct.1;
    },
    link_prev-out post none h,
  )

  unlink-later :
      (b t : ℕ) (pre : Cells)
      → IsDll h head (((b, t) ∷ pre) ++ (a, s) ∷ post)
      → After ((b, t) ∷ pre)
  unfolding unlink unlink_at
  unlink-later b t pre v =
      let run = (b, t) ∷ pre in
      let (l, last) = last-some b pre in
      let (seg_front, seg_back) = Seg-append run ((a, s) ∷ post) h none none v.links in
      let (d_front, d_back, apart) = Distinct-append run ((a, s) ∷ post) v.distinct in
      let apart' = Apart-tail run a s post apart in
      let node : h a ≡ record { prev = some l; next = head_or post none; pipe = s } =
        seg_back.0
        ∙ ap (λ (q : Ptr). record { prev = q; next = head_or post none; pipe = s }) last in
      rw node (
        record {
          starts = v.starts;
          links =
              append-Seg run post _ none none
                (joined-front h b t l pre post last apart' (some a) seg_front d_front)
                (joined-post h b t l pre post last apart' (some a) seg_back.1 d_back.1);
          distinct = append-Distinct run post d_front d_back.1 apart';
        },
        joined-outside h b t l pre post last apart',
      )

  -- `unlink` takes out the node of any place of the list.
  pub unlink-IsDll : (pre : Cells) → IsDll h head (pre ++ (a, s) ∷ post) → After pre
  unlink-IsDll [] v = unlink-first v
  unlink-IsDll ((b, t) ∷ pre) v = unlink-later b t pre v

-- A new node comes first; the others stay.
pub push_front-IsDll :
    (h : Heap) (head : Ptr) (a p : ℕ) (xs : Cells)
    → IsDll h head xs
    → has a xs ≡ false
    → IsDll (push_front a p head h) (some a) ((a, p) ∷ xs)
      × SameOutside ((a, p) ∷ xs) h (push_front a p head h)
unfolding push_front
push_front-IsDll h head a p xs v out = rw v.starts (
  record {
    starts = refl;
    links = (
      ground arith,
      Seg-frame xs (link_prev (head_or xs none) (some a) h) _ (some a) none
          (Seg-link_prev xs h none (some a) v.links v.distinct)
          (λ b i.
            write-ne a _ (link_prev (head_or xs none) (some a) h) b
              (ne_sym b a (ne_of_has b a xs i out))),
    );
    distinct = (out, v.distinct);
  },
  λ b o.
      write-ne a _ (link_prev (head_or xs none) (some a) h) b (ground arith)
      ∙ link_prev-out xs (some a) h b (ground arith),
)

pub IsDll-frame :
    (h g : Heap) (head : Ptr) (xs : Cells)
    → IsDll h head xs
    → ((b : ℕ) → has b xs ≡ true → g b ≡ h b)
    → IsDll g head xs
IsDll-frame h g head xs v same = record {
  starts = v.starts;
  links = Seg-frame xs h g none none v.links same;
  distinct = v.distinct;
}
