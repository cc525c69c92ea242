-- ===== src/Crypto/Cfb/Blocks.antt =====
-- The byte-wise loop of crypto/conn.go against the textbook cipher feedback mode on whole blocks.
use lunnel.Base.{
  ℕ, suc, ◌+◌, ◌%◌, ◌<◌, ◌≡◌, refl, ap, ◌∙◌, bit_xor, List, [], ◌∷◌, ◌++◌, append_assoc, arith,
  length, length-append, get_or, set, concat,
}
use native.Mathlib.Nat.{mod-eq_of_lt}
use lunnel.Crypto.Cfb.{Block, Cfb, refill, key_byte, feed, encrypt}
use lunnel.Crypto.Cfb.Laws.{encrypt-append}

abbrev pub zip_xor : List ℕ → List ℕ → List ℕ
zip_xor (k ∷ ks) (b ∷ bs) = bit_xor k b ∷ zip_xor ks bs
zip_xor ks bs = []

-- Each block of the cipher text is the block of plain text masked by the encryption of the one
-- before.
unfoldable pub cfb_blocks : Block → List ℕ → List (List ℕ) → List (List ℕ)
cfb_blocks block iv [] = []
cfb_blocks block iv (p ∷ ps) =
    let c = zip_xor (block.encrypt_block iv) p in c ∷ cfb_blocks block c ps

length-zip_xor : (ks bs : List ℕ) → length ks ≡ length bs → length (zip_xor ks bs) ≡ length bs
length-zip_xor [] [] e = refl
length-zip_xor [] (b ∷ bs) e = absurd (omega arith)
length-zip_xor (k ∷ ks) [] e = absurd (omega arith)
length-zip_xor (k ∷ ks) (b ∷ bs) e = ap suc (length-zip_xor ks bs (omega arith))

get_or-append : (pre : List ℕ) (k : ℕ) (post : List ℕ) → get_or (pre ++ k ∷ post) (length pre) 0 ≡ k
get_or-append [] k post = refl
get_or-append (x ∷ pre) k post = get_or-append pre k post

set-append :
    (pre : List ℕ) (k : ℕ) (post : List ℕ) (c : ℕ)
    → set (pre ++ k ∷ post) (length pre) c ≡ pre ++ c ∷ post
set-append [] k post c = refl
set-append (x ∷ pre) k post c = ap (◌∷◌ x) (set-append pre k post c)

abbrev at : List ℕ → ℕ → Cfb
at v n = record { ivec = v; num = n }

module _ (block : Block) where
  module _ (pre : List ℕ) (k : ℕ) (post : List ℕ) (begun : 0 < length pre)
      (fits : length pre < block.block_size) where
    abbrev here : Cfb
    here = at (pre ++ k ∷ post) (length pre % block.block_size)

    refill_middle : refill block here ≡ pre ++ k ∷ post
    unfolding refill
    refill_middle = rw (mod-eq_of_lt fits) (ground arith)

    key_byte_middle : key_byte block here ≡ k
    unfolding key_byte
    key_byte_middle = rw (refill_middle, mod-eq_of_lt fits) (get_or-append pre k post)

    feed_middle :
        (c : ℕ) → feed block c here ≡ at (pre ++ c ∷ post) ((length pre + 1) % block.block_size)
    unfolding feed
    feed_middle c = rw (refill_middle, mod-eq_of_lt fits, set-append pre k post c)

  -- The rest of a block, with the bytes `pre` of it done.
  encrypt_rest :
      (pre post src : List ℕ)
      → 0 < length pre
      → length pre + length post ≡ block.block_size
      → length src ≡ length post
      → encrypt block src (at (pre ++ post) (length pre % block.block_size))
        ≡ (zip_xor post src, at (pre ++ zip_xor post src) 0)
  unfolding encrypt
  encrypt_rest pre [] [] p e f =
      let z : length pre % block.block_size ≡ 0 = grind (arith, e) in rw z
  encrypt_rest pre [] (b ∷ src) p e f = absurd (omega arith)
  encrypt_rest pre (k ∷ post) [] p e f = absurd (omega arith)
  encrypt_rest pre (k ∷ post) (b ∷ src) p e f =
      let c = bit_xor k b in
      let ih =
        encrypt_rest (pre ++ c ∷ []) post src (omega (arith, length-append pre (c ∷ [])))
          (omega (arith, length-append pre (c ∷ []))) (omega arith) in
      let ih' = simp (append_assoc, length-append) at ih in
      rw (key_byte_middle pre k post p (omega arith), feed_middle pre k post p (omega arith) c)
        (λ i. (c ∷ (ih' i).0, (ih' i).1))

  encrypt_block_split :
      (w iv p : List ℕ)
      → block.encrypt_block iv ≡ w
      → length w ≡ block.block_size
      → length p ≡ block.block_size
      → 0 < block.block_size
      → encrypt block p (at iv 0) ≡ (zip_xor w p, at (zip_xor w p) 0)
  unfolding encrypt key_byte feed refill
  encrypt_block_split [] iv p e f g h = absurd (omega arith)
  encrypt_block_split (k ∷ w) iv [] e f g h = absurd (omega arith)
  encrypt_block_split (k ∷ w) iv (b ∷ p) e f g h =
      let c = bit_xor k b in
      let rest = encrypt_rest (c ∷ []) w p (omega arith) (omega arith) (omega arith) in
      rw e (λ i. (c ∷ (rest i).0, (rest i).1))

  module _ (pos : 0 < block.block_size)
      (keeps : (v : List ℕ) → length (block.encrypt_block v) ≡ length v) where
    abbrev pub AreBlocks : List (List ℕ) → Type 0
    AreBlocks [] = Unit {0}
    AreBlocks (p ∷ ps) = (length p ≡ block.block_size) × AreBlocks ps

    -- On whole blocks, from the start of a block, the byte-wise loop computes cipher feedback
    -- block by block, for a cipher with blocks of at least one byte that keeps their length.
    pub encrypt-cfb_blocks :
        (ps : List (List ℕ)) (iv : List ℕ)
        → length iv ≡ block.block_size
        → AreBlocks ps
        → (encrypt block (concat ps) (at iv 0)).0 ≡ concat (cfb_blocks block iv ps)
    unfolding cfb_blocks
    encrypt-cfb_blocks [] iv e h = unfold encrypt in refl
    encrypt-cfb_blocks (p ∷ ps) iv e h =
        let w = block.encrypt_block iv in
        let c = zip_xor w p in
        let whole : length w ≡ block.block_size = keeps iv ∙ e in
        let first = encrypt_block_split w iv p refl whole h.0 pos in
        let c_whole : length c ≡ block.block_size = length-zip_xor w p (omega arith) ∙ h.0 in
        rw (encrypt-append block p (concat ps) (at iv 0), first)
          (ap (◌++◌ c) (encrypt-cfb_blocks ps c c_whole h.1))
