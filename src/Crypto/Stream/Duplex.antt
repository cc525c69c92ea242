-- ===== src/Crypto/Stream/Duplex.antt =====
-- Two ends of a raw connection that hold the same key: what one end reads is what the other wrote,
-- however both divide the bytes into calls and mix reads with writes.
use lunnel.Base.{
  ℕ, ◌≡◌, refl, ap, sym, ◌∙◌, Bool-cases, inl, inr, true, some, List, [], ◌∷◌, ◌++◌, arith, length,
  take, take-append_length,
}
use lunnel.Crypto.Cfb.{Block, Cfb, encrypt, decrypt}
use lunnel.Crypto.Cfb.Laws.{decrypt-encrypt, encrypt-append, decrypt-append, length-decrypt}
use lunnel.Crypto.Stream.{
  CryptoStream, RawRead, fresh, new_crypto_stream, enc_state, dec_state, read, write, Op, writes,
  reads, Trace,
}

-- The joined bytes of the writes, and of the raw reads.
abbrev pub written : List Op → List ℕ
written [] = []
written (writes b ∷ ops) = b ++ written ops
written (reads r ∷ ops) = written ops

abbrev pub arrived : List Op → List ℕ
arrived [] = []
arrived (writes b ∷ ops) = arrived ops
arrived (reads r ∷ ops) = r.bytes ++ arrived ops

-- A raw read that fails brings no bytes.
abbrev pub FailsEmpty : List Op → Type 0
FailsEmpty [] = Unit {0}
FailsEmpty (writes b ∷ ops) = FailsEmpty ops
FailsEmpty (reads r ∷ ops) = (r.failed ≡ true → r.bytes ≡ []) × FailsEmpty ops

unfoldable pub run : List Op → CryptoStream → Trace
run [] c = record { wire = []; plain = [] }
run (writes b ∷ ops) c =
    let (dst, c') = write b c in let t = run ops c' in record t { wire = dst ++ t.wire }
run (reads r ∷ ops) c =
    let (got, c') = read r c in let t = run ops c' in record t { plain = got.bytes ++ t.plain }

-- A read leaves the writing side alone.
read-encrypt :
    (r : RawRead) (c : CryptoStream) (xs : List ℕ)
    → encrypt (read r c).1.block xs (enc_state (read r c).1) ≡ encrypt c.block xs (enc_state c)
unfolding read
read-encrypt r c xs = elim (Bool-cases r.failed) [ inl e ↦ rw e | inr e ↦ rw e ]

-- The wire carries one encryption of all that was written.
run-wire :
    (ops : List Op) (c : CryptoStream)
    → (run ops c).wire ≡ (encrypt c.block (written ops) (enc_state c)).0
unfolding run write
run-wire [] c = unfold encrypt in refl
run-wire (writes b ∷ ops) c =
    rw (encrypt-append c.block b (written ops) (enc_state c))
      (ap (◌++◌ (write b c).0) (run-wire ops (write b c).1))
run-wire (reads r ∷ ops) c =
    run-wire ops (read r c).1 ∙ ap (λ t. t.0) (read-encrypt r c (written ops))

-- The reads return one decryption of all that arrived.
run-plain :
    (ops : List Op) (c : CryptoStream)
    → FailsEmpty ops
    → (run ops c).plain ≡ (decrypt c.block (arrived ops) (dec_state c)).0
unfolding run write read
run-plain [] c h = unfold decrypt in refl
run-plain (writes b ∷ ops) c h = run-plain ops (write b c).1 h
run-plain (reads r ∷ ops) c h = elim (Bool-cases r.failed) [
  | inl e ↦ rw (e, h.0 e) (run-plain ops c h.1)
  | inr e ↦
      rw (e, decrypt-append c.block r.bytes (arrived ops) (dec_state c))
        (ap (◌++◌ _) (run-plain ops _ h.1))
]

length-run-plain :
    (ops : List Op) (c : CryptoStream)
    → FailsEmpty ops
    → length (run ops c).plain ≡ length (arrived ops)
length-run-plain ops c h =
    ap length (run-plain ops c h) ∙ length-decrypt c.block (arrived ops) (dec_state c)

starts_equal :
    (aes : List ℕ → List ℕ → List ℕ) (key : List ℕ) {a : CryptoStream}
    → new_crypto_stream aes key ≡ some a
    → enc_state a ≡ dec_state a
unfolding new_crypto_stream fresh
starts_equal aes key e = ground arith

-- Decrypting the first part of what was encrypted gives the first part of the text.
decrypt_part :
    (block : Block) (s : Cfb) (xs ys text : List ℕ)
    → xs ++ ys ≡ (encrypt block text s).0
    → (decrypt block xs s).0 ≡ take (length xs) text
decrypt_part block s xs ys text e =
    let first = (decrypt block xs s).0 in
    let rest = (decrypt block ys (decrypt block xs s).1).0 in
    let joined : first ++ rest ≡ text =
      ap (λ t. t.0) (sym (decrypt-append block xs ys s))
      ∙ ap (λ t. (decrypt block t s).0) e
      ∙ ap (λ t. t.0) (decrypt-encrypt block text s) in
    rw (← joined, ← length-decrypt block xs s) (sym (take-append_length first rest))

-- Two streams made from one key, used in any way, whose failing reads bring no bytes: when what
-- has arrived at `there` is a part, `pending` short, of what `here` has sent, the text that
-- `there` has read is the text that `here` has written, up to that length.
pub run-prefix :
    (aes : List ℕ → List ℕ → List ℕ) (key pending : List ℕ) (here there : List Op)
    {a b : CryptoStream}
    → new_crypto_stream aes key ≡ some a
    → new_crypto_stream aes key ≡ some b
    → FailsEmpty there
    → arrived there ++ pending ≡ (run here a).wire
    → (run there b).plain ≡ take (length (arrived there)) (written here)
run-prefix aes key pending here there {a} {b} ea eb clean same =
    let peers : a ≡ b = cc in
    run-plain there b clean
    ∙ decrypt_part b.block (dec_state b) (arrived there) pending (written here) (
        same
        ∙ run-wire here a
        ∙ ap (λ (t : CryptoStream). (encrypt t.block (written here) (enc_state t)).0) peers
        ∙ ap (λ t. (encrypt b.block (written here) t).0) (starts_equal aes key eb))
