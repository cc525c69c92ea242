-- ===== src/Vhost/Rewrite/Headers.antt =====
-- What `changeHostName` of vhost/vhost.go makes of a block of headers.
use lunnel.Base.{
  ℕ, zero, suc, ◌+◌, ◌<◌, ◌≤◌, ◌≡◌, refl, ap, ◌∙◌, Bool-cases, inl, inr, none, some, Option-cases,
  List, [], ◌∷◌, ◌++◌, append_assoc, arith, ltb, take, drop, length, true, false, All,
  length-append, length-drop, take-append_length,
}
use lunnel.Base.Text.{Text, text}
use lunnel.Base.Numbers.{is_empty}
use lunnel.Base.Result.{ok, NoPanic}
use lunnel.Vhost.Rewrite.{
  shift, index_byte, contains, lower, Rw, host_header, Line, malformed, other, host, header_line,
  after_line, change_loop, change_host_name,
}
use lunnel.Vhost.Rewrite.Search.{index_byte-behind, index_byte-lt, drop-suc-length}

-- A header: its name and its value.
abbrev pub Header : Type 0
Header = Text × Text

abbrev pub line_of : Header → Text
line_of (name, value) = name ++ 58 ∷ value

-- The name has no colon, and the line no line end; it has at least three bytes.
abbrev pub IsHeader : Header → Type 0
IsHeader (name, value) =
    (index_byte 58 name ≡ none)
    × (index_byte 10 (name ++ 58 ∷ value) ≡ none)
    × (3 ≤ length (name ++ 58 ∷ value))

abbrev pub IsOther : Header → Type 0
IsOther h = IsHeader h × (contains (text "host") (lower h.0) ≡ false)

abbrev pub lines : List Header → Text
lines [] = []
lines (h ∷ hs) = line_of h ++ (10 ∷ lines hs)

append-some : (s t : Text) (b : ℕ) → is_empty (s ++ b ∷ t) ≡ false
append-some [] t b = refl
append-some (c ∷ s) t b = refl

regroup_line :
    (ret line more : Text) → (ret ++ (line ++ 10 ∷ [])) ++ more ≡ ret ++ (line ++ (10 ∷ more))
regroup_line ret line more = simp (append_assoc)

-- A round that sees a header.
change_loop-header :
    (fuel : ℕ) (rewrite ret : Text) (h : Header) (rest : Text)
    → IsHeader h
    → change_loop (suc fuel) rewrite ret (line_of h ++ 10 ∷ rest)
      ≡ after_line
          (header_line rewrite (line_of h) (some (length h.0)))
          ret
          rest
          (change_loop fuel rewrite (ret ++ (line_of h ++ 10 ∷ [])) rest)
unfolding change_loop
change_loop-header fuel rewrite ret (name, value) rest (no_colon, no_end, long) =
    let line = name ++ 58 ∷ value in
    let fine : ltb (length line) 3 ≡ false = ground arith in
    rw
      (
        append-some line rest 10,
        index_byte-behind 10 line rest no_end,
        fine,
        take-append_length line (10 ∷ rest),
        index_byte-behind 58 name value no_colon,
        drop-suc-length line 10 rest,
      )
      refl

-- The rest of a header behind its colon.
header_line-host :
    (rewrite : Text) (h : Header)
    → contains (text "host") (lower h.0) ≡ true
    → header_line rewrite (line_of h) (some (length h.0))
      ≡ host (host_header rewrite (line_of h) (index_byte 58 h.1))
unfolding header_line
header_line-host rewrite (name, value) e =
    rw (take-append_length name (58 ∷ value), e, drop-suc-length name 58 value) refl

header_line-other :
    (rewrite : Text) (h : Header)
    → contains (text "host") (lower h.0) ≡ false
    → header_line rewrite (line_of h) (some (length h.0)) ≡ other
unfolding header_line
header_line-other rewrite (name, value) e = rw (take-append_length name (58 ∷ value), e) refl

-- The loop gets past other headers, and keeps them.
change_loop-others :
    (fuel : ℕ) (rewrite ret : Text) (before : List Header) (h : Header) (rest : Text)
    → length before < fuel
    → All IsOther before
    → IsHeader h
    → contains (text "host") (lower h.0) ≡ true
    → change_loop fuel rewrite ret (lines before ++ (line_of h ++ 10 ∷ rest))
      ≡ ok (ret ++ (lines before ++ (host_header rewrite (line_of h) (index_byte 58 h.1) ++ rest)))
unfolding after_line
change_loop-others zero rewrite ret before h rest f os v e = absurd (omega arith)
change_loop-others (suc fuel) rewrite ret [] h rest f os v e =
    change_loop-header fuel rewrite ret h rest v ∙ rw (header_line-host rewrite h e) refl
change_loop-others (suc fuel) rewrite ret (o ∷ before) h rest f ((w, n), os) v e =
    let tail = lines before ++ (line_of h ++ 10 ∷ rest) in
    let done = lines before ++ (host_header rewrite (line_of h) (index_byte 58 h.1) ++ rest) in
    rw
      (
        append_assoc (line_of o) (10 ∷ lines before) (line_of h ++ 10 ∷ rest),
        append_assoc (line_of o) (10 ∷ lines before)
            (host_header rewrite (line_of h) (index_byte 58 h.1) ++ rest),
      )
      (change_loop-header fuel rewrite ret o tail w
        ∙ rw (header_line-other rewrite o n) (
            change_loop-others fuel rewrite (ret ++ (line_of o ++ 10 ∷ [])) before h rest
              (omega arith) os v e
            ∙ ap ok (regroup_line ret (line_of o) done)))

lines-le : (hs : List Header) → length hs ≤ length (lines hs)
lines-le [] = omega arith
lines-le (h ∷ hs) = omega (arith, lines-le hs, length-append (line_of h) (10 ∷ lines hs))

-- In a block of headers, the first line whose name contains "host" is replaced, and every other byte
-- stays: the lines before it, and whatever follows it.
pub change_host_name-lines :
    (rewrite : Text) (before : List Header) (h : Header) (rest : Text)
    → All IsOther before
    → IsHeader h
    → contains (text "host") (lower h.0) ≡ true
    → change_host_name rewrite (lines before ++ (line_of h ++ 10 ∷ rest))
      ≡ ok (lines before ++ (host_header rewrite (line_of h) (index_byte 58 h.1) ++ rest))
unfolding change_host_name
change_host_name-lines rewrite before h rest os v e =
    let block = lines before ++ (line_of h ++ 10 ∷ rest) in
    let enough : length before < suc (length block) =
      omega (arith, lines-le before, length-append (lines before) (line_of h ++ 10 ∷ rest)) in
    change_loop-others (suc (length block)) rewrite [] before h rest enough os v e

after_line-NoPanic :
    (l : Line) (ret rest : Text) (more : Rw) → NoPanic more → NoPanic (after_line l ret rest more)
unfolding after_line
after_line-NoPanic malformed ret rest more h = tt
after_line-NoPanic (host line) ret rest more h = tt
after_line-NoPanic other ret rest more h = h

drop-append : (k : ℕ) (s t : Text) → k ≤ length s → drop k (s ++ t) ≡ drop k s ++ t
drop-append zero s t h = refl
drop-append (suc k) [] t h = absurd (omega arith)
drop-append (suc k) (c ∷ s) t h = drop-append k s t (omega arith)

host_header-port :
    (rewrite name port : Text) (k : ℕ)
    → index_byte 58 name ≡ none
    → length name ≡ 4 + k
    → let value = 32 ∷ (name ++ 58 ∷ port) in
      host_header rewrite (line_of (text "Host", value)) (index_byte 58 value)
      ≡ text "Host: " ++ (rewrite ++ (58 ∷ ((drop k name ++ 58 ∷ port) ++ 10 ∷ [])))
unfolding host_header
host_header-port rewrite name port k e n =
    let blank : index_byte 58 (32 ∷ name) ≡ none = unfold index_byte in ap shift e in
    let six : suc (suc (length name)) ≡ suc (suc (suc (suc (suc (suc k))))) = omega arith in
    rw (index_byte-behind 58 (32 ∷ name) port blank, six)
      (ap (λ xs. text "Host: " ++ (rewrite ++ (58 ∷ (xs ++ 10 ∷ []))))
        (drop-append k name (58 ∷ port) (omega arith)))

NoPanic-change_loop :
    (fuel : ℕ) (rewrite ret peek : Text)
    → length peek < fuel
    → NoPanic (change_loop fuel rewrite ret peek)
unfolding change_loop
NoPanic-change_loop zero rewrite ret peek h = absurd (omega arith)
NoPanic-change_loop (suc fuel) rewrite ret peek h = elim (Bool-cases (is_empty peek)) [
  | inl e ↦ rw (e, NoPanic) tt
  | inr e ↦ elim (Option-cases (index_byte 10 peek)) [
    | inl gone ↦ rw (e, gone, NoPanic) tt
    | inr (i, found) ↦ elim (Bool-cases (ltb i 3)) [
      | inl short ↦ rw (e, found, short, NoPanic) tt
      | inr long ↦
          let less : length (drop (suc i) peek) < fuel =
            omega (arith, length-drop (suc i) peek, index_byte-lt 10 peek i found) in
          rw (e, found, long, change_loop)
            (after_line-NoPanic (header_line rewrite (take i peek) (index_byte 58 (take i peek)))
              ret (drop (suc i) peek) _
              (NoPanic-change_loop fuel rewrite _ (drop (suc i) peek) less))
    ]
  ]
]

-- The loop of `changeHostName` comes to its end on all input, and no slice bound is out of range.
pub change_host_name-NoPanic : (rewrite buff : Text) → NoPanic (change_host_name rewrite buff)
unfolding change_host_name
change_host_name-NoPanic rewrite buff =
    NoPanic-change_loop (suc (length buff)) rewrite [] buff (omega arith)

-- A header "Host: name:port" after other headers is broken: the new one has the rewritten host, a
-- colon, and the old name from its fourth byte from the end on, with the port.
pub change_host_name-port :
    (rewrite name port : Text) (k : ℕ) (before : List Header) (rest : Text)
    → All IsOther before
    → index_byte 58 name ≡ none
    → index_byte 10 (name ++ 58 ∷ port) ≡ none
    → length name ≡ 4 + k
    → change_host_name rewrite
        (lines before ++ (text "Host: " ++ ((name ++ 58 ∷ port) ++ 10 ∷ rest)))
      ≡ ok (
          lines before
          ++ ((text "Host: " ++ (rewrite ++ (58 ∷ ((drop k name ++ 58 ∷ port) ++ 10 ∷ []))))
              ++ rest))
unfolding index_byte contains lower
change_host_name-port rewrite name port k before rest os e f n =
    let h : Header = (text "Host", 32 ∷ (name ++ 58 ∷ port)) in
    let fine : IsHeader h = (
      refl,
      unfold index_byte in ap (λ o. shift (shift (shift (shift (shift (shift o)))))) f,
      omega arith,
    ) in
    change_host_name-lines rewrite before h rest os fine refl
    ∙ ap (λ xs. ok (lines before ++ (xs ++ rest))) (host_header-port rewrite name port k e n)
