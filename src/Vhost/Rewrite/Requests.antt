-- ===== src/Vhost/Rewrite/Requests.antt =====
-- What `parseRequest` of vhost/vhost.go makes of a whole request.
use lunnel.Base.{
  ℕ, ◌≡◌, refl, ap, ◌∙◌, Bool-cases, inl, inr, ◌==◌, true, false, Option, none, some, List, [], ◌∷◌,
  ◌++◌, append_assoc, All, take-append_length,
}
use lunnel.Base.Text.{Text, text, text_eq}
use lunnel.Base.Numbers.{is_empty}
use lunnel.Base.Result.{ok}
use lunnel.Vhost.Rewrite.{
  index_byte, contains, lower, split, host_header, cut_line, parse_request_line, first_line, Url,
  prepend, rewrite_line, parse_lines, parse_found, parse_request, new_host,
}
use lunnel.Vhost.Rewrite.Search.{
  some_absurd, shift-none, index_byte-behind, drop-suc-length, take-suc-length,
}
use lunnel.Vhost.Rewrite.Headers.{Header, line_of, lines, IsHeader, IsOther, change_host_name-lines}

parse_request_line-words :
    (m u p : Text)
    → index_byte 32 m ≡ none
    → index_byte 32 u ≡ none
    → parse_request_line (m ++ 32 ∷ (u ++ 32 ∷ p))
      ≡ record { method = m; request_uri = u; proto = p }
unfolding parse_request_line cut_line
parse_request_line-words m u p e f =
    rw
      (
        index_byte-behind 32 m (u ++ 32 ∷ p) e,
        drop-suc-length m 32 (u ++ 32 ∷ p),
        index_byte-behind 32 u p f,
        take-append_length m (32 ∷ (u ++ 32 ∷ p)),
        drop-suc-length m 32 (u ++ 32 ∷ p),
        take-append_length u (32 ∷ p),
        drop-suc-length u 32 p,
      )
      refl

first_line-line :
    (line rest : Text)
    → index_byte 10 line ≡ none
    → first_line (line ++ 10 ∷ rest) ≡ some (line ++ 10 ∷ [], rest)
unfolding first_line
first_line-line line rest e =
    rw
      (index_byte-behind 10 line rest e, take-suc-length line 10 rest, drop-suc-length line 10 rest)
      refl

with_end :
    (m u p : Text) → (m ++ 32 ∷ (u ++ 32 ∷ p)) ++ 10 ∷ [] ≡ m ++ 32 ∷ (u ++ 32 ∷ (p ++ 10 ∷ []))
with_end m u p = simp (append_assoc)

-- The line of a request that is no CONNECT.
parse_lines-plain :
    (parse : Text → Option Url) (rewrite m u p rest : Text)
    → index_byte 32 m ≡ none
    → index_byte 32 u ≡ none
    → text_eq m (text "CONNECT") ≡ false
    → let b = (m ++ 32 ∷ (u ++ 32 ∷ p)) ++ 10 ∷ [] in
      parse_lines parse rewrite (b, rest)
      ≡ rewrite_line parse rewrite b rest
          (record { method = m; request_uri = u; proto = p ++ 10 ∷ [] })
          false
          (parse u)
unfolding parse_lines
parse_lines-plain parse rewrite m u p rest e f get =
    let words = parse_request_line-words m u (p ++ 10 ∷ []) e f in
    let read : parse_request_line ((m ++ 32 ∷ (u ++ 32 ∷ p)) ++ 10 ∷ [])
        ≡ record { method = m; request_uri = u; proto = p ++ 10 ∷ [] } =
      ap parse_request_line (with_end m u p) ∙ words in
    rw (read, get) refl

-- A request in the usual form, with a path and a header that names the host: the line of the request
-- and all headers stay but the first whose name contains "host", and so does what follows them.
pub parse_request-origin :
    (parse_request_uri : Text → Option Url) (rewrite m u p : Text) (url : Url)
    (before : List Header) (h : Header) (rest : Text)
    → index_byte 32 m ≡ none
    → index_byte 32 u ≡ none
    → index_byte 10 (m ++ 32 ∷ (u ++ 32 ∷ p)) ≡ none
    → text_eq m (text "CONNECT") ≡ false
    → parse_request_uri u ≡ some url
    → is_empty url.host ≡ true
    → All IsOther before
    → IsHeader h
    → contains (text "host") (lower h.0) ≡ true
    → let line = m ++ 32 ∷ (u ++ 32 ∷ p) in
      parse_request parse_request_uri rewrite
        (line ++ 10 ∷ (lines before ++ (line_of h ++ 10 ∷ rest)))
      ≡ ok (
          (line ++ 10 ∷ [])
          ++ (lines before ++ (host_header rewrite (line_of h) (index_byte 58 h.1) ++ rest)))
unfolding parse_request parse_found parse_lines rewrite_line
parse_request-origin parse rewrite m u p url before h rest e f g get found empty os v host' =
    let line = m ++ 32 ∷ (u ++ 32 ∷ p) in
    let block = lines before ++ (line_of h ++ 10 ∷ rest) in
    rw (first_line-line line block g) (
      parse_lines-plain parse rewrite m u p block e f get
      ∙ rw (found, empty)
          (ap (prepend (line ++ 10 ∷ []))
            (change_host_name-lines rewrite before h rest os v host')))

-- A text without the separator is one part.
split-whole : (sep : ℕ) (s : Text) → index_byte sep s ≡ none → split sep s ≡ s ∷ []
unfolding split index_byte
split-whole sep [] e = refl
split-whole sep (c ∷ s) e = elim (Bool-cases (c == sep)) [
  | inl here ↦ absurd (some_absurd (rw here at e))
  | inr away ↦ rw (away, split-whole sep s (shift-none _ (rw away at e))) refl
]

-- A request with a whole URL whose host has no port: the URL is printed with the new host, and every
-- other byte of the request stays.
pub parse_request-absolute :
    (parse_request_uri : Text → Option Url) (rewrite m u p rest : Text) (url : Url)
    → index_byte 32 m ≡ none
    → index_byte 32 u ≡ none
    → index_byte 10 (m ++ 32 ∷ (u ++ 32 ∷ p)) ≡ none
    → text_eq m (text "CONNECT") ≡ false
    → parse_request_uri u ≡ some url
    → is_empty url.host ≡ false
    → index_byte 58 url.host ≡ none
    → parse_request parse_request_uri rewrite ((m ++ 32 ∷ (u ++ 32 ∷ p)) ++ 10 ∷ rest)
      ≡ ok (m ++ (32 ∷ (url.print false rewrite ++ (32 ∷ ((p ++ 10 ∷ []) ++ rest)))))
unfolding parse_request parse_found rewrite_line new_host
parse_request-absolute parse rewrite m u p rest url e f g get found some' alone =
    let line = m ++ 32 ∷ (u ++ 32 ∷ p) in
    rw (first_line-line line rest g) (
      parse_lines-plain parse rewrite m u p rest e f get
      ∙ rw (found, some', split-whole 58 url.host alone) refl)
