-- ===== src/Vhost/Rewrite.antt =====
-- `parseRequestLine`, `changeHostName` and `parseRequest` of vhost/vhost.go: the rewriting of the
-- host that an HTTP request names. The parser and the printer of URLs are parameters.
pub mod Search
pub mod Headers
pub mod Requests
use lunnel.Base.{
  ℕ, zero, suc, ◌+◌, Bool, true, false, not, ◌&&◌, ◌||◌, Option, none, some, List, [], ◌∷◌, ◌++◌,
  ltb, leb, ◌==◌, if◌then◌else◌, map, take, drop, length,
}
use lunnel.Base.Text.{Text, text, text_eq}
use lunnel.Base.Numbers.{is_empty}
use lunnel.Base.Result.{Result, ok, err, panic}

-- bytes.IndexByte
abbrev pub shift : Option ℕ → Option ℕ
shift none = none
shift (some i) = some (suc i)

unfoldable pub index_byte : ℕ → Text → Option ℕ
index_byte b [] = none
index_byte b (c ∷ s) = if c == b then some 0 else shift (index_byte b s)

-- strings.HasPrefix and strings.Contains
abbrev pub has_prefix : Text → Text → Bool
has_prefix [] s = true
has_prefix (p ∷ ps) [] = false
has_prefix (p ∷ ps) (c ∷ s) = c == p && has_prefix ps s

unfoldable pub contains : Text → Text → Bool
contains p [] = is_empty p
contains p (c ∷ s) = has_prefix p (c ∷ s) || contains p s

-- strings.ToLower on the letters of ASCII; no other character becomes one of those of "host".
unfoldable pub lower : Text → Text
lower s = map (λ c. if leb 65 c && leb c 90 then c + 32 else c) s

-- strings.Split with a separator of one byte.
abbrev pub cut_first : ℕ → List Text → List Text
cut_first c [] = (c ∷ []) ∷ []
cut_first c (w ∷ ws) = (c ∷ w) ∷ ws

unfoldable pub split : ℕ → Text → List Text
split sep [] = [] ∷ []
split sep (c ∷ s) = let ws = split sep s in if c == sep then [] ∷ ws else cut_first c ws

pub data RewriteError : Type 0 where
  no_line_end malformed_mime_header : RewriteError

abbrev pub Rw : Type 0
Rw = Result RewriteError Text

-- Method, URI and protocol; all are empty where a blank is missing.
pub record RequestLine : Type 0 where
  pub method : Text
  pub request_uri : Text
  pub proto : Text

unfoldable pub cut_line : Text → Option ℕ → Option ℕ → RequestLine
cut_line line (some s1) (some s2) = record {
  method = take s1 line;
  request_uri = take s2 (drop (suc s1) line);
  proto = drop (suc s2) (drop (suc s1) line);
}
cut_line line s1 s2 = record { method = []; request_uri = []; proto = [] }

-- The rest behind the first blank; all of the line where there is none, since then s1 + 1 is 0.
abbrev pub behind : Option ℕ → Text → Text
behind none line = line
behind (some s1) line = drop (suc s1) line

unfoldable pub parse_request_line : Text → RequestLine
parse_request_line line =
    let s1 = index_byte 32 line in cut_line line s1 (index_byte 32 (behind s1 line))

-- The new line for a header line whose colon is at `j`. The place of a port is looked for behind
-- that colon, but counted from the start of the line.
unfoldable pub host_header : Text → Text → Option ℕ → Text
host_header rewrite kv none = text "Host: " ++ (rewrite ++ 10 ∷ [])
host_header rewrite kv (some port_pos) =
    text "Host: " ++ (rewrite ++ (58 ∷ (drop (suc port_pos) kv ++ 10 ∷ [])))

-- What a header line leads to: an error, the end of the loop, or the next line.
pub data Line : Type 0 where
  malformed other : Line
  host : Text → Line

unfoldable pub header_line : Text → Text → Option ℕ → Line
header_line rewrite kv none = malformed
header_line rewrite kv (some j) =
    if contains (text "host") (lower (take j kv))
    then host (host_header rewrite kv (index_byte 58 (drop (suc j) kv)))
    else other

-- The end of the loop's body: `more` is the rest of the loop.
unfoldable pub after_line : Line → Text → Text → Rw → Rw
after_line malformed ret rest more = err malformed_mime_header
after_line (host line) ret rest more = ok (ret ++ (line ++ rest))
after_line other ret rest more = more

-- The loop of `changeHostName`, with what has been written. A line end at an offset below 3, or
-- none, ends it with nothing and no error. Each round takes a line end off.
unfoldable pub change_loop : ℕ → Text → Text → Text → Rw
change_loop zero rewrite ret peek = panic
change_loop (suc fuel) rewrite ret peek =
    if is_empty peek then ok ret else elim (index_byte 10 peek) [
      | none ↦ ok []
      | some i ↦
          if ltb i 3
          then ok []
          else after_line (header_line rewrite (take i peek) (index_byte 58 (take i peek))) ret
              (drop (suc i) peek)
              (change_loop fuel rewrite (ret ++ (take i peek ++ 10 ∷ [])) (drop (suc i) peek))
    ]

unfoldable pub change_host_name : Text → Text → Rw
change_host_name rewrite buff = change_loop (suc (length buff)) rewrite [] buff

abbrev pub cut_at : Text → Option ℕ → Option (Text × Text)
cut_at buff none = none
cut_at buff (some i) = some (take (suc i) buff, drop (suc i) buff)

-- `ReadBytes` up to a line feed: the first line with it, and the rest.
unfoldable pub first_line : Text → Option (Text × Text)
first_line buff = cut_at buff (index_byte 10 buff)

-- The host of a URL without and with a port; another number of colons leaves it as it is.
unfoldable pub new_host : Text → Text → List Text → Text
new_host rewrite old (name ∷ []) = rewrite
new_host rewrite old (name ∷ port ∷ []) = rewrite ++ (58 ∷ port)
new_host rewrite old names = old

abbrev pub prepend : Text → Rw → Rw
prepend b (ok s) = ok (b ++ s)
prepend b (err e) = err e
prepend b panic = panic

-- What url.ParseRequestURI finds: the host, and how `String` prints the URL with another host.
-- `authority` tells that the scheme is taken away before.
pub record Url : Type 0 where
  pub host : Text
  pub print : (authority : Bool) → Text → Text

module _ (parse_request_uri : Text → Option Url) where
  -- A URL that is not parsed is nil, and its use panics.
  unfoldable pub rewrite_line : Text → Text → Text → RequestLine → Bool → Option Url → Rw
  rewrite_line rewrite b rest req authority none = panic
  rewrite_line rewrite b rest req authority (some u) =
      if is_empty u.host
      then prepend b (change_host_name rewrite rest)
      else ok (
          req.method
          ++ (32
              ∷ (u.print authority (new_host rewrite u.host (split 58 u.host))
                  ++ (32 ∷ (req.proto ++ rest)))))

  unfoldable pub parse_lines : Text → Text × Text → Rw
  parse_lines rewrite (b, rest) =
      let req = parse_request_line b in
      let authority =
        text_eq req.method (text "CONNECT") && not (has_prefix (text "/") req.request_uri) in
      rewrite_line rewrite b rest req authority (
        parse_request_uri
          (if authority then text "http://" ++ req.request_uri else req.request_uri))

  unfoldable pub parse_found : Text → Option (Text × Text) → Rw
  parse_found rewrite none = err no_line_end
  parse_found rewrite (some found) = parse_lines rewrite found

  unfoldable pub parse_request : Text → Text → Rw
  parse_request rewrite org = parse_found rewrite (first_line org)
