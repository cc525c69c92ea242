-- ===== src/Vhost/Request.antt =====
-- `GetHttpRequestInfo`, `HttpHostNameRewrite` and `hostNameRewrite` of vhost/vhost.go. The parsers
-- of requests and of URLs are parameters.
use lunnel.Base.{
  ℕ, zero, suc, ◌≤◌, ◌≡◌, refl, sym, ap, ◌∙◌, Option, none, some, List, [], ◌∷◌, ◌++◌, append_assoc,
  true, false, arith, length, take, drop, replicate, All,
}
use lunnel.Base.Text.{Text, text, text_eq}
use lunnel.Base.Numbers.{is_empty}
use lunnel.Base.Result.{Result, ok, err, panic}
use lunnel.Msg.Conn.{Event}
use lunnel.Vhost.Shared.{SharedConn, new_share_conn, looks, buffered, read, read_buff}
use lunnel.Vhost.Rewrite.{
  split, RewriteError, Url, parse_request, index_byte, contains, lower, host_header,
}
use lunnel.Vhost.Rewrite.Headers.{Header, line_of, lines, IsHeader, IsOther}
use lunnel.Vhost.Rewrite.Requests.{parse_request-origin}

-- What the code uses of an `http.Request`.
pub record Request : Type 0 where
  pub host : Text
  pub path : Text
  pub scheme : Text
  pub authorization : Text

-- The map of the answer; a header that is empty is left out.
pub record Info : Type 0 where
  pub host : Text
  pub path : Text
  pub scheme : Text
  pub authorization : Option Text

abbrev pub first_part : List Text → Text
first_part [] = []
first_part (w ∷ ws) = w

unfoldable pub info_of : Request → Info
info_of r = record {
  host = first_part (split 58 r.host);
  path = r.path;
  scheme = r.scheme;
  authorization = elim (is_empty r.authorization) [ true ↦ none | false ↦ some r.authorization ];
}

abbrev pub with_conn : SharedConn → Option Request → Option (Info × SharedConn)
with_conn sc none = none
with_conn sc (some r) = some (info_of r, sc)

module _ (read_request : Text → Option Request) where
  unfoldable pub request_info : Option SharedConn → Option (Info × SharedConn)
  request_info none = none
  request_info (some sc) = with_conn sc (read_request (buffered sc.buff))

  -- `fills` is the number of times that the `bufio.Reader` fills its 4096 bytes until the request is
  -- read.
  unfoldable pub get_http_request_info : ℕ → List Event → Option (Info × SharedConn)
  get_http_request_info fills es = request_info (looks (replicate fills 4096) (new_share_conn es))

-- A read into a buffer that has been used before; its length and its error are dropped.
unfoldable pub fill : Text → Option Text → Text
fill old none = old
fill old (some bs) = bs ++ drop (length bs) old

-- The bytes for `WriteBuff`, with the connection below as the read leaves it.
abbrev pub over : SharedConn → Result RewriteError Text → Result RewriteError (Text × SharedConn)
over sc (ok ret) = ok (ret, sc)
over sc (err e) = err e
over sc panic = panic

module _ (parse_request_uri : Text → Option Url) where
  -- `old` is the buffer of 1024 bytes that `GetBuf` returns.
  unfoldable pub http_host_name_rewrite :
      Text → Text → SharedConn → Result RewriteError (Text × SharedConn)
  http_host_name_rewrite old rewrite sc =
      let (got, sc') = read 1024 sc in
      over sc' (parse_request parse_request_uri rewrite (fill old got))

module _ {A : Type 0} where
  take-all : (n : ℕ) (xs : List A) → length xs ≤ n → take n xs ≡ xs
  take-all zero [] h = refl
  take-all zero (x ∷ xs) h = absurd (omega arith)
  take-all (suc n) [] h = refl
  take-all (suc n) (x ∷ xs) h = ap (◌∷◌ x) (take-all n xs (omega arith))

  drop-all : (n : ℕ) (xs : List A) → length xs ≤ n → drop n xs ≡ []
  drop-all zero [] h = refl
  drop-all zero (x ∷ xs) h = absurd (omega arith)
  drop-all (suc n) [] h = refl
  drop-all (suc n) (x ∷ xs) h = drop-all n xs (omega arith)

-- A request that has been looked at is read again whole.
read-buffered :
    (sc : SharedConn) (b : ℕ) (bs : List ℕ)
    → sc.buff ≡ some (b ∷ bs)
    → length (b ∷ bs) ≤ 1024
    → read 1024 sc ≡ (some (b ∷ bs), record { buff = some []; incoming = sc.incoming })
unfolding read read_buff
read-buffered sc b bs e h = rw (e, take-all 1024 (b ∷ bs) h, drop-all 1024 (b ∷ bs) h) refl

-- The text of a request: the line, the headers before the one that names the host, that one, and
-- all that follows.
abbrev pub request_text : Text → List Header → Header → Text → Text
request_text line before h rest = line ++ 10 ∷ (lines before ++ (line_of h ++ 10 ∷ rest))

regroup :
    (line block named rest junk : Text)
    → (line ++ 10 ∷ (block ++ (named ++ 10 ∷ rest))) ++ junk
      ≡ line ++ 10 ∷ (block ++ (named ++ 10 ∷ (rest ++ junk)))
regroup line block named rest junk = simp (append_assoc)

-- `HttpHostNameRewrite` on a request in the usual form, of at most 1024 bytes, that has been looked
-- at: with a method that is not CONNECT, a target that is parsed without a host, and headers of which
-- one has a name that contains "host". The first such header is replaced, but behind the request
-- stand the bytes that the pooled buffer held there before, and they are passed on with it.
pub http_host_name_rewrite-leftover :
    (parse_request_uri : Text → Option Url) (old rewrite m u p : Text) (url : Url)
    (before : List Header) (h : Header) (rest : Text) (c : ℕ) (cs : Text) (sc : SharedConn)
    → index_byte 32 m ≡ none
    → index_byte 32 u ≡ none
    → index_byte 10 (m ++ 32 ∷ (u ++ 32 ∷ p)) ≡ none
    → text_eq m (text "CONNECT") ≡ false
    → parse_request_uri u ≡ some url
    → is_empty url.host ≡ true
    → All IsOther before
    → IsHeader h
    → contains (text "host") (lower h.0) ≡ true
    → request_text (m ++ 32 ∷ (u ++ 32 ∷ p)) before h rest ≡ c ∷ cs
    → sc.buff ≡ some (c ∷ cs)
    → length (c ∷ cs) ≤ 1024
    → let line = m ++ 32 ∷ (u ++ 32 ∷ p) in
      let leftover = drop (length (c ∷ cs)) old in
      http_host_name_rewrite parse_request_uri old rewrite sc
      ≡ ok (
        (line ++ 10 ∷ [])
            ++ (lines before
                ++ (host_header rewrite (line_of h) (index_byte 58 h.1) ++ (rest ++ leftover))),
        record { buff = some []; incoming = sc.incoming },
      )
unfolding http_host_name_rewrite fill
http_host_name_rewrite-leftover parse old rewrite m u p url before h rest c cs sc e f g get found
      empty os v named whole kept fits =
    let line = m ++ 32 ∷ (u ++ 32 ∷ p) in
    let leftover = drop (length (c ∷ cs)) old in
    let after = record sc { buff = some [] } in
    let full : (c ∷ cs) ++ leftover ≡ request_text line before h (rest ++ leftover) =
      ap (λ xs. xs ++ leftover) (sym whole)
      ∙ regroup line (lines before) (line_of h) rest leftover in
    rw (read-buffered sc c cs kept fits) (
      ap (λ xs. over after (parse_request parse rewrite xs)) full
      ∙ ap (over after) (
          parse_request-origin parse rewrite m u p url before h (rest ++ leftover) e f g get found
            empty os v named))
