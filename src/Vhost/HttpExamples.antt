-- ===== src/Vhost/HttpExamples.antt =====
-- A request with a header before the one that names the host, and its rewriting.
use lunnel.Base.{
  ℕ, ◌≡◌, refl, arith, Option, none, some, List, [], ◌∷◌, ◌++◌, replicate, ◌==◌, if◌then◌else◌,
}
use lunnel.Base.Text.{Text, text}
use lunnel.Base.Result.{ok}
use lunnel.Msg.Conn.{chunk, bytes_of}
use lunnel.Vhost.Shared.{SharedConn, new_share_conn, looks, reads, looks-reads, tee_read, raw_read}
use lunnel.Vhost.Rewrite.{
  index_byte, contains, lower, host_header, change_host_name, Url, parse_request,
}
use lunnel.Vhost.Rewrite.Headers.{Header, lines, change_host_name-port}
use lunnel.Vhost.Rewrite.Requests.{parse_request-origin}
use lunnel.Vhost.Request.{request_text, http_host_name_rewrite, http_host_name_rewrite-leftover}

abbrev before : List Header
before = (text "A", text " b") ∷ []

abbrev host : Header
host = (text "Host", text " a.b")

-- A URL that begins with a slash has no host; the others have one.
abbrev parse_url : Text → Option Url
parse_url [] = none
parse_url (c ∷ s) =
    some (record { host = if c == 47 then [] else text "a.b"; print = λ a h. text "http://" ++ h })

abbrev get_line : Text
get_line = text "GET /x HTTP/1.1"

-- The host "aa.bb" with a port.
change_host_name-port_example :
    change_host_name (text "c.d") (lines before ++ (text "Host: aa.bb:80" ++ 10 ∷ 10 ∷ []))
    ≡ ok (lines before ++ (text "Host: c.d:a.bb:80" ++ 10 ∷ 10 ∷ []))
unfolding index_byte contains lower
change_host_name-port_example =
    change_host_name-port (text "c.d") (text "aa.bb") (text "80") 1 before (10 ∷ [])
      (((refl, refl, omega arith), refl), tt) refl refl refl

parse_request-origin_example :
    parse_request parse_url (text "c.d") (request_text get_line before host (10 ∷ []))
    ≡ ok ((get_line ++ 10 ∷ []) ++ (lines before ++ (text "Host: c.d" ++ 10 ∷ 10 ∷ [])))
unfolding index_byte contains lower host_header
parse_request-origin_example =
    parse_request-origin parse_url (text "c.d") (text "GET") (text "/x") (text "HTTP/1.1") _ before
      host (10 ∷ []) refl refl refl refl refl refl (((refl, refl, omega arith), refl), tt)
      (refl, refl, omega arith) refl

-- A connection whose request has been looked at, and a buffer that was used before.
abbrev conn : SharedConn
conn = record { buff = some (request_text get_line before host (10 ∷ [])); incoming = [] }

http_host_name_rewrite-leftover_example :
    http_host_name_rewrite parse_url (replicate 40 65) (text "c.d") conn
    ≡ ok (
      (get_line ++ 10 ∷ []) ++ (lines before ++ (text "Host: c.d" ++ 10 ∷ 10 ∷ replicate 8 65)),
      record { buff = some []; incoming = [] },
    )
unfolding index_byte contains lower host_header
http_host_name_rewrite-leftover_example =
    http_host_name_rewrite-leftover parse_url (replicate 40 65) (text "c.d") (text "GET")
      (text "/x") (text "HTTP/1.1") _ before host (10 ∷ []) 71 _ conn refl refl refl refl refl refl
      (((refl, refl, omega arith), refl), tt) (refl, refl, omega arith) refl refl refl (omega arith)

-- One look of two bytes, and two reads.
looks-reads_example :
    (left : List ℕ) × (reads
          (4 ∷ 4 ∷ [])
          (record { buff = some (1 ∷ 2 ∷ []); incoming = chunk (3 ∷ []) ∷ [] })
        ++ left
      ≡ bytes_of (chunk (1 ∷ 2 ∷ 3 ∷ []) ∷ []))
unfolding looks new_share_conn tee_read raw_read
looks-reads_example = looks-reads (2 ∷ []) (4 ∷ 4 ∷ []) (chunk (1 ∷ 2 ∷ 3 ∷ []) ∷ []) _ refl
