-- ===== src/Transport.antt =====
-- `CreateConn` of transport/transport.go: how the client gets a raw connection to the server. The
-- network, the parser of URLs and the proxy are parameters.
mod Examples
use lunnel.Base.{
  ℕ, ◌≡◌, refl, ap, Bool, true, false, not, Bool-cases, inl, inr, Option, none, some, Option-cases,
  List, [], ◌∷◌, ◌++◌, arith, ◌==◌, ◌⊎◌, if◌then◌else◌,
}
use lunnel.Base.Text.{Text, text, text_eq}
use lunnel.Base.Numbers.{is_empty}
use lunnel.Base.Result.{Result, ok, err}

-- What the code uses of a proxy's URL: its host, and the user with the password, as `String` prints
-- them.
pub record ProxyUrl : Type 0 where
  pub host : Text
  pub user : Option Text

-- The request for a tunnel through the proxy, with the credentials that it carries.
pub record ConnectReq : Type 0 where
  pub addr : Text
  pub credentials : Option Text

pub record Response : Type 0 where
  pub status_code : ℕ
  pub body : Option Text

-- A connection is a number; none is an error of a call, and so is a `new_request` that is false.
pub record Net : Type 0 where
  pub dial_kcp : Text → Option ℕ
  pub dial_tcp : Text → Option ℕ
  pub parse_url : Text → Option ProxyUrl
  pub new_request : Text → Bool
  pub ask : ℕ → ConnectReq → Option Response

pub data DialError : Type 0 where
  kcp_dial tcp_dial url_parse http_proxy_dial generate_req read_response read_body : DialError
  code_not_200 : Text → DialError

-- The result, and the connections that were opened and are neither closed nor returned.
abbrev pub Dial : Type 0
Dial = Result DialError ℕ × List ℕ

abbrev pub or_fail : DialError → Option ℕ → Dial
or_fail e none = (err e, [])
or_fail e (some c) = (ok c, [])

unfoldable pub after_body : ℕ → ℕ → Option Text → Dial
after_body c code none = (err read_body, c ∷ [])
after_body c code (some body) =
    if code == 200 then (ok c, []) else (err (code_not_200 body), c ∷ [])

unfoldable pub after_response : ℕ → Option Response → Dial
after_response c none = (err read_response, c ∷ [])
after_response c (some r) = after_body c r.status_code r.body

module _ (net : Net) where
  unfoldable pub through : Text → ProxyUrl → Option ℕ → Dial
  through addr url none = (err http_proxy_dial, [])
  through addr url (some c) =
      if net.new_request (text "http://" ++ addr)
      then after_response c (net.ask c (record { addr = addr; credentials = url.user }))
      else (err generate_req, c ∷ [])

  unfoldable pub by_proxy : Text → Option ProxyUrl → Dial
  by_proxy addr none = (err url_parse, [])
  by_proxy addr (some url) = through addr url (net.dial_tcp url.host)

  -- Every mode but kcp is a TCP connection.
  unfoldable pub create_conn : Text → Text → Text → Dial
  create_conn addr mode proxy =
      if text_eq mode (text "kcp")
      then or_fail kcp_dial (net.dial_kcp addr)
      else if is_empty proxy
      then or_fail tcp_dial (net.dial_tcp addr)
      else by_proxy addr (net.parse_url proxy)

-- How a connection was got: over kcp or TCP to the address, or from the proxy that the URL names,
-- which has answered the request for the address with 200.
pub data GotBy (net : Net) (addr mode proxy : Text) (c : ℕ) : Type 0 where
  over_kcp :
      text_eq mode (text "kcp") ≡ true → net.dial_kcp addr ≡ some c → GotBy net addr mode proxy c
  over_tcp :
      text_eq mode (text "kcp") ≡ false
      → is_empty proxy ≡ true
      → net.dial_tcp addr ≡ some c
      → GotBy net addr mode proxy c
  over_proxy :
      (url : ProxyUrl) (body : Text)
      → text_eq mode (text "kcp") ≡ false
      → is_empty proxy ≡ false
      → net.parse_url proxy ≡ some url
      → net.dial_tcp url.host ≡ some c
      → net.ask c (record { addr = addr; credentials = url.user })
        ≡ some (record { status_code = 200; body = some body })
      → GotBy net addr mode proxy c

-- What a call of `CreateConn` comes to: a connection, got in one of the three ways, with nothing
-- else left open; or an error, and then at most the connection to the proxy is left open.
pub data Outcome (net : Net) (addr mode proxy : Text) : Dial → Type 0 where
  got : (c : ℕ) → GotBy net addr mode proxy c → Outcome net addr mode proxy (ok c, [])
  failed : (e : DialError) → Outcome net addr mode proxy (err e, [])
  left :
      (e : DialError) (url : ProxyUrl) (c : ℕ)
      → is_empty proxy ≡ false
      → net.parse_url proxy ≡ some url
      → net.dial_tcp url.host ≡ some c
      → Outcome net addr mode proxy (err e, c ∷ [])

module _ (net : Net) (addr mode proxy : Text) where
  body-Outcome :
      (url : ProxyUrl) (c code : ℕ) (body : Option Text)
      → text_eq mode (text "kcp") ≡ false
      → is_empty proxy ≡ false
      → net.parse_url proxy ≡ some url
      → net.dial_tcp url.host ≡ some c
      → net.ask c (record { addr = addr; credentials = url.user })
        ≡ some (record { status_code = code; body = body })
      → Outcome net addr mode proxy (after_body c code body)
  unfolding after_body
  body-Outcome url c code none m p u d a = left read_body url c p u d
  body-Outcome url c code (some body) m p u d a = elim (Bool-cases (code == 200)) [
    | inl fine ↦
        let same : code ≡ 200 = ground (arith, fine) in
        rw fine (got c (over_proxy url body m p u d (rw same at a)))
    | inr bad ↦ rw bad (left (code_not_200 body) url c p u d)
  ]

  response-Outcome :
      (url : ProxyUrl) (c : ℕ) (r : Option Response)
      → text_eq mode (text "kcp") ≡ false
      → is_empty proxy ≡ false
      → net.parse_url proxy ≡ some url
      → net.dial_tcp url.host ≡ some c
      → net.ask c (record { addr = addr; credentials = url.user }) ≡ r
      → Outcome net addr mode proxy (after_response c r)
  unfolding after_response
  response-Outcome url c none m p u d a = left read_response url c p u d
  response-Outcome url c (some r) m p u d a = body-Outcome url c r.status_code r.body m p u d a

  through-Outcome :
      (url : ProxyUrl) (o : Option ℕ)
      → text_eq mode (text "kcp") ≡ false
      → is_empty proxy ≡ false
      → net.parse_url proxy ≡ some url
      → net.dial_tcp url.host ≡ o
      → Outcome net addr mode proxy (through net addr url o)
  unfolding through
  through-Outcome url none m p u d = failed http_proxy_dial
  through-Outcome url (some c) m p u d =
      elim (Bool-cases (net.new_request (text "http://" ++ addr))) [
        | inl fine ↦ rw fine (response-Outcome url c _ m p u d refl)
        | inr bad ↦ rw bad (left generate_req url c p u d)
      ]

  by_proxy-Outcome :
      (o : Option ProxyUrl)
      → text_eq mode (text "kcp") ≡ false
      → is_empty proxy ≡ false
      → net.parse_url proxy ≡ o
      → Outcome net addr mode proxy (by_proxy net addr o)
  unfolding by_proxy
  by_proxy-Outcome none m p u = failed url_parse
  by_proxy-Outcome (some url) m p u = through-Outcome url _ m p u refl

  kcp-Outcome :
      (o : Option ℕ)
      → text_eq mode (text "kcp") ≡ true
      → net.dial_kcp addr ≡ o
      → Outcome net addr mode proxy (or_fail kcp_dial o)
  kcp-Outcome none m d = failed kcp_dial
  kcp-Outcome (some c) m d = got c (over_kcp m d)

  tcp-Outcome :
      (o : Option ℕ)
      → text_eq mode (text "kcp") ≡ false
      → is_empty proxy ≡ true
      → net.dial_tcp addr ≡ o
      → Outcome net addr mode proxy (or_fail tcp_dial o)
  tcp-Outcome none m p d = failed tcp_dial
  tcp-Outcome (some c) m p d = got c (over_tcp m p d)

  -- Every call of `CreateConn` gives a connection over kcp or TCP to the address, or through the
  -- proxy after it has answered 200, with nothing else left open; or it fails, and then the only
  -- connection that it can leave open is one to the proxy.
  pub create_conn-Outcome : Outcome net addr mode proxy (create_conn net addr mode proxy)
  unfolding create_conn
  create_conn-Outcome = elim (Bool-cases (text_eq mode (text "kcp"))) [
    | inl kcp ↦ rw kcp (kcp-Outcome _ kcp refl)
    | inr tcp ↦ elim (Bool-cases (is_empty proxy)) [
      | inl direct ↦ rw (tcp, direct) (tcp-Outcome _ tcp direct refl)
      | inr proxied ↦ rw (tcp, proxied) (by_proxy-Outcome _ tcp proxied refl)
    ]
  ]
