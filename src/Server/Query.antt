-- ===== src/Server/Query.antt =====
-- `tunnelQuery` of server/server.go: the page that tells which public addresses are open. The
-- decoder of the request is a parameter.
use lunnel.Base.{
  ℕ, ◌<◌, ◌≡◌, refl, sym, ap, ◌∙◌, false, inl, inr, Option, none, some, List, [], ◌∷◌, map, arith,
  ◌⊎◌, if◌then◌else◌,
}
use lunnel.Base.Text.{Text, text}
use lunnel.Base.Numbers.{is_empty}
use lunnel.Msg.{public_addr}
use lunnel.Server.Tunnels.{World}
use lunnel.Server.Tunnels.Routing.{IsRouted, addr_of}

-- The code of the answer, and the addresses that it lists or the text of the error.
pub data Answer : Type 0 where
  bad_request : Text → Answer
  tunnels : List Text → Answer

abbrev pub one_or_none : World → Option ℕ → List Text
one_or_none w none = []
one_or_none w (some t) = public_addr ((w.tunnels t).tunnel_config) ∷ []

-- `order` is a traversal of the map of public addresses.
unfoldable pub find : List ℕ → World → Text → List Text
find order w addr =
    if is_empty addr
    then map (λ t. public_addr ((w.tunnels t).tunnel_config)) order
    else one_or_none w (w.tunnel_map addr)

abbrev pub answer : List ℕ → World → Option Text → Answer
answer order w none = bad_request (text "unmarshal req body failed")
answer order w (some addr) = tunnels (find order w addr)

unfoldable pub tunnel_query : (List ℕ → Option Text) → Option (List ℕ) → List ℕ → World → Answer
tunnel_query unmarshal none order w = bad_request (text "req body is empty")
tunnel_query unmarshal (some content) order w = answer order w (unmarshal content)

-- A tunnel that is open at an address.
pub record IsOpenAt (w : World) (addr : Text) (t : ℕ) : Type 0 where
  pub made : t < w.fresh
  pub live : (w.tunnels t).is_closed ≡ false
  pub at : addr_of w t ≡ addr

some_absurd : (t : ℕ) → none ≡ some t → ⊥
some_absurd t e = ground arith

one_or_none-known :
    (w : World) (addr : Text) (o : Option ℕ)
    → IsRouted w
    → w.tunnel_map addr ≡ o
    → ((t : ℕ) × (IsOpenAt w addr t × (one_or_none w o ≡ addr ∷ [])))
      ⊎ (((t : ℕ) → IsOpenAt w addr t → ⊥) × (one_or_none w o ≡ []))
one_or_none-known w addr none v e =
    inr
      (λ t o. some_absurd t (sym e ∙ (ap w.tunnel_map (sym o.at) ∙ v.listed t o.made o.live)), refl)
one_or_none-known w addr (some t) v e =
    let (made, live, here) = v.leads addr t e in
    inl (t, (record { made = made; live = live; at = here }, ap (λ a. a ∷ []) here))

-- If the map of public addresses is in order, a request for an address is answered with that address
-- if a tunnel is open there, and with none if there is no such tunnel.
pub tunnel_query-known :
    (unmarshal : List ℕ → Option Text) (content : List ℕ) (addr : Text) (order : List ℕ) (w : World)
    → IsRouted w
    → unmarshal content ≡ some addr
    → is_empty addr ≡ false
    → ((t : ℕ) × (IsOpenAt w addr t
          × (tunnel_query unmarshal (some content) order w ≡ tunnels (addr ∷ []))))
      ⊎ (((t : ℕ) → IsOpenAt w addr t → ⊥)
          × (tunnel_query unmarshal (some content) order w ≡ tunnels []))
unfolding tunnel_query find
tunnel_query-known unmarshal content addr order w v decoded asked =
    elim (one_or_none-known w addr (w.tunnel_map addr) v refl) [
      | inl (t, (open', e)) ↦ inl (t, (open', rw (decoded, asked) (ap tunnels e)))
      | inr (nobody, e) ↦ inr (nobody, rw (decoded, asked) (ap tunnels e))
    ]
