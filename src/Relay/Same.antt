-- ===== src/Relay/Same.antt =====
-- What `ServerAddTunnels` of server/serControl.go leaves of a tunnel that it is asked for.
use lunnel.Base.{ℕ, ◌≡◌, refl, ◌||◌, Bool-cases, inl, inr, Option, none, some, [], ◌&&◌, ◌==◌}
use lunnel.Base.Text.{Text, text, text_eq}
use lunnel.Msg
use lunnel.Msg.{local_addr}
use lunnel.Server.Tunnels.{
  World, ServerConf, Outcome, opened, not_opened, same_target, take_port, bound_tunnel, open_stream,
  new_host, take_host, named_host, web_port, open_tunnel,
}

-- Two tunnels of one local address, with the same rewrite and the same public schema.
pub record Same (t v : Msg.Tunnel) : Type 0 where
  pub local_same : v.local ≡ t.local
  pub rewrite : v.http_host_rewrite ≡ t.http_host_rewrite
  pub schema : v.public.schema ≡ t.public.schema

pub Same-refl : (t : Msg.Tunnel) → Same t t
Same-refl t = record { local_same = refl; rewrite = refl; schema = refl }

abbrev pub OutcomeSame : Msg.Tunnel → Outcome → Type 0
OutcomeSame t (opened v lis) = Same t v
OutcomeSame t (not_opened v) = Unit {0}

take_port-Same : (t : Msg.Tunnel) (old : Option Msg.Tunnel) → Same t (take_port t old)
unfolding take_port
take_port-Same t none = Same-refl t
take_port-Same t (some old) = elim (Bool-cases (t.public.port == 0 && same_target t old)) [
  | inl same ↦ rw same (record { local_same = refl; rewrite = refl; schema = refl })
  | inr other ↦ rw other (Same-refl t)
]

module _ (listen : Text → ℕ → World → Option (ℕ × ℕ)) (conf : ServerConf) where
  bound_tunnel-Same :
      (t v : Msg.Tunnel) (l : Option (ℕ × ℕ))
      → Same t v
      → OutcomeSame t (bound_tunnel listen conf v l)
  unfolding bound_tunnel
  bound_tunnel-Same t v none s = tt
  bound_tunnel-Same t v (some (l, port)) s = record {
    local_same = s.local_same;
    rewrite = s.rewrite;
    schema = s.schema;
  }

  take_host-Same :
      (t : Msg.Tunnel) (old : Option Msg.Tunnel) (w : World)
      → Same t (take_host listen conf t old w).0
  unfolding take_host new_host
  take_host-Same t none w = record { local_same = refl; rewrite = refl; schema = refl }
  take_host-Same t (some old) w = elim (Bool-cases (same_target t old)) [
    | inl same ↦ rw same (record { local_same = refl; rewrite = refl; schema = refl })
    | inr other ↦ rw other (record { local_same = refl; rewrite = refl; schema = refl })
  ]

  pub named_host-Same :
      (t : Msg.Tunnel) (old : Option Msg.Tunnel) (w : World)
      → Same t (named_host listen conf t old w).0
  unfolding named_host
  named_host-Same t old w = elim (Bool-cases (text_eq t.public.host [])) [
    | inl unnamed ↦ rw unnamed (take_host-Same t old w)
    | inr named ↦ rw named (Same-refl t)
  ]

  pub open_tunnel-Same :
      (t : Msg.Tunnel) (old : Option Msg.Tunnel) (w : World)
      → OutcomeSame t (open_tunnel listen conf t old w).0
  unfolding open_tunnel open_stream web_port
  open_tunnel-Same t old w =
      let schema = t.public.schema in
      elim (Bool-cases (text_eq schema (text "tcp") || text_eq schema (text "udp"))) [
        | inl stream ↦ rw stream (bound_tunnel-Same t _ _ (take_port-Same t old))
        | inr other ↦
            elim (Bool-cases (text_eq schema (text "http") || text_eq schema (text "https"))) [
              | inl web ↦
                  let s = named_host-Same t old w in
                  rw (other, web)
                    (record { local_same = s.local_same; rewrite = s.rewrite; schema = s.schema })
              | inr neither ↦ rw (other, neither) (Same-refl t)
            ]
      ]
