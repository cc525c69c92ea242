-- ===== src/Relay/Answer.antt =====
-- What `ServerAddTunnels` of server/serControl.go answers to a client, and what `SyncTunnels` of
-- client/clientControl.go makes of it.
use lunnel.Base.{
  ℕ, ◌≡◌, refl, sym, ap, ◌∙◌, subst, Bool, true, Bool-cases, inl, inr, Option, none, some, List, [],
  ◌∷◌, ◌++◌, append_assoc, append-nil, All-map, ltb, length, All,
}
use lunnel.Base.Text.{Text, text_eq_refl}
use lunnel.Base.Maps.{Map}
use lunnel.Msg
use lunnel.Msg.{local_addr}
use lunnel.Server.Tunnels.{
  World, Control, ServerConf, WriteReq, Outcome, opened, not_opened, added, refused, ping, pong,
  pipe_req, send, close_old, register, enter, finish_tunnel, add_tunnel, add_loop,
  server_add_tunnels,
}
use lunnel.Client.Tunnels.{agrees, sync_tunnel, sync_tunnels}
use lunnel.Relay.Same.{Same, Same-refl, OutcomeSame, open_tunnel-Same}

-- The entries of an answer stand for those of the request, one by one.
abbrev pub SameEntries : Msg.AddTunnels → Msg.AddTunnels → Type 0
SameEntries [] [] = Unit {0}
SameEntries ((k, t) ∷ ts) ((q, v) ∷ vs) = (q ≡ k) × Same t v × SameEntries ts vs
SameEntries _ _ = ⊥

SameEntries-append :
    (ts vs : Msg.AddTunnels) (k : Text) (t v : Msg.Tunnel)
    → SameEntries ts vs
    → Same t v
    → SameEntries (ts ++ (k, t) ∷ []) (vs ++ (k, v) ∷ [])
SameEntries-append [] [] k t v h s = (refl, s, tt)
SameEntries-append ((a, x) ∷ ts) ((b, y) ∷ vs) k t v (same, s', rest) s =
    (same, s', SameEntries-append ts vs k t v rest s)
SameEntries-append [] (y ∷ vs) k t v h s = absurd h
SameEntries-append (x ∷ ts) [] k t v h s = absurd h

-- A request that is no answer, or the answer to `ts`.
abbrev pub Answers : Msg.AddTunnels → WriteReq → Type 0
Answers ts (added vs) = SameEntries ts vs
Answers ts _ = Unit {0}

-- The channel has got more requests, and each answer among them is one to `ts`.
pub record Answered (ts : Msg.AddTunnels) (c d : Control) : Type 0 where
  pub more : List WriteReq
  pub chan : d.write_chan ≡ c.write_chan ++ more
  pub answers : All (Answers ts) more

Answered-refl :
    (ts : Msg.AddTunnels) (c d : Control) → d.write_chan ≡ c.write_chan → Answered ts c d
Answered-refl ts c d e = record {
  more = [];
  chan = e ∙ sym (append-nil c.write_chan);
  answers = tt;
}

All-append :
    (ts : Msg.AddTunnels) (xs ys : List WriteReq)
    → All (Answers ts) xs
    → All (Answers ts) ys
    → All (Answers ts) (xs ++ ys)
All-append ts [] ys h k = k
All-append ts (x ∷ xs) ys h k = (h.0, All-append ts xs ys h.1 k)

Answered-trans :
    {ts : Msg.AddTunnels} {c d e : Control} → Answered ts c d → Answered ts d e → Answered ts c e
Answered-trans {ts} {c} f g = record {
  more = f.more ++ g.more;
  chan = g.chan ∙ (ap (λ xs. xs ++ g.more) f.chan ∙ append_assoc c.write_chan f.more g.more);
  answers = All-append ts f.more g.more f.answers g.answers;
}

send-Answered :
    (ts : Msg.AddTunnels) (r : WriteReq) (c : Control) → Answers ts r → Answered ts c (send r c).0
unfolding send
send-Answered ts r c h = elim (Bool-cases (ltb (length c.write_chan) 64)) [
  | inl room ↦ rw room (record { more = r ∷ []; chan = refl; answers = (h, tt) })
  | inr full ↦ rw full (Answered-refl ts c _ refl)
]

close_old-chan :
    (name : Text) (o : Option ℕ) (c : Control) (w : World)
    → (close_old name o c w).0.write_chan ≡ c.write_chan
unfolding close_old
close_old-chan name none c w = refl
close_old-chan name (some t) c w = refl

-- A round answers with an entry for the one asked for, and sends refusals only.
abbrev pub RoundAnswers :
    Msg.AddTunnels → Msg.Tunnel → Control → Control × World × Msg.Tunnel × Bool → Type 0
RoundAnswers ts asked c r = Same asked r.2 × Answered ts c r.0

enter-RoundAnswers :
    (ts : Msg.AddTunnels) (name : Text) (asked t : Msg.Tunnel) (lis taken : Option ℕ) (c : Control)
    (w : World)
    → Same asked t
    → RoundAnswers ts asked c (enter name asked t lis taken c w)
unfolding enter register
enter-RoundAnswers ts name asked t lis none c w s = (s, Answered-refl ts c _ refl)
enter-RoundAnswers ts name asked t lis (some other) c w s =
    (Same-refl asked, send-Answered ts _ c tt)

finish_tunnel-RoundAnswers :
    (ts : Msg.AddTunnels) (name : Text) (asked : Msg.Tunnel) (o : Outcome) (c : Control) (w : World)
    → OutcomeSame asked o
    → RoundAnswers ts asked c (finish_tunnel name asked o c w)
unfolding finish_tunnel
finish_tunnel-RoundAnswers ts name asked (not_opened t) c w s =
    (Same-refl asked, send-Answered ts _ c tt)
finish_tunnel-RoundAnswers ts name asked (opened t lis) c w s =
    enter-RoundAnswers ts name asked t lis _ c w s

module _ (listen : Text → ℕ → World → Option (ℕ × ℕ)) (conf : ServerConf) where
  pub add_tunnel-RoundAnswers :
      (ts : Msg.AddTunnels) (name : Text) (t : Msg.Tunnel) (c : Control) (w : World)
      → RoundAnswers ts t c (add_tunnel listen conf name t c w)
  unfolding add_tunnel
  add_tunnel-RoundAnswers ts name t c w =
      let old = c.tunnels name in
      let (s, a) =
        finish_tunnel-RoundAnswers ts name t _ (close_old name old c w).0 _
          (open_tunnel-Same listen conf t _ _) in
      (s, Answered-trans (Answered-refl ts c _ (close_old-chan name old c w)) a)

  add_loop-Answered :
      (asked through ts : Msg.AddTunnels) (c : Control) (w : World)
      → SameEntries asked through
      → Answered (asked ++ ts) c (add_loop listen conf through ts c w).0
  unfolding add_loop
  add_loop-Answered asked through [] c w h =
      send-Answered (asked ++ []) (added through) c (rw (append-nil asked) h)
  add_loop-Answered asked through ((name, t) ∷ rest) c w h =
      let all = asked ++ (name, t) ∷ rest in
      let r = add_tunnel listen conf name t c w in
      let (s, first) = add_tunnel-RoundAnswers all name t c w in
      let later =
        subst
          (λ xs.
            Answered xs r.0 (add_loop listen conf (through ++ (name, r.2) ∷ []) rest r.0 r.1).0)
          (append_assoc asked ((name, t) ∷ []) rest)
          (add_loop-Answered (asked ++ (name, t) ∷ []) (through ++ (name, r.2) ∷ []) rest r.0 r.1
            (SameEntries-append asked through name t r.2 h s)) in
      elim (Bool-cases (r.3)) [
        | inl on ↦ rw on (Answered-trans first later)
        | inr off ↦ rw off first
      ]

-- The client has the tunnels that it asks for.
abbrev pub Holds : Map Msg.Tunnel → Msg.AddTunnels → Type 0
Holds m [] = Unit {0}
Holds m ((k, t) ∷ ts) = (m k ≡ some t) × Holds m ts

pub Same-agrees : (t v : Msg.Tunnel) → Same t v → agrees t v ≡ true
unfolding agrees local_addr
Same-agrees t v s =
    rw
      (
        s.local_same,
        s.rewrite,
        s.schema,
        text_eq_refl t.http_host_rewrite,
        text_eq_refl (local_addr t),
        text_eq_refl t.public.schema,
      )
      refl

sync_tunnels-same :
    (ts vs : Msg.AddTunnels) (m : Map Msg.Tunnel)
    → SameEntries ts vs
    → Holds m ts
    → sync_tunnels vs m ≡ m
unfolding sync_tunnels sync_tunnel
sync_tunnels-same [] [] m h k = refl
sync_tunnels-same ((a, t) ∷ ts) ((b, v) ∷ vs) m (e, s, rest) (here, k) =
    rw (e, here, Same-agrees t v s) (sync_tunnels-same ts vs m rest k)
sync_tunnels-same [] (v ∷ vs) m h k = absurd h
sync_tunnels-same (t ∷ ts) [] m h k = absurd h

-- An answer that changes none of the client's tunnels, or another request.
abbrev pub KeepsTunnels : Map Msg.Tunnel → WriteReq → Type 0
KeepsTunnels m (added vs) = sync_tunnels vs m ≡ m
KeepsTunnels m _ = Unit {0}

Answers-KeepsTunnels :
    (ts : Msg.AddTunnels) (m : Map Msg.Tunnel)
    → Holds m ts
    → (r : WriteReq) → Answers ts r
    → KeepsTunnels m r
Answers-KeepsTunnels ts m k (added vs) h = sync_tunnels-same ts vs m h k
Answers-KeepsTunnels ts m k (refused a) h = tt
Answers-KeepsTunnels ts m k ping h = tt
Answers-KeepsTunnels ts m k pong h = tt
Answers-KeepsTunnels ts m k pipe_req h = tt

-- Whatever public addresses the server chooses or refuses, its answer to tunnels that the client
-- has does not change them: `SyncTunnels` leaves the client's map as it was, so every stream still
-- gets to the local address that was configured.
pub server_add_tunnels-KeepsTunnels :
    (listen : Text → ℕ → World → Option (ℕ × ℕ)) (conf : ServerConf) (ts : Msg.AddTunnels)
    (m : Map Msg.Tunnel) (c : Control) (w : World)
    → Holds m ts
    → (more : List WriteReq) × ((server_add_tunnels listen conf ts c w).0.write_chan
        ≡ c.write_chan ++ more)
      × All (KeepsTunnels m) more
unfolding server_add_tunnels
server_add_tunnels-KeepsTunnels listen conf ts m c w k =
    let a = add_loop-Answered listen conf [] [] ts c w tt in
    (a.more, a.chan, All-map a.more (Answers-KeepsTunnels ts m k) a.answers)
