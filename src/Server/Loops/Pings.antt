-- ===== src/Server/Loops/Pings.antt =====
-- How far apart the pings of a control of server/serControl.go are.
use lunnel.Base.{
  ℕ, ◌+◌, ◌*◌, ◌/◌, ◌^◌, ◌<◌, ◌≤◌, ◌≡◌, refl, Bool, true, false, ◌&&◌, Bool-cases, inl, inr, Option,
  none, some, List, [], ◌∷◌, arith, get_elem?,
}
use lunnel.Base.Text.{Text}
use lunnel.Base.Int.{pos}
use lunnel.Msg
use lunnel.Health.{too_soon, too_soon-le}
use lunnel.Server.Config.{Health}
use lunnel.Server.Tunnels.{World, Control, ServerConf, WriteReq}
use lunnel.Server.Loops.{
  Incoming, failed, pinged, exited, ignored, adds, Loops, Event, received, written, write_done,
  ticked, serve_done, added, requested, receive, recv_round, write_one, is_ping, leave, write_round,
  serve_round, add_one, step, Reaches, here, next, serve,
}

-- The time of the last message, or the start.
abbrev pub last_time : ℕ → List (ℕ × WriteReq) → ℕ
last_time start [] = start
last_time start ((t, r) ∷ sent) = t

-- Every ping is at least `d` after the message before it.
abbrev pub AreSpaced : ℕ → ℕ → List (ℕ × WriteReq) → Type 0
AreSpaced d start [] = Unit {0}
AreSpaced d start ((t, r) ∷ sent) =
    (is_ping r ≡ true → last_time start sent + d ≤ t) × AreSpaced d start sent

-- What the writer remembers is the time of its last message.
abbrev Spaced : ℕ → ℕ → ℕ → List (ℕ × WriteReq) → Type 0
Spaced d start last sent = (last ≡ last_time start sent) × AreSpaced d start sent

write_one-Spaced :
    (d start now : ℕ) (fine : Bool) (r : WriteReq) (l : Loops)
    → Spaced d start l.last_write l.sent
    → (is_ping r ≡ true → l.last_write + d ≤ now)
    → let m = write_one now fine r l in Spaced d start m.last_write m.sent
unfolding write_one
write_one-Spaced d start now true r l v h = (refl, (λ e. rw (← v.0) (h e), v.1))
write_one-Spaced d start now false r l v h = (refl, (λ e. rw (← v.0) (h e), v.1))

and_false : (a b : Bool) → (a && b) ≡ false → a ≡ true → b ≡ false
and_false true b e f = e
and_false false b e f = absurd (ground (arith, f))

write_round-Spaced :
    (health : Health) (s start now : ℕ) (fine : Bool) (q : List WriteReq) (l : Loops)
    → health.interval ≡ pos s
    → s * 10 ^ 9 < 2 ^ 63
    → let d = s * 10 ^ 9 / 2 in
      let m = write_round health now fine q l in
      Spaced d start l.last_write l.sent → Spaced d start m.last_write m.sent
unfolding write_round
write_round-Spaced health s start now fine [] l e h v = v
write_round-Spaced health s start now fine (r ∷ rest) l e h v =
    let soon = too_soon health.interval now l.last_write in
    let l' = record l { ctl = record (l.ctl) { write_chan = rest } } in
    elim (Bool-cases (is_ping r && soon)) [
      | inl drop ↦ rw drop v
      | inr keep ↦ rw keep (
          write_one-Spaced (s * 10 ^ 9 / 2) start now fine r l' v
            (λ f. too_soon-le s now l.last_write h (rw (← e) (and_false (is_ping r) soon keep f))))
    ]

recv_round-sent :
    (now : ℕ) (i : Incoming) (l : Loops)
    → ((recv_round now i l).sent ≡ l.sent) × ((recv_round now i l).last_write ≡ l.last_write)
unfolding recv_round receive
recv_round-sent now failed l = (refl, refl)
recv_round-sent now pinged l = (refl, refl)
recv_round-sent now exited l = (refl, refl)
recv_round-sent now ignored l = (refl, refl)
recv_round-sent now (adds ts) l = (refl, refl)

serve_round-sent :
    (health : Health) (now : ℕ) (order : List ℕ) (l : Loops)
    → let m = serve_round health now order l in (m.sent ≡ l.sent) × (m.last_write ≡ l.last_write)
unfolding serve_round leave
serve_round-sent health now order l = ground arith

add_one-sent :
    (listen : Text → ℕ → World → Option (ℕ × ℕ)) (conf : ServerConf) (i : ℕ)
    (o : Option Msg.AddTunnels) (l : Loops)
    → let m = add_one listen conf i o l in (m.sent ≡ l.sent) × (m.last_write ≡ l.last_write)
unfolding add_one
add_one-sent listen conf i none l = (refl, refl)
add_one-sent listen conf i (some ts) l = (refl, refl)

module _ (health : Health) (listen : Text → ℕ → World → Option (ℕ × ℕ)) (conf : ServerConf) where
  step-Spaced :
      (s start : ℕ) (e : Event) (l : Loops)
      → health.interval ≡ pos s
      → s * 10 ^ 9 < 2 ^ 63
      → let d = s * 10 ^ 9 / 2 in
        let m = step health listen conf e l in
        Spaced d start l.last_write l.sent → Spaced d start m.last_write m.sent
  unfolding step leave
  step-Spaced s start (received now i) l e h v = let (a, b) = recv_round-sent now i l in rw (a, b) v
  step-Spaced s start (written now fine) l e h v =
      write_round-Spaced health s start now fine _ l e h v
  step-Spaced s start write_done l e h v = v
  step-Spaced s start (ticked now order) l e h v =
      let (a, b) = serve_round-sent health now order l in rw (a, b) v
  step-Spaced s start (serve_done order) l e h v = v
  step-Spaced s start (added i) l e h v =
      let (a, b) = add_one-sent listen conf i (get_elem? l.adding i) l in rw (a, b) v
  step-Spaced s start requested l e h v = v

  Reaches-Spaced :
      (s start : ℕ) (l m : Loops)
      → health.interval ≡ pos s
      → s * 10 ^ 9 < 2 ^ 63
      → Spaced (s * 10 ^ 9 / 2) start l.last_write l.sent
      → Reaches health listen conf l m
      → Spaced (s * 10 ^ 9 / 2) start m.last_write m.sent
  Reaches-Spaced s start l _ e h v here = v
  Reaches-Spaced s start l _ e h v (next {m} r ev en) =
      step-Spaced s start ev m e h (Reaches-Spaced s start l m e h v r)

  -- However the loops of a control run from their start on, every ping that it sends comes at least
  -- half an interval after the message before it, or after the start if it is the first message.
  pub serve-AreSpaced :
      (s start : ℕ) (c : Control) (w : World) (m : Loops)
      → health.interval ≡ pos s
      → s * 10 ^ 9 < 2 ^ 63
      → Reaches health listen conf (serve start c w) m
      → AreSpaced (s * 10 ^ 9 / 2) start m.sent
  unfolding serve
  serve-AreSpaced s start c w m e h r = (Reaches-Spaced s start _ m e h (refl, tt) r).1
