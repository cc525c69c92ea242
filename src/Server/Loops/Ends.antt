-- ===== src/Server/Loops/Ends.antt =====
-- How the loops of a control in server/serControl.go come to their end.
use lunnel.Base.{
  ℕ, suc, ◌≤◌, ◌⊎◌, ◌+◌, ◌*◌, ◌^◌, ◌<◌, ◌≡◌, refl, ◌∙◌, subst, Bool, true, false, Bool-cases, inl,
  inr, Option, none, some, List, [], ◌∷◌, arith, ◌&&◌,
}
use lunnel.Base.Text.{Text}
use lunnel.Base.Int.{pos}
use lunnel.Msg
use lunnel.Health.{is_timed_out, too_soon, is_timed_out-late}
use lunnel.Server.Config.{Health}
use lunnel.Server.Tunnels.{World, ServerConf, WriteReq, ping, pong, pipe_req, send}
use lunnel.Server.Tunnels.Queue.{send-Kept, server_add_tunnels-Kept}
use lunnel.Server.Tunnels.Shutdown.{close_tunnels-closed}
use lunnel.Server.Loops.Sound.{IsSound}
use lunnel.Server.Loops.{
  Incoming, failed, pinged, exited, ignored, adds, Loops, cancel, Event, received, written,
  write_done, ticked, serve_done, added, requested, receive, recv_round, write_one, is_ping, leave,
  write_round, serve_round, add_one, step, IsOrder, IsEnabled, Reaches, here, next,
}

-- No round undoes `c.Close()`.
abbrev Stays : Loops → Loops → Type 0
Stays l m = l.ctl.is_done ≡ true → m.ctl.is_done ≡ true

receive-done : (i : Incoming) (l : Loops) → Stays l (receive i l)
unfolding receive cancel
receive-done failed l e = refl
receive-done pinged l e = (send-Kept pong l.ctl).done e
receive-done exited l e = refl
receive-done ignored l e = e
receive-done (adds ts) l e = e

recv_round-done : (now : ℕ) (i : Incoming) (l : Loops) → Stays l (recv_round now i l)
unfolding recv_round
recv_round-done now failed l e = receive-done failed l e
recv_round-done now pinged l e = receive-done pinged _ e
recv_round-done now exited l e = receive-done exited _ e
recv_round-done now ignored l e = receive-done ignored _ e
recv_round-done now (adds ts) l e = receive-done (adds ts) _ e

write_round-done :
    (health : Health) (now : ℕ) (fine : Bool) (q : List WriteReq) (l : Loops)
    → Stays l (write_round health now fine q l)
unfolding write_round write_one cancel
write_round-done health now fine [] l e = e
write_round-done health now fine (r ∷ rest) l e =
    elim (Bool-cases (is_ping r && too_soon health.interval now l.last_write)) [
      | inl soon ↦ rw soon e
      | inr late ↦ elim (Bool-cases fine) [ inl f ↦ rw (late, f) e | inr f ↦ rw (late, f) refl ]
    ]

serve_round-done :
    (health : Health) (now : ℕ) (order : List ℕ) (l : Loops)
    → Stays l (serve_round health now order l)
unfolding serve_round leave cancel
serve_round-done health now order l e =
    elim (Bool-cases (is_timed_out health.time_out now l.last_read)) [
      | inl late ↦ rw late refl
      | inr live ↦ elim (Bool-cases ((send ping l.ctl).1)) [
        | inl room ↦ rw (live, room) ((send-Kept ping l.ctl).done e)
        | inr full ↦ rw (live, full) ((send-Kept ping l.ctl).done e)
      ]
    ]

add_one-done :
    (listen : Text → ℕ → World → Option (ℕ × ℕ)) (conf : ServerConf) (i : ℕ)
    (o : Option Msg.AddTunnels) (l : Loops)
    → Stays l (add_one listen conf i o l)
unfolding add_one
add_one-done listen conf i none l e = e
add_one-done listen conf i (some ts) l e =
    (server_add_tunnels-Kept listen conf ts l.ctl l.world).done e

-- A message that comes in whole; all else brings nothing new from the client.
abbrev pub is_heard : Event → Bool
is_heard (received now failed) = false
is_heard (received now i) = true
is_heard e = false

module _ (health : Health) (listen : Text → ℕ → World → Option (ℕ × ℕ)) (conf : ServerConf) where
  step-done : (e : Event) (l : Loops) → Stays l (step health listen conf e l)
  unfolding step
  step-done (received now i) l e = recv_round-done now i l e
  step-done (written now fine) l e = write_round-done health now fine _ l e
  step-done write_done l e = e
  step-done (ticked now order) l e = serve_round-done health now order l e
  step-done (serve_done order) l e = unfold leave in e
  step-done (added i) l e = add_one-done listen conf i _ l e
  step-done requested l e = (send-Kept pipe_req l.ctl).done e

  pub Reaches-done : (l m : Loops) → Reaches health listen conf l m → Stays l m
  Reaches-done l _ here e = e
  Reaches-done l _ (next r ev h) e = step-done ev _ (Reaches-done l _ r e)

write_round-last_read :
    (health : Health) (now : ℕ) (fine : Bool) (q : List WriteReq) (l : Loops)
    → (write_round health now fine q l).last_read ≡ l.last_read
unfolding write_round write_one
write_round-last_read health now fine [] l = refl
write_round-last_read health now fine (r ∷ rest) l = ground arith

serve_round-last_read :
    (health : Health) (now : ℕ) (order : List ℕ) (l : Loops)
    → (serve_round health now order l).last_read ≡ l.last_read
unfolding serve_round leave
serve_round-last_read health now order l = ground arith

add_one-last_read :
    (listen : Text → ℕ → World → Option (ℕ × ℕ)) (conf : ServerConf) (i : ℕ)
    (o : Option Msg.AddTunnels) (l : Loops)
    → (add_one listen conf i o l).last_read ≡ l.last_read
unfolding add_one
add_one-last_read listen conf i none l = refl
add_one-last_read listen conf i (some ts) l = refl

unheard : true ≡ false → ⊥
unheard e = ground arith

module _ (health : Health) (listen : Text → ℕ → World → Option (ℕ × ℕ)) (conf : ServerConf) where
  -- The states that are reached while nothing comes in.
  pub data Silent (l : Loops) : Loops → Type 0 where
    quiet : Silent l l
    wait :
        {m : Loops}
        → Silent l m
        → (e : Event) → is_heard e ≡ false
        → Silent l (step health listen conf e m)

  step-last_read :
      (e : Event) (l : Loops)
      → is_heard e ≡ false
      → (step health listen conf e l).last_read ≡ l.last_read
  unfolding step recv_round receive leave
  step-last_read (received now failed) l h = refl
  step-last_read (received now pinged) l h = absurd (unheard h)
  step-last_read (received now exited) l h = absurd (unheard h)
  step-last_read (received now ignored) l h = absurd (unheard h)
  step-last_read (received now (adds ts)) l h = absurd (unheard h)
  step-last_read (written now fine) l h = write_round-last_read health now fine _ l
  step-last_read write_done l h = refl
  step-last_read (ticked now order) l h = serve_round-last_read health now order l
  step-last_read (serve_done order) l h = refl
  step-last_read (added i) l h = add_one-last_read listen conf i _ l
  step-last_read requested l h = refl

  Silent-last_read : (l m : Loops) → Silent l m → m.last_read ≡ l.last_read
  Silent-last_read l _ quiet = refl
  Silent-last_read l _ (wait {m} r e h) = step-last_read e m h ∙ Silent-last_read l m r

  -- When nothing has come in from the client for longer than the timeout, whatever the control did
  -- in the meantime, the next tick of `Serve` closes the control, its connection and all its
  -- tunnels, and is the last one.
  pub Silent-tick_closes :
      (s now : ℕ) (order : List ℕ) (l m : Loops)
      → health.time_out ≡ pos s
      → s * 10 ^ 9 < 2 ^ 63
      → now < 2 ^ 63
      → l.last_read + s * 10 ^ 9 < now
      → Silent l m
      → IsOrder order m.ctl.tunnels
      → let n = step health listen conf (ticked now order) m in
        (n.ctl.is_done ≡ true)
        × (n.serving ≡ false)
        × (n.conn_closed ≡ true)
        × ((name : Text) (t : ℕ)
            → m.ctl.tunnels name ≡ some t
            → (n.world.tunnels t).is_closed ≡ true)
  unfolding step serve_round leave cancel
  Silent-tick_closes s now order l m e h k over quiet' o =
      let out : is_timed_out health.time_out now m.last_read ≡ true =
        rw (e, Silent-last_read l m quiet') (is_timed_out-late s now l.last_read h k over) in
      rw out (refl, refl, refl, λ name t f. close_tunnels-closed order t m.world (o.every name t f))

  -- What is reached in a number of rounds.
  pub data Run (l : Loops) : ℕ → Loops → Type 0 where
    start : Run l 0 l
    round :
        {k : ℕ} {m : Loops}
        → Run l k m
        → (e : Event) → IsEnabled e m
        → Run l (suc k) (step health listen conf e m)

  -- A run is one of the sequences of rounds that the invariants are about.
  pub Run-Reaches : (l m : Loops) (k : ℕ) → Run l k m → Reaches health listen conf l m
  Run-Reaches l _ _ start = here
  Run-Reaches l _ _ (round {k} {m} r e h) = next (Run-Reaches l m k r) e h

  abbrev Within : ℕ → Loops → Loops → Type 0
  Within n l m = (k : ℕ) × (k ≤ n) × Run l k m

  Within-next :
      (n : ℕ) (l m : Loops) (e : Event)
      → Within n l m
      → IsEnabled e m
      → Within (suc n) l (step health listen conf e m)
  Within-next n l m e (k, small, r) h = (suc k, omega arith, round r e h)

  Within-more : (n : ℕ) (l m : Loops) → Within n l m → Within (suc n) l m
  Within-more n l m (k, small, r) = (k, omega arith, r)

  -- `Serve` has returned, and if it was still there, has closed the tunnels of the control.
  abbrev IsLeft : Loops → Loops → Type 0
  IsLeft l m =
      (m.serving ≡ false)
      × (m.conn_closed ≡ true)
      × ((l.serving ≡ false)
          ⊎ ((name : Text) (t : ℕ)
              → l.ctl.tunnels name ≡ some t
              → (m.world.tunnels t).is_closed ≡ true))

  stop_server :
      (order : List ℕ) (l : Loops)
      → IsSound l
      → l.ctl.is_done ≡ true
      → IsOrder order l.ctl.tunnels
      → (m : Loops) × Within 1 l m × (m.ctl.is_done ≡ true) × IsLeft l m
  unfolding step leave
  stop_server order l v done o = elim (Bool-cases l.serving) [
    | inl runs ↦ (
      _,
      Within-next 0 l l (serve_done order) (0, omega arith, start) (runs, done, o),
      done,
      (refl, refl, inr (λ name t e. close_tunnels-closed order t l.world (o.every name t e))),
    )
    | inr gone ↦ (l, (0, omega arith, start), done, (gone, rw gone at v.conn, inl gone))
  ]

  stop_writer :
      (n : ℕ) (l m : Loops)
      → m.ctl.is_done ≡ true
      → Within n l m
      → Within (suc n) l (record m { writing = false })
  unfolding step
  stop_writer n l m done r = elim (Bool-cases m.writing) [
    | inl runs ↦ Within-next n l m write_done r (runs, done)
    | inr gone ↦ subst (λ b. Within (suc n) l (record m { writing = b })) gone (Within-more n l m r)
  ]

  -- A failing read, if the reader is still there.
  stop_reader :
      (n : ℕ) (l m : Loops)
      → Within n l m
      → IsLeft l m
      → (d : Loops) × Within (suc n) l d
        × (d.receiving ≡ false)
        × (d.writing ≡ m.writing)
        × IsLeft l d
  unfolding step recv_round receive
  stop_reader n l m r left = elim (Bool-cases m.receiving) [
    | inl runs ↦ (_, Within-next n l m (received 0 failed) r runs, refl, refl, left)
    | inr gone ↦ (m, Within-more n l m r, gone, refl, left)
  ]

  -- From every sound state in which the control is closed, in at most three more rounds its loops
  -- can all have returned, with the connection closed; and unless `Serve` had returned before, every
  -- tunnel that the control had is closed.
  pub Run-ends :
      (order : List ℕ) (l : Loops)
      → IsSound l
      → l.ctl.is_done ≡ true
      → IsOrder order l.ctl.tunnels
      → (k : ℕ) × (m : Loops) × (k ≤ 3)
        × Run l k m
        × (m.receiving ≡ false)
        × (m.writing ≡ false)
        × (m.serving ≡ false)
        × (m.conn_closed ≡ true)
        × ((l.serving ≡ false)
            ⊎ ((name : Text) (t : ℕ)
                → l.ctl.tunnels name ≡ some t
                → (m.world.tunnels t).is_closed ≡ true))
  Run-ends order l v done o =
      let (m1, r1, closed, left1) = stop_server order l v done o in
      let r2 = stop_writer 1 l m1 closed r1 in
      let (m, (k, small, r), reader, writer, left) =
        stop_reader 2 l (record m1 { writing = false }) r2 left1 in
      (k, m, small, r, reader, writer, left.0, left.1, left.2)
