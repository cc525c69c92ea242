-- ===== src/Client/Loops/Ends.antt =====
-- How the loops of the control in client/clientControl.go come to their end.
use lunnel.Base.{
  ℕ, ◌+◌, ◌*◌, ◌^◌, ◌<◌, ◌≡◌, refl, ◌∙◌, Bool, true, false, Bool-cases, inl, inr, Option, none,
  some, List, [], ◌∷◌, arith, ltb, length,
}
use lunnel.Base.Int.{pos}
use lunnel.Msg.{AddTunnels}
use lunnel.Health.{is_timed_out, is_timed_out-late}
use lunnel.Client.Config.{Health}
use lunnel.Client.Loops.{
  WriteReq, ping, exit, failed, pinged, piped, refused, exited, ignored, synced, returned, Loops,
  Event, received, written, write_done, ticked, signalled, slept, run_done, posted, enqueued,
  http_ended, send, cancel, stop_reading, kill, receive, recv_round, write_one, leave, announce,
  or_leave, take_request, enqueue, respond, post, write_round, run_round, step,
}

-- A message that comes in whole; all else brings nothing new from the server.
abbrev pub is_heard : Event → Bool
is_heard (received now failed) = false
is_heard (received now i) = true
is_heard e = false

unheard : true ≡ false → ⊥
unheard e = ground arith

send-last_read : (r : WriteReq) (l : Loops) → (send r l).0.last_read ≡ l.last_read
unfolding send
send-last_read r l = ground arith

announce-last_read : (s : Loops × Bool) → (announce s).last_read ≡ s.0.last_read
unfolding announce kill
announce-last_read (l, true) = refl
announce-last_read (l, false) = refl

or_leave-last_read : (s : Loops × Bool) → (or_leave s).last_read ≡ s.0.last_read
unfolding or_leave leave cancel
or_leave-last_read (l, true) = refl
or_leave-last_read (l, false) = refl

respond-last_read : (o : Option AddTunnels) (l : Loops) → (respond o l).last_read ≡ l.last_read
unfolding respond take_request
respond-last_read none l = refl
respond-last_read (some []) l = refl
respond-last_read (some (e ∷ ts)) l = refl

enqueue-last_read : (ws : List AddTunnels) (l : Loops) → (enqueue ws l).last_read ≡ l.last_read
unfolding enqueue send
enqueue-last_read [] l = refl
enqueue-last_read (ts ∷ rest) l = elim (Bool-cases (ltb (length l.write_chan) 64)) [
  | inl room ↦ rw room refl
  | inr full ↦ rw full refl
]

module _ (health : Health) where
  write_round-last_read :
      (now : ℕ) (fine : Bool) (q : List WriteReq) (l : Loops)
      → (write_round health now fine q l).last_read ≡ l.last_read
  unfolding write_round write_one
  write_round-last_read now fine [] l = refl
  write_round-last_read now fine (r ∷ rest) l = ground arith

  run_round-last_read : (now : ℕ) (l : Loops) → (run_round health now l).last_read ≡ l.last_read
  unfolding run_round
  run_round-last_read now l = elim (Bool-cases (is_timed_out health.time_out now l.last_read)) [
    | inl late ↦ rw late (unfold leave cancel in refl)
    | inr live ↦ rw live (or_leave-last_read (send ping l) ∙ send-last_read ping l)
  ]

  module _ (unmarshal : List ℕ → Option AddTunnels) where
    -- The states that are reached while nothing comes in.
    pub data Silent (l : Loops) : Loops → Type 0 where
      quiet : Silent l l
      wait :
          {m : Loops}
          → Silent l m
          → (e : Event) → is_heard e ≡ false
          → Silent l (step health unmarshal e m)

    step-last_read :
        (e : Event) (l : Loops)
        → is_heard e ≡ false
        → (step health unmarshal e l).last_read ≡ l.last_read
    unfolding step
    step-last_read (received now failed) l h = unfold recv_round receive stop_reading in refl
    step-last_read (received now pinged) l h = absurd (unheard h)
    step-last_read (received now piped) l h = absurd (unheard h)
    step-last_read (received now refused) l h = absurd (unheard h)
    step-last_read (received now exited) l h = absurd (unheard h)
    step-last_read (received now ignored) l h = absurd (unheard h)
    step-last_read (received now (synced ts)) l h = absurd (unheard h)
    step-last_read (written now fine) l h = write_round-last_read now fine _ l
    step-last_read write_done l h = refl
    step-last_read (ticked now) l h = run_round-last_read now l
    step-last_read signalled l h = announce-last_read (send exit l) ∙ send-last_read exit l
    step-last_read slept l h = unfold kill in refl
    step-last_read run_done l h = unfold leave in refl
    step-last_read (posted none) l h = unfold post in refl
    step-last_read (posted (some content)) l h =
        unfold post in respond-last_read (unmarshal content) l
    step-last_read enqueued l h = enqueue-last_read _ l
    step-last_read http_ended l h = unfold cancel in refl

    Silent-last_read : (l m : Loops) → Silent l m → m.last_read ≡ l.last_read
    Silent-last_read l _ quiet = refl
    Silent-last_read l _ (wait {m} r e h) = step-last_read e m h ∙ Silent-last_read l m r

    -- When nothing has come in from the server for longer than the timeout, whatever the client did
    -- in the meantime, the next tick of `Run` closes the control and its connection, and is the
    -- last one: the client dials again.
    pub Silent-tick_returns :
        (s now : ℕ) (l m : Loops)
        → health.time_out ≡ pos s
        → s * 10 ^ 9 < 2 ^ 63
        → now < 2 ^ 63
        → l.last_read + s * 10 ^ 9 < now
        → Silent l m
        → let n = step health unmarshal (ticked now) m in
          (n.is_done ≡ true) × (n.phase ≡ returned) × (n.conn_closed ≡ true)
    unfolding step run_round leave cancel
    Silent-tick_returns s now l m e h k over quiet' =
        let out : is_timed_out health.time_out now m.last_read ≡ true =
          rw (e, Silent-last_read l m quiet') (is_timed_out-late s now l.last_read h k over) in
        rw out (refl, refl, refl)
