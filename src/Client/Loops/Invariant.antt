-- ===== src/Client/Loops/Invariant.antt =====
-- What every state of the loops of the control in client/clientControl.go has.
use lunnel.Base.{
  ℕ, ◌≤◌, ◌≡◌, refl, Bool, true, false, ◌&&◌, Bool-cases, inl, inr, Option, none, some, List, [],
  ◌∷◌, ◌++◌, arith, ltb, length, length-append,
}
use lunnel.Base.Maps.{Map}
use lunnel.Msg.{AddTunnels, Tunnel}
use lunnel.Health.{is_timed_out, too_soon}
use lunnel.Client.Config.{Health}
use lunnel.Client.Loops.{
  WriteReq, ping, pong, exit, added, Incoming, failed, pinged, piped, refused, exited, ignored,
  synced, Phase, leaving, returned, killed, Loops, Event, received, written, write_done, ticked,
  signalled, slept, run_done, posted, enqueued, http_ended, send, cancel, stop_reading, or_stop,
  kill, receive, recv_round, write_one, is_ping, leave, announce, or_leave, take_request, enqueue,
  respond, post, write_round, run_round, step, CanRun, Reaches, here, next, run,
}

-- The channel is within its 64 places; a loop has returned only if the control is closed; `Run`
-- closes the connection to the server when it returns.
abbrev pub IsSound : Loops → Type 0
IsSound l =
    (length l.write_chan ≤ 64)
    × (l.receiving ≡ false → l.is_done ≡ true)
    × (l.writing ≡ false → l.is_done ≡ true)
    × (l.phase ≡ returned → (l.is_done ≡ true) × (l.conn_closed ≡ true))

send-IsSound : (r : WriteReq) (l : Loops) → IsSound l → IsSound (send r l).0
unfolding send
send-IsSound r l v = elim (Bool-cases (ltb (length l.write_chan) 64)) [
  | inl room ↦ rw room (
      let fits : length (l.write_chan ++ r ∷ []) ≤ 64 =
        ground (arith, length-append l.write_chan (r ∷ [])) in
      (fits, v.1, v.2, v.3))
  | inr full ↦ rw full v
]

stop_reading-IsSound : (l : Loops) → IsSound l → IsSound (stop_reading l)
unfolding stop_reading
stop_reading-IsSound l v = (v.0, λ e. refl, λ e. refl, λ e. (refl, (v.3 e).1))

cancel-IsSound : (l : Loops) → IsSound l → IsSound (cancel l)
unfolding cancel
cancel-IsSound l v = (v.0, λ e. refl, λ e. refl, λ e. (refl, (v.3 e).1))

or_stop-IsSound : (s : Loops × Bool) → IsSound s.0 → IsSound (or_stop s)
unfolding or_stop
or_stop-IsSound (l, true) v = v
or_stop-IsSound (l, false) v = stop_reading-IsSound l v

-- A phase that is not that of a return.
moved-IsSound :
    (l : Loops) (p : Phase) → (p ≡ returned → ⊥) → IsSound l → IsSound (record l { phase = p })
moved-IsSound l p other v = (v.0, v.1, v.2, λ e. absurd (other e))

leaving_not : leaving ≡ returned → ⊥
leaving_not e = ground arith

killed_not : killed ≡ returned → ⊥
killed_not e = ground arith

kill-IsSound : (l : Loops) → IsSound l → IsSound (kill l)
unfolding kill
kill-IsSound l v = moved-IsSound l killed killed_not v

announce-IsSound : (s : Loops × Bool) → IsSound s.0 → IsSound (announce s)
unfolding announce
announce-IsSound (l, true) v = moved-IsSound l leaving leaving_not v
announce-IsSound (l, false) v = kill-IsSound l v

leave-IsSound : (l : Loops) → l.is_done ≡ true → IsSound l → IsSound (leave l)
unfolding leave
leave-IsSound l done v = (v.0, v.1, v.2, λ e. (done, refl))

or_leave-IsSound : (s : Loops × Bool) → IsSound s.0 → IsSound (or_leave s)
unfolding or_leave
or_leave-IsSound (l, true) v = v
or_leave-IsSound (l, false) v =
    leave-IsSound (cancel l) (unfold cancel in refl) (cancel-IsSound l v)

receive-IsSound : (i : Incoming) (l : Loops) → IsSound l → IsSound (receive i l)
unfolding receive
receive-IsSound failed l v = stop_reading-IsSound l v
receive-IsSound pinged l v = or_stop-IsSound (send pong l) (send-IsSound pong l v)
receive-IsSound piped l v = v
receive-IsSound (synced ts) l v = v
receive-IsSound refused l v = stop_reading-IsSound l v
receive-IsSound exited l v = kill-IsSound l v
receive-IsSound ignored l v = v

recv_round-IsSound : (now : ℕ) (i : Incoming) (l : Loops) → IsSound l → IsSound (recv_round now i l)
unfolding recv_round
recv_round-IsSound now failed l v = receive-IsSound failed l v
recv_round-IsSound now pinged l v = receive-IsSound pinged _ v
recv_round-IsSound now piped l v = receive-IsSound piped _ v
recv_round-IsSound now (synced ts) l v = receive-IsSound (synced ts) _ v
recv_round-IsSound now refused l v = receive-IsSound refused _ v
recv_round-IsSound now exited l v = receive-IsSound exited _ v
recv_round-IsSound now ignored l v = receive-IsSound ignored _ v

write_one-IsSound :
    (now : ℕ) (fine : Bool) (r : WriteReq) (l : Loops)
    → IsSound l
    → IsSound (write_one now fine r l)
unfolding write_one
write_one-IsSound now true r l v = v
write_one-IsSound now false r l v = (v.0, λ e. refl, λ e. refl, λ e. (refl, (v.3 e).1))

take_request-IsSound : (ts : AddTunnels) (l : Loops) → IsSound l → IsSound (take_request ts l)
unfolding take_request
take_request-IsSound [] l v = v
take_request-IsSound (e ∷ ts) l v = v

respond-IsSound : (o : Option AddTunnels) (l : Loops) → IsSound l → IsSound (respond o l)
unfolding respond
respond-IsSound none l v = v
respond-IsSound (some ts) l v = take_request-IsSound ts l v

enqueue-IsSound : (ws : List AddTunnels) (l : Loops) → IsSound l → IsSound (enqueue ws l)
unfolding enqueue
enqueue-IsSound [] l v = v
enqueue-IsSound (ts ∷ rest) l v = elim (Bool-cases ((send (added ts) l).1)) [
  | inl room ↦ rw room (send-IsSound (added ts) l v)
  | inr full ↦ rw full v
]

module _ (health : Health) where
  write_round-IsSound :
      (now : ℕ) (fine : Bool) (q : List WriteReq) (l : Loops)
      → l.write_chan ≡ q
      → IsSound l
      → IsSound (write_round health now fine q l)
  unfolding write_round
  write_round-IsSound now fine [] l e v = v
  write_round-IsSound now fine (r ∷ rest) l e v =
      let fits : length rest ≤ 64 = let h = rw e at v.0 in omega arith in
      let l' = record l { write_chan = rest } in
      elim (Bool-cases (is_ping r && too_soon health.interval now l.last_write)) [
        | inl soon ↦ rw soon (fits, v.1, v.2, v.3)
        | inr late ↦ rw late (write_one-IsSound now fine r l' (fits, v.1, v.2, v.3))
      ]

  run_round-IsSound : (now : ℕ) (l : Loops) → IsSound l → IsSound (run_round health now l)
  unfolding run_round
  run_round-IsSound now l v = elim (Bool-cases (is_timed_out health.time_out now l.last_read)) [
    | inl late ↦ rw late (leave-IsSound (cancel l) (unfold cancel in refl) (cancel-IsSound l v))
    | inr live ↦ rw live (or_leave-IsSound (send ping l) (send-IsSound ping l v))
  ]

  module _ (unmarshal : List ℕ → Option AddTunnels) where
    step-IsSound :
        (e : Event) (l : Loops) → CanRun e l → IsSound l → IsSound (step health unmarshal e l)
    unfolding step
    step-IsSound (received now i) l h v = recv_round-IsSound now i l v
    step-IsSound (written now fine) l h v = write_round-IsSound now fine _ l refl v
    step-IsSound write_done l h v = (v.0, v.1, λ e. h.1, v.3)
    step-IsSound (ticked now) l h v = run_round-IsSound now l v
    step-IsSound signalled l h v = announce-IsSound (send exit l) (send-IsSound exit l v)
    step-IsSound slept l h v = kill-IsSound l v
    step-IsSound run_done l h v = leave-IsSound l h.1 v
    step-IsSound (posted none) l h v = unfold post in v
    step-IsSound (posted (some content)) l h v =
        unfold post in respond-IsSound (unmarshal content) l v
    step-IsSound enqueued l h v = enqueue-IsSound _ l v
    step-IsSound http_ended l h v = cancel-IsSound l v

    Reaches-kept : (l m : Loops) → IsSound l → Reaches health unmarshal l m → IsSound m
    Reaches-kept l _ v here = v
    Reaches-kept l _ v (next {m} r e live can) = step-IsSound e m can (Reaches-kept l m v r)

    -- From the start of `Run` on, whatever happens, at most 64 messages wait, the reader and the
    -- writer have returned only if the control is closed, and when `Run` has returned, the control
    -- and its connection are closed.
    pub run-Reaches_IsSound :
        (now : ℕ) (tunnels : Map Tunnel) (m : Loops)
        → Reaches health unmarshal (run now tunnels) m
        → IsSound m
    unfolding run
    run-Reaches_IsSound now tunnels m r =
        Reaches-kept (run now tunnels) m
          (
            omega arith,
            λ e. absurd (ground (arith, e)),
            λ e. absurd (ground (arith, e)),
            λ e. absurd (ground (arith, e)),
          )
          r
