-- ===== src/Client/Loops/Order.antt =====
-- The tunnels that the handler `AddTunnel` of client/clientControl.go takes, on their way to the
-- server.
use lunnel.Base.{
  ℕ, ◌≡◌, refl, sym, ap, ◌∙◌, Bool, true, false, ◌&&◌, Bool-cases, inl, inr, Option, none, some,
  List, [], ◌∷◌, ◌++◌, append_assoc, append-nil, arith, ltb, length,
}
use lunnel.Msg.{AddTunnels}
use lunnel.Health.{is_timed_out, too_soon}
use lunnel.Client.Config.{Health}
use lunnel.Client.Loops.{
  WriteReq, ping, pong, exit, added, Incoming, failed, pinged, piped, refused, exited, ignored,
  synced, Loops, Event, received, written, write_done, ticked, signalled, slept, run_done, posted,
  enqueued, http_ended, send, cancel, stop_reading, or_stop, kill, receive, recv_round, write_one,
  is_ping, leave, announce, or_leave, take_request, enqueue, respond, post, write_round, run_round,
  step, Reaches, here, next,
}

-- The requests among the messages, in their order; those sent stand the last one first.
abbrev pub queued : List WriteReq → List AddTunnels
queued [] = []
queued (added ts ∷ rs) = ts ∷ queued rs
queued (ping ∷ rs) = queued rs
queued (pong ∷ rs) = queued rs
queued (exit ∷ rs) = queued rs

abbrev pub passed_on : List (ℕ × WriteReq) → List AddTunnels
passed_on [] = []
passed_on ((t, r) ∷ rs) = passed_on rs ++ queued (r ∷ [])

-- All requests: those passed to `WriteMsg`, those in the channel, and those that wait for it.
unfoldable pub requests : Loops → List AddTunnels
requests l = passed_on l.sent ++ (queued l.write_chan ++ l.waiting)

queued-append : (rs ss : List WriteReq) → queued (rs ++ ss) ≡ queued rs ++ queued ss
queued-append [] ss = refl
queued-append (added ts ∷ rs) ss = ap (◌∷◌ ts) (queued-append rs ss)
queued-append (ping ∷ rs) ss = queued-append rs ss
queued-append (pong ∷ rs) ss = queued-append rs ss
queued-append (exit ∷ rs) ss = queued-append rs ss

-- A message that is no request.
send_other : (r : WriteReq) (l : Loops) → queued (r ∷ []) ≡ [] → requests (send r l).0 ≡ requests l
unfolding send requests
send_other r l e = elim (Bool-cases (ltb (length l.write_chan) 64)) [
  | inl room ↦
      rw (room, queued-append l.write_chan (r ∷ []), e, append-nil (queued l.write_chan)) refl
  | inr full ↦ rw full refl
]

regroup : (xs ys zs ws : List AddTunnels) → (xs ++ ys) ++ (zs ++ ws) ≡ xs ++ ((ys ++ zs) ++ ws)
regroup xs ys zs ws = simp (append_assoc)

write_one-requests :
    (now : ℕ) (fine : Bool) (r : WriteReq) (rest : List WriteReq) (l : Loops)
    → l.write_chan ≡ r ∷ rest
    → requests (write_one now fine r (record l { write_chan = rest })) ≡ requests l
unfolding write_one requests
write_one-requests now true r rest l e =
    rw (e, queued-append (r ∷ []) rest)
      (regroup (passed_on l.sent) (queued (r ∷ [])) (queued rest) l.waiting)
write_one-requests now false r rest l e =
    rw (e, queued-append (r ∷ []) rest)
      (regroup (passed_on l.sent) (queued (r ∷ [])) (queued rest) l.waiting)

dropped-requests :
    (r : WriteReq) (rest : List WriteReq) (soon : Bool) (l : Loops)
    → l.write_chan ≡ r ∷ rest
    → (is_ping r && soon) ≡ true
    → requests (record l { write_chan = rest }) ≡ requests l
unfolding requests
dropped-requests ping rest soon l e d = rw e refl
dropped-requests pong rest soon l e d = absurd (ground (arith, d))
dropped-requests exit rest soon l e d = absurd (ground (arith, d))
dropped-requests (added ts) rest soon l e d = absurd (ground (arith, d))

-- The first message of the channel is passed on, or is a ping that is dropped.
write_round-requests :
    (health : Health) (now : ℕ) (fine : Bool) (q : List WriteReq) (l : Loops)
    → l.write_chan ≡ q
    → requests (write_round health now fine q l) ≡ requests l
unfolding write_round
write_round-requests health now fine [] l e = refl
write_round-requests health now fine (r ∷ rest) l e =
    let soon = too_soon health.interval now l.last_write in
    elim (Bool-cases (is_ping r && soon)) [
      | inl drop ↦ rw drop (dropped-requests r rest soon l e drop)
      | inr keep ↦ rw keep (write_one-requests now fine r rest l e)
    ]

-- A send that may stop the reader.
or_stop-requests : (s : Loops × Bool) → requests (or_stop s) ≡ requests s.0
unfolding or_stop stop_reading requests
or_stop-requests (l, true) = refl
or_stop-requests (l, false) = refl

or_leave-requests : (s : Loops × Bool) → requests (or_leave s) ≡ requests s.0
unfolding or_leave leave cancel requests
or_leave-requests (l, true) = refl
or_leave-requests (l, false) = refl

announce-requests : (s : Loops × Bool) → requests (announce s) ≡ requests s.0
unfolding announce kill requests
announce-requests (l, true) = refl
announce-requests (l, false) = refl

receive-requests : (i : Incoming) (l : Loops) → requests (receive i l) ≡ requests l
unfolding receive stop_reading kill requests
receive-requests failed l = refl
receive-requests pinged l = or_stop-requests (send pong l) ∙ send_other pong l refl
receive-requests piped l = refl
receive-requests (synced ts) l = refl
receive-requests refused l = refl
receive-requests exited l = refl
receive-requests ignored l = refl

recv_round-requests :
    (now : ℕ) (i : Incoming) (l : Loops) → requests (recv_round now i l) ≡ requests l
unfolding recv_round requests
recv_round-requests now failed l = receive-requests failed l
recv_round-requests now pinged l = receive-requests pinged _
recv_round-requests now piped l = receive-requests piped _
recv_round-requests now (synced ts) l = receive-requests (synced ts) _
recv_round-requests now refused l = receive-requests refused _
recv_round-requests now exited l = receive-requests exited _
recv_round-requests now ignored l = receive-requests ignored _

run_round-requests :
    (health : Health) (now : ℕ) (l : Loops) → requests (run_round health now l) ≡ requests l
unfolding run_round
run_round-requests health now l = elim (Bool-cases (is_timed_out health.time_out now l.last_read)) [
  | inl late ↦ rw late (unfold leave cancel requests in refl)
  | inr live ↦ rw live (or_leave-requests (send ping l) ∙ send_other ping l refl)
]

-- The handler that waits longest goes in at the end of the channel.
enqueue-requests :
    (ws : List AddTunnels) (l : Loops) → l.waiting ≡ ws → requests (enqueue ws l) ≡ requests l
unfolding enqueue send requests
enqueue-requests [] l e = refl
enqueue-requests (ts ∷ rest) l e = elim (Bool-cases (ltb (length l.write_chan) 64)) [
  | inr full ↦ rw full refl
  | inl room ↦
      rw (room, e, queued-append l.write_chan (added ts ∷ []))
        (ap (λ xs. passed_on l.sent ++ xs) (append_assoc (queued l.write_chan) (ts ∷ []) rest))
]

-- Only a request that is posted makes more of them.
abbrev Grows : Loops → Loops → Type 0
Grows l m = (more : List AddTunnels) × (requests m ≡ requests l ++ more)

same-Grows : (l m : Loops) → requests m ≡ requests l → Grows l m
same-Grows l m e = ([], e ∙ sym (append-nil (requests l)))

take_request-Grows : (ts : AddTunnels) (l : Loops) → Grows l (take_request ts l)
unfolding take_request requests
take_request-Grows [] l = ([], sym (append-nil _))
take_request-Grows (e ∷ ts) l = ((e ∷ ts) ∷ [], simp (append_assoc))

respond-Grows : (o : Option AddTunnels) (l : Loops) → Grows l (respond o l)
unfolding respond
respond-Grows none l = same-Grows l _ (unfold requests in refl)
respond-Grows (some ts) l = take_request-Grows ts l

post-Grows :
    (unmarshal : List ℕ → Option AddTunnels) (content : Option (List ℕ)) (l : Loops)
    → Grows l (post unmarshal content l)
unfolding post
post-Grows unmarshal none l = same-Grows l _ (unfold requests in refl)
post-Grows unmarshal (some content) l = respond-Grows (unmarshal content) l

module _ (health : Health) (unmarshal : List ℕ → Option AddTunnels) where
  step-Grows : (e : Event) (l : Loops) → Grows l (step health unmarshal e l)
  unfolding step
  step-Grows (received now i) l = same-Grows l _ (recv_round-requests now i l)
  step-Grows (written now fine) l = same-Grows l _ (write_round-requests health now fine _ l refl)
  step-Grows write_done l = same-Grows l _ (unfold requests in refl)
  step-Grows (ticked now) l = same-Grows l _ (run_round-requests health now l)
  step-Grows signalled l = same-Grows l _ (announce-requests (send exit l) ∙ send_other exit l refl)
  step-Grows slept l = same-Grows l _ (unfold kill requests in refl)
  step-Grows run_done l = same-Grows l _ (unfold leave requests in refl)
  step-Grows (posted content) l = post-Grows unmarshal content l
  step-Grows enqueued l = same-Grows l _ (enqueue-requests _ l refl)
  step-Grows http_ended l = same-Grows l _ (unfold cancel requests in refl)

  -- However the loops of the client run, the requests that its handler has taken are neither lost
  -- nor overtaken: passed to `WriteMsg`, in the channel or waiting for it, they keep their order,
  -- and later ones stand behind them.
  pub Reaches-Grows :
      (l m : Loops)
      → Reaches health unmarshal l m
      → (more : List AddTunnels) × (requests m ≡ requests l ++ more)
  Reaches-Grows l _ here = same-Grows l l refl
  Reaches-Grows l _ (next {m} r e live can) =
      let (more, f) = Reaches-Grows l m r in
      let (extra, g) = step-Grows e m in
      (more ++ extra, g ∙ ap (λ xs. xs ++ extra) f ∙ append_assoc (requests l) more extra)
