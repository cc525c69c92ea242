-- ===== src/Server/Loops/Invariant.antt =====
-- The loops of a control in server/serControl.go never leave the sound states.
use lunnel.Base.{
  ℕ, ◌≤◌, ◌<◌, ◌≡◌, refl, Bool, true, ◌&&◌, Bool-cases, inl, inr, Option, none, some, List, [], ◌∷◌,
  arith, length, All,
}
use lunnel.Base.Text.{Text}
use lunnel.Msg
use lunnel.Health.{is_timed_out, too_soon}
use lunnel.Server.Config.{Health}
use lunnel.Server.Tunnels.{World, Control, ServerConf, WriteReq, ping, pipe_req, send}
use lunnel.Server.Tunnels.Routing.{IsRouted, Owned, close_tunnels-IsRouted, close_tunnels-fresh}
use lunnel.Server.Tunnels.Isolation.{server_add_tunnels-Safe, send-tunnels}
use lunnel.Server.Tunnels.Queue.{send-Kept, server_add_tunnels-Kept}
use lunnel.Server.Tunnels.Served.{send-stops}
use lunnel.Server.Loops.{
  Loops, cancel, Event, received, written, write_done, ticked, serve_done, added, requested,
  is_ping, leave, write_round, serve_round, add_one, step, IsOrder, IsEnabled, Reaches, here, next,
  serve,
}
use lunnel.Server.Loops.Sound.{
  IsSound, cancelled-IsSound, sent-IsSound, recv_round-IsSound, write_one-IsSound,
}

-- The tunnels of an order of the control's have been made.
pub made :
    (order : List ℕ) (c : Control) (w : World)
    → All (λ t. (name : Text) × (c.tunnels name ≡ some t)) order
    → Owned c w
    → All (λ t. t < w.fresh) order
made [] c w h o = tt
made (t ∷ ts) c w h o = (o h.0.0 t h.0.1, made ts c w h.1 o)

-- `Serve` returns only from a closed control.
leave-IsSound :
    (order : List ℕ) (l : Loops)
    → IsSound l
    → l.ctl.is_done ≡ true
    → IsOrder order l.ctl.tunnels
    → IsSound (leave order l)
unfolding leave
leave-IsSound order l v done o = record {
  room = v.room;
  reader = v.reader;
  writer = v.writer;
  server = λ e. done;
  conn = refl;
  routed = close_tunnels-IsRouted order l.world v.routed (made order l.ctl l.world o.only v.owned);
  owned = λ name t e. rw (close_tunnels-fresh order l.world) (v.owned name t e);
}

send-IsOrder :
    (r : WriteReq) (c : Control) (order : List ℕ)
    → IsOrder order c.tunnels
    → IsOrder order (send r c).0.tunnels
send-IsOrder r c order o = rw (send-tunnels r c) o

module _ (health : Health) where
  write_round-IsSound :
      (now : ℕ) (fine : Bool) (q : List WriteReq) (l : Loops)
      → l.ctl.write_chan ≡ q
      → IsSound l
      → IsSound (write_round health now fine q l)
  unfolding write_round
  write_round-IsSound now fine [] l e v = v
  write_round-IsSound now fine (r ∷ rest) l e v =
      let l' = record l { ctl = record (l.ctl) { write_chan = rest } } in
      let v' : IsSound l' = record {
        room = let h = rw e at v.room in omega arith;
        reader = v.reader;
        writer = v.writer;
        server = v.server;
        conn = v.conn;
        routed = v.routed;
        owned = v.owned;
      } in
      elim (Bool-cases (is_ping r && too_soon health.interval now l.last_write)) [
        | inl soon ↦ rw soon v'
        | inr late ↦ rw late (write_one-IsSound now fine r l' v')
      ]

  serve_round-IsSound :
      (now : ℕ) (order : List ℕ) (l : Loops)
      → IsSound l
      → IsOrder order l.ctl.tunnels
      → IsSound (serve_round health now order l)
  unfolding serve_round cancel
  serve_round-IsSound now order l v o =
      elim (Bool-cases (is_timed_out health.time_out now l.last_read)) [
        | inl late ↦ rw late (leave-IsSound order _ (cancelled-IsSound l l.receiving v) refl o)
        | inr live ↦
            let sent =
              sent-IsSound l ping l.receiving v (λ e. (send-Kept ping l.ctl).done (v.reader e)) in
            elim (Bool-cases ((send ping l.ctl).1)) [
              | inl room ↦ rw (live, room) sent
              | inr full ↦
                  rw (live, full)
                    (leave-IsSound order _ sent (send-stops ping l.ctl full)
                      (send-IsOrder ping l.ctl order o))
            ]
      ]

module _ (listen : Text → ℕ → World → Option (ℕ × ℕ)) (conf : ServerConf) where
  add_one-IsSound :
      (i : ℕ) (o : Option Msg.AddTunnels) (l : Loops)
      → IsSound l
      → IsSound (add_one listen conf i o l)
  unfolding add_one
  add_one-IsSound i none l v = v
  add_one-IsSound i (some ts) l v =
      let k = server_add_tunnels-Kept listen conf ts l.ctl l.world in
      let s = server_add_tunnels-Safe listen conf ts l.ctl l.world v.routed v.owned in
      record {
        room = k.room v.room;
        reader = λ e. k.done (v.reader e);
        writer = λ e. k.done (v.writer e);
        server = λ e. k.done (v.server e);
        conn = v.conn;
        routed = s.routed;
        owned = s.owned;
      }

module _ (health : Health) (listen : Text → ℕ → World → Option (ℕ × ℕ)) (conf : ServerConf) where
  step-IsSound :
      (e : Event) (l : Loops) → IsEnabled e l → IsSound l → IsSound (step health listen conf e l)
  unfolding step
  step-IsSound (received now i) l h v = recv_round-IsSound now i l v
  step-IsSound (written now fine) l h v = write_round-IsSound health now fine _ l refl v
  step-IsSound write_done l h v = record {
    room = v.room;
    reader = v.reader;
    writer = λ e. h.1;
    server = v.server;
    conn = v.conn;
    routed = v.routed;
    owned = v.owned;
  }
  step-IsSound (ticked now order) l h v = serve_round-IsSound health now order l v h.1
  step-IsSound (serve_done order) l h v = leave-IsSound order l v h.1 h.2
  step-IsSound (added i) l h v = add_one-IsSound listen conf i _ l v
  step-IsSound requested l h v =
      sent-IsSound l pipe_req l.receiving v (λ e. (send-Kept pipe_req l.ctl).done (v.reader e))

  -- In every state that is reached from a sound one, at most 64 requests wait, a loop has returned
  -- only if the control is closed, the connection is closed just when `Serve` has returned, and
  -- the map of public addresses leads to every open tunnel and to no other one.
  pub Reaches-IsSound : (l m : Loops) → IsSound l → Reaches health listen conf l m → IsSound m
  Reaches-IsSound l _ v here = v
  Reaches-IsSound l _ v (next r e h) = step-IsSound e _ h (Reaches-IsSound l _ v r)

-- A control whose loops start is sound if its channel is within bounds and its map in order.
pub serve-IsSound :
    (now : ℕ) (c : Control) (w : World)
    → length c.write_chan ≤ 64
    → IsRouted w
    → Owned c w
    → IsSound (serve now c w)
unfolding serve
serve-IsSound now c w room v o = record {
  room = room;
  reader = λ e. absurd (ground (arith, e));
  writer = λ e. absurd (ground (arith, e));
  server = λ e. absurd (ground (arith, e));
  conn = refl;
  routed = v;
  owned = o;
}
