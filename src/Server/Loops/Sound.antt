-- ===== src/Server/Loops/Sound.antt =====
-- What every state of the loops of a control in server/serControl.go has, and that the rounds of the
-- reader and of the writer keep it.
use lunnel.Base.{ℕ, ◌≤◌, ◌≡◌, refl, Bool, true, false, not, List, length}
use lunnel.Server.Tunnels.{Control, WriteReq, pong, send}
use lunnel.Server.Tunnels.Routing.{IsRouted, Owned}
use lunnel.Server.Tunnels.Isolation.{send-tunnels}
use lunnel.Server.Tunnels.Queue.{Kept, send-Kept}
use lunnel.Server.Tunnels.Served.{send-stops}
use lunnel.Server.Loops.{
  Incoming, failed, pinged, exited, ignored, adds, Loops, cancel, receive, recv_round, write_one,
}

-- The channel is within its 64 places; a loop has returned only if the control is closed; the
-- connection is closed once `Serve` has returned; the map of public addresses is in order, and the
-- tunnels of the control have been made.
pub record IsSound (l : Loops) : Type 0 where
  pub room : length l.ctl.write_chan ≤ 64
  pub reader : l.receiving ≡ false → l.ctl.is_done ≡ true
  pub writer : l.writing ≡ false → l.ctl.is_done ≡ true
  pub server : l.serving ≡ false → l.ctl.is_done ≡ true
  pub conn : l.conn_closed ≡ not l.serving
  pub routed : IsRouted l.world
  pub owned : Owned l.ctl l.world

-- A step from a control to another one that keeps its tunnels.
with_ctl-IsSound :
    (l : Loops) (d : Control) (running : Bool) (v : IsSound l)
    → Kept l.ctl d
    → d.tunnels ≡ l.ctl.tunnels
    → (running ≡ false → d.is_done ≡ true)
    → IsSound (record l { ctl = d; receiving = running })
with_ctl-IsSound l d running v k same stops = record {
  room = k.room v.room;
  reader = stops;
  writer = λ e. k.done (v.writer e);
  server = λ e. k.done (v.server e);
  conn = v.conn;
  routed = v.routed;
  owned = rw same v.owned;
}

cancel-Kept : (c : Control) → Kept c (cancel c)
unfolding cancel
cancel-Kept c = record { room = λ h. h; done = λ h. refl }

pub cancelled-IsSound :
    (l : Loops) (reads : Bool)
    → IsSound l
    → IsSound (record l { ctl = cancel l.ctl; receiving = reads })
unfolding cancel
cancelled-IsSound l reads v =
    with_ctl-IsSound l (cancel l.ctl) reads v (cancel-Kept l.ctl) refl (λ e. refl)

-- A request that is sent, by a loop that returns where there is no room.
pub sent-IsSound :
    (l : Loops) (r : WriteReq) (reads : Bool)
    → IsSound l
    → (reads ≡ false → (send r l.ctl).0.is_done ≡ true)
    → IsSound (record l { ctl = (send r l.ctl).0; receiving = reads })
sent-IsSound l r reads v stops =
    with_ctl-IsSound l _ reads v (send-Kept r l.ctl) (send-tunnels r l.ctl) stops

receive-IsSound : (i : Incoming) (l : Loops) → IsSound l → IsSound (receive i l)
unfolding receive
receive-IsSound failed l v = cancelled-IsSound l false v
receive-IsSound exited l v = cancelled-IsSound l false v
receive-IsSound ignored l v = v
receive-IsSound (adds ts) l v = record {
  room = v.room;
  reader = v.reader;
  writer = v.writer;
  server = v.server;
  conn = v.conn;
  routed = v.routed;
  owned = v.owned;
}
receive-IsSound pinged l v = sent-IsSound l pong _ v (λ e. send-stops pong l.ctl e)

timed-IsSound :
    (l : Loops) (r w : ℕ) (s : List (ℕ × WriteReq))
    → IsSound l
    → IsSound (record l { last_read = r; last_write = w; sent = s })
timed-IsSound l r w s v = record {
  room = v.room;
  reader = v.reader;
  writer = v.writer;
  server = v.server;
  conn = v.conn;
  routed = v.routed;
  owned = v.owned;
}

pub recv_round-IsSound :
    (now : ℕ) (i : Incoming) (l : Loops) → IsSound l → IsSound (recv_round now i l)
unfolding recv_round
recv_round-IsSound now failed l v = receive-IsSound failed l v
recv_round-IsSound now pinged l v = receive-IsSound pinged _ (timed-IsSound l now _ _ v)
recv_round-IsSound now exited l v = receive-IsSound exited _ (timed-IsSound l now _ _ v)
recv_round-IsSound now ignored l v = receive-IsSound ignored _ (timed-IsSound l now _ _ v)
recv_round-IsSound now (adds ts) l v = receive-IsSound (adds ts) _ (timed-IsSound l now _ _ v)

pub write_one-IsSound :
    (now : ℕ) (fine : Bool) (r : WriteReq) (l : Loops)
    → IsSound l
    → IsSound (write_one now fine r l)
unfolding write_one cancel
write_one-IsSound now true r l v = timed-IsSound l _ now _ v
write_one-IsSound now false r l v = record {
  room = v.room;
  reader = λ e. refl;
  writer = λ e. refl;
  server = λ e. refl;
  conn = v.conn;
  routed = v.routed;
  owned = v.owned;
}
