-- ===== src/Server/Loops.antt =====
-- `recvLoop`, `writeLoop` and `Serve` of a control in server/serControl.go, with the goroutines that
-- `recvLoop` starts for `ServerAddTunnels`: a step for each round of a loop. The manager of the
-- pipes is Manage; here it only sends its requests.
pub mod Sound
pub mod Invariant
pub mod Ends
pub mod Pings
pub mod Receipt
mod Examples
use lunnel.Base.{
  ℕ, suc, ◌≡◌, Bool, true, false, Option, none, some, List, [], ◌∷◌, ◌++◌, ◌==◌, ◌&&◌,
  if◌then◌else◌, All, get_elem?, take, drop,
}
use lunnel.Base.Text.{Text}
use lunnel.Base.Maps.{Map}
use lunnel.Base.Result.{Result, ok, err, panic}
use lunnel.Health.{is_timed_out, too_soon}
use lunnel.Msg.{Body, add_tunnels, type_add_tunnels, type_ping, type_exit}
use lunnel.Msg
use lunnel.Msg.Read.{ReadError}
use lunnel.Server.Config.{Health}
use lunnel.Server.Pipes.Shut.{is_in}
use lunnel.Server.Tunnels.{
  World, Control, ServerConf, WriteReq, ping, pong, pipe_req, send, server_add_tunnels,
  close_tunnels,
}

-- What `recvLoop` does about what it reads.
pub data Incoming : Type 0 where
  failed pinged exited ignored : Incoming
  adds : Msg.AddTunnels → Incoming

abbrev pub as_add_tunnels : Option Body → Option Incoming
as_add_tunnels (some (add_tunnels ts)) = some (adds ts)
as_add_tunnels _ = none

-- The switch of `recvLoop`; none is the panic of the type assertion on the body.
unfoldable pub incoming : Result ReadError (ℕ × Option Body) → Option Incoming
incoming (err e) = some failed
incoming panic = none
incoming (ok (t, b)) =
    if t == type_add_tunnels
    then as_add_tunnels b
    else if t == type_ping
    then some pinged
    else if t == type_exit
    then some exited
    else some ignored

-- `receiving`, `writing` and `serving` say which of the loops run; `adding` holds the messages whose
-- goroutine has not got the lock yet; `sent` is what was passed to `WriteMsg`, with the time, the
-- last one first.
pub record Loops : Type 0 where
  pub ctl : Control
  pub world : World
  pub receiving : Bool
  pub writing : Bool
  pub serving : Bool
  pub last_read : ℕ
  pub last_write : ℕ
  pub adding : List Msg.AddTunnels
  pub sent : List (ℕ × WriteReq)
  pub conn_closed : Bool

-- `c.Close()`
unfoldable pub cancel : Control → Control
cancel c = record c { is_done = true }

-- The rounds: `received` has the time and what was read; `written` the time and whether `WriteMsg`
-- succeeds; `ticked` and `serve_done` have the order in which the deferred `closeTunnels` would go
-- through the map; `added` has the number of the goroutine that gets the lock.
pub data Event : Type 0 where
  received : ℕ → Incoming → Event
  written : ℕ → Bool → Event
  write_done : Event
  ticked : ℕ → List ℕ → Event
  serve_done : List ℕ → Event
  added : ℕ → Event
  requested : Event

-- The reader returns when a pong finds no room.
abbrev pub after_pong : Control × Bool → Loops → Loops
after_pong (c, sent) l = record l { ctl = c; receiving = sent }

unfoldable pub receive : Incoming → Loops → Loops
receive failed l = record l { ctl = cancel l.ctl; receiving = false }
receive pinged l = after_pong (send pong l.ctl) l
receive exited l = record l { ctl = cancel l.ctl; receiving = false }
receive ignored l = l
receive (adds ts) l = record l { adding = l.adding ++ ts ∷ [] }

-- The time of a read counts only when it has not failed.
unfoldable pub recv_round : ℕ → Incoming → Loops → Loops
recv_round now failed l = receive failed l
recv_round now i l = receive i (record l { last_read = now })

unfoldable pub write_one : ℕ → Bool → WriteReq → Loops → Loops
write_one now fine r l =
    let l' = record l { last_write = now; sent = (now, r) ∷ l.sent } in
    if fine then l' else record l' { ctl = cancel l.ctl; writing = false }

abbrev pub is_ping : WriteReq → Bool
is_ping ping = true
is_ping r = false

-- The two deferred calls of `Serve`.
unfoldable pub leave : List ℕ → Loops → Loops
leave order l = record l {
  serving = false;
  world = close_tunnels order l.world;
  conn_closed = true;
}

abbrev pub after_ping : List ℕ → Control × Bool → Loops → Loops
after_ping order (c, sent) l =
    if sent then record l { ctl = c } else leave order (record l { ctl = c })

module _ (health : Health) where
  -- A ping too soon after the last write is dropped.
  unfoldable pub write_round : ℕ → Bool → List WriteReq → Loops → Loops
  write_round now fine [] l = l
  write_round now fine (r ∷ rest) l =
      let l' = record l { ctl = record (l.ctl) { write_chan = rest } } in
      if is_ping r && too_soon health.interval now l.last_write then l' else write_one now fine r l'

  unfoldable pub serve_round : ℕ → List ℕ → Loops → Loops
  serve_round now order l =
      if is_timed_out health.time_out now l.last_read
      then leave order (record l { ctl = cancel l.ctl })
      else after_ping order (send ping l.ctl) l

module _ (listen : Text → ℕ → World → Option (ℕ × ℕ)) (conf : ServerConf) where
  -- The goroutine of a message has the lock for all of `ServerAddTunnels`.
  unfoldable pub add_one : ℕ → Option Msg.AddTunnels → Loops → Loops
  add_one i none l = l
  add_one i (some ts) l =
      let (c, w) = server_add_tunnels listen conf ts l.ctl l.world in
      record l { ctl = c; world = w; adding = take i l.adding ++ drop (suc i) l.adding }

-- An order in which a traversal can go through the tunnels of a control.
pub record IsOrder (order : List ℕ) (tunnels : Map ℕ) : Type 0 where
  pub every : (name : Text) (t : ℕ) → tunnels name ≡ some t → is_in t order ≡ true
  pub only : All (λ t. (name : Text) × (tunnels name ≡ some t)) order

-- Which rounds are possible: a select has its case `ctx.Done()` once the control is closed.
abbrev pub IsEnabled : Event → Loops → Type 0
IsEnabled (received now i) l = l.receiving ≡ true
IsEnabled (written now fine) l = l.writing ≡ true
IsEnabled write_done l = (l.writing ≡ true) × (l.ctl.is_done ≡ true)
IsEnabled (ticked now order) l = (l.serving ≡ true) × IsOrder order l.ctl.tunnels
IsEnabled (serve_done order) l =
    (l.serving ≡ true) × (l.ctl.is_done ≡ true) × IsOrder order l.ctl.tunnels
IsEnabled (added i) l = Unit
IsEnabled requested l = Unit

module _ (health : Health) (listen : Text → ℕ → World → Option (ℕ × ℕ)) (conf : ServerConf) where
  unfoldable pub step : Event → Loops → Loops
  step (received now i) l = recv_round now i l
  step (written now fine) l = write_round health now fine l.ctl.write_chan l
  step write_done l = record l { writing = false }
  step (ticked now order) l = serve_round health now order l
  step (serve_done order) l = leave order l
  step (added i) l = add_one listen conf i (get_elem? l.adding i) l
  step requested l = record l { ctl = (send pipe_req l.ctl).0 }

  -- The states that are reached from `l`.
  pub data Reaches (l : Loops) : Loops → Type 0 where
    here : Reaches l l
    next : {m : Loops} → Reaches l m → (e : Event) → IsEnabled e m → Reaches l (step e m)

-- The state in which `Serve` starts its goroutines, at the time `now`.
unfoldable pub serve : ℕ → Control → World → Loops
serve now c w = record {
  ctl = c;
  world = w;
  receiving = true;
  writing = true;
  serving = true;
  last_read = now;
  last_write = now;
  adding = [];
  sent = [];
  conn_closed = false;
}
