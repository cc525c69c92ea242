-- ===== src/Client/Loops.antt =====
-- `recvLoop`, `writeLoop`, `Run` and the handler `AddTunnel` of a control in
-- client/clientControl.go: a step for each round of a loop, and for each part of a request to the
-- handler. `createPipe` is Pipes; here its goroutines are counted.
pub mod Invariant
pub mod Ends
pub mod Order
pub mod Receipt
mod Examples
use lunnel.Base.{
  ℕ, suc, ◌+◌, ◌≡◌, Bool, true, false, Option, none, some, List, [], ◌∷◌, ◌++◌, ltb, ◌==◌, ◌&&◌,
  if◌then◌else◌, length,
}
use lunnel.Base.Maps.{Map, store}
use lunnel.Base.Result.{Result, ok, err, panic}
use lunnel.Health.{is_timed_out, too_soon}
use lunnel.Msg.{
  Body, error, add_tunnels, AddTunnels, Tunnel, type_add_tunnels, type_ping, type_pong,
  type_pipe_req, type_error, type_exit,
}
use lunnel.Msg.Read.{ReadError}
use lunnel.Client.Config.{Health}
use lunnel.Client.Tunnels.{sync_tunnels}

pub data WriteReq : Type 0 where
  ping pong exit : WriteReq
  added : AddTunnels → WriteReq

-- What `recvLoop` does about what it reads.
pub data Incoming : Type 0 where
  failed pinged piped refused exited ignored : Incoming
  synced : AddTunnels → Incoming

abbrev pub as_synced : Option Body → Option Incoming
as_synced (some (add_tunnels ts)) = some (synced ts)
as_synced _ = none

abbrev pub as_refused : Option Body → Option Incoming
as_refused (some (error x)) = some refused
as_refused _ = none

-- The switch of `recvLoop`; none is the panic of a type assertion on the body.
unfoldable pub incoming : Result ReadError (ℕ × Option Body) → Option Incoming
incoming (err e) = some failed
incoming panic = none
incoming (ok (t, b)) =
    if t == type_pong
    then some ignored
    else if t == type_ping
    then some pinged
    else if t == type_pipe_req
    then some piped
    else if t == type_add_tunnels
    then as_synced b
    else if t == type_error
    then as_refused b
    else if t == type_exit
    then some exited
    else some ignored

-- Where `Run` is: in its loop, asleep before the exit, or gone; and the program, once `os.Exit` has
-- been called.
pub data Phase : Type 0 where
  running leaving returned killed : Phase

-- `receiving` and `writing` say which of the other loops run; `creating` counts the goroutines of
-- `createPipe`; `waiting` holds the requests whose handler waits for room in the channel; `answers`
-- are the codes that handlers have answered; `sent` is what was passed to `WriteMsg`, with the time,
-- the last one first.
pub record Loops : Type 0 where
  pub write_chan : List WriteReq
  pub tunnels : Map Tunnel
  pub is_done : Bool
  pub receiving : Bool
  pub writing : Bool
  pub phase : Phase
  pub last_read : ℕ
  pub last_write : ℕ
  pub creating : ℕ
  pub waiting : List AddTunnels
  pub answers : List ℕ
  pub sent : List (ℕ × WriteReq)
  pub conn_closed : Bool

pub data Event : Type 0 where
  received : ℕ → Incoming → Event
  written : ℕ → Bool → Event
  write_done : Event
  ticked : ℕ → Event
  signalled : Event
  slept : Event
  run_done : Event
  posted : Option (List ℕ) → Event
  enqueued : Event
  http_ended : Event

-- A send on `writeChan` that does not wait: the flag says whether there was room.
unfoldable pub send : WriteReq → Loops → Loops × Bool
send r l =
    if ltb (length l.write_chan) 64
    then (record l { write_chan = l.write_chan ++ r ∷ [] }, true)
    else (l, false)

-- `c.Close()`
unfoldable pub cancel : Loops → Loops
cancel l = record l { is_done = true }

-- The reader returns, with the control closed.
unfoldable pub stop_reading : Loops → Loops
stop_reading l = record l { is_done = true; receiving = false }

unfoldable pub or_stop : Loops × Bool → Loops
or_stop (l, sent) = if sent then l else stop_reading l

-- `os.Exit(1)`
unfoldable pub kill : Loops → Loops
kill l = record l { phase = killed }

unfoldable pub receive : Incoming → Loops → Loops
receive failed l = stop_reading l
receive pinged l = or_stop (send pong l)
receive piped l = record l { creating = l.creating + 1 }
receive (synced ts) l = record l { tunnels = sync_tunnels ts l.tunnels }
receive refused l = stop_reading l
receive exited l = kill l
receive ignored l = l

-- The time of a read counts only when it has not failed.
unfoldable pub recv_round : ℕ → Incoming → Loops → Loops
recv_round now failed l = receive failed l
recv_round now i l = receive i (record l { last_read = now })

unfoldable pub write_one : ℕ → Bool → WriteReq → Loops → Loops
write_one now fine r l =
    let l' = record l { last_write = now; sent = (now, r) ∷ l.sent } in
    if fine then l' else record l' { is_done = true; writing = false }

abbrev pub is_ping : WriteReq → Bool
is_ping ping = true
is_ping r = false

-- `Run` returns: its deferred calls close the connection to the server.
unfoldable pub leave : Loops → Loops
leave l = record l { phase = returned; conn_closed = true }

-- A signal: the exit is announced if there is room, and the program ends at once if not.
unfoldable pub announce : Loops × Bool → Loops
announce (l, sent) = if sent then record l { phase = leaving } else kill l

unfoldable pub or_leave : Loops × Bool → Loops
or_leave (l, sent) = if sent then l else leave (cancel l)

-- The entries of a request replace those of the same names.
unfoldable pub store_all : AddTunnels → Map Tunnel → Map Tunnel
store_all [] m = m
store_all ((k, t) ∷ ts) m = store_all ts (store k t m)

-- The part of the handler from the decoded body on; one with entries waits for the channel.
unfoldable pub take_request : AddTunnels → Loops → Loops
take_request [] l = record l { answers = 200 ∷ l.answers }
take_request (e ∷ ts) l = record l {
  tunnels = store_all (e ∷ ts) l.tunnels;
  waiting = l.waiting ++ (e ∷ ts) ∷ [];
}

-- A handler that waits gets its place in the channel, and answers.
unfoldable pub enqueue : List AddTunnels → Loops → Loops
enqueue [] l = l
enqueue (ts ∷ rest) l =
    let (l', sent) = send (added ts) l in
    if sent then record l' { waiting = rest; answers = 200 ∷ l.answers } else l

-- What the handler does with the decoded body; none is the error of the decoder.
unfoldable pub respond : Option AddTunnels → Loops → Loops
respond none l = record l { answers = 400 ∷ l.answers }
respond (some ts) l = take_request ts l

-- `unmarshal` stands for json.Unmarshal of a request; a body that is none could not be read.
unfoldable pub post : (List ℕ → Option AddTunnels) → Option (List ℕ) → Loops → Loops
post unmarshal none l = record l { answers = 400 ∷ l.answers }
post unmarshal (some content) l = respond (unmarshal content) l

module _ (health : Health) where
  -- A ping too soon after the last write is dropped.
  unfoldable pub write_round : ℕ → Bool → List WriteReq → Loops → Loops
  write_round now fine [] l = l
  write_round now fine (r ∷ rest) l =
      let l' = record l { write_chan = rest } in
      if is_ping r && too_soon health.interval now l.last_write then l' else write_one now fine r l'

  unfoldable pub run_round : ℕ → Loops → Loops
  run_round now l =
      if is_timed_out health.time_out now l.last_read
      then leave (cancel l)
      else or_leave (send ping l)

  module _ (unmarshal : List ℕ → Option AddTunnels) where
    unfoldable pub step : Event → Loops → Loops
    step (received now i) l = recv_round now i l
    step (written now fine) l = write_round now fine l.write_chan l
    step write_done l = record l { writing = false }
    step (ticked now) l = run_round now l
    step signalled l = announce (send exit l)
    step slept l = kill l
    step run_done l = leave l
    step (posted content) l = post unmarshal content l
    step enqueued l = enqueue l.waiting l
    step http_ended l = cancel l

-- Which rounds are possible: a select has its case `ctx.Done()` once the control is closed, and
-- nothing runs any more in a program that has ended.
abbrev pub CanRun : Event → Loops → Type 0
CanRun (received now i) l = l.receiving ≡ true
CanRun (written now fine) l = l.writing ≡ true
CanRun write_done l = (l.writing ≡ true) × (l.is_done ≡ true)
CanRun (ticked now) l = l.phase ≡ running
CanRun signalled l = l.phase ≡ running
CanRun slept l = l.phase ≡ leaving
CanRun run_done l = (l.phase ≡ running) × (l.is_done ≡ true)
CanRun e l = Unit

abbrev pub is_killed : Phase → Bool
is_killed killed = true
is_killed p = false

module _ (health : Health) (unmarshal : List ℕ → Option AddTunnels) where
  -- The states that are reached from `l`.
  pub data Reaches (l : Loops) : Loops → Type 0 where
    here : Reaches l l
    next :
        {m : Loops}
        → Reaches l m
        → (e : Event) → is_killed m.phase ≡ false
        → CanRun e m
        → Reaches l (step health unmarshal e m)

-- The state in which `Run` enters its loop: the goroutines have started.
unfoldable pub run : ℕ → Map Tunnel → Loops
run now tunnels = record {
  write_chan = [];
  tunnels = tunnels;
  is_done = false;
  receiving = true;
  writing = true;
  phase = running;
  last_read = now;
  last_write = now;
  creating = 0;
  waiting = [];
  answers = [];
  sent = [];
  conn_closed = false;
}
