-- ===== src/Server/Manage.antt =====
-- `pipeManage` of server/serControl.go as a state machine over the pool: a step for each case of its
-- two select statements.
pub mod Invariant
use lunnel.Base.{
  ℕ, ◌+◌, ◌≡◌, Bool, true, false, Option, none, some, List, [], ◌∷◌, ◌++◌, ltb, if◌then◌else◌,
}
use lunnel.Server.Pipes.{
  Ptr, Control, add_idle_pipe, add_busy_pipe, clean, get_idle_fast, close_pipes,
}

-- Where the goroutine waits: at the outer select with a pipe in hand, at the inner one for a pipe to
-- come, or nowhere, since it has returned.
pub data Phase : Type 0 where
  holding : ℕ → Phase
  waiting stopped : Phase

-- `requests` counts the messages TypePipeReq, `given` are the pipes that consumers have got, and
-- `closing` says whether the manager has closed the control.
pub record Manager : Type 0 where
  pub ctl : Control
  pub phase : Phase
  pub requests : ℕ
  pub given : List ℕ
  pub closing : Bool

-- The deferred `closePipes`.
unfoldable pub stop : Manager → Manager
stop m = record m { ctl = close_pipes m.ctl; phase = stopped }

-- available = idle.pipe; nil leads to the inner loop.
unfoldable pub hold : Ptr → Manager → Manager
hold none m = record m { phase = waiting }
hold (some a) m = record m { phase = holding ((m.ctl.nodes a).pipe) }

-- What happens to a session: its state as it is seen from then on.
pub record Sessions : Type 0 where
  pub is_closed : ℕ → Bool
  pub num_streams : ℕ → ℕ

-- `room` tells whether `writeChan` takes another request at that moment.
pub data Event : Type 0 where
  tick : (room : Bool) → Event
  take : (room : Bool) → Event
  put : (room : Bool) → ℕ → Event
  timed_out : (room : Bool) → Event
  done : Event
  sessions : Sessions → Event

module _ (max_idle_pipes max_streams : ℕ) where
  -- No idle pipe at first: after a cleaning one more look, and a request to the client.
  unfoldable pub ask : Bool → Manager → Manager
  ask room m =
      let (idle, c) = get_idle_fast (clean max_idle_pipes max_streams m.ctl) in
      if room
      then hold idle (record m { ctl = c; requests = m.requests + 1 })
      else stop (record m { ctl = c; closing = true })

  unfoldable pub found : Bool → Ptr → Manager → Manager
  found room none m = ask room m
  found room (some a) m = hold (some a) m

  unfoldable pub refill : Bool → Manager → Manager
  refill room m = let (idle, c) = get_idle_fast m.ctl in found room idle (record m { ctl = c })

  -- From the label Prepare on to the next select.
  unfoldable pub prepare : Bool → Option ℕ → Manager → Manager
  prepare room none m = refill room m
  prepare room (some p) m =
      if m.ctl.is_closed p then refill room m else record m { phase = holding p }

  -- A pipe that comes in while another is in hand.
  unfoldable pub sort_pipe : ℕ → Control → Control
  sort_pipe q c =
      if c.is_closed q
      then c
      else if ltb (c.num_streams q) max_streams
      then add_idle_pipe q c
      else add_busy_pipe q c

  -- A pipe that comes in while one is waited for.
  unfoldable pub receive : ℕ → Manager → Manager
  receive q m =
      if m.ctl.is_closed q
      then m
      else if ltb (m.ctl.num_streams q) max_streams
      then record m { phase = holding q }
      else record m { ctl = add_busy_pipe q m.ctl }

  abbrev pub cleaned : Manager → Manager
  cleaned m = record m { ctl = clean max_idle_pipes max_streams m.ctl }

  abbrev pub see : Sessions → Manager → Manager
  see s m = record m {
    ctl = record (m.ctl) { is_closed = s.is_closed; num_streams = s.num_streams };
  }

  unfoldable pub step_holding : ℕ → Event → Manager → Manager
  step_holding p (tick room) m = prepare room (some p) (cleaned m)
  step_holding p (take room) m = prepare room none (record m { given = m.given ++ p ∷ [] })
  step_holding p (put room q) m = prepare room (some p) (record m { ctl = sort_pipe q m.ctl })
  step_holding p (timed_out room) m = m
  step_holding p done m = stop m
  step_holding p (sessions s) m = see s m

  unfoldable pub step_waiting : Event → Manager → Manager
  step_waiting (tick room) m =
      let (idle, c) = get_idle_fast (clean max_idle_pipes max_streams m.ctl) in
      hold idle (record m { ctl = c })
  step_waiting (take room) m = m
  step_waiting (put room q) m = receive q m
  step_waiting (timed_out room) m = prepare room none m
  step_waiting done m = stop m
  step_waiting (sessions s) m = see s m

  -- A case that the select does not have leaves all as it is.
  unfoldable pub step_at : Phase → Event → Manager → Manager
  step_at (holding p) e m = step_holding p e m
  step_at waiting e m = step_waiting e m
  step_at stopped e m = m

  abbrev pub step : Event → Manager → Manager
  step e m = step_at m.phase e m

  -- Whether a select has the case of an event.
  abbrev pub IsEnabled : Event → Phase → Type 0
  IsEnabled e stopped = ⊥
  IsEnabled (timed_out room) (holding p) = ⊥
  IsEnabled e (holding p) = Unit
  IsEnabled (take room) waiting = ⊥
  IsEnabled e waiting = Unit

  -- The states that are reached from `m`.
  pub data Reaches (m : Manager) : Manager → Type 0 where
    here : Reaches m m
    next : {n : Manager} → Reaches m n → (e : Event) → IsEnabled e n.phase → Reaches m (step e n)

-- The goroutine's start: nothing in hand, and the first run through Prepare.
unfoldable pub start : ℕ → ℕ → Bool → Control → Manager
start max_idle_pipes max_streams room c =
    prepare max_idle_pipes max_streams room none
      (record { ctl = c; phase = waiting; requests = 0; given = []; closing = false })
