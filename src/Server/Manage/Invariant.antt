-- ===== src/Server/Manage/Invariant.antt =====
-- What every state of `pipeManage` of server/serControl.go has.
use lunnel.Base.{ℕ, ◌≡◌, refl, Bool, Bool-cases, inl, inr, Option, none, some, [], ◌∷◌, ltb, drop}
use lunnel.Server.Pipes.{Ptr, Control, clean}
use lunnel.Server.Pipes.Segment.{Cells, head_or}
use lunnel.Server.Pipes.Pool.{IsPool, add_idle_pipe-IsPool, add_busy_pipe-IsPool}
use lunnel.Server.Pipes.CleanIdle.{clean-Cleaned}
use lunnel.Server.Pipes.Take.{get_idle_fast-Taken}
use lunnel.Server.Pipes.Shut.{close_pipes-closed}
use lunnel.Server.Manage.{
  Phase, holding, waiting, stopped, Manager, Event, tick, take, put, timed_out, done, sessions,
  stop, hold, ask, found, refill, prepare, sort_pipe, receive, step_holding, step_waiting, step_at,
  Reaches, here, next, start,
}

-- With a pipe in hand the pool is in order; while one is waited for there is no idle pipe besides;
-- after the return both lists are empty.
abbrev pub ManagedAt : Phase → Control → Type 0
ManagedAt (holding p) c = (bs : Cells) × ((xs : Cells) × IsPool c bs xs)
ManagedAt waiting c = (bs : Cells) × IsPool c bs []
ManagedAt stopped c = (c.idle_pipes ≡ none) × (c.busy_pipes ≡ none)

abbrev pub IsManaged : Manager → Type 0
IsManaged m = ManagedAt m.phase m.ctl

stop-IsManaged : (m : Manager) (bs xs : Cells) → IsPool m.ctl bs xs → IsManaged (stop m)
unfolding stop
stop-IsManaged m bs xs v = let s = close_pipes-closed m.ctl bs xs v in (s.2, s.3)

-- Holding what `getIdleFast` returns, nil included.
hold_taken-IsManaged :
    (m : Manager) (bs ys : Cells) (idle : Ptr)
    → idle ≡ head_or ys none
    → IsPool m.ctl bs (drop 1 ys)
    → IsManaged (hold idle m)
unfolding hold
hold_taken-IsManaged m bs [] idle e v = rw e (bs, v)
hold_taken-IsManaged m bs ((a, p) ∷ ys) idle e v = rw e (bs, (ys, v))

see-IsPool :
    (c : Control) (bs xs : Cells) (closed : ℕ → Bool) (streams : ℕ → ℕ)
    → IsPool c bs xs
    → IsPool (record c { is_closed = closed; num_streams = streams }) bs xs
see-IsPool c bs xs closed streams v = record {
  busy = v.busy;
  idle = v.idle;
  apart = v.apart;
  busy_below = v.busy_below;
  idle_below = v.idle_below;
  counted = v.counted;
  room = v.room;
}

module _ (max_idle max_streams : ℕ) where
  ask-IsManaged :
      (room : Bool) (m : Manager) (bs xs : Cells)
      → IsPool m.ctl bs xs
      → IsManaged (ask max_idle max_streams room m)
  unfolding ask
  ask-IsManaged room m bs xs v =
      let d = clean-Cleaned max_idle max_streams m.ctl bs xs v in
      let c = clean max_idle max_streams m.ctl in
      let t = get_idle_fast-Taken c d.bs d.ys d.pool in
      elim (Bool-cases room) [
        | inl can ↦ rw can (hold_taken-IsManaged _ d.bs _ _ t.node t.pool)
        | inr cannot ↦ rw cannot (stop-IsManaged _ d.bs _ t.pool)
      ]

  found-IsManaged :
      (room : Bool) (m : Manager) (bs ys : Cells) (idle : Ptr)
      → idle ≡ head_or ys none
      → IsPool m.ctl bs (drop 1 ys)
      → IsManaged (found max_idle max_streams room idle m)
  unfolding found
  found-IsManaged room m bs [] idle e v = rw e (ask-IsManaged room m bs [] v)
  found-IsManaged room m bs ((a, p) ∷ ys) idle e v =
      rw e (hold_taken-IsManaged m bs ((a, p) ∷ ys) (some a) refl v)

  refill-IsManaged :
      (room : Bool) (m : Manager) (bs xs : Cells)
      → IsPool m.ctl bs xs
      → IsManaged (refill max_idle max_streams room m)
  unfolding refill
  refill-IsManaged room m bs xs v =
      let t = get_idle_fast-Taken m.ctl bs xs v in found-IsManaged room _ bs _ _ t.node t.pool

  prepare-IsManaged :
      (room : Bool) (available : Option ℕ) (m : Manager) (bs xs : Cells)
      → IsPool m.ctl bs xs
      → IsManaged (prepare max_idle max_streams room available m)
  unfolding prepare
  prepare-IsManaged room none m bs xs v = refill-IsManaged room m bs xs v
  prepare-IsManaged room (some p) m bs xs v = elim (Bool-cases (m.ctl.is_closed p)) [
    | inl shut ↦ rw shut (refill-IsManaged room m bs xs v)
    | inr live ↦ rw live (bs, (xs, v))
  ]

  sort_pipe-IsPool :
      (q : ℕ) (c : Control) (bs xs : Cells)
      → IsPool c bs xs
      → (as' : Cells) × ((ys : Cells) × IsPool (sort_pipe max_idle max_streams q c) as' ys)
  unfolding sort_pipe
  sort_pipe-IsPool q c bs xs v = elim (Bool-cases (c.is_closed q)) [
    | inl shut ↦ rw shut (bs, (xs, v))
    | inr live ↦ elim (Bool-cases (ltb (c.num_streams q) max_streams)) [
      | inl free ↦ rw (live, free) (bs, (_, add_idle_pipe-IsPool q c bs xs v))
      | inr full ↦ rw (live, full) (_, (xs, add_busy_pipe-IsPool q c bs xs v))
    ]
  ]

  step_holding-IsManaged :
      (p : ℕ) (e : Event) (m : Manager) (bs xs : Cells)
      → m.phase ≡ holding p
      → IsPool m.ctl bs xs
      → IsManaged (step_holding max_idle max_streams p e m)
  unfolding step_holding
  step_holding-IsManaged p (tick room) m bs xs h v =
      let d = clean-Cleaned max_idle max_streams m.ctl bs xs v in
      prepare-IsManaged room (some p) _ d.bs d.ys d.pool
  step_holding-IsManaged p (take room) m bs xs h v = prepare-IsManaged room none _ bs xs v
  step_holding-IsManaged p (put room q) m bs xs h v =
      let (as', (ys, s)) = sort_pipe-IsPool q m.ctl bs xs v in
      prepare-IsManaged room (some p) _ as' ys s
  step_holding-IsManaged p (timed_out room) m bs xs h v = rw h (bs, (xs, v))
  step_holding-IsManaged p done m bs xs h v = stop-IsManaged m bs xs v
  step_holding-IsManaged p (sessions s) m bs xs h v = rw h (bs, (xs, see-IsPool m.ctl bs xs _ _ v))

  receive-IsManaged :
      (q : ℕ) (m : Manager) (bs : Cells)
      → m.phase ≡ waiting
      → IsPool m.ctl bs []
      → IsManaged (receive max_idle max_streams q m)
  unfolding receive
  receive-IsManaged q m bs h v = elim (Bool-cases (m.ctl.is_closed q)) [
    | inl shut ↦ rw (shut, h) (bs, v)
    | inr live ↦ elim (Bool-cases (ltb (m.ctl.num_streams q) max_streams)) [
      | inl free ↦ rw (live, free) (bs, ([], v))
      | inr full ↦ rw (live, full, h) (_, add_busy_pipe-IsPool q m.ctl bs [] v)
    ]
  ]

  step_waiting-IsManaged :
      (e : Event) (m : Manager) (bs : Cells)
      → m.phase ≡ waiting
      → IsPool m.ctl bs []
      → IsManaged (step_waiting max_idle max_streams e m)
  unfolding step_waiting
  step_waiting-IsManaged (tick room) m bs h v =
      let d = clean-Cleaned max_idle max_streams m.ctl bs [] v in
      let t = get_idle_fast-Taken (clean max_idle max_streams m.ctl) d.bs d.ys d.pool in
      hold_taken-IsManaged _ d.bs _ _ t.node t.pool
  step_waiting-IsManaged (take room) m bs h v = rw h (bs, v)
  step_waiting-IsManaged (put room q) m bs h v = receive-IsManaged q m bs h v
  step_waiting-IsManaged (timed_out room) m bs h v = prepare-IsManaged room none m bs [] v
  step_waiting-IsManaged done m bs h v = stop-IsManaged m bs [] v
  step_waiting-IsManaged (sessions s) m bs h v = rw h (bs, see-IsPool m.ctl bs [] _ _ v)

  step_at-IsManaged :
      (f : Phase) (e : Event) (m : Manager)
      → m.phase ≡ f
      → ManagedAt f m.ctl
      → IsManaged (step_at max_idle max_streams f e m)
  unfolding step_at
  step_at-IsManaged (holding p) e m h (bs, (xs, v)) = step_holding-IsManaged p e m bs xs h v
  step_at-IsManaged waiting e m h (bs, v) = step_waiting-IsManaged e m bs h v
  step_at-IsManaged stopped e m h v = rw h v

  -- From a pool in order, whatever consumers, new pipes, ticks, sessions and the queue do, and in
  -- any order: the pool stays in order while the manager runs, it has no idle pipe while the
  -- manager waits for one, and both lists are empty once the manager has returned.
  pub start-Reaches_IsManaged :
      (room : Bool) (c : Control) (bs xs : Cells) (m : Manager)
      → IsPool c bs xs
      → Reaches max_idle max_streams (start max_idle max_streams room c) m
      → IsManaged m
  start-Reaches_IsManaged room c bs xs m v here =
      unfold start in prepare-IsManaged room none _ bs xs v
  start-Reaches_IsManaged room c bs xs m v (next {n = n} r e on) =
      step_at-IsManaged n.phase e n refl (start-Reaches_IsManaged room c bs xs n v r)
