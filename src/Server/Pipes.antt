-- ===== src/Server/Pipes.antt =====
-- The pool of pipes of one `Control` of server/serControl.go: two doubly linked lists of nodes in a
-- heap, and the counters. A pipe is a `smux.Session`, known by a number; whether it is closed and
-- how many streams it has are what `IsClosed` and `NumStreams` return during the call.
pub mod Segment
pub mod Unlink
pub mod Pool
pub mod Sweep
pub mod Clean
pub mod CleanIdle
pub mod Tidy
pub mod Take
pub mod Shut
use lunnel.Base.{
  ℕ, zero, suc, ◌+◌, ◌-◌, ◌%◌, ◌^◌, Bool, true, false, not, ◌&&◌, Option, none, some, List, [], ◌∷◌,
  ltb, leb, ◌==◌, if◌then◌else◌,
}
use lunnel.Base.Int.{ℤ, pos, ◌-ℤ◌}

-- `*pipeNode`; `none` is nil.
abbrev pub Ptr : Type 0
Ptr = Option ℕ

pub record PipeNode : Type 0 where
  pub prev : Ptr
  pub next : Ptr
  pub pipe : ℕ

abbrev pub Heap : Type 0
Heap = ℕ → PipeNode

abbrev pub write : ℕ → PipeNode → Heap → Heap
write a n h b = if a == b then n else h b

-- if n != nil { n.prev = p }
unfoldable pub link_prev : Ptr → Ptr → Heap → Heap
link_prev none p h = h
link_prev (some n) p h = write n (record (h n) { prev = p }) h

-- The two branches of `removeIdleNode` and `removeBusyNode`, on the node's `prev` and `next`: the
-- new head and the new heap.
unfoldable pub unlink_at : Ptr → Ptr → Ptr → Heap → Ptr × Heap
unlink_at none next head h = (next, link_prev next none h)
unlink_at (some p) next head h =
    (head, link_prev next (some p) (write p (record (h p) { next = next }) h))

unfoldable pub unlink : ℕ → Ptr → Heap → Ptr × Heap
unlink a head h = unlink_at (h a).prev (h a).next head h

-- A new node `a` at the head of a list.
unfoldable pub push_front : ℕ → ℕ → Ptr → Heap → Heap
push_front a p head h =
    write a (record { prev = none; next = head; pipe = p }) (link_prev head (some a) h)

abbrev pub u64 : ℕ → ℕ
u64 n = n % 2 ^ 64

-- The part of `Control` that the pool uses; `fresh` is the next address that is not in use, and
-- `is_closed` and `num_streams` are the sessions as they are seen.
pub record Control : Type 0 where
  pub nodes : Heap
  pub fresh : ℕ
  pub busy_pipes : Ptr
  pub idle_count : ℕ
  pub idle_pipes : Ptr
  pub total_pipes : ℤ
  pub is_closed : ℕ → Bool
  pub num_streams : ℕ → ℕ

unfoldable pub add_idle_pipe : ℕ → Control → Control
add_idle_pipe p c = record c {
  nodes = push_front c.fresh p c.idle_pipes c.nodes;
  fresh = c.fresh + 1;
  idle_pipes = some c.fresh;
  idle_count = u64 (c.idle_count + 1);
}

unfoldable pub add_busy_pipe : ℕ → Control → Control
add_busy_pipe p c = record c {
  nodes = push_front c.fresh p c.busy_pipes c.nodes;
  fresh = c.fresh + 1;
  busy_pipes = some c.fresh;
}

-- idleCount-- on an unsigned number wraps at zero.
unfoldable pub remove_idle_node : ℕ → Control → Control
remove_idle_node a c =
    let (head, h) = unlink a c.idle_pipes c.nodes in
    record c { nodes = h; idle_pipes = head; idle_count = u64 (c.idle_count + 2 ^ 64 - 1) }

unfoldable pub remove_busy_node : ℕ → Control → Control
remove_busy_node a c =
    let (head, h) = unlink a c.busy_pipes c.nodes in record c { nodes = h; busy_pipes = head }

-- p.Close()
unfoldable pub close_pipe : ℕ → Control → Control
close_pipe p c = record c { is_closed = λ q. if p == q then true else c.is_closed q }

-- The int64 is an integer here: it changes by one for a pipe, so that it cannot get out of range
-- before 2^63 pipes have been made.
abbrev pub drop_total : Control → Control
drop_total c = record c { total_pipes = c.total_pipes -ℤ pos 1 }

-- `putPipe` when the control is done: the pipe is closed and no longer counted. Otherwise the pipe
-- goes to the manager and the pool is as it was.
unfoldable pub put_pipe_done : ℕ → Control → Control
put_pipe_done p c = close_pipe p (drop_total c)

module _ (max_idle_pipes max_streams : ℕ) where
  -- The first loop of `clean` at a node.
  unfoldable pub clean_busy_node : ℕ → Control → Control
  clean_busy_node a c =
      let p = (c.nodes a).pipe in
      if c.is_closed p
      then remove_busy_node a c
      else if ltb (c.num_streams p) max_streams
      then add_idle_pipe p (remove_busy_node a c)
      else c

  -- The node that has been taken out still leads to the next one.
  unfoldable pub clean_busy_loop : ℕ → Ptr → Control → Control
  clean_busy_loop zero busy c = c
  clean_busy_loop (suc fuel) none c = c
  clean_busy_loop (suc fuel) (some a) c =
      let c' = clean_busy_node a c in clean_busy_loop fuel (c'.nodes a).next c'

  unfoldable pub clean_idle_node : ℕ → Control → Control
  clean_idle_node a c =
      let p = (c.nodes a).pipe in
      if c.is_closed p
      then remove_idle_node a c
      else if (c.num_streams p == 0) && leb max_idle_pipes c.idle_count
      then close_pipe p (drop_total (remove_idle_node a c))
      else c

  unfoldable pub clean_idle_loop : ℕ → Ptr → Control → Control
  clean_idle_loop zero idle c = c
  clean_idle_loop (suc fuel) none c = c
  clean_idle_loop (suc fuel) (some a) c =
      let c' = clean_idle_node a c in clean_idle_loop fuel (c'.nodes a).next c'

  -- A list has at most as many nodes as there have been allocations, so `fresh + 1` rounds are
  -- enough for each loop.
  unfoldable pub clean : Control → Control
  clean c =
      let c1 = clean_busy_loop (suc c.fresh) c.busy_pipes c in
      clean_idle_loop (suc c1.fresh) c1.idle_pipes c1

-- `getIdleFast`: the node that it returns, which it has taken out of the list.
unfoldable pub idle_fast_loop : ℕ → Ptr → Control → Ptr × Control
idle_fast_loop zero idle c = (none, c)
idle_fast_loop (suc fuel) none c = (none, c)
idle_fast_loop (suc fuel) (some a) c =
    let c' = remove_idle_node a c in
    let rest = idle_fast_loop fuel (c'.nodes a).next c' in
    if c.is_closed (c.nodes a).pipe then rest else (some a, c')

unfoldable pub get_idle_fast : Control → Ptr × Control
get_idle_fast c = idle_fast_loop (suc c.fresh) c.idle_pipes c

-- The two loops of `closePipes` are alike.
unfoldable pub close_loop : ℕ → Ptr → Control → Control
close_loop zero cur c = c
close_loop (suc fuel) none c = c
close_loop (suc fuel) (some a) c =
    let p = (c.nodes a).pipe in
    let c' = if c.is_closed p then c else close_pipe p (drop_total c) in
    close_loop fuel (c'.nodes a).next c'

unfoldable pub close_pipes : Control → Control
close_pipes c =
    let c1 = record (close_loop (suc c.fresh) c.idle_pipes c) { idle_pipes = none } in
    record (close_loop (suc c1.fresh) c1.busy_pipes c1) { busy_pipes = none }
