-- ===== src/Server/Pipes/CleanIdle.antt =====
-- The second loop of `clean`, and `clean` as a whole.
use lunnel.Base.{
  ℕ, zero, suc, ◌<◌, ◌≡◌, refl, sym, ap, ◌∙◌, true, false, Bool-cases, inl, inr, ◌&&◌, none, List,
  [], ◌∷◌, ◌++◌, append_assoc, append-nil, arith, leb, ◌==◌, length, length-map,
}
use mathlib.Core.List.{map-append}
use lunnel.Server.Pipes.{
  Ptr, Control, u64, remove_idle_node, close_pipe, drop_total, clean_busy_loop, clean_idle_node,
  clean_idle_loop, clean,
}
use lunnel.Server.Pipes.Segment.{Cells, head_or}
use lunnel.Server.Pipes.Pool.{IsPool, remove_idle_node-IsPool, node-middle}
use lunnel.Server.Pipes.Sweep.{
  still_busy, release, Swept, keep_pipe, sweep, sweep_closed, sweep_cut, sweep_keep,
}
use lunnel.Server.Pipes.Clean.{pipes, clean_busy_loop-BusyDone}

-- Closing a pipe touches no node.
pub close_pipe-IsPool :
    (p : ℕ) (c : Control) (bs xs : Cells)
    → IsPool c bs xs
    → IsPool (close_pipe p (drop_total c)) bs xs
unfolding close_pipe
close_pipe-IsPool p c bs xs v = record {
  busy = v.busy;
  idle = v.idle;
  apart = v.apart;
  busy_below = v.busy_below;
  idle_below = v.idle_below;
  counted = v.counted;
  room = v.room;
}

-- The pool `c` holds the idle pipes `before` and those that the sweep kept, and its counters.
pub record IdleDone (c : Control) (bs : Cells) (before : List ℕ) (streams : ℕ → ℕ) (r : Swept)
    : Type 0 where
  pub ys : Cells
  pub pool : IsPool c bs ys
  pub idles : pipes ys ≡ before ++ r.kept
  pub count : c.idle_count ≡ r.count
  pub total : c.total_pipes ≡ r.total
  pub closed : c.is_closed ≡ r.closed
  pub sees : c.num_streams ≡ streams

IdleDone-keep :
    (c : Control) (bs : Cells) (before : List ℕ) (streams : ℕ → ℕ) (r : Swept) (p : ℕ)
    → IdleDone c bs (before ++ p ∷ []) streams r
    → IdleDone c bs before streams (keep_pipe p r)
IdleDone-keep c bs before streams r p d = record {
  ys = d.ys;
  pool = d.pool;
  idles = d.idles ∙ append_assoc before (p ∷ []) r.kept;
  count = d.count;
  total = d.total;
  closed = d.closed;
  sees = d.sees;
}

module _ (max_idle max_streams : ℕ) where
  module _ (c : Control) (a p : ℕ) (pipe : (c.nodes a).pipe ≡ p) where
    idle_node_closed :
        c.is_closed p ≡ true → clean_idle_node max_idle max_streams a c ≡ remove_idle_node a c
    unfolding clean_idle_node
    idle_node_closed e = rw (pipe, e)

    idle_node_cut :
        c.is_closed p ≡ false
        → ((c.num_streams p == 0) && leb max_idle c.idle_count) ≡ true
        → clean_idle_node max_idle max_streams a c
          ≡ close_pipe p (drop_total (remove_idle_node a c))
    unfolding clean_idle_node
    idle_node_cut e f = rw (pipe, e, f)

    idle_node_kept :
        c.is_closed p ≡ false
        → ((c.num_streams p == 0) && leb max_idle c.idle_count) ≡ false
        → clean_idle_node max_idle max_streams a c ≡ c
    unfolding clean_idle_node
    idle_node_kept e f = rw (pipe, e, f)

  -- The lists after the loop from the node `cur` on, by the lists before it.
  clean_idle_loop-IdleDone :
      (fuel : ℕ) (c : Control) (cur : Ptr) (bs kept todo : Cells)
      → IsPool c bs (kept ++ todo)
      → cur ≡ head_or todo none
      → length todo < fuel
      → IdleDone
          (clean_idle_loop max_idle max_streams fuel cur c)
          bs
          (pipes kept)
          c.num_streams
          (sweep c.num_streams max_idle (pipes todo) c.idle_count c.total_pipes c.is_closed)
  unfolding clean_idle_loop remove_idle_node close_pipe
  clean_idle_loop-IdleDone zero c cur bs kept todo v e h = absurd (omega arith)
  clean_idle_loop-IdleDone (suc fuel) c cur bs kept [] v e h = rw e (
      unfold sweep in
      record {
        ys = kept;
        pool = rw append-nil at v;
        idles = sym (append-nil (pipes kept));
        count = refl;
        total = refl;
        closed = refl;
        sees = refl;
      })
  clean_idle_loop-IdleDone (suc fuel) c cur bs kept ((a, p) ∷ todo) v e h = rw e (
      let (next, pipe) = node-middle c.nodes c.idle_pipes a p kept todo v.idle in
      let (pool, out, same) = remove_idle_node-IsPool a p c bs kept todo v in
      let onward = ap (λ n. n.next) (same a out) ∙ next in
      let S = c.num_streams in
      let n = c.idle_count in
      elim (Bool-cases (c.is_closed p)) [
        | inl shut ↦
            rw
              (
                idle_node_closed c a p pipe shut,
                sweep_closed S max_idle p (pipes todo) n c.total_pipes c.is_closed shut,
              )
              (clean_idle_loop-IdleDone fuel (remove_idle_node a c) _ bs kept todo pool onward
                (omega arith))
        | inr live ↦ elim (Bool-cases ((S p == 0) && leb max_idle n)) [
          | inl cut ↦
              rw
                (
                  idle_node_cut c a p pipe live cut,
                  sweep_cut S max_idle p (pipes todo) n c.total_pipes c.is_closed live cut,
                )
                (clean_idle_loop-IdleDone fuel (close_pipe p (drop_total (remove_idle_node a c))) _
                  bs kept todo (close_pipe-IsPool p (remove_idle_node a c) bs (kept ++ todo) pool)
                  onward (omega arith))
          | inr stay ↦
              rw
                (
                  idle_node_kept c a p pipe live stay,
                  sweep_keep S max_idle p (pipes todo) n c.total_pipes c.is_closed live stay,
                )
                (IdleDone-keep _ bs (pipes kept) S _ p (
                  rw (map-append (λ (m : ℕ × ℕ). m.1) kept ((a, p) ∷ [])) at (
                    clean_idle_loop-IdleDone fuel c _ bs (kept ++ (a, p) ∷ []) todo
                      (rw (append_assoc kept ((a, p) ∷ []) todo) v) next (omega arith))))
        ]
      ])

  -- The sweep of the idle pipes that the first loop leaves. Their number is the counter's start.
  abbrev pub swept : Control → List ℕ → List ℕ → Swept
  swept c busy idle =
      let waiting = release c.is_closed c.num_streams max_streams busy idle in
      sweep c.num_streams max_idle waiting (u64 (length waiting)) c.total_pipes c.is_closed

  -- What `clean` makes of a pool of busy pipes `busy` and idle pipes `idle`: the pipes that the two
  -- loops leave, with the counters, and which pipes are closed.
  pub record Cleaned (c d : Control) (busy idle : List ℕ) : Type 0 where
    pub bs : Cells
    pub ys : Cells
    pub pool : IsPool d bs ys
    pub busy_pipes : pipes bs ≡ still_busy c.is_closed c.num_streams max_streams busy
    pub idle_pipes : pipes ys ≡ (swept c busy idle).kept
    pub total : d.total_pipes ≡ (swept c busy idle).total
    pub closed : d.is_closed ≡ (swept c busy idle).closed
    pub sees : d.num_streams ≡ c.num_streams

  -- On a pool in order `clean` computes what the two passes over plain lists do: `still_busy` for the
  -- busy pipes, `sweep` after `release` for the idle ones, the total and the closed pipes.
  pub clean-Cleaned :
      (c : Control) (bs xs : Cells)
      → IsPool c bs xs
      → Cleaned c (clean max_idle max_streams c) (pipes bs) (pipes xs)
  unfolding clean
  clean-Cleaned c bs xs v =
      let r =
        clean_busy_loop-BusyDone max_idle max_streams c.is_closed c.num_streams c.total_pipes
          (suc c.fresh) c c.busy_pipes [] bs xs v v.busy.starts (omega (arith, v.room))
          (refl, refl, refl) in
      let c1 = clean_busy_loop max_idle max_streams (suc c.fresh) c.busy_pipes c in
      let d =
        clean_idle_loop-IdleDone (suc c1.fresh) c1 c1.idle_pipes r.bs [] r.ys r.pool
          r.pool.idle.starts (omega (arith, r.pool.room)) in
      let waiting = release c.is_closed c.num_streams max_streams (pipes bs) (pipes xs) in
      let count : c1.idle_count ≡ u64 (length waiting) =
        r.pool.counted ∙ ap u64 (sym (length-map r.ys (λ (n : ℕ × ℕ). n.1)) ∙ ap length r.idles) in
      let same : sweep c1.num_streams max_idle (pipes r.ys) c1.idle_count c1.total_pipes
            c1.is_closed
          ≡ swept c (pipes bs) (pipes xs) =
        cc (r.sees.0, r.sees.1, r.sees.2, r.idles, count) in
      record {
        bs = r.bs;
        ys = d.ys;
        pool = d.pool;
        busy_pipes = r.busy;
        idle_pipes = d.idles ∙ ap (λ t. t.kept) same;
        total = d.total ∙ ap (λ t. t.total) same;
        closed = d.closed ∙ ap (λ t. t.closed) same;
        sees = d.sees ∙ r.sees.1;
      }
