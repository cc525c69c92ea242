-- ===== src/Server/Pipes/Clean.antt =====
-- The two loops of `clean` do to the nodes what `Sweep` does to lists.
use lunnel.Base.{
  ℕ, zero, suc, ◌<◌, ◌≡◌, refl, sym, ap, ◌∙◌, Bool, true, false, Bool-cases, inl, inr, none, List,
  [], ◌∷◌, ◌++◌, append_assoc, append-nil, map, arith, ltb, length,
}
use mathlib.Core.List.{map-append}
use lunnel.Base.Int.{ℤ}
use lunnel.Server.Pipes.{
  Ptr, Control, add_idle_pipe, remove_busy_node, clean_busy_node, clean_busy_loop,
}
use lunnel.Server.Pipes.Segment.{Cells, head_or, Apart-has}
use lunnel.Server.Pipes.Pool.{
  IsPool, add_idle_pipe-IsPool, remove_busy_node-IsPool, add_idle_pipe-same, node-middle,
  Below-middle, has-middle,
}
use lunnel.Server.Pipes.Sweep.{still_busy, release}

abbrev pub pipes : Cells → List ℕ
pipes = map λ n. n.1

-- The node of a busy pipe, and what becomes of the pool at it.
module _ (max_idle max_streams : ℕ) where
  module _ (c : Control) (kept : Cells) (a p : ℕ) (todo xs : Cells)
      (v : IsPool c (kept ++ (a, p) ∷ todo) xs) where
    abbrev after : Control
    after = clean_busy_node max_idle max_streams a c

    -- The next node of the loop, and the lists.
    abbrev Stepped : Cells → Cells → Type 0
    Stepped bs ys = IsPool after bs ys × ((after.nodes a).next ≡ head_or todo none)

    step_closed : c.is_closed p ≡ true → Stepped (kept ++ todo) xs
    unfolding clean_busy_node
    step_closed e =
        let (next, pipe) = node-middle c.nodes c.busy_pipes a p kept todo v.busy in
        let (pool, out, same) = remove_busy_node-IsPool a p c kept todo xs v in
        rw (pipe, e) (pool, ap (λ n. n.next) (same a out) ∙ next)

    step_released :
        c.is_closed p ≡ false
        → ltb (c.num_streams p) max_streams ≡ true
        → Stepped (kept ++ todo) ((c.fresh, p) ∷ xs)
    unfolding clean_busy_node remove_busy_node
    step_released e f =
        let (next, pipe) = node-middle c.nodes c.busy_pipes a p kept todo v.busy in
        let (pool, out, same) = remove_busy_node-IsPool a p c kept todo xs v in
        let free = Apart-has a (kept ++ (a, p) ∷ todo) xs v.apart (has-middle a p kept todo) in
        let stays =
          add_idle_pipe-same p a (remove_busy_node a c) (kept ++ todo) xs pool free
            (Below-middle c.fresh a p kept todo v.busy_below) in
        rw (pipe, e, f)
          (
            add_idle_pipe-IsPool p (remove_busy_node a c) (kept ++ todo) xs pool,
            ap (λ n. n.next) (stays ∙ same a out) ∙ next,
          )

    step_kept :
        c.is_closed p ≡ false
        → ltb (c.num_streams p) max_streams ≡ false
        → Stepped (kept ++ (a, p) ∷ todo) xs
    unfolding clean_busy_node
    step_kept e f =
        let (next, pipe) = node-middle c.nodes c.busy_pipes a p kept todo v.busy in
        rw (pipe, e, f) (v, next)

  clean_busy_node-same :
      (a : ℕ) (c : Control)
      → let d = clean_busy_node max_idle max_streams a c in
        (d.is_closed ≡ c.is_closed)
        × (d.num_streams ≡ c.num_streams)
        × (d.total_pipes ≡ c.total_pipes)
  unfolding clean_busy_node remove_busy_node add_idle_pipe
  clean_busy_node-same a c = ground arith

  module _ (closed : ℕ → Bool) (streams : ℕ → ℕ) (total : ℤ) where
    -- The sessions and the total of a state.
    abbrev pub Sees : Control → Type 0
    Sees c = (c.is_closed ≡ closed) × (c.num_streams ≡ streams) × (c.total_pipes ≡ total)

    -- The lists of the pool `c` after the loop, by the lists of pipes before it.
    pub record BusyDone (c : Control) (kept todo idle : List ℕ) : Type 0 where
      pub bs : Cells
      pub ys : Cells
      pub pool : IsPool c bs ys
      pub busy : pipes bs ≡ kept ++ still_busy closed streams max_streams todo
      pub idles : pipes ys ≡ release closed streams max_streams todo idle
      pub sees : Sees c

    BusyDone-closed :
        (c : Control) (p : ℕ) (kept todo idle : List ℕ)
        → closed p ≡ true
        → BusyDone c kept todo idle
        → BusyDone c kept (p ∷ todo) idle
    unfolding still_busy release
    BusyDone-closed c p kept todo idle e r = record {
      bs = r.bs;
      ys = r.ys;
      pool = r.pool;
      busy = rw e r.busy;
      idles = rw (e, release) r.idles;
      sees = r.sees;
    }

    BusyDone-released :
        (c : Control) (p : ℕ) (kept todo idle : List ℕ)
        → closed p ≡ false
        → ltb (streams p) max_streams ≡ true
        → BusyDone c kept todo (p ∷ idle)
        → BusyDone c kept (p ∷ todo) idle
    unfolding still_busy release
    BusyDone-released c p kept todo idle e f r = record {
      bs = r.bs;
      ys = r.ys;
      pool = r.pool;
      busy = rw (e, f) r.busy;
      idles = rw (e, release, f) r.idles;
      sees = r.sees;
    }

    BusyDone-kept :
        (c : Control) (p : ℕ) (kept todo idle : List ℕ)
        → closed p ≡ false
        → ltb (streams p) max_streams ≡ false
        → BusyDone c (kept ++ p ∷ []) todo idle
        → BusyDone c kept (p ∷ todo) idle
    unfolding still_busy release
    BusyDone-kept c p kept todo idle e f r = record {
      bs = r.bs;
      ys = r.ys;
      pool = r.pool;
      busy = rw (e, f) (r.busy ∙ append_assoc kept (p ∷ []) _);
      idles = rw (e, release, f) r.idles;
      sees = r.sees;
    }

    pub clean_busy_loop-BusyDone :
        (fuel : ℕ) (c : Control) (cur : Ptr) (kept todo xs : Cells)
        → IsPool c (kept ++ todo) xs
        → cur ≡ head_or todo none
        → length todo < fuel
        → Sees c
        → BusyDone
            (clean_busy_loop max_idle max_streams fuel cur c)
            (pipes kept)
            (pipes todo)
            (pipes xs)
    unfolding clean_busy_loop
    clean_busy_loop-BusyDone zero c cur kept todo xs v e h sees = absurd (omega arith)
    clean_busy_loop-BusyDone (suc fuel) c cur kept [] xs v e h sees = rw e (record {
      bs = kept;
      ys = xs;
      pool = rw append-nil at v;
      busy = unfold still_busy in sym (append-nil (pipes kept));
      idles = unfold release in refl;
      sees = sees;
    })
    clean_busy_loop-BusyDone (suc fuel) c cur kept ((a, p) ∷ todo) xs v e h sees = rw e (
        let d = clean_busy_node max_idle max_streams a c in
        let same = clean_busy_node-same a c in
        let sees' : Sees d = (same.0 ∙ sees.0, same.1 ∙ sees.1, same.2 ∙ sees.2) in
        let now = ap (λ (f : ℕ → Bool). f p) sees.0 in
        let room = ap (λ (f : ℕ → ℕ). ltb (f p) max_streams) sees.1 in
        elim (Bool-cases (closed p)) [
          | inl shut ↦
              let (pool, next) = step_closed c kept a p todo xs v (now ∙ shut) in
              BusyDone-closed _ p (pipes kept) (pipes todo) (pipes xs) shut
                (clean_busy_loop-BusyDone fuel d _ kept todo xs pool next (omega arith) sees')
          | inr live ↦ elim (Bool-cases (ltb (streams p) max_streams)) [
            | inl free ↦
                let (pool, next) = step_released c kept a p todo xs v (now ∙ live) (room ∙ free) in
                BusyDone-released _ p (pipes kept) (pipes todo) (pipes xs) live free (
                  clean_busy_loop-BusyDone fuel d _ kept todo ((c.fresh, p) ∷ xs) pool next
                    (omega arith) sees')
            | inr full ↦
                let (pool, next) = step_kept c kept a p todo xs v (now ∙ live) (room ∙ full) in
                BusyDone-kept _ p (pipes kept) (pipes todo) (pipes xs) live full (
                  rw (map-append (λ (n : ℕ × ℕ). n.1) kept ((a, p) ∷ [])) at (
                    clean_busy_loop-BusyDone fuel d _ (kept ++ (a, p) ∷ []) todo xs
                      (rw (append_assoc kept ((a, p) ∷ []) todo) pool) next (omega arith) sees'))
          ]
        ])
