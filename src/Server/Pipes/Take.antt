-- ===== src/Server/Pipes/Take.antt =====
-- `getIdleFast` of server/serControl.go: the first open idle pipe, taken out of the list.
use lunnel.Base.{
  ℕ, zero, suc, ◌<◌, ◌≡◌, refl, ap, ◌∙◌, Bool, true, false, Bool-cases, inl, inr, none, [], ◌∷◌,
  arith, length, drop,
}
use lunnel.Server.Pipes.{Ptr, Control, remove_idle_node, idle_fast_loop, get_idle_fast}
use lunnel.Server.Pipes.Segment.{Cells, head_or}
use lunnel.Server.Pipes.Pool.{IsPool, remove_idle_node-IsPool, node-middle}

-- The idle list from its first open pipe on.
unfoldable pub open_suffix : (ℕ → Bool) → Cells → Cells
open_suffix closed [] = []
open_suffix closed ((a, p) ∷ xs) = elim (closed p) [
  | true ↦ open_suffix closed xs
  | false ↦ (a, p) ∷ xs
]

open_suffix_shut :
    (closed : ℕ → Bool) (a p : ℕ) (xs : Cells)
    → closed p ≡ true
    → open_suffix closed ((a, p) ∷ xs) ≡ open_suffix closed xs
unfolding open_suffix
open_suffix_shut closed a p xs e = rw (e, open_suffix)

open_suffix_open :
    (closed : ℕ → Bool) (a p : ℕ) (xs : Cells)
    → closed p ≡ false
    → open_suffix closed ((a, p) ∷ xs) ≡ (a, p) ∷ xs
unfolding open_suffix
open_suffix_open closed a p xs e = rw (e, open_suffix)

-- The first node of `ys` is returned, nil if there is none; the pool is in order, with the rest of
-- `ys` as its idle list; the busy pipes, the total and the sessions are as before.
pub record Taken (c : Control) (bs ys : Cells) (r : Ptr × Control) : Type 0 where
  pub node : r.0 ≡ head_or ys none
  pub pool : IsPool r.1 bs (drop 1 ys)
  pub total : r.1.total_pipes ≡ c.total_pipes
  pub closed : r.1.is_closed ≡ c.is_closed

idle_fast_loop-Taken :
    (fuel : ℕ) (c : Control) (bs xs : Cells) (cur : Ptr)
    → IsPool c bs xs
    → cur ≡ head_or xs none
    → length xs < fuel
    → Taken c bs (open_suffix c.is_closed xs) (idle_fast_loop fuel cur c)
unfolding idle_fast_loop remove_idle_node
idle_fast_loop-Taken zero c bs xs cur v e h = absurd (omega arith)
idle_fast_loop-Taken (suc fuel) c bs [] cur v e h =
    rw e (unfold open_suffix in record { node = refl; pool = v; total = refl; closed = refl })
idle_fast_loop-Taken (suc fuel) c bs ((a, p) ∷ xs) cur v e h = rw e (
    let (next, pipe) = node-middle c.nodes c.idle_pipes a p [] xs v.idle in
    let (pool, out, same) = remove_idle_node-IsPool a p c bs [] xs v in
    let onward = ap (λ n. n.next) (same a out) ∙ next in
    elim (Bool-cases (c.is_closed p)) [
      | inl shut ↦
          let r =
            idle_fast_loop-Taken fuel (remove_idle_node a c) bs xs _ pool onward (omega arith) in
          rw (pipe, shut, idle_fast_loop, open_suffix_shut c.is_closed a p xs shut)
            (record { node = r.node; pool = r.pool; total = r.total; closed = r.closed })
      | inr live ↦
          rw (pipe, live, open_suffix_open c.is_closed a p xs live)
            (record { node = refl; pool = pool; total = refl; closed = refl })
    ])

-- On a pool in order `getIdleFast` returns the node of the first open idle pipe, nil if all are
-- closed; the pool stays in order, and holds the idle pipes behind that one.
pub get_idle_fast-Taken :
    (c : Control) (bs xs : Cells)
    → IsPool c bs xs
    → Taken c bs (open_suffix c.is_closed xs) (get_idle_fast c)
unfolding get_idle_fast
get_idle_fast-Taken c bs xs v =
    idle_fast_loop-Taken (suc c.fresh) c bs xs c.idle_pipes v v.idle.starts (omega (arith, v.room))
