-- ===== src/Server/Pipes/Shut.antt =====
-- `closePipes` of server/serControl.go: every pipe of the pool is closed in the end.
use lunnel.Base.{
  ℕ, zero, suc, ◌+◌, ◌<◌, ◌≡◌, refl, sym, ap, ◌∙◌, Bool, true, false, ◌||◌, Bool-cases, inl, inr,
  none, some, List, [], ◌∷◌, ◌++◌, arith, ◌==◌, if◌then◌else◌, length, subst,
}
use lunnel.Base.Int.{pos, ◌-ℤ◌, sub_sub, sub_sub_one, sub_zero}
use lunnel.Server.Pipes.{Ptr, Control, close_pipe, drop_total, close_loop, close_pipes}
use lunnel.Server.Pipes.Segment.{Cells, head_or, Seg}
use lunnel.Server.Pipes.Pool.{IsPool}
use lunnel.Server.Pipes.Clean.{pipes}

abbrev pub is_in : ℕ → List ℕ → Bool
is_in q [] = false
is_in q (p ∷ ps) = p == q || is_in q ps

is_in-append : (q : ℕ) (ps qs : List ℕ) → is_in q (ps ++ qs) ≡ (is_in q ps || is_in q qs)
is_in-append q [] qs = refl
is_in-append q (p ∷ ps) qs = ground (arith, is_in-append q ps qs)

or_swap : (a b c : Bool) → (b || (a || c)) ≡ ((a || b) || c)
or_swap true true c = refl
or_swap true false c = refl
or_swap false b c = refl

-- How many sessions of a list are open, one that is in it twice counted once.
unfoldable pub open_count : (ℕ → Bool) → List ℕ → ℕ
open_count closed [] = 0
open_count closed (p ∷ ps) = elim (closed p) [
  | true ↦ open_count closed ps
  | false ↦ suc (open_count (λ q. if p == q then true else closed q) ps)
]

open_count_shut :
    (closed : ℕ → Bool) (p : ℕ) (ps : List ℕ)
    → closed p ≡ true
    → open_count closed (p ∷ ps) ≡ open_count closed ps
unfolding open_count
open_count_shut closed p ps e = rw (e, open_count)

open_count_open :
    (closed : ℕ → Bool) (p : ℕ) (ps : List ℕ)
    → closed p ≡ false
    → open_count closed (p ∷ ps) ≡ suc (open_count (λ q. if p == q then true else closed q) ps)
unfolding open_count
open_count_open closed p ps e = rw (e, open_count)

-- From `c` to `d` exactly the pipes of `ps` have been closed, and `n` have been counted off.
pub record Shut (c d : Control) (ps : List ℕ) (n : ℕ) : Type 0 where
  pub closed : (q : ℕ) → d.is_closed q ≡ (is_in q ps || c.is_closed q)
  pub total : d.total_pipes ≡ c.total_pipes -ℤ pos n
  pub nodes : d.nodes ≡ c.nodes
  pub busy : d.busy_pipes ≡ c.busy_pipes
  pub idle : d.idle_pipes ≡ c.idle_pipes
  pub room : d.fresh ≡ c.fresh

close_loop-Shut :
    (fuel : ℕ) (c : Control) (p : Ptr) (xs : Cells) (cur : Ptr)
    → Seg c.nodes p xs none
    → cur ≡ head_or xs none
    → length xs < fuel
    → Shut c (close_loop fuel cur c) (pipes xs) (open_count c.is_closed (pipes xs))
unfolding close_loop close_pipe
close_loop-Shut zero c p xs cur v e h = absurd (omega arith)
close_loop-Shut (suc fuel) c p [] cur v e h = rw e (record {
  closed = λ q. refl;
  total = unfold open_count in sym (sub_zero c.total_pipes);
  nodes = refl;
  busy = refl;
  idle = refl;
  room = refl;
})
close_loop-Shut (suc fuel) c p ((a, s) ∷ xs) cur v e h = rw e (
    let pipe : (c.nodes a).pipe ≡ s = ap (λ n. n.pipe) v.0 in
    let next : (c.nodes a).next ≡ head_or xs none = ap (λ n. n.next) v.0 in
    elim (Bool-cases (c.is_closed s)) [
      | inl shut ↦
          let r = close_loop-Shut fuel c (some a) xs _ v.1 next (omega arith) in
          rw (pipe, shut, close_loop, open_count_shut c.is_closed s (pipes xs) shut)
            (record {
              closed = λ q. ground (arith, r.closed q, ap c.is_closed {x = s} {y = q});
              total = r.total;
              nodes = r.nodes;
              busy = r.busy;
              idle = r.idle;
              room = r.room;
            })
      | inr live ↦
          let r =
            close_loop-Shut fuel (close_pipe s (drop_total c)) (some a) xs _ v.1 next
              (omega arith) in
          rw (pipe, live, close_loop, open_count_open c.is_closed s (pipes xs) live)
            (record {
              closed = λ q. ground (arith, r.closed q);
              total = r.total ∙ sub_sub_one c.total_pipes _;
              nodes = r.nodes;
              busy = r.busy;
              idle = r.idle;
              room = r.room;
            })
    ])

-- The count of two lists in turn, where `after` is what is closed after the first.
open_count-append :
    (closed after : ℕ → Bool) (ps qs : List ℕ)
    → ((q : ℕ) → after q ≡ (is_in q ps || closed q))
    → open_count closed (ps ++ qs) ≡ open_count closed ps + open_count after qs
open_count-append closed after [] qs h =
    let same : closed ≡ after = λ i q. sym (h q) i in unfold open_count in rw same (omega arith)
open_count-append closed after (p ∷ ps) qs h = elim (Bool-cases (closed p)) [
  | inl shut ↦
      rw (open_count_shut closed p (ps ++ qs) shut, open_count_shut closed p ps shut)
        (open_count-append closed after ps qs (λ q. ground (arith, h q, ap closed {x = p} {y = q})))
  | inr live ↦
      let marked : ℕ → Bool = λ q. if p == q then true else closed q in
      rw (open_count_open closed p (ps ++ qs) live, open_count_open closed p ps live)
        (omega (arith, open_count-append marked after ps qs (λ q. ground (arith, h q))))
]

-- On a pool in order `closePipes` closes exactly the pipes of both lists, takes each that was open
-- off the total once, and empties both lists.
pub close_pipes-closed :
    (c : Control) (bs xs : Cells)
    → IsPool c bs xs
    → let d = close_pipes c in
      ((q : ℕ) → d.is_closed q ≡ (is_in q (pipes xs ++ pipes bs) || c.is_closed q))
      × (d.total_pipes ≡ c.total_pipes -ℤ pos (open_count c.is_closed (pipes xs ++ pipes bs)))
      × (d.idle_pipes ≡ none)
      × (d.busy_pipes ≡ none)
unfolding close_pipes
close_pipes-closed c bs xs v =
    let r =
      close_loop-Shut (suc c.fresh) c none xs c.idle_pipes v.idle.links v.idle.starts
        (omega (arith, v.room)) in
    let c1 = record (close_loop (suc c.fresh) c.idle_pipes c) { idle_pipes = none } in
    let links = subst (λ h. Seg h none bs none) (sym r.nodes) v.busy.links in
    let t =
      close_loop-Shut (suc c1.fresh) c1 none bs c1.busy_pipes links (r.busy ∙ v.busy.starts)
        (omega (arith, v.room, r.room)) in
    let counts = open_count-append c.is_closed c1.is_closed (pipes xs) (pipes bs) r.closed in
    (
      λ q.
          t.closed q
          ∙ ap (◌||◌ (is_in q (pipes bs))) (r.closed q)
          ∙ or_swap (is_in q (pipes xs)) (is_in q (pipes bs)) (c.is_closed q)
          ∙ ap (λ b. b || c.is_closed q) (sym (is_in-append q (pipes xs) (pipes bs))),
      rw counts (
          t.total
          ∙ ap (λ u. u -ℤ pos (open_count c1.is_closed (pipes bs))) r.total
          ∙ sub_sub c.total_pipes _ _),
      t.idle,
      refl,
    )
