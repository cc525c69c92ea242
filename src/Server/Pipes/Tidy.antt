-- ===== src/Server/Pipes/Tidy.antt =====
-- What `clean` of server/serControl.go is for: no closed pipe is left, and only as many idle pipes
-- without streams as the limit allows.
use lunnel.Base.{
  ℕ, zero, suc, ◌+◌, ◌-◌, ◌^◌, ◌<◌, ◌≤◌, ◌≡◌, ◌≢◌, refl, ap, Bool, true, false, Bool-cases, ◌⊎◌,
  inl, inr, ◌&&◌, List, [], ◌∷◌, arith, leb, ◌==◌, if◌then◌else◌, length, length-map, All, All-map,
}
use lunnel.Base.Int.{ℤ, pos, ◌-ℤ◌}
use lunnel.Server.Pipes.{Control, u64, clean}
use lunnel.Server.Pipes.Segment.{Cells}
use lunnel.Server.Pipes.Pool.{IsPool}
use lunnel.Server.Pipes.Sweep.{
  still_busy, release, Swept, sweep, sweep_closed, sweep_cut, sweep_keep,
}
use lunnel.Server.Pipes.Clean.{pipes}
use lunnel.Server.Pipes.CleanIdle.{clean-Cleaned}

-- One less, for a count that is not zero.
u64-pred : (n m : ℕ) → n ≡ suc m → n < 2 ^ 64 → u64 (n + 2 ^ 64 - 1) ≡ m
u64-pred n m e h = omega arith

-- What a pipe that is not cut has.
safe_of_kept : (s n m : ℕ) → ((s == 0) && leb m n) ≡ false → (s ≢ 0) ⊎ (n < m)
safe_of_kept zero n m e = inr (ground arith)
safe_of_kept (suc s) n m e = inl (λ f. omega arith)

module _ (streams : ℕ → ℕ) (max_idle : ℕ) where
  -- The count is that of the pipes kept before, `k`, and those still to come.
  sweep-count :
      (ps : List ℕ) (k n : ℕ) (total : ℤ) (closed : ℕ → Bool)
      → n ≡ k + length ps
      → n < 2 ^ 64
      → let r = sweep streams max_idle ps n total closed in
        (r.count ≡ k + length r.kept) × (r.count ≤ n)
  sweep-count [] k n total closed e h = unfold sweep in omega arith
  sweep-count (p ∷ ps) k n total closed e h =
      let m = k + length ps in
      let less = u64-pred n m (omega arith) h in
      elim (Bool-cases (closed p)) [
        | inl shut ↦
            rw (sweep_closed streams max_idle p ps n total closed shut, less)
              (omega (arith, sweep-count ps k m total closed refl (omega arith)))
        | inr live ↦ elim (Bool-cases ((streams p == 0) && leb max_idle n)) [
          | inl cut ↦
              rw (sweep_cut streams max_idle p ps n total closed live cut, less)
                (omega (
                  arith,
                  sweep-count ps k m (total -ℤ pos 1) (λ q. if p == q then true else closed q) refl
                      (omega arith),
                ))
          | inr stay ↦
              rw (sweep_keep streams max_idle p ps n total closed live stay)
                (omega (arith, sweep-count ps (suc k) n total closed (omega arith) h))
        ]
      ]

  -- A pipe that has streams, or is met below the limit, is not closed.
  sweep-open :
      (ps : List ℕ) (k n : ℕ) (total : ℤ) (closed : ℕ → Bool) (q : ℕ)
      → n ≡ k + length ps
      → n < 2 ^ 64
      → closed q ≡ false
      → (streams q ≢ 0) ⊎ (n < max_idle)
      → (sweep streams max_idle ps n total closed).closed q ≡ false
  sweep-open [] k n total closed q e h open_q safe = unfold sweep in open_q
  sweep-open (p ∷ ps) k n total closed q e h open_q safe =
      let m = k + length ps in
      let less = u64-pred n m (omega arith) h in
      let safe' : (streams q ≢ 0) ⊎ (m < max_idle) = ground arith in
      elim (Bool-cases (closed p)) [
        | inl shut ↦
            rw (sweep_closed streams max_idle p ps n total closed shut, less)
              (sweep-open ps k m total closed q refl (omega arith) open_q safe')
        | inr live ↦ elim (Bool-cases ((streams p == 0) && leb max_idle n)) [
          | inl cut ↦
              let other : (p == q) ≡ false = ground (arith, ap streams {x = p} {y = q}) in
              rw (sweep_cut streams max_idle p ps n total closed live cut, less)
                (sweep-open ps k m (total -ℤ pos 1) (λ r. if p == r then true else closed r) q refl
                  (omega arith) (rw other open_q) safe')
          | inr stay ↦
              rw (sweep_keep streams max_idle p ps n total closed live stay)
                (sweep-open ps (suc k) n total closed q (omega arith) h open_q safe)
        ]
      ]

  -- A kept pipe is open in the end, and where one has no streams the count is below the limit.
  abbrev pub Keeps : Swept → ℕ → Type 0
  Keeps r q = (r.closed q ≡ false) × (streams q ≡ 0 → r.count < max_idle)

  sweep-Keeps :
      (ps : List ℕ) (k n : ℕ) (total : ℤ) (closed : ℕ → Bool)
      → n ≡ k + length ps
      → n < 2 ^ 64
      → let r = sweep streams max_idle ps n total closed in All (Keeps r) r.kept
  sweep-Keeps [] k n total closed e h = unfold sweep in tt
  sweep-Keeps (p ∷ ps) k n total closed e h =
      let m = k + length ps in
      let less = u64-pred n m (omega arith) h in
      elim (Bool-cases (closed p)) [
        | inl shut ↦
            rw (sweep_closed streams max_idle p ps n total closed shut, less)
              (sweep-Keeps ps k m total closed refl (omega arith))
        | inr live ↦ elim (Bool-cases ((streams p == 0) && leb max_idle n)) [
          | inl cut ↦
              rw (sweep_cut streams max_idle p ps n total closed live cut, less)
                (sweep-Keeps ps k m (total -ℤ pos 1) (λ q. if p == q then true else closed q) refl
                  (omega arith))
          | inr stay ↦
              let safe = safe_of_kept (streams p) n max_idle stay in
              let fewer = (sweep-count ps (suc k) n total closed (omega arith) h).1 in
              rw (sweep_keep streams max_idle p ps n total closed live stay) (
                (
                  sweep-open ps (suc k) n total closed p (omega arith) h live safe,
                  λ none_open. ground (arith, fewer),
                ),
                sweep-Keeps ps (suc k) n total closed (omega arith) h,
              )
        ]
      ]

module _ (closed : ℕ → Bool) (streams : ℕ → ℕ) (max_streams : ℕ) where
  still_busy-All :
      (ps : List ℕ)
      → All
          (λ p. (closed p ≡ false) × (max_streams ≤ streams p))
          (still_busy closed streams max_streams ps)
  unfolding still_busy
  still_busy-All [] = tt
  still_busy-All (p ∷ ps) = ground (arith, still_busy-All ps)

  length-release :
      (ps idle : List ℕ)
      → length (release closed streams max_streams ps idle) ≤ length ps + length idle
  unfolding release
  length-release [] idle = omega arith
  length-release (p ∷ ps) idle =
      ground (arith, length-release ps idle, length-release ps (p ∷ idle))

-- The pool after `clean`: it is in order; its busy pipes are open and have as many streams as a pipe
-- may have; its idle pipes are open; and while one of them has no streams, there are fewer idle
-- pipes than the limit.
pub record IsTidy (max_idle max_streams : ℕ) (d : Control) : Type 0 where
  pub bs : Cells
  pub ys : Cells
  pub pool : IsPool d bs ys
  pub busy : All (λ p. (d.is_closed p ≡ false) × (max_streams ≤ d.num_streams p)) (pipes bs)
  pub idle :
      All
        (λ p. (d.is_closed p ≡ false) × (d.num_streams p ≡ 0 → length (pipes ys) < max_idle))
        (pipes ys)

-- With a positive number of streams per pipe, `clean` leaves a pool in order whose pipes are all
-- open: the busy ones full, the idle ones fewer than the limit as long as one of them has no streams.
-- All this for a pool in order with fewer than 2^64 allocations.
pub clean-IsTidy :
    (max_idle max_streams : ℕ) (c : Control) (bs xs : Cells)
    → 0 < max_streams
    → c.fresh < 2 ^ 64
    → IsPool c bs xs
    → IsTidy max_idle max_streams (clean max_idle max_streams c)
clean-IsTidy max_idle max_streams c bs xs some_streams fits v =
    let r = clean-Cleaned max_idle max_streams c bs xs v in
    let C = c.is_closed in
    let S = c.num_streams in
    let waiting = release C S max_streams (pipes bs) (pipes xs) in
    let n : ℕ = length waiting in
    let few : n < 2 ^ 64 = omega (
      arith,
      length-release C S max_streams (pipes bs) (pipes xs),
      length-map bs (λ (m : ℕ × ℕ). m.1),
      length-map xs (λ (m : ℕ × ℕ). m.1),
      v.room,
    ) in
    let same : u64 n ≡ n = omega arith in
    let open_busy : (q : ℕ)
        → C q ≡ false
        → max_streams ≤ S q
        → (sweep S max_idle waiting n c.total_pipes C).closed q ≡ false =
      λ q live full.
        sweep-open S max_idle waiting 0 n c.total_pipes C q (omega arith) few live
          (inl (λ none_open. omega arith)) in
    let (counted, fewer) = sweep-count S max_idle waiting 0 n c.total_pipes C (omega arith) few in
    let kept = sweep-Keeps S max_idle waiting 0 n c.total_pipes C (omega arith) few in
    record {
      bs = r.bs;
      ys = r.ys;
      pool = r.pool;
      busy =
          rw (r.busy_pipes, r.closed, r.sees, same)
            (All-map _ (λ q k. (open_busy q k.0 k.1, k.1))
              (still_busy-All C S max_streams (pipes bs)));
      idle =
          rw (r.idle_pipes, r.closed, r.sees, same)
            (All-map _ (λ q k. (k.0, λ none_open. omega (arith, counted, k.1 none_open))) kept);
    }
