-- ===== src/Server/Pipes/Sweep.antt =====
-- What `clean` of server/serControl.go does to the pipes, on lists instead of nodes.
use lunnel.Base.{
  ◌≡◌, arith, ℕ, ◌+◌, ◌-◌, ◌^◌, Bool, true, false, ◌&&◌, List, [], ◌∷◌, ltb, leb, ◌==◌,
  if◌then◌else◌,
}
use lunnel.Base.Int.{ℤ, pos, ◌-ℤ◌}
use lunnel.Server.Pipes.{u64}

module _ (closed : ℕ → Bool) (streams : ℕ → ℕ) (max_streams : ℕ) where
  -- The busy pipes that stay busy.
  unfoldable pub still_busy : List ℕ → List ℕ
  still_busy [] = []
  still_busy (p ∷ ps) =
      let rest = still_busy ps in
      if closed p then rest else if ltb (streams p) max_streams then rest else p ∷ rest

  -- The busy pipes that can take streams again go to the front of the idle ones, one by one.
  unfoldable pub release : List ℕ → List ℕ → List ℕ
  release [] idle = idle
  release (p ∷ ps) idle = elim (closed p) [
    | true ↦ release ps idle
    | false ↦ release ps (if ltb (streams p) max_streams then p ∷ idle else idle)
  ]

-- The idle pipes that are kept, the counters, and which pipes are closed then.
pub record Swept : Type 0 where
  pub kept : List ℕ
  pub count : ℕ
  pub total : ℤ
  pub closed : ℕ → Bool

abbrev pub keep_pipe : ℕ → Swept → Swept
keep_pipe p r = record r { kept = p ∷ r.kept }

module _ (streams : ℕ → ℕ) (max_idle : ℕ) where
  -- The idle pipes in turn: a closed one is dropped; one without streams is closed and dropped
  -- while the count is at the limit.
  unfoldable pub sweep : List ℕ → ℕ → ℤ → (ℕ → Bool) → Swept
  sweep [] n total closed = record { kept = []; count = n; total = total; closed = closed }
  sweep (p ∷ ps) n total closed = elim (closed p) [
    | true ↦ sweep ps (u64 (n + 2 ^ 64 - 1)) total closed
    | false ↦ elim ((streams p == 0) && leb max_idle n) [
      | true ↦
          sweep ps (u64 (n + 2 ^ 64 - 1)) (total -ℤ pos 1) (λ q. if p == q then true else closed q)
      | false ↦ keep_pipe p (sweep ps n total closed)
    ]
  ]

  module _ (p : ℕ) (ps : List ℕ) (n : ℕ) (total : ℤ) (closed : ℕ → Bool) where
    pub sweep_closed :
        closed p ≡ true
        → sweep (p ∷ ps) n total closed ≡ sweep ps (u64 (n + 2 ^ 64 - 1)) total closed
    unfolding sweep
    sweep_closed e = rw (e, sweep)

    pub sweep_cut :
        closed p ≡ false
        → ((streams p == 0) && leb max_idle n) ≡ true
        → sweep (p ∷ ps) n total closed
          ≡ sweep ps
              (u64 (n + 2 ^ 64 - 1))
              (total -ℤ pos 1)
              (λ q. if p == q then true else closed q)
    unfolding sweep
    sweep_cut e f = ground arith

    pub sweep_keep :
        closed p ≡ false
        → ((streams p == 0) && leb max_idle n) ≡ false
        → sweep (p ∷ ps) n total closed ≡ keep_pipe p (sweep ps n total closed)
    unfolding sweep
    sweep_keep e f = ground arith
