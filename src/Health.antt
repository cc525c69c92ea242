-- ===== src/Health.antt =====
-- The tests on times in the loops of both controls, server/serControl.go and
-- client/clientControl.go. Times are nanoseconds since the epoch; the settings are seconds.
use lunnel.Base.{
  ℕ, suc, ◌+◌, ◌-◌, ◌*◌, ◌/◌, ◌%◌, ◌^◌, ◌≤◌, ◌<◌, ◌≡◌, ◌↔◌, Bool, true, false, Bool-cases, inl, inr,
  arith, ltb, if◌then◌else◌,
}
use lunnel.Base.Int.{ℤ, pos, negsuc}

-- The bits of the int64 product with time.Second.
unfoldable pub nanos : ℤ → ℕ
nanos (pos n) = n * 10 ^ 9 % 2 ^ 64
nanos (negsuc n) = (2 ^ 64 - suc n * 10 ^ 9 % 2 ^ 64) % 2 ^ 64

-- now - lastRead on uint64, which wraps when the last read is the later one.
unfoldable pub elapsed : ℕ → ℕ → ℕ
elapsed now last_read = (now + 2 ^ 64 - last_read) % 2 ^ 64

unfoldable pub is_timed_out : ℤ → ℕ → ℕ → Bool
is_timed_out time_out now last_read = ltb (nanos time_out) (elapsed now last_read)

-- Whether a ping would follow the last write within half an interval, the quotient of an int64.
unfoldable pub too_soon : ℤ → ℕ → ℕ → Bool
too_soon interval now last_write =
    let d = nanos interval in
    if ltb d (2 ^ 63) then ltb now (last_write + d / 2) else ltb (now + (2 ^ 64 - d) / 2) last_write

-- For times and a setting that an int64 holds, a peer counts as silent just when nothing has been
-- read for longer than the setting, or when the last read is later than the time it is compared to.
pub is_timed_out_iff :
    (s now last_read : ℕ)
    → s * 10 ^ 9 < 2 ^ 63
    → now < 2 ^ 63
    → last_read < 2 ^ 63
    → (is_timed_out (pos s) now last_read ≡ false)
      ↔ ((last_read ≤ now) × (now ≤ last_read + s * 10 ^ 9))
unfolding is_timed_out nanos elapsed
is_timed_out_iff s now last_read h k l = ground arith

-- More than the setting since the last read is too long.
pub is_timed_out-late :
    (s now last_read : ℕ)
    → s * 10 ^ 9 < 2 ^ 63
    → now < 2 ^ 63
    → last_read + s * 10 ^ 9 < now
    → is_timed_out (pos s) now last_read ≡ true
is_timed_out-late s now last_read h k l = elim (Bool-cases (is_timed_out (pos s) now last_read)) [
  | inl out ↦ out
  | inr live ↦
      let bound = ((is_timed_out_iff s now last_read h k (omega arith)).0 live).1 in
      absurd (omega arith)
]

-- A ping that is let through comes half an interval after the last write or later.
pub too_soon-le :
    (s now last_write : ℕ)
    → s * 10 ^ 9 < 2 ^ 63
    → too_soon (pos s) now last_write ≡ false
    → last_write + s * 10 ^ 9 / 2 ≤ now
unfolding too_soon nanos
too_soon-le s now last_write h e = ground arith
