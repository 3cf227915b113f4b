-- ===== src/RateLimit.antt =====
-- internal/ratelimit/limiter.go. A time is its nanoseconds since the limiter was made. How long a
-- sleep of so many nanoseconds takes is a parameter, and so is the time at which the context ends
-- it. `time.Since` stops at the largest duration.
pub mod Paced
pub mod Overflow
use file_sync_engine.Prelude.{
  ℕ, ◌+◌, ◌-◌, ◌^◌, Bool, true, false, ◌||◌, Option, none, some, List, [], ◌∷◌, if◌then◌else◌, ltb,
}
use file_sync_engine.Prelude.Int.{
  ℤ, pos, negsuc, pos_part, leb_ℤ, add64, sub64, wrap64, times, quotient,
}

-- `elapsed` is what the clock has now, and `none` is a limiter without a clock.
pub record Limiter : Type 0 where
  pub bytes_per_second : ℤ
  pub transferred : ℤ
  pub elapsed : Option ℕ

abbrev pub second : ℕ
second = 1000000000

abbrev pub new_limiter : ℤ → Limiter
new_limiter bytes_per_second = record {
  bytes_per_second = bytes_per_second;
  transferred = pos 0;
  elapsed = some 0;
}

unfoldable pub reading : ℕ → ℤ
reading now = if ltb now (2 ^ 63) then pos now else pos (2 ^ 63 - 1)

-- `time.Duration(l.transferred) * time.Second / time.Duration(l.bytesPerSecond)`, for a rate that
-- is positive.
unfoldable pub want_elapsed : Limiter → ℤ
unfolding times quotient wrap64
want_elapsed l = quotient (wrap64 (times l.transferred second)) (pos_part l.bytes_per_second)

abbrev pub passed : ℕ → Limiter → Limiter
passed time l = record l { elapsed = elim l.elapsed [ none ↦ none | some now ↦ some (now + time) ] }

module _ (sleep : ℕ → ℕ) where
  -- The end of `Wait`: the sleep, and whether it was not interrupted.
  unfoldable pub sleep_for : Option ℕ → ℤ → Limiter → Limiter × Bool
  sleep_for none remaining l = (passed (sleep (pos_part remaining)) l, true)
  sleep_for (some interrupt) remaining l = (passed interrupt l, false)

  unfoldable pub pace : Option ℕ → Option ℕ → Limiter → Limiter × Bool
  unfolding want_elapsed sleep_for reading
  pace interrupt none l = (l, true)
  pace interrupt (some now) l =
      let remaining = sub64 (want_elapsed l) (reading now) in
      if leb_ℤ remaining (pos 0) then (l, true) else sleep_for interrupt remaining l

  -- `Wait`. `true` is the answer without an error; `interrupt` is `none` where the context is not
  -- done before the sleep ends.
  unfoldable pub wait : Option ℕ → ℤ → Limiter → Limiter × Bool
  unfolding pace
  wait interrupt n l =
      if leb_ℤ l.bytes_per_second (pos 0) || leb_ℤ n (pos 0)
      then (l, true)
      else pace interrupt l.elapsed (record l { transferred = add64 l.transferred n })
