-- ===== src/RateLimit/Overflow.antt =====
-- What becomes of the cap where the bytes in nanoseconds leave the int64.
use file_sync_engine.Prelude.{
  ℕ, zero, suc, ◌||◌, ◌/◌, subst, sym, ◌+◌, ◌-◌, ◌*◌, ◌^◌, ◌≤◌, ◌<◌, ◌≡◌, refl, ap, ◌∙◌, true,
  false, Option, some, arith,
}
use file_sync_engine.Prelude.Int.{
  pos, negsuc, leb_ℤ, add64, sub64, wrap64, wrap64_id, ◌-ℤ◌, times, quotient, add64-pos, sub_ℕ,
}
use file_sync_engine.RateLimit.{Limiter, second, reading, want_elapsed, pace, wait}
use native.Mathlib.Nat.{div-le_of_le-mul, zero-div, mul-le-mul_left}

-- The residue as an int64 is at or below 0, by at most 2^63.
wrapped : (x : ℕ) → 2 ^ 63 ≤ x → x < 2 ^ 64 → wrap64 (pos x) ≡ sub_ℕ 0 (2 ^ 64 - x)
unfolding wrap64
wrapped x low high = ground arith

quotient-negative : (a k : ℕ) → quotient (sub_ℕ 0 a) k ≡ sub_ℕ 0 (a / k)
unfolding quotient
quotient-negative zero k = rw (zero-div k) refl
quotient-negative (suc a) k = ap (λ z. quotient z k) (negative a)
  where
    negative : (n : ℕ) → sub_ℕ 0 (suc n) ≡ negsuc n
    negative n = ground arith

late_by :
    (a now : ℕ) → a ≤ 2 ^ 62 → now ≤ 2 ^ 62 → leb_ℤ (sub64 (sub_ℕ 0 a) (reading now)) (pos 0) ≡ true
unfolding reading sub64 ◌-ℤ◌
late_by a now h k = ground (arith, wrap64_id (sub_ℕ 0 a -ℤ pos now))

half : (a rate : ℕ) → 2 ≤ rate → a ≤ 2 ^ 63 → a / rate ≤ 2 ^ 62
half a rate r h = div-le_of_le-mul rate (omega (arith, mul-le-mul_left (2 ^ 62) r, h))

-- The cap ends where the bytes in nanoseconds pass 2^63, about 9.2 GB: from there to 2^64 no wait
-- sleeps, whatever the time. Conditions: a cap of 2 bytes a second at least, a transfer that is not
-- empty, and a clock below 2^62 nanoseconds.
pub wait_unpaced :
    (sleep : ℕ → ℕ) (interrupt : Option ℕ) (rate bytes n now : ℕ) (l : Limiter)
    → l.bytes_per_second ≡ pos rate
    → l.transferred ≡ pos bytes
    → l.elapsed ≡ some now
    → 2 ≤ rate
    → 0 < n
    → now ≤ 2 ^ 62
    → 2 ^ 63 ≤ (bytes + n) * second
    → (bytes + n) * second < 2 ^ 64
    → wait sleep interrupt (pos n) l ≡ (record l { transferred = pos (bytes + n) }, true)
unfolding wait pace want_elapsed times
wait_unpaced sleep interrupt rate bytes n now l r t e fast sent soon low high =
    let x = (bytes + n) * second in
    let next = record l { transferred = pos (bytes + n) } in
    let sum : add64 l.transferred (pos n) ≡ pos (bytes + n) =
      ap (λ z. add64 z (pos n)) t ∙ add64-pos bytes n (omega (arith, high)) in
    let go : (leb_ℤ l.bytes_per_second (pos 0) || leb_ℤ (pos n) (pos 0)) ≡ false =
      rw r (ground (arith, sent, fast)) in
    let want : want_elapsed (record l { transferred = pos (bytes + n) })
        ≡ sub_ℕ 0 ((2 ^ 64 - x) / rate) =
      rw r (rw (wrapped x low high) (quotient-negative (2 ^ 64 - x) rate)) in
    let stop : leb_ℤ (sub64 (sub_ℕ 0 ((2 ^ 64 - x) / rate)) (reading now)) (pos 0) ≡ true =
      late_by ((2 ^ 64 - x) / rate) now (half (2 ^ 64 - x) rate fast (omega (arith, low))) soon in
    rw go (
      rw sum (
        subst (λ (o : Option ℕ). pace sleep interrupt o next ≡ (next, true)) (sym e)
          (rw want (rw stop refl))))
