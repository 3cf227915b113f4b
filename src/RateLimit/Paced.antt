-- ===== src/RateLimit/Paced.antt =====
-- A limiter keeps the average rate under its cap.
use file_sync_engine.Prelude.{
  ℕ, ◌+◌, ◌-◌, ◌*◌, ◌/◌, ◌^◌, ◌≤◌, ◌<◌, ◌≡◌, refl, ap, sym, subst, if◌then◌else◌, ◌∙◌, Option, none,
  some, List, [], ◌∷◌, arith, Bool-cases, inl, inr, leb, true, false, ◌||◌,
}
use file_sync_engine.Prelude.Int.{
  ℤ, pos, leb_ℤ, add64, sub64, wrap64_id, times, quotient, add64-pos, sub64-pos, ◌-ℤ◌,
}
use native.Mathlib.Nat.{div-le_self, div-lt_iff_lt-mul}
use file_sync_engine.RateLimit.{
  Limiter, second, new_limiter, reading, want_elapsed, passed, sleep_for, pace, wait,
}

-- What goes on around a limiter: a transfer of some bytes that waits, or time that passes.
pub data Event : Type 0 where
  transfer : ℕ → Event
  idle : ℕ → Event

abbrev pub total : List Event → ℕ
total [] = 0
total (transfer n ∷ events) = n + total events
total (idle time ∷ events) = total events

abbrev pub event : (ℕ → ℕ) → Event → Limiter → Limiter
event sleep (transfer n) l = (wait sleep none (pos n) l).0
event sleep (idle time) l = passed time l

abbrev pub run : (ℕ → ℕ) → List Event → Limiter → Limiter
run sleep [] l = l
run sleep (e ∷ events) l = run sleep events (event sleep e l)

-- What the clock of the limiter has, 0 without one.
abbrev time_of : Option ℕ → ℕ
time_of none = 0
time_of (some now) = now

abbrev pub clock : Limiter → ℕ
clock l = time_of l.elapsed

-- `bytes` bytes went through, and not too early.
record IsPaced (rate bytes : ℕ) (l : Limiter) : Type 0 where
  now : ℕ
  rate_is : l.bytes_per_second ≡ pos rate
  transferred_is : l.transferred ≡ pos bytes
  elapsed_is : l.elapsed ≡ some now
  paced : bytes * second / rate ≤ now

want_elapsed-pos :
    (l : Limiter) (rate bytes : ℕ)
    → l.bytes_per_second ≡ pos rate
    → l.transferred ≡ pos bytes
    → bytes * second < 2 ^ 63
    → want_elapsed l ≡ pos (bytes * second / rate)
unfolding want_elapsed times quotient
want_elapsed-pos l rate bytes r t b =
    rw (r, t)
      (rw (wrap64_id (pos (bytes * second)) (record { upper = b; lower = omega arith })) refl)

quotient-small : (bytes rate : ℕ) → bytes * second < 2 ^ 63 → bytes * second / rate < 2 ^ 63
quotient-small bytes rate b = omega (arith, div-le_self (bytes * second) rate, b)

late :
    (want now : ℕ) → want < 2 ^ 63 → now < want → sub64 (pos want) (reading now) ≡ pos (want - now)
unfolding reading
late want now w l = ground (arith, sub64-pos want now (omega (arith, l)) w)

early :
    (want now : ℕ)
    → want < 2 ^ 63
    → want ≤ now
    → leb_ℤ (sub64 (pos want) (reading now)) (pos 0) ≡ true
unfolding reading sub64 ◌-ℤ◌
early want now w l = ground (arith, wrap64_id (pos want -ℤ reading now))

pace-IsPaced :
    (sleep : ℕ → ℕ) (rate bytes now : ℕ) (l : Limiter)
    → ((d : ℕ) → d ≤ sleep d)
    → bytes * second < 2 ^ 63
    → l.bytes_per_second ≡ pos rate
    → l.transferred ≡ pos bytes
    → l.elapsed ≡ some now
    → IsPaced rate bytes (pace sleep none (some now) l).0
unfolding pace sleep_for
pace-IsPaced sleep rate bytes now l slow b r t e =
    let want = bytes * second / rate in
    let w = want_elapsed-pos l rate bytes r t b in
    let small = quotient-small bytes rate b in
    elim (Bool-cases (leb want now)) [
      | inl on_time ↦ rw w (
          rw (early want now small (ground (arith, on_time))) (record {
            now = now;
            rate_is = r;
            transferred_is = t;
            elapsed_is = e;
            paced = ground (arith, on_time);
          }))
      | inr too_soon ↦
          let d = want - now in
          let rem : sub64 (want_elapsed l) (reading now) ≡ pos d =
            ap (λ z. sub64 z (reading now)) w ∙ late want now small (ground (arith, too_soon)) in
          let slept : leb_ℤ (pos d) (pos 0) ≡ false = ground (arith, too_soon) in
          subst
            (λ (z : ℤ).
              IsPaced rate bytes
                (if leb_ℤ z (pos 0) then (l, true) else sleep_for sleep none z l).0)
            (sym rem)
            (rw slept (record {
              now = now + sleep d;
              rate_is = r;
              transferred_is = t;
              elapsed_is = rw e refl;
              paced = omega (arith, slow d);
            }))
    ]

wait-IsPaced :
    (sleep : ℕ → ℕ) (rate bytes n : ℕ) (l : Limiter)
    → ((d : ℕ) → d ≤ sleep d)
    → 0 < rate
    → (bytes + n) * second < 2 ^ 63
    → IsPaced rate bytes l
    → IsPaced rate (bytes + n) (wait sleep none (pos n) l).0
unfolding wait
wait-IsPaced sleep rate bytes n l slow p b h = elim (Bool-cases (leb n 0)) [
  | inl none_sent ↦
      let same : bytes + n ≡ bytes = ground (arith, none_sent) in
      let skip : (leb_ℤ l.bytes_per_second (pos 0) || leb_ℤ (pos n) (pos 0)) ≡ true =
        ground (arith, none_sent) in
      rw same (rw skip h)
  | inr sent ↦
      let go : (leb_ℤ l.bytes_per_second (pos 0) || leb_ℤ (pos n) (pos 0)) ≡ false =
        rw h.rate_is (ground (arith, sent, p)) in
      let next = record l { transferred = add64 l.transferred (pos n) } in
      rw go (
        subst (λ (o : Option ℕ). IsPaced rate (bytes + n) (pace sleep none o next).0)
          (sym h.elapsed_is)
          (pace-IsPaced sleep rate (bytes + n) h.now next slow b h.rate_is
            (ap (λ z. add64 z (pos n)) h.transferred_is ∙ add64-pos bytes n (omega (arith, b)))
            h.elapsed_is))
]

run-IsPaced :
    (sleep : ℕ → ℕ) (rate bytes : ℕ) (events : List Event) (l : Limiter)
    → ((d : ℕ) → d ≤ sleep d)
    → 0 < rate
    → (bytes + total events) * second < 2 ^ 63
    → IsPaced rate bytes l
    → IsPaced rate (bytes + total events) (run sleep events l)
run-IsPaced sleep rate bytes [] l slow p b h = subst (λ n. IsPaced rate n l) (omega arith) h
run-IsPaced sleep rate bytes (transfer n ∷ events) l slow p b h =
    subst (λ k. IsPaced rate k (run sleep events (event sleep (transfer n) l))) (omega arith)
      (run-IsPaced sleep rate (bytes + n) events (event sleep (transfer n) l) slow p
        (omega (arith, b)) (wait-IsPaced sleep rate bytes n l slow p (omega (arith, b)) h))
run-IsPaced sleep rate bytes (idle time ∷ events) l slow p b h =
    run-IsPaced sleep rate bytes events (passed time l) slow p b (record {
      now = h.now + time;
      rate_is = h.rate_is;
      transferred_is = h.transferred_is;
      elapsed_is = rw h.elapsed_is refl;
      paced = omega (arith, h.paced);
    })

-- The rate stays under the cap: after any series of transfers and pauses on a new limiter, the
-- bytes that went through take, at the cap, less than a nanosecond more than the time that the
-- clock shows. Conditions: the cap is positive, no wait is interrupted, a sleep takes its time at
-- least, and the bytes in nanoseconds, `total events * 10^9`, are an int64.
pub run_paced :
    (sleep : ℕ → ℕ) (rate : ℕ) (events : List Event)
    → ((d : ℕ) → d ≤ sleep d)
    → 0 < rate
    → total events * second < 2 ^ 63
    → total events * second < (clock (run sleep events (new_limiter (pos rate))) + 1) * rate
run_paced sleep rate events slow p b =
    let h =
      run-IsPaced sleep rate 0 events (new_limiter (pos rate)) slow p (omega (arith, b)) (record {
        now = 0;
        rate_is = refl;
        transferred_is = refl;
        elapsed_is = refl;
        paced = omega (arith, div-le_self 0 rate);
      }) in
    rw h.elapsed_is (
      (omega (
        arith,
        (div-lt_iff_lt-mul {x = (0 + total events) * second} {y = h.now + 1} p).0
            (omega (arith, h.paced)),
      )))
