-- ===== src/RepairBackoff/Delay.antt =====
-- The delay after a failed repair doubles up to its bound, and no repair is allowed within it.
use file_sync_engine.Prelude.{
  ℕ, zero, suc, ◌+◌, ◌-◌, ◌*◌, ◌^◌, ◌%◌, ◌≤◌, ◌<◌, ◌≡◌, String, false, Option, some, arith, leb,
  eq_iff, if◌then◌else◌,
}
use mathlib.Core.Path.{ap, sym, ◌∙◌}
use native.Mathlib.Omega.{pow_step}
use native.Mathlib.Nat.{mul_assoc}
use file_sync_engine.Prelude.Int.{ℤ, pos, negsuc, positive_or, add64-pos, ◌<ℤ◌}
use file_sync_engine.RepairBackoff.{
  RepairAttemptState, RepairBackoffPolicy, minute, base_of, max_of, double_delay, backoff_delay,
  attempts_for, should_attempt_repair, record_repair_failure,
}

-- The smaller of two numbers.
unfoldable pub min : ℕ → ℕ → ℕ
min a b = if leb a b then a else b

double_up : (d n : ℕ) → d * 2 ^ suc n ≡ d * 2 * 2 ^ n
double_up d n = ap (λ x. d * x) (pow_step 2 n) ∙ sym (mul_assoc d 2 (2 ^ n))

grows : (d n : ℕ) → d ≤ d * 2 ^ n
grows d zero = ground arith
grows d (suc n) = ground (arith, grows d n, grows (d * 2) n, double_up d n)

double_delay-min :
    (max rounds delay : ℕ)
    → max % 2 ≡ 0
    → min max (double_delay max rounds delay) ≡ min max (delay * 2 ^ rounds)
unfolding double_delay min
double_delay-min max zero delay even = ground arith
double_delay-min max (suc rounds) delay even =
    let rest = double_delay-min max rounds (delay * 2) even in
    ground (arith, rest, double_up delay rounds, grows (delay * 2) rounds)

positive_or-positive : (default : ℕ) (n : ℤ) → 1 ≤ default → 1 ≤ positive_or default n
unfolding positive_or
positive_or-positive default (pos zero) p = p
positive_or-positive default (pos (suc n)) p = ground arith
positive_or-positive default (negsuc n) p = p

base_of-positive : (policy : RepairBackoffPolicy) → 1 ≤ base_of policy
unfolding base_of
base_of-positive policy = positive_or-positive minute policy.base_delay (omega arith)

max_of-positive : (policy : RepairBackoffPolicy) → 1 ≤ max_of policy
unfolding max_of
max_of-positive policy =
    positive_or-positive (base_of policy) policy.max_delay (base_of-positive policy)

double_delay-positive :
    (max rounds delay : ℕ) → 1 ≤ max → 1 ≤ delay → 1 ≤ double_delay max rounds delay
unfolding double_delay
double_delay-positive max zero delay p q = q
double_delay-positive max (suc rounds) delay p q =
    ground (arith, p, double_delay-positive max rounds (delay * 2) p (omega (arith, q)))

backoff_delay-positive :
    (attempts : ℕ) (policy : RepairBackoffPolicy) → 1 ≤ backoff_delay attempts policy
unfolding backoff_delay
backoff_delay-positive attempts policy = ground (
  arith,
  max_of-positive policy,
  double_delay-positive (max_of policy) (attempts - 1) (base_of policy) (max_of-positive policy)
      (base_of-positive policy),
)

-- After a failure is recorded at a time since 1970, a repair against the same trusted manifest is
-- not allowed before the delay for its count of attempts is over. Condition: the end of the delay,
-- in nanoseconds, is an int64, which it is until the year 2262.
pub record_repair_failure_blocks :
    (old : Option RepairAttemptState) (folder_id path fingerprint : String)
    (policy : RepairBackoffPolicy) (t : ℕ) (message : String) (now : ℤ)
    → t + backoff_delay (attempts_for old fingerprint + 1) policy < 2 ^ 63
    → now <ℤ pos (t + backoff_delay (attempts_for old fingerprint + 1) policy)
    → (should_attempt_repair
        (some (record_repair_failure old folder_id path fingerprint policy (pos t) message))
        fingerprint
        policy
        now).allowed
      ≡ false
unfolding should_attempt_repair record_repair_failure
record_repair_failure_blocks old folder_id path fingerprint policy t message now room early =
    let attempts = attempts_for old fingerprint + 1 in
    ground (
      arith,
      eq_iff fingerprint fingerprint,
      add64-pos t (backoff_delay attempts policy) room,
      backoff_delay-positive attempts policy,
      early,
    )

-- The delay is the base delay times two to the power of the earlier attempts, and at most the
-- largest delay, for a largest delay that is an even number of nanoseconds.
pub backoff_delay-min :
    (attempts : ℕ) (policy : RepairBackoffPolicy)
    → max_of policy % 2 ≡ 0
    → backoff_delay attempts policy ≡ min (max_of policy) (base_of policy * 2 ^ (attempts - 1))
unfolding backoff_delay min
backoff_delay-min attempts policy even =
    ground (arith, double_delay-min (max_of policy) (attempts - 1) (base_of policy) even)
