-- ===== src/RepairBackoff.antt =====
-- internal/maintenance/repair_backoff.go: how often, and how soon again, the repair of a damaged
-- file is attempted. A time is its nanoseconds since 1970; the store keeps those that an int64 has
-- room for, where 0 is the zero time. A count of attempts is a natural number. The store is the
-- value it keeps for one folder and path; its errors are passed on and not modelled. The
-- fingerprint of the trusted manifest is a parameter, and so is the time that `now` reads.
pub mod Delay
use file_sync_engine.Prelude.{
  ℕ, zero, suc, ◌+◌, ◌-◌, ◌*◌, ◌/◌, String, Bool, true, false, not, ◌&&◌, ◌||◌, Option, none, some,
  ltb, leb, ◌==◌, str_eq, if◌then◌else◌,
}
use file_sync_engine.Prelude.Int.{ℤ, pos, negsuc, positive_or, eqb_ℤ, ltb_ℤ, wrap64, add64}

pub record RepairAttemptState : Type 0 where
  pub folder_id : String
  pub path : String
  pub attempts : ℕ
  pub last_attempt : ℤ
  pub backoff_until : ℤ
  pub trusted_fingerprint : String
  pub last_error : String

-- `MaxAttempts` of 0 or less means no limit.
pub record RepairBackoffPolicy : Type 0 where
  pub base_delay : ℤ
  pub max_delay : ℤ
  pub max_attempts : ℤ

pub data Reason : Type 0 where
  no_reason : Reason
  backoff : Reason
  max_attempts_reached : Reason
  trusted_manifest_changed : Reason

pub record RepairDecision : Type 0 where
  pub allowed : Bool
  pub reason : Reason
  pub attempts : ℕ
  pub backoff_until : ℤ

abbrev pub minute : ℕ
minute = 60000000000

unfoldable pub base_of : RepairBackoffPolicy → ℕ
unfolding positive_or
base_of policy = positive_or minute policy.base_delay

unfoldable pub max_of : RepairBackoffPolicy → ℕ
unfolding positive_or base_of
max_of policy = positive_or (base_of policy) policy.max_delay

-- The loop of `backoffDelay`, with the rounds that are left.
unfoldable pub double_delay : ℕ → ℕ → ℕ → ℕ
double_delay max zero delay = delay
double_delay max (suc rounds) delay =
    let rest = double_delay max rounds (delay * 2) in if leb (max / 2) delay then max else rest

-- For the attempts as a number from 1, and 0 is raised to 1.
unfoldable pub backoff_delay : ℕ → RepairBackoffPolicy → ℕ
unfolding double_delay base_of max_of
backoff_delay attempts policy =
    let delay = double_delay (max_of policy) (attempts - 1) (base_of policy) in
    if ltb (max_of policy) delay then max_of policy else delay

-- `policy.MaxAttempts > 0 && attempts >= policy.MaxAttempts`.
unfoldable pub reached : ℤ → ℕ → Bool
reached (pos zero) attempts = false
reached (pos (suc n)) attempts = leb (suc n) attempts
reached (negsuc n) attempts = false

unfoldable pub should_attempt_repair :
    Option RepairAttemptState → String → RepairBackoffPolicy → ℤ → RepairDecision
unfolding reached
should_attempt_repair none fingerprint policy now = record {
  allowed = true;
  reason = no_reason;
  attempts = 0;
  backoff_until = pos 0;
}
should_attempt_repair (some state) fingerprint policy now =
    if not (str_eq state.trusted_fingerprint "")
      && not (str_eq state.trusted_fingerprint fingerprint)
    then record {
      allowed = true;
      reason = trusted_manifest_changed;
      attempts = 0;
      backoff_until = pos 0;
    }
    else if reached policy.max_attempts state.attempts
    then record {
      allowed = false;
      reason = max_attempts_reached;
      attempts = state.attempts;
      backoff_until = state.backoff_until;
    }
    else if not (eqb_ℤ state.backoff_until (pos 0)) && ltb_ℤ now state.backoff_until
    then record {
      allowed = false;
      reason = backoff;
      attempts = state.attempts;
      backoff_until = state.backoff_until;
    }
    else record {
      allowed = true;
      reason = no_reason;
      attempts = state.attempts;
      backoff_until = pos 0;
    }

-- The attempts that still count: none where there is no state, or one for another manifest.
unfoldable pub attempts_for : Option RepairAttemptState → String → ℕ
attempts_for none fingerprint = 0
attempts_for (some state) fingerprint =
    if not (str_eq state.trusted_fingerprint "")
      && not (str_eq state.trusted_fingerprint fingerprint)
    then 0
    else state.attempts

-- The state that `RecordRepairFailure` saves; `UnixNano` keeps the int64 of a time.
unfoldable pub record_repair_failure :
    Option RepairAttemptState
    → String
    → String
    → String
    → RepairBackoffPolicy
    → ℤ
    → String
    → RepairAttemptState
unfolding attempts_for backoff_delay wrap64 add64
record_repair_failure old folder_id path fingerprint policy now message =
    let attempts = attempts_for old fingerprint + 1 in
    record {
      folder_id = folder_id;
      path = path;
      attempts = attempts;
      last_attempt = wrap64 now;
      backoff_until = add64 now (pos (backoff_delay attempts policy));
      trusted_fingerprint = fingerprint;
      last_error = message;
    }
