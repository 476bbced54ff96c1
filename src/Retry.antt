-- ===== src/Retry.antt =====
-- crates/post-cortex-core/src/core/timeout_utils.rs: `with_retry_timeout`. What each call of the
-- operation ends with under `with_timeout` is a function of the number of the attempt; the sleeps
-- are listed.
pub mod Backoff
use post_cortex.Base.{ℕ, zero, suc, ◌+◌, ◌-◌, ◌*◌, ◌^◌, min, List, [], ◌∷◌, if◌then◌else◌, ltb, eqb}

-- How an attempt ends.
pub data Attempt (T : Type 0) : Type 0 where
  succeeded : T → Attempt T
  failed : Attempt T
  timed_out : Attempt T

pub data Outcome (T : Type 0) : Type 0 where
  value : T → Outcome T
  -- `TimeoutError::Timeout` with the limit of one attempt.
  timeout : ℕ → Outcome T

-- Durations are in nanoseconds, up to `Duration::MAX`.
abbrev pub duration_max : ℕ
duration_max = 2 ^ 64 * 1000000000 - 1

unfoldable pub saturating_double : ℕ → ℕ
saturating_double d = min (d * 2) duration_max

-- The outcome and the sleeps, in order.
abbrev pub after_sleep : {T : Type 0} → ℕ → Outcome T × List ℕ → Outcome T × List ℕ
after_sleep delay (outcome, sleeps) = (outcome, delay ∷ sleeps)

-- The loop, with `left` attempts to go: `attempt` is the number of the next one.
unfoldable pub retry : {T : Type 0} → (ℕ → Attempt T) → ℕ → ℕ → ℕ → ℕ → ℕ → Outcome T × List ℕ
retry operation max_retries limit zero attempt delay = (timeout limit, [])
retry operation max_retries limit (suc left) attempt delay =
    let rest = retry operation max_retries limit left (attempt + 1) in
    elim (operation attempt) [
      | succeeded v ↦ (value v, [])
      | failed ↦
          if ltb attempt max_retries
          then after_sleep delay (rest (saturating_double delay))
          else rest delay
      | timed_out ↦
          if eqb attempt max_retries
          then (timeout limit, [])
          else after_sleep delay (rest (saturating_double delay))
    ]

unfoldable pub with_retry_timeout : {T : Type 0} → (ℕ → Attempt T) → ℕ → ℕ → ℕ → Outcome T × List ℕ
with_retry_timeout operation max_retries initial_delay timeout_duration =
    retry operation max_retries timeout_duration max_retries 1 initial_delay
