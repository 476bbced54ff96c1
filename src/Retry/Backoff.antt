-- ===== src/Retry/Backoff.antt =====
-- What is returned, and how long is slept.
use post_cortex.Base.{
  ℕ, zero, suc, ◌+◌, ◌-◌, ◌≡◌, refl, min, List, [], ◌∷◌, arith, Option, none, some,
}
use post_cortex.Retry.{
  Attempt, succeeded, failed, timed_out, Outcome, value, timeout, saturating_double, retry,
  with_retry_timeout,
}

-- The first success among the next `n` attempts, and the attempts made before it.
unfoldable pub first_success : {T : Type 0} → (ℕ → Attempt T) → ℕ → ℕ → Option T × ℕ
first_success operation zero attempt = (none, 0)
first_success operation (suc n) attempt =
    let rest = first_success operation n (attempt + 1) in
    elim (operation attempt) [
      | succeeded v ↦ (some v, 0)
      | failed ↦ (rest.0, rest.1 + 1)
      | timed_out ↦ (rest.0, rest.1 + 1)
    ]

-- `n` sleeps, each twice as long as the one before, up to the longest duration.
unfoldable pub doubling : ℕ → ℕ → List ℕ
doubling zero delay = []
doubling (suc n) delay = delay ∷ doubling n (saturating_double delay)

abbrev pub outcome_of : {T : Type 0} → ℕ → Option T → Outcome T
outcome_of limit none = timeout limit
outcome_of limit (some v) = value v

doubling-suc :
    (n k delay : ℕ)
    → doubling (min (k + 1) (suc (suc n) - 1)) delay
      ≡ delay ∷ doubling (min k (suc n - 1)) (saturating_double delay)
unfolding doubling
doubling-suc n k delay =
    let one : min (k + 1) (suc (suc n) - 1) ≡ suc (min k (suc n - 1)) = omega arith in rw (one) refl

doubling_none : (n delay : ℕ) → doubling (min 0 (suc n - 1)) delay ≡ []
unfolding doubling
doubling_none n delay = let none_left : min 0 (suc n - 1) ≡ 0 = omega arith in rw (none_left) refl

retry_lem :
    {T : Type 0} (operation : ℕ → Attempt T) (max_retries limit left attempt delay : ℕ)
    → attempt + left ≡ max_retries + 1
    → retry operation max_retries limit left attempt delay ≡ (
      outcome_of limit (first_success operation left attempt).0,
      doubling (min (first_success operation left attempt).1 (left - 1)) delay,
    )
unfolding retry first_success
retry_lem operation m limit zero attempt delay h = unfold doubling in ground arith
retry_lem operation m limit (suc zero) attempt delay h = unfold doubling in ground arith
retry_lem operation m limit (suc (suc n)) attempt delay h =
    let rec =
      retry_lem operation m limit (suc n) (attempt + 1) (saturating_double delay) (omega arith) in
    let more = doubling-suc n (first_success operation (suc n) (attempt + 1)).1 delay in
    ground (arith, rec, more, doubling_none (suc n) delay)

-- The outcome is the first success within `max_retries` attempts, whatever failed or timed out
-- before it, and a timeout if there is none. Between two attempts there is one sleep, each twice
-- as long as the one before up to the longest duration, and none after the last attempt.
pub with_retry_timeout_lem :
    {T : Type 0} (operation : ℕ → Attempt T) (max_retries initial_delay limit : ℕ)
    → with_retry_timeout operation max_retries initial_delay limit ≡ (
      outcome_of limit (first_success operation max_retries 1).0,
      doubling (min (first_success operation max_retries 1).1 (max_retries - 1)) initial_delay,
    )
unfolding with_retry_timeout
with_retry_timeout_lem operation max_retries initial_delay limit =
    retry_lem operation max_retries limit max_retries 1 initial_delay (omega arith)
