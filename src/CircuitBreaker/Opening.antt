-- ===== src/CircuitBreaker/Opening.antt =====
-- When the breaker is open.
use post_cortex.Base.{ℕ, ◌+◌, ◌<◌, ◌≤◌, ◌≡◌, refl, ◌⊎◌, true, List, [], ◌∷◌, length, arith}
use post_cortex.Base.Words.{u64_mod, wrapping_add, wrapping_sub}
use post_cortex.CircuitBreaker.{
  CircuitBreaker, is_open, record_failure, record_success, Call, check, failure, success, apply,
  run,
}

-- A closed breaker has counted fewer failures than the threshold. The counter is within `n`.
pub record IsCounting (n : ℕ) (b : CircuitBreaker) : Type 0 where
  pub below : (b.tripped ≡ true) ⊎ (b.failure_count < b.failure_threshold)
  pub few : b.failure_count ≤ n

is_open-IsCounting :
    (now : ℕ) (b : CircuitBreaker) (n : ℕ)
    → IsCounting n b
    → 0 < b.failure_threshold
    → IsCounting (n + 1) (is_open now b).0
      × ((is_open now b).0.failure_threshold ≡ b.failure_threshold)
unfolding is_open
is_open-IsCounting now b n h positive = (
  record { below = ground (arith, h.below, positive); few = ground (arith, h.few) },
  ground arith,
)

apply-IsCounting :
    (c : Call) (b : CircuitBreaker) (n : ℕ)
    → IsCounting n b
    → 0 < b.failure_threshold
    → n + 1 < u64_mod
    → IsCounting (n + 1) (apply c b) × ((apply c b).failure_threshold ≡ b.failure_threshold)
unfolding apply record_failure record_success wrapping_add wrapping_sub
apply-IsCounting (check now) b n h positive word = is_open-IsCounting now b n h positive
apply-IsCounting (failure now) b n h positive word =
    (record { below = ground (arith, h.below, h.few); few = ground (arith, h.few) }, refl)
apply-IsCounting (success now) b n h positive word =
    (record { below = ground (arith, h.below, h.few); few = ground (arith, h.few) }, refl)

-- A closed breaker has counted fewer failures than its threshold, if that is positive: when it
-- holds of the first state, where at most `n` failures are counted, it holds after any calls, for
-- `n` and the calls together below 2 ^ 64 - 1; at most one failure is counted per call.
pub run-IsCounting :
    (calls : List Call) (b : CircuitBreaker) (n : ℕ)
    → IsCounting n b
    → 0 < b.failure_threshold
    → n + length calls + 1 < u64_mod
    → IsCounting (n + length calls) (run calls b)
unfolding run
run-IsCounting [] b n h positive word = record { below = h.below; few = omega (arith, h.few) }
run-IsCounting (c ∷ calls) b n h positive word =
    let (next, same) = apply-IsCounting c b n h positive (omega arith) in
    let rest = run-IsCounting calls (apply c b) (n + 1) next (rw (same) positive) (omega arith) in
    record { below = rest.below; few = omega (arith, rest.few) }
