-- ===== src/CircuitBreaker.antt =====
-- crates/post-cortex-memory/src/memory_system/circuit_breaker.rs: the breaker called by one thread
-- after another; the clock, in seconds, is an argument.
pub mod Opening
use post_cortex.Base.{ℕ, ◌+◌, ◌-◌, Bool, true, false, List, [], ◌∷◌, if◌then◌else◌, ltb, leb}
use post_cortex.Base.Words.{wrapping_add, wrapping_sub}

pub record CircuitBreaker : Type 0 where
  pub tripped : Bool
  pub failure_count : ℕ
  pub last_failure_timestamp : ℕ
  pub success_count : ℕ
  pub last_success_timestamp : ℕ
  pub failure_threshold : ℕ
  pub timeout_seconds : ℕ

unfoldable pub new : ℕ → ℕ → CircuitBreaker
new failure_threshold timeout_seconds = record {
  tripped = false;
  failure_count = 0;
  last_failure_timestamp = 0;
  success_count = 0;
  last_success_timestamp = 0;
  failure_threshold = failure_threshold;
  timeout_seconds = timeout_seconds;
}

unfoldable pub is_open : ℕ → CircuitBreaker → CircuitBreaker × Bool
is_open now b =
    if b.tripped
    then (if ltb b.timeout_seconds (now - b.last_failure_timestamp)
        then (record b { tripped = false; failure_count = 0 }, false)
        else (b, true))
    else (b, false)

unfoldable pub record_failure : ℕ → CircuitBreaker → CircuitBreaker
record_failure now b =
    let failures = wrapping_add b.failure_count 1 in
    record b {
      failure_count = failures;
      last_failure_timestamp = now;
      tripped = if leb b.failure_threshold failures then true else b.tripped;
    }

unfoldable pub record_success : ℕ → CircuitBreaker → CircuitBreaker
record_success now b = record b {
  success_count = wrapping_add b.success_count 1;
  last_success_timestamp = now;
  failure_count = if ltb 0 b.failure_count then wrapping_sub b.failure_count 1 else b.failure_count;
}

-- A call of the breaker at a time of the clock.
pub data Call : Type 0 where
  check : ℕ → Call
  failure : ℕ → Call
  success : ℕ → Call

unfoldable pub apply : Call → CircuitBreaker → CircuitBreaker
apply (check now) b = (is_open now b).0
apply (failure now) b = record_failure now b
apply (success now) b = record_success now b

unfoldable pub run : List Call → CircuitBreaker → CircuitBreaker
run [] b = b
run (c ∷ calls) b = run calls (apply c b)
