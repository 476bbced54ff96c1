-- ===== src/Tests/GraphTests.antt =====
-- The entity graph, the names and the breaker at concrete inputs.
use post_cortex.Base.{
  ℕ, Option, ◌↔◌, ◌⊎◌, ◌≤◌, ◌≡◌, refl, true, false, inr, List, [], ◌∷◌, none, some, arith,
}
use post_cortex.Base.Keys.{nat_eq, string_eq}
use post_cortex.ConcurrentMap.Assoc.{assoc_maps}
use post_cortex.Core.Update.{EntityRelationship, RelationType}
use post_cortex.Core.Names.{from_str, debug_name, relation_name, from_str-names}
use post_cortex.Session.EntityGraph.{EntityGraph, new}
use post_cortex.Base.Words.{wrapping_add, wrapping_sub}
use post_cortex.CircuitBreaker.{
  CircuitBreaker, Call, check, failure, success, is_open, run, record_failure, record_success,
  apply,
}
use post_cortex.CircuitBreaker.Opening.{IsCounting, run-IsCounting}
use post_cortex.Validate.{
  err, passed, validate_limits, validate_limits-passed, validate_word, validate_session_role,
}

abbrev empty : EntityGraph assoc_maps
empty = new assoc_maps

abbrev link : EntityRelationship
link = record {
  from_entity = "a";
  to_entity = "b";
  relation_type = RelationType.depends_on;
  context = "";
}

from_str-names_example :
    (from_str (debug_name RelationType.solves) ≡ some RelationType.solves)
    × (from_str (relation_name RelationType.solves) ≡ none)
from_str-names_example = from_str-names RelationType.solves

abbrev breaker : CircuitBreaker
breaker = record {
  tripped = true;
  failure_count = 2;
  last_failure_timestamp = 100;
  success_count = 0;
  last_success_timestamp = 0;
  failure_threshold = 2;
  timeout_seconds = 30;
}

abbrev fresh : CircuitBreaker
fresh = record breaker { tripped = false; failure_count = 0 }

abbrev calls : List Call
calls = failure 101 ∷ success 102 ∷ failure 103 ∷ failure 104 ∷ check 105 ∷ []

-- Failures that a success interrupts add up.
opened : (run calls fresh).tripped ≡ true
unfolding run apply is_open record_failure record_success wrapping_add wrapping_sub
opened = refl

fresh-IsCounting : IsCounting 0 fresh
fresh-IsCounting = record { below = inr (omega arith); few = omega arith }

run-IsCounting_example : IsCounting 5 (run calls fresh)
run-IsCounting_example = run-IsCounting calls fresh 0 fresh-IsCounting (omega arith) (omega arith)

abbrev given : Option ℕ
given = some 5

validate_limits-passed_example :
    (passed (validate_limits given 10 100) ≡ given)
    ↔ (((given ≡ some 5) ⊎ (given ≡ none) × (◌≡◌ {A = ℕ} 5 10)) × (1 ≤ 5) × (5 ≤ 100))
validate_limits-passed_example = validate_limits-passed given 10 100 5

unknown_role :
    validate_session_role (λ s. s) "main"
    ≡ err (record { parameter_path = "role"; received = "main" })
unfolding validate_session_role validate_word
unknown_role = refl
