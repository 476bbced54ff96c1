-- ===== src/Tests/PathTests.antt =====
-- Paths on a small JSON, retries and permits at concrete inputs.
use post_cortex.Base.{
  ℕ, ◌-◌, ◌≤◌, ◌≡◌, refl, min, Bool, true, false, Option, none, some, List, [], ◌∷◌, if◌then◌else◌,
  ltb, is_some, arith,
}
use post_cortex.JsonPath.{
  Json, pos, negsuc, JsonPath, index, union, index_array, index_value, union_value, step, step_all,
  walk, answer, execute,
}
use post_cortex.JsonPath.Semantics.{by_index, execute-reached}
use post_cortex.JsonPath.Parser.{apply_select}
use post_cortex.JsonPath.Termination.{apply_select_ends}
use post_cortex.Retry.{
  Attempt, failed, succeeded, timed_out, Outcome, saturating_double, retry, with_retry_timeout,
}
use post_cortex.Retry.Backoff.{outcome_of, first_success, doubling, with_retry_timeout_lem}
use post_cortex.Permits.{new, release, exchange, advance, advance_at, run}
use post_cortex.Permits.Bound.{held, idle_threads, run-held}

-- Arrays of numbers, one of them deep.
data Nested : Type 0 where
  leaf : ℕ → Nested
  nil : Nested
  row : List ℕ → Nested

leaves : List ℕ → List Nested
leaves [] = []
leaves (n ∷ ns) = leaf n ∷ leaves ns

first_leaf : List Nested → List ℕ
first_leaf [] = []
first_leaf (leaf n ∷ rest) = n ∷ first_leaf rest
first_leaf (nil ∷ rest) = first_leaf rest
first_leaf (row ns ∷ rest) = first_leaf rest

elements : Nested → Option (List Nested)
unfolding leaves
elements (leaf n) = none
elements nil = none
elements (row ns) = some (leaves ns)

abbrev numbers : Json
numbers = record {
  Value = Nested;
  null = nil;
  array = λ vs. row (first_leaf vs);
  as_array = elements;
  as_object = λ v. none;
  field = λ v name. none;
}

abbrev last_and_first : JsonPath
last_and_first = record { segments = union (negsuc 0 ∷ pos 0 ∷ []) ∷ [] }

-- `$[-1,0]`
union_picks : execute numbers last_and_first (row (5 ∷ 6 ∷ 7 ∷ [])) ≡ row (7 ∷ 5 ∷ [])
unfolding execute walk step_all step union_value index_value index_array answer elements leaves
    first_leaf
union_picks = refl

-- `$[-1]`
execute-reached_example :
    execute numbers (record { segments = index (negsuc 0) ∷ [] }) (row (5 ∷ 6 ∷ 7 ∷ [])) ≡ leaf 7
unfolding elements leaves
execute-reached_example = execute-reached numbers (by_index (negsuc 0) ∷ []) (row (5 ∷ 6 ∷ 7 ∷ []))

apply_select_ends_example :
    is_some (
      apply_select numbers
        (λ fields. nil)
        (row (5 ∷ []))
        none
        (some (("first", "$[0]") ∷ ("bad", "$..x") ∷ [])))
    ≡ true
apply_select_ends_example =
    apply_select_ends numbers (λ fields. nil) (row (5 ∷ [])) none
      (some (("first", "$[0]") ∷ ("bad", "$..x") ∷ []))

-- The first attempt times out, the third succeeds.
abbrev attempts : ℕ → Attempt ℕ
attempts n = if ltb n 2 then timed_out else if ltb n 3 then failed else succeeded 40

third_attempt : with_retry_timeout attempts 4 10 1000 ≡ (Outcome.value 40, 10 ∷ 20 ∷ [])
unfolding with_retry_timeout retry saturating_double
third_attempt = refl

with_retry_timeout_lem_example : with_retry_timeout attempts 4 10 1000 ≡ (
  outcome_of 1000 (first_success attempts 4 1).0,
  doubling (min (first_success attempts 4 1).1 (4 - 1)) 10,
)
with_retry_timeout_lem_example = with_retry_timeout_lem attempts 4 10 1000

-- Two threads race for one permit.
abbrev race : List (ℕ × Bool)
race = (0, false) ∷ (1, false) ∷ (0, false) ∷ (1, false) ∷ (0, true) ∷ (1, false) ∷ (0, false) ∷ []

one_permit : held (run race (new 1) (idle_threads 2)).1 ≡ 1
unfolding held run new advance_at advance exchange release
one_permit = refl

run-held_example :
    (held (run race (new 1) (idle_threads 2)).1
      ≡ (run race (new 1) (idle_threads 2)).0.current_operations)
    × (held (run race (new 1) (idle_threads 2)).1 ≤ 1)
run-held_example = run-held race 1 2 (omega arith)
