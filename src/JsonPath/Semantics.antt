-- ===== src/JsonPath/Semantics.antt =====
-- The executor against a description that follows the one value that a direct path can reach.
use post_cortex.Base.{
  ℕ, eqb, suc, zero, ◌+◌, ◌-◌, ◌≡◌, refl, Option, none, some, List, [], ◌∷◌, ◌++◌, if◌then◌else◌,
  ltb, length, get_elem?, arith, String, Option-cases, Bool-cases, inl, inr, map,
}
use post_cortex.JsonPath.{
  ℤ, pos, negsuc, Json, PathSegment, field, index, to_list, index_array, index_value, step,
  step_all, walk, answer, execute,
}

abbrev pub backwards : {A : Type 0} → List A → List A
backwards [] = []
backwards (x ∷ xs) = backwards xs ++ x ∷ []

-- The element at an index: from the end, which is -1, if it is negative.
abbrev pub element_at : {A : Type 0} → List A → ℤ → Option A
element_at arr (pos n) = get_elem? arr n
element_at arr (negsuc n) = get_elem? (backwards arr) n

length-append : {A : Type 0} (a b : List A) → length (a ++ b) ≡ length a + length b
length-append [] b = omega arith
length-append (x ∷ a) b = omega (arith, length-append a b)

length-backwards : {A : Type 0} (a : List A) → length (backwards a) ≡ length a
length-backwards [] = refl
length-backwards (x ∷ a) = omega (arith, length-append (backwards a) (x ∷ []), length-backwards a)

get_elem?-append :
    {A : Type 0} (a b : List A) (i : ℕ)
    → get_elem? (a ++ b) i
      ≡ (if ltb i (length a) then get_elem? a i else get_elem? b (i - length a))
get_elem?-append [] b i = let all : i - 0 ≡ i = omega arith in ground (arith, all)
get_elem?-append (x ∷ a) b zero = ground arith
get_elem?-append (x ∷ a) b (suc i) =
    let less : suc i - suc (length a) ≡ i - length a = omega arith in
    ground (arith, get_elem?-append a b i, less)

get_elem?-backwards :
    {A : Type 0} (arr : List A) (n : ℕ)
    → get_elem? (backwards arr) n
      ≡ (if ltb n (length arr) then get_elem? arr (length arr - (n + 1)) else none)
get_elem?-backwards [] n = ground arith
get_elem?-backwards (x ∷ xs) n =
    let size = length-backwards xs in
    let split = get_elem?-append (backwards xs) (x ∷ []) n in
    elim (Bool-cases (ltb n (length xs))) [
      | inl inner ↦
          let shift : suc (length xs) - (n + 1) ≡ suc (length xs - (n + 1)) =
            ground (arith, inner) in
          let rec = get_elem?-backwards xs n in ground (arith, size, split, inner, shift, rec)
      | inr beyond ↦ elim (Bool-cases (eqb n (length xs))) [
        | inl last ↦
            let first : suc (length xs) - (n + 1) ≡ 0 = ground (arith, last) in
            let only : n - length xs ≡ 0 = ground (arith, last) in
            ground (arith, size, split, beyond, last, first, only)
        | inr past ↦
            let rest : n - length xs ≡ suc (n - length xs - 1) = ground (arith, beyond, past) in
            ground (arith, size, split, beyond, past, rest)
      ]
    ]

element_at-index_array :
    {A : Type 0} (arr : List A) (idx : ℤ) → index_array arr idx ≡ element_at arr idx
unfolding index_array
element_at-index_array arr (pos n) = refl
element_at-index_array arr (negsuc n) = ground (arith, get_elem?-backwards arr n)

-- A segment that names a field or an element.
pub data Direct : Type 0 where
  by_name : String → Direct
  by_index : ℤ → Direct

abbrev pub segment_of : Direct → PathSegment
segment_of (by_name name) = field name
segment_of (by_index idx) = index idx

module _ (J : Json) where
  abbrev next : Direct → J.Value → Option J.Value
  next (by_name name) val = J.field val name
  next (by_index idx) val = elim (J.as_array val) [ none ↦ none | some arr ↦ element_at arr idx ]

  -- The value that a path reaches.
  abbrev pub reached : List Direct → J.Value → Option J.Value
  reached [] val = some val
  reached (d ∷ ds) val = elim (next d val) [ none ↦ none | some inner ↦ reached ds inner ]

  abbrev pub or_null : Option J.Value → J.Value
  or_null none = J.null
  or_null (some val) = val

  step-next : (d : Direct) (val : J.Value) → step J (segment_of d) val ≡ to_list (next d val)
  unfolding step index_value
  step-next (by_name name) val = refl
  step-next (by_index idx) val = elim (Option-cases (J.as_array val)) [
    | inl other ↦ rw (other, step, index_value, next) refl
    | inr (arr, listed) ↦ rw (listed, step, index_value, next, element_at-index_array arr idx) refl
  ]

  walk_nil : (p : List PathSegment) → walk J p [] ≡ []
  unfolding walk step_all
  walk_nil [] = refl
  walk_nil (s ∷ p) = walk_nil p

  walk-reached :
      (ds : List Direct) (val : J.Value)
      → walk J (map segment_of ds) (val ∷ []) ≡ to_list (reached ds val)
  unfolding walk step_all
  walk-reached [] val = refl
  walk-reached (d ∷ ds) val = elim (Option-cases (next d val)) [
    | inl stuck ↦
        let none_on : step_all J (segment_of d) (val ∷ []) ≡ [] =
          rw (step_all, step-next d val, stuck) refl in
        rw (walk, none_on, reached, stuck) (walk_nil (map segment_of ds))
    | inr (inner, there) ↦
        let one_on : step_all J (segment_of d) (val ∷ []) ≡ inner ∷ [] =
          rw (step_all, step-next d val, there) refl in
        rw (walk, one_on, reached, there) (walk-reached ds inner)
  ]

  -- Executing a path that only names fields and elements answers with the value that it reaches
  -- from the root, itself and not in an array, and with null if there is none. A negative index
  -- counts from the end of the array.
  pub execute-reached :
      (ds : List Direct) (root : J.Value)
      → execute J (record { segments = map segment_of ds }) root ≡ or_null (reached ds root)
  unfolding execute answer
  execute-reached ds root = elim (Option-cases (reached ds root)) [
    | inl stuck ↦ rw (execute, walk-reached ds root, stuck) refl
    | inr (val, there) ↦ rw (execute, walk-reached ds root, there) refl
  ]
