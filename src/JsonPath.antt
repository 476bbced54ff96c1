-- ===== src/JsonPath.antt =====
-- crates/post-cortex-memory/src/jsonpath.rs: the paths of the `select` parameter and their
-- execution. serde_json's `Value` is third-party, so an interface of the operations used.
pub mod Accepted
pub mod Allowed
pub mod Brackets
pub mod Contents
pub mod Numerals
pub mod Parser
pub mod Printing
pub mod RoundTrip
pub mod Semantics
pub mod Termination
pub mod Texts
use post_cortex.Base.{
  ℕ, suc, ◌+◌, ◌-◌, min, Option, none, some, List, [], ◌∷◌, ◌++◌, map, String, if◌then◌else◌, ltb,
  leb, length, get_elem?, take, drop,
}

-- The machine's signed integers; no arithmetic of this file leaves their range.
pub data ℤ : Type 0 where
  pos : ℕ → ℤ
  negsuc : ℕ → ℤ

pub record Json : Type 1 where
  pub Value : Type 0
  pub null : Value
  pub array : List Value → Value
  -- The elements of an array, none for another value.
  pub as_array : Value → Option (List Value)
  -- The values of an object's fields, in its order, none for another value.
  pub as_object : Value → Option (List Value)
  -- A named field, none if there is none or the value is no object.
  pub field : Value → String → Option Value

pub data PathSegment : Type 0 where
  field : String → PathSegment
  index : ℤ → PathSegment
  slice : Option ℤ → Option ℤ → PathSegment
  wildcard : PathSegment
  union : List ℤ → PathSegment

pub record JsonPath : Type 0 where
  pub segments : List PathSegment

abbrev pub to_list : {A : Type 0} → Option A → List A
to_list none = []
to_list (some a) = a ∷ []

-- `start.unwrap_or(0)`, counted from the end if negative.
unfoldable pub slice_start : ℕ → Option ℤ → ℕ
slice_start len none = 0
slice_start len (some (pos n)) = n
slice_start len (some (negsuc n)) = len - (n + 1)

-- `end.unwrap_or(len)`, counted from the end if negative, at most the length.
unfoldable pub slice_end : ℕ → Option ℤ → ℕ
slice_end len none = len
slice_end len (some (pos n)) = min n len
slice_end len (some (negsuc n)) = len - (n + 1)

unfoldable pub index_array : {A : Type 0} → List A → ℤ → Option A
index_array arr (pos n) = get_elem? arr n
index_array arr (negsuc n) =
    if leb (n + 1) (length arr) then get_elem? arr (length arr - (n + 1)) else none

unfoldable pub slice_array : {A : Type 0} → List A → Option ℤ → Option ℤ → List A
slice_array arr start end =
    let s = slice_start (length arr) start in
    let e = slice_end (length arr) end in if leb e s then [] else take (e - s) (drop s arr)

module _ (J : Json) where
  unfoldable pub index_value : J.Value → ℤ → Option J.Value
  index_value val idx = elim (J.as_array val) [ none ↦ none | some arr ↦ index_array arr idx ]

  unfoldable pub slice_value : J.Value → Option ℤ → Option ℤ → List J.Value
  slice_value val start end = elim (J.as_array val) [
    | none ↦ []
    | some arr ↦ slice_array arr start end
  ]

  -- The loop over the indices of a union.
  unfoldable pub union_value : J.Value → List ℤ → List J.Value
  union_value val [] = []
  union_value val (idx ∷ rest) = to_list (index_value val idx) ++ union_value val rest

  -- What one value adds to `next`.
  unfoldable pub step : PathSegment → J.Value → List J.Value
  step (field name) val = to_list (J.field val name)
  step (index idx) val = to_list (index_value val idx)
  step (slice start end) val = slice_value val start end
  step wildcard val = elim (J.as_array val) [
    | some arr ↦ arr
    | none ↦ elim (J.as_object val) [ some values ↦ values | none ↦ [] ]
  ]
  step (union indices) val = union_value val indices

  -- The inner loop: `next` is filled from each value of `current`.
  unfoldable pub step_all : PathSegment → List J.Value → List J.Value
  step_all segment [] = []
  step_all segment (val ∷ current) = step segment val ++ step_all segment current

  -- The outer loop over the segments.
  unfoldable pub walk : List PathSegment → List J.Value → List J.Value
  walk [] current = current
  walk (segment ∷ rest) current = walk rest (step_all segment current)

  unfoldable pub answer : List J.Value → J.Value
  answer [] = J.null
  answer (single ∷ []) = single
  answer (a ∷ b ∷ rest) = J.array (a ∷ b ∷ rest)

  unfoldable pub execute : JsonPath → J.Value → J.Value
  execute path root = answer (walk path.segments (root ∷ []))
