-- ===== src/JsonPath/Parser.antt =====
-- The parser of crates/post-cortex-memory/src/jsonpath.rs. It reads bytes and stops only at ASCII
-- ones, so it is read here by characters, with positions in bytes. A message is a constructor that
-- holds what the source formats into its text.
use Prim.Native.Char.{Char, code}
use Prim.Native.String.{◌++◌ as str_append}
use post_cortex.Base.{
  ℕ, zero, suc, ◌+◌, ◌-◌, ◌/◌, Option, none, some, List, [], ◌∷◌, String, if◌then◌else◌, eqb, ltb,
}
use post_cortex.Base.Keys.{string_eq}
use post_cortex.JsonPath.{
  ℤ, PathSegment, field, index, slice, wildcard, union, JsonPath, Json, execute,
}
use post_cortex.Session.Active.Truncation.{bytes}
unfoldable pub use post_cortex.JsonPath.Texts.{
  is_digit, is_field_char, is_whitespace, contains, ends_with, trim_start, trim_end, trim, split,
  digits, unsigned, parse_isize,
}
pub use post_cortex.JsonPath.Texts.{is_empty, starts_with, tail, onto_first, negative}

pub data Message : Type 0 where
  must_start_with_dollar : Message
  recursive_descent : Message
  expected_field_name : Message
  function_call : String → Message
  filter_expression : Message
  unexpected_character : ℕ → Message
  expected_after : ℕ → String → Message
  slice_step : Message
  expected_integer : String → Message

pub record ParseError : Type 0 where
  pub byte_offset : ℕ
  pub message : Message

pub data Parsed (A : Type 0) : Type 0 where
  ok : A → Parsed A
  err : ParseError → Parsed A

-- The operator `?`.
abbrev pub and_then : {A B : Type 0} → Parsed A → (A → Parsed B) → Parsed B
and_then (ok a) f = f a
and_then (err e) f = err e

abbrev pub fail : {A : Type 0} → ℕ → Message → Parsed A
fail offset message = err (record { byte_offset = offset; message = message })

unfoldable pub parse_int : ℕ → String → Parsed ℤ
parse_int offset s = elim (parse_isize s) [
  | none ↦ fail offset (expected_integer s)
  | some i ↦ ok i
]

-- A bound of a slice: absent if there is nothing but white space.
unfoldable pub parse_bound : ℕ → String → Parsed (Option ℤ)
parse_bound offset part =
    if is_empty (trim part)
    then ok none
    else and_then (parse_int offset (trim part)) (λ i. ok (some i))

-- The parts at the colons, of which there are two or more.
unfoldable pub parse_slice : ℕ → List String → Parsed PathSegment
parse_slice offset [] = fail offset slice_step
parse_slice offset (start ∷ []) = fail offset slice_step
parse_slice offset (start ∷ end ∷ []) =
    and_then (parse_bound offset start)
      (λ s. and_then (parse_bound offset end) (λ e. ok (slice s e)))
parse_slice offset (start ∷ end ∷ step ∷ more) = fail offset slice_step

unfoldable pub parse_indices : ℕ → List String → Parsed (List ℤ)
parse_indices offset [] = ok []
parse_indices offset (part ∷ parts) =
    and_then (parse_int offset (trim part))
      (λ i. and_then (parse_indices offset parts) (λ indices. ok (i ∷ indices)))

unfoldable pub parse_trimmed : ℕ → String → Parsed PathSegment
parse_trimmed offset content =
    if ends_with "()" content
    then fail offset (function_call content)
    else if contains b':' content
    then parse_slice offset (split b':' content)
    else if contains b',' content
    then and_then (parse_indices offset (split b',' content)) (λ indices. ok (union indices))
    else and_then (parse_int offset content) (λ i. ok (index i))

unfoldable pub parse_bracket_content : ℕ → String → Parsed PathSegment
parse_bracket_content offset content = parse_trimmed offset (trim content)

-- The longest run of field characters, and what follows it.
unfoldable pub take_field : String → String × String
take_field String.[] = (String.[], String.[])
take_field (String.◌∷◌ c s) =
    let rest = take_field s in
    if is_field_char (code c) then (String.◌∷◌ c rest.0, rest.1) else (String.[], String.◌∷◌ c s)

-- The content up to the bracket that closes it, before trimming, and what follows.
unfoldable pub read_bracket_content : ℕ → String → String × String
read_bracket_content depth String.[] = (String.[], String.[])
read_bracket_content depth (String.◌∷◌ c s) =
    let inside =
      if eqb (code c) b']' then depth - 1 else if eqb (code c) b'[' then depth + 1 else depth in
    let more = read_bracket_content inside s in
    if eqb inside 0 then (String.[], String.◌∷◌ c s) else (String.◌∷◌ c more.0, more.1)

-- Where the reading stands: the byte position and the text from there.
pub record Reading : Type 0 where
  pub position : ℕ
  pub rest : String

unfoldable pub expect_byte : ℕ → Reading → String → Parsed Reading
expect_byte expected r context =
    if starts_with expected r.rest
    then ok (record { position = r.position + 1; rest = tail r.rest })
    else fail r.position (expected_after expected context)

-- After a dot.
unfoldable pub parse_dot : Reading → Parsed (PathSegment × Reading)
parse_dot r =
    if starts_with b'.' r.rest
    then fail (r.position - 1) recursive_descent
    else if starts_with b'*' r.rest
    then ok (wildcard, record { position = r.position + 1; rest = tail r.rest })
    else (let (name, rest) = take_field r.rest in
        if is_empty name
        then fail r.position expected_field_name
        else if starts_with b'(' rest
        then fail r.position (function_call (str_append name "()"))
        else ok (field name, record { position = r.position + bytes name; rest = rest }))

-- After an opening bracket.
unfoldable pub parse_bracket : Reading → Parsed (PathSegment × Reading)
parse_bracket r =
    if starts_with b'?' r.rest
    then fail (r.position - 1) filter_expression
    else if starts_with b'*' r.rest
    then and_then (expect_byte b']' (record { position = r.position + 1; rest = tail r.rest }) "*")
        (λ after. ok (wildcard, after))
    else (let (content, rest) = read_bracket_content 1 r.rest in
        and_then
          (expect_byte b']' (record { position = r.position + bytes content; rest = rest })
            (trim content))
          (λ after.
            and_then (parse_bracket_content r.position (trim content))
              (λ segment. ok (segment, after))))

-- The first byte of a character's UTF-8.
unfoldable pub lead_byte : ℕ → ℕ
lead_byte c =
    if ltb c 128
    then c
    else if ltb c 2048
    then 192 + c / 64
    else if ltb c 65536
    then 224 + c / 4096
    else 240 + c / 262144

unfoldable pub parse_segment : ℕ → Char → String → Parsed (PathSegment × Reading)
parse_segment position c rest =
    let after : Reading = record { position = position + 1; rest = rest } in
    if eqb (code c) b'.'
    then parse_dot after
    else if eqb (code c) b'['
    then parse_bracket after
    else fail position (unexpected_character (lead_byte (code c)))

-- The loop over the segments. Each takes a character or more, so as many turns as there are
-- characters are enough; none is a loop that is not over by then.
unfoldable pub parse_segments : ℕ → ℕ → String → Option (Parsed (List PathSegment))
parse_segments fuel position String.[] = some (ok [])
parse_segments zero position (String.◌∷◌ c s) = none
parse_segments (suc fuel) position (String.◌∷◌ c s) = elim (parse_segment position c s) [
  | err e ↦ some (err e)
  | ok step ↦ elim (parse_segments fuel step.1.position step.1.rest) [
    | none ↦ none
    | some (err e) ↦ some (err e)
    | some (ok segments) ↦ some (ok (step.0 ∷ segments))
  ]
]

unfoldable pub count : String → ℕ
count String.[] = 0
count (String.◌∷◌ c s) = suc (count s)

unfoldable pub parse : String → Option (Parsed JsonPath)
parse input =
    if starts_with b'$' input
    then elim (parse_segments (count input) 1 (tail input)) [
      | none ↦ none
      | some (err e) ↦ some (err e)
      | some (ok segments) ↦ some (ok (record { segments = segments }))
    ]
    else some (fail 0 must_start_with_dollar)

module _ (J : Json) (object : List (String × J.Value) → J.Value) where
  -- The loop over the entries of the map, in the order in which it gives them.
  unfoldable pub select_all :
      List (String × String) → J.Value → Option (Parsed (List (String × J.Value)))
  select_all [] response = some (ok [])
  select_all ((key, expr) ∷ more) response = elim (parse expr) [
    | none ↦ none
    | some (err e) ↦ some (err e)
    | some (ok path) ↦ elim (select_all more response) [
      | none ↦ none
      | some (err e) ↦ some (err e)
      | some (ok values) ↦ some (ok ((key, execute J path response) ∷ values))
    ]
  ]

  unfoldable pub apply_select :
      J.Value → Option String → Option (List (String × String)) → Option (Parsed J.Value)
  apply_select response (some expr) select_map = elim (parse expr) [
    | none ↦ none
    | some (err e) ↦ some (err e)
    | some (ok path) ↦ some (ok (execute J path response))
  ]
  apply_select response none (some entries) = elim (select_all entries response) [
    | none ↦ none
    | some (err e) ↦ some (err e)
    | some (ok values) ↦ some (ok (object values))
  ]
  apply_select response none none = some (ok response)
