-- ===== src/JsonPath/Termination.antt =====
-- The parser comes to an end: each segment takes a character or more.
use Prim.Native.Char.{Char, code}
use post_cortex.Base.{
  ℕ, zero, suc, ◌+◌, ◌-◌, ◌≤◌, ◌≡◌, refl, true, Option, none, some, List, [], ◌∷◌, String,
  if◌then◌else◌, eqb, is_some, arith, inl, inr, Bool-cases,
}
use post_cortex.JsonPath.{PathSegment, wildcard, Json, execute}
use post_cortex.Session.Active.Truncation.{bytes}
use post_cortex.JsonPath.Parser.{
  Parsed, ok, err, Reading, and_then, starts_with, tail, is_empty, is_field_char, take_field,
  read_bracket_content, expect_byte, parse_dot, parse_bracket, parse_bracket_content, trim,
  parse_segment, parse_segments, count, parse, select_all, apply_select,
}

take_field-count : (s : String) → count (take_field s).0 + count (take_field s).1 ≡ count s
unfolding take_field count
take_field-count String.[] = refl
take_field-count (String.◌∷◌ c s) = elim (Bool-cases (is_field_char (code c))) [
  | inl more ↦ rw more (omega (arith, take_field-count s))
  | inr stop ↦ rw stop (omega arith)
]

read_bracket_content-count :
    (depth : ℕ) (s : String)
    → count (read_bracket_content depth s).0 + count (read_bracket_content depth s).1 ≡ count s
unfolding read_bracket_content count
read_bracket_content-count depth String.[] = refl
read_bracket_content-count depth (String.◌∷◌ c s) =
    let inside =
      if eqb (code c) b']' then depth - 1 else if eqb (code c) b'[' then depth + 1 else depth in
    let rest = read_bracket_content-count inside s in
    elim (Bool-cases (eqb inside 0)) [
      | inl closed ↦ rw (closed, read_bracket_content) (omega arith)
      | inr open_still ↦ rw (open_still, read_bracket_content) (omega (arith, rest))
    ]

-- The characters that are left, none after an error.
abbrev left : {A : Type 0} → Parsed (A × Reading) → ℕ
left (ok step) = count step.1.rest
left (err e) = 0

abbrev left_after : Parsed Reading → ℕ
left_after (ok r) = count r.rest
left_after (err e) = 0

count-tail : (s : String) → count (tail s) ≤ count s
unfolding count
count-tail String.[] = omega arith
count-tail (String.◌∷◌ c s) = omega arith

left-expect_byte :
    (b : ℕ) (r : Reading) (context : String) → left_after (expect_byte b r context) ≤ count r.rest
unfolding expect_byte
left-expect_byte b r context = elim (Bool-cases (starts_with b r.rest)) [
  | inl there ↦ rw (there, expect_byte) (count-tail r.rest)
  | inr missing ↦ rw (missing, expect_byte) (omega arith)
]

left-parse_dot : (r : Reading) → left (parse_dot r) ≤ count r.rest
unfolding parse_dot
left-parse_dot r =
    let (name, rest) = take_field r.rest in
    let parts = take_field-count r.rest in
    elim (Bool-cases (starts_with b'.' r.rest)) [
      | inl dots ↦ rw (dots, parse_dot) (omega arith)
      | inr other ↦ elim (Bool-cases (starts_with b'*' r.rest)) [
        | inl star ↦ rw (other, parse_dot, star) (count-tail r.rest)
        | inr named ↦ elim (Bool-cases (is_empty (take_field r.rest).0)) [
          | inl missing ↦ rw (other, parse_dot, named, missing) (omega arith)
          | inr present ↦ elim (Bool-cases (starts_with b'(' (take_field r.rest).1)) [
            | inl call ↦ rw (other, parse_dot, named, present, call) (omega arith)
            | inr plain ↦ rw (other, parse_dot, named, present, plain) (omega (arith, parts))
          ]
        ]
      ]
    ]

left-and_then :
    {A B : Type 0} (p : Parsed Reading) (q : Parsed A) (f : A → B)
    → left (and_then p (λ after. and_then q (λ a. ok (f a, after)))) ≤ left_after p
left-and_then (ok r) (ok a) f = omega arith
left-and_then (ok r) (err e) f = omega arith
left-and_then (err d) q f = omega arith

left-wildcard :
    (p : Parsed Reading) → left (and_then p (λ after. ok (wildcard, after))) ≤ left_after p
left-wildcard (ok r) = omega arith
left-wildcard (err e) = omega arith

left-parse_bracket : (r : Reading) → left (parse_bracket r) ≤ count r.rest
unfolding parse_bracket
left-parse_bracket r =
    let (content, rest) = read_bracket_content 1 r.rest in
    let parts = read_bracket_content-count 1 r.rest in
    let after_star : Reading = record { position = r.position + 1; rest = tail r.rest } in
    let after_content : Reading = record { position = r.position + bytes content; rest = rest } in
    elim (Bool-cases (starts_with b'?' r.rest)) [
      | inl filter ↦ rw (filter, parse_bracket) (omega arith)
      | inr other ↦ elim (Bool-cases (starts_with b'*' r.rest)) [
        | inl star ↦
            let closed = left-expect_byte b']' after_star "*" in
            rw (other, parse_bracket, star)
              (omega
                (arith, left-wildcard (expect_byte b']' after_star "*"), closed, count-tail r.rest))
        | inr inner ↦
            let closed = left-expect_byte b']' after_content (trim content) in
            rw (other, parse_bracket, inner)
              (omega (
                arith,
                left-and_then (expect_byte b']' after_content (trim content))
                    (parse_bracket_content r.position (trim content)) (λ segment. segment),
                closed,
                parts,
              ))
      ]
    ]

left-parse_segment :
    (position : ℕ) (c : Char) (rest : String) → left (parse_segment position c rest) ≤ count rest
unfolding parse_segment
left-parse_segment position c rest =
    let after : Reading = record { position = position + 1; rest = rest } in
    elim (Bool-cases (eqb (code c) b'.')) [
      | inl dot ↦ rw (dot, parse_segment) (left-parse_dot after)
      | inr other ↦ elim (Bool-cases (eqb (code c) b'[')) [
        | inl bracket ↦ rw (other, parse_segment, bracket) (left-parse_bracket after)
        | inr unexpected ↦ rw (other, parse_segment, unexpected) (omega arith)
      ]
    ]

-- Going on after a result is as defined as the result.
pushed :
    {A B : Type 0} (o : Option (Parsed A)) (f : A → B)
    → is_some o ≡ true
    → is_some (elim o as (λ o. Option (Parsed B)) [
      | none ↦ none
      | some (err e) ↦ some (err e)
      | some (ok a) ↦ some (ok (f a))
    ])
      ≡ true
pushed none f h = cc
pushed (some (err e)) f h = refl
pushed (some (ok a)) f h = refl

-- A turn of the loop, whatever the turns after it do.
turn :
    (p : Parsed (PathSegment × Reading)) (n : ℕ)
    (next : Reading → Option (Parsed (List PathSegment)))
    → ((r : Reading) → count r.rest ≤ n → is_some (next r) ≡ true)
    → left p ≤ n
    → is_some (elim p as (λ p. Option (Parsed (List PathSegment))) [
      | err e ↦ some (err e)
      | ok step ↦ elim (next step.1) as (λ o. Option (Parsed (List PathSegment))) [
        | none ↦ none
        | some (err e) ↦ some (err e)
        | some (ok segments) ↦ some (ok (step.0 ∷ segments))
      ]
    ])
      ≡ true
turn (err e) n next ends less = refl
turn (ok step) n next ends less =
    pushed (next step.1) (λ segments. step.0 ∷ segments) (ends step.1 less)

parse_segments_enough :
    (fuel position : ℕ) (s : String)
    → count s ≤ fuel
    → is_some (parse_segments fuel position s) ≡ true
unfolding parse_segments count
parse_segments_enough fuel position String.[] h = refl
parse_segments_enough zero position (String.◌∷◌ c s) h = absurd (omega (arith, h))
parse_segments_enough (suc fuel) position (String.◌∷◌ c s) h =
    turn (parse_segment position c s) (count s) (λ r. parse_segments fuel r.position r.rest)
      (λ r less. parse_segments_enough fuel r.position r.rest (omega (arith, less, h)))
      (left-parse_segment position c s)

-- On every input there is a path or an error.
parse_ends : (input : String) → is_some (parse input) ≡ true
unfolding parse
parse_ends input = elim (Bool-cases (starts_with b'$' input)) [
  | inl dollar ↦
      rw (dollar, parse)
        (pushed (parse_segments (count input) 1 (tail input))
          (λ segments. record { segments = segments })
          (parse_segments_enough (count input) 1 (tail input) (count-tail input)))
  | inr other ↦ rw (other, parse) refl
]

selected :
    {A B C : Type 0} (o : Option (Parsed A)) (rest : Option (Parsed B)) (f : A → B → C)
    → is_some o ≡ true
    → is_some rest ≡ true
    → is_some (elim o as (λ o. Option (Parsed C)) [
      | none ↦ none
      | some (err e) ↦ some (err e)
      | some (ok a) ↦ elim rest as (λ o. Option (Parsed C)) [
        | none ↦ none
        | some (err e) ↦ some (err e)
        | some (ok b) ↦ some (ok (f a b))
      ]
    ])
      ≡ true
selected none rest f h k = cc
selected (some (err e)) rest f h k = refl
selected (some (ok a)) rest f h k = pushed rest (λ b. f a b) k

module _ (J : Json) (object : List (String × J.Value) → J.Value) where
  select_all_ends :
      (entries : List (String × String)) (response : J.Value)
      → is_some (select_all J object entries response) ≡ true
  unfolding select_all
  select_all_ends [] response = refl
  select_all_ends ((key, expr) ∷ more) response =
      selected (parse expr) (select_all J object more response)
        (λ path values. (key, execute J path response) ∷ values) (parse_ends expr)
        (select_all_ends more response)

  -- A `select` in either form comes to an end on every response, with a value or the error of one
  -- of its paths.
  pub apply_select_ends :
      (response : J.Value) (select_string : Option String)
      (select_map : Option (List (String × String)))
      → is_some (apply_select J object response select_string select_map) ≡ true
  unfolding apply_select
  apply_select_ends response (some expr) select_map =
      pushed (parse expr) (λ path. execute J path response) (parse_ends expr)
  apply_select_ends response none (some entries) =
      pushed (select_all J object entries response) object (select_all_ends entries response)
  apply_select_ends response none none = refl
