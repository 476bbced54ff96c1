-- ===== src/JsonPath/Allowed.antt =====
-- The segments that the parser accepts, and whole paths.
use Prim.Native.Char.{Char, code}
use post_cortex.Base.{
  ℕ, zero, suc, ◌+◌, ◌-◌, ◌≡◌, refl, Bool, true, false, ◌&&◌, Option, none, some, List, ◌∷◌, String,
  if◌then◌else◌, eqb, arith, inl, inr, Bool-cases,
}
use post_cortex.JsonPath.{PathSegment, wildcard, JsonPath}
use post_cortex.JsonPath.Parser.{
  Parsed, ok, err, Reading, and_then, starts_with, tail, is_empty, is_digit, is_field_char,
  is_whitespace, take_field, read_bracket_content, expect_byte, trim, parse_dot, parse_bracket,
  parse_bracket_content, parse_segment, parse_segments, count, parse,
}
use post_cortex.JsonPath.Accepted.{
  is_path_char, is_path_text, is_ok, field_char_in_path, trim-is_path_text,
  parse_trimmed-is_path_text,
}
use post_cortex.Session.Active.Truncation.{bytes}

-- Whether what is left after a segment is text of a path; an error leaves none.
abbrev allowed : {A : Type 0} → Parsed (A × Reading) → Bool
allowed (ok step) = is_path_text step.1.rest
allowed (err e) = false

abbrev allowed_after : Parsed Reading → Bool
allowed_after (ok r) = is_path_text r.rest
allowed_after (err e) = false

take_field-is_path_text :
    (s : String) → is_path_text (take_field s).1 ≡ true → is_path_text s ≡ true
unfolding take_field is_path_text
take_field-is_path_text String.[] h = refl
take_field-is_path_text (String.◌∷◌ c s) h = elim (Bool-cases (is_field_char (code c))) [
  | inl more ↦
      rw (field_char_in_path (code c) more) (take_field-is_path_text s (rw (more, take_field) at h))
  | inr stop ↦ rw (stop, take_field) at h
]

read_bracket_content-is_path_text :
    (depth : ℕ) (s : String)
    → is_path_text (read_bracket_content depth s).0 ≡ true
    → is_path_text (read_bracket_content depth s).1 ≡ true
    → is_path_text s ≡ true
unfolding read_bracket_content is_path_text
read_bracket_content-is_path_text depth String.[] h k = refl
read_bracket_content-is_path_text depth (String.◌∷◌ c s) h k =
    let inside =
      if eqb (code c) b']' then depth - 1 else if eqb (code c) b'[' then depth + 1 else depth in
    elim (Bool-cases (eqb inside 0)) [
      | inl closed ↦ rw (closed, read_bracket_content) at k
      | inr open_still ↦
          let content = rw (open_still, read_bracket_content) at h in
          let rest =
            read_bracket_content-is_path_text inside s (ground (arith, content))
              (rw (open_still, read_bracket_content) at k) in
          ground (arith, content, rest)
    ]

-- A byte that is expected and allowed.
starts_with-is_path_text :
    (b : ℕ) (s : String)
    → is_path_char b ≡ true
    → starts_with b s ≡ true
    → is_path_text (tail s) ≡ true
    → is_path_text s ≡ true
unfolding is_path_text
starts_with-is_path_text b String.[] sep h k = refl
starts_with-is_path_text b (String.◌∷◌ c s) sep h k =
    let same : code c ≡ b = ground (arith, h) in rw (same, sep) k

expect_byte-is_path_text :
    (b : ℕ) (r : Reading) (context : String)
    → is_path_char b ≡ true
    → allowed_after (expect_byte b r context) ≡ true
    → is_path_text r.rest ≡ true
unfolding expect_byte
expect_byte-is_path_text b r context sep h = elim (Bool-cases (starts_with b r.rest)) [
  | inl there ↦ starts_with-is_path_text b r.rest sep there (rw (there, expect_byte) at h)
  | inr missing ↦ ground (arith, h, missing)
]

refuted : (b : Bool) → false ≡ true → b ≡ true
refuted b h = cc

parse_dot-is_path_text : (r : Reading) → allowed (parse_dot r) ≡ true → is_path_text r.rest ≡ true
unfolding parse_dot is_path_char is_field_char is_digit is_whitespace
parse_dot-is_path_text r h = elim (Bool-cases (starts_with b'.' r.rest)) [
  | inl dots ↦ refuted (is_path_text r.rest) (rw (dots, parse_dot) at h)
  | inr other ↦ elim (Bool-cases (starts_with b'*' r.rest)) [
    | inl star ↦ starts_with-is_path_text b'*' r.rest refl star (rw (other, parse_dot, star) at h)
    | inr named ↦ elim (Bool-cases (is_empty (take_field r.rest).0)) [
      | inl missing ↦ refuted (is_path_text r.rest) (rw (other, parse_dot, named, missing) at h)
      | inr present ↦ elim (Bool-cases (starts_with b'(' (take_field r.rest).1)) [
        | inl call ↦
            refuted (is_path_text r.rest) (rw (other, parse_dot, named, present, call) at h)
        | inr plain ↦
            take_field-is_path_text r.rest (rw (other, parse_dot, named, present, plain) at h)
      ]
    ]
  ]
]

allowed-wildcard :
    (p : Parsed Reading)
    → allowed (and_then p (λ after. ok (wildcard, after))) ≡ true
    → allowed_after p ≡ true
allowed-wildcard (ok r) h = h
allowed-wildcard (err e) h = h

allowed-and_then :
    {A : Type 0} (p : Parsed Reading) (q : Parsed A)
    → allowed (and_then p (λ after. and_then q (λ a. ok (a, after)))) ≡ true
    → (allowed_after p ≡ true) × (is_ok q ≡ true)
allowed-and_then (ok r) (ok a) h = (h, refl)
allowed-and_then (ok r) (err e) h = cc
allowed-and_then (err d) q h = cc

parse_bracket-is_path_text :
    (r : Reading) → allowed (parse_bracket r) ≡ true → is_path_text r.rest ≡ true
unfolding parse_bracket parse_bracket_content is_path_char is_field_char is_digit is_whitespace
parse_bracket-is_path_text r h =
    let (content, rest) = read_bracket_content 1 r.rest in
    let after_star : Reading = record { position = r.position + 1; rest = tail r.rest } in
    let after_content : Reading = record { position = r.position + bytes content; rest = rest } in
    elim (Bool-cases (starts_with b'?' r.rest)) [
      | inl filter ↦ refuted (is_path_text r.rest) (rw (filter, parse_bracket) at h)
      | inr other ↦ elim (Bool-cases (starts_with b'*' r.rest)) [
        | inl star ↦
            let closed =
              allowed-wildcard (expect_byte b']' after_star "*")
                (rw (other, parse_bracket, star) at h) in
            starts_with-is_path_text b'*' r.rest refl star
              (expect_byte-is_path_text b']' after_star "*" refl closed)
        | inr inner ↦
            let parts =
              allowed-and_then (expect_byte b']' after_content (trim content))
                (parse_bracket_content r.position (trim content))
                (rw (other, parse_bracket, inner) at h) in
            read_bracket_content-is_path_text 1 r.rest
              (trim-is_path_text content (
                trim-is_path_text (trim content)
                  (parse_trimmed-is_path_text r.position (trim (trim content)) parts.1)))
              (expect_byte-is_path_text b']' after_content (trim content) refl parts.0)
      ]
    ]

parse_segment-is_path_text :
    (position : ℕ) (c : Char) (rest : String)
    → allowed (parse_segment position c rest) ≡ true
    → is_path_text (String.◌∷◌ c rest) ≡ true
unfolding parse_segment is_path_text is_path_char is_field_char is_digit is_whitespace
parse_segment-is_path_text position c rest h =
    let after : Reading = record { position = position + 1; rest = rest } in
    let text = String.◌∷◌ c rest in
    elim (Bool-cases (eqb (code c) b'.')) [
      | inl dot ↦
          starts_with-is_path_text b'.' text refl dot
            (parse_dot-is_path_text after (rw (dot, parse_segment) at h))
      | inr other ↦ elim (Bool-cases (eqb (code c) b'[')) [
        | inl bracket ↦
            starts_with-is_path_text b'[' text refl bracket
              (parse_bracket-is_path_text after (rw (other, parse_segment, bracket) at h))
        | inr unexpected ↦ refuted (is_path_text text) (rw (other, parse_segment, unexpected) at h)
      ]
    ]

-- Whether a run of the parser ends in a path.
abbrev accepted : {A : Type 0} → Option (Parsed A) → Bool
accepted none = false
accepted (some (err e)) = false
accepted (some (ok a)) = true

accepted-pushed :
    {A B : Type 0} (o : Option (Parsed A)) (f : A → B)
    → accepted (elim o as (λ o. Option (Parsed B)) [
      | none ↦ none
      | some (err e) ↦ some (err e)
      | some (ok a) ↦ some (ok (f a))
    ])
      ≡ true
    → accepted o ≡ true
accepted-pushed none f h = h
accepted-pushed (some (err e)) f h = h
accepted-pushed (some (ok a)) f h = refl

turn-allowed :
    (p : Parsed (PathSegment × Reading)) (next : Reading → Option (Parsed (List PathSegment)))
    → ((r : Reading) → accepted (next r) ≡ true → is_path_text r.rest ≡ true)
    → accepted (elim p as (λ p. Option (Parsed (List PathSegment))) [
      | err e ↦ some (err e)
      | ok step ↦ elim (next step.1) as (λ o. Option (Parsed (List PathSegment))) [
        | none ↦ none
        | some (err e) ↦ some (err e)
        | some (ok segments) ↦ some (ok (step.0 ∷ segments))
      ]
    ])
      ≡ true
    → allowed p ≡ true
turn-allowed (err e) next rest h = h
turn-allowed (ok step) next rest h =
    rest step.1 (accepted-pushed (next step.1) (λ segments. step.0 ∷ segments) h)

parse_segments-is_path_text :
    (fuel position : ℕ) (s : String)
    → accepted (parse_segments fuel position s) ≡ true
    → is_path_text s ≡ true
unfolding parse_segments is_path_text
parse_segments-is_path_text fuel position String.[] h = refl
parse_segments-is_path_text zero position (String.◌∷◌ c s) h = cc
parse_segments-is_path_text (suc fuel) position (String.◌∷◌ c s) h =
    parse_segment-is_path_text position c s (
      turn-allowed (parse_segment position c s) (λ r. parse_segments fuel r.position r.rest)
        (λ r k. parse_segments-is_path_text fuel r.position r.rest k) h)

-- A text that is read as a path has, after its dollar sign, characters of field names, digits,
-- white space and `.[]*:,+-` only. So no filter, no function call, no script and no quoted name
-- is accepted anywhere in a path.
pub parse-is_path_text :
    (input : String) (path : JsonPath)
    → parse input ≡ some (ok path)
    → (starts_with b'$' input && is_path_text (tail input)) ≡ true
unfolding parse
parse-is_path_text input path h = elim (Bool-cases (starts_with b'$' input)) [
  | inl dollar ↦
      let done : accepted (parse input) ≡ true = rw h refl in
      rw
        (
          dollar,
          (parse_segments-is_path_text (count input) 1 (tail input) (
              accepted-pushed (parse_segments (count input) 1 (tail input))
                (λ segments. record { segments = segments }) (rw (dollar, parse) at done))),
        )
        refl
  | inr other ↦
      let done : accepted (parse input) ≡ true = rw h refl in
      refuted (starts_with b'$' input && is_path_text (tail input)) (rw (other, parse) at done)
]
