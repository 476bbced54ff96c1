-- ===== src/JsonPath/Accepted.antt =====
-- What the parser accepts has the characters of paths only.
use Prim.Native.Char.{Char, code}
use post_cortex.Base.{
  ℕ, ◌+◌, ◌-◌, ◌*◌, ◌^◌, ◌≡◌, refl, Bool, true, false, ◌&&◌, ◌||◌, Option, none, some, List, [],
  ◌∷◌, String, if◌then◌else◌, eqb, leb, ltb, is_some, arith, inl, inr, Bool-cases, Option-cases,
}
use post_cortex.JsonPath.{ℤ, pos, slice, union, index}
use post_cortex.JsonPath.Parser.{
  Parsed, ok, err, and_then, is_empty, is_digit, is_field_char, is_whitespace, negative, digits,
  unsigned, parse_isize, parse_int, parse_bound, parse_slice, parse_indices, parse_trimmed,
  contains, ends_with, onto_first, split, trim_start, trim_end, trim,
}

-- The characters of names and numbers, white space and `.[]*:,+-`.
unfoldable pub is_path_char : ℕ → Bool
is_path_char b =
    is_field_char b
    || is_whitespace b
    || eqb b b'.'
    || eqb b b'['
    || eqb b b']'
    || eqb b b'*'
    || eqb b b':'
    || eqb b b','
    || eqb b b'+'
    || eqb b b'-'

unfoldable pub is_path_text : String → Bool
is_path_text String.[] = true
is_path_text (String.◌∷◌ c s) = is_path_char (code c) && is_path_text s

all_parts : List String → Bool
all_parts [] = true
all_parts (part ∷ parts) = is_path_text part && all_parts parts

abbrev pub is_ok : {A : Type 0} → Parsed A → Bool
is_ok (ok a) = true
is_ok (err e) = false

digit_in_path : (b : ℕ) → is_digit b ≡ true → is_path_char b ≡ true
unfolding is_path_char is_field_char is_digit
digit_in_path b h = ground (arith, h)

pub field_char_in_path : (b : ℕ) → is_field_char b ≡ true → is_path_char b ≡ true
unfolding is_path_char
field_char_in_path b h = rw h refl

whitespace_in_path : (b : ℕ) → is_whitespace b ≡ true → is_path_char b ≡ true
unfolding is_path_char
whitespace_in_path b h = ground (arith, h)

-- Numbers.
digits-is_path_text : (n : ℕ) (s : String) → is_some (digits n s) ≡ true → is_path_text s ≡ true
unfolding digits is_path_text
digits-is_path_text n String.[] h = refl
digits-is_path_text n (String.◌∷◌ c s) h = elim (Bool-cases (is_digit (code c))) [
  | inl digit ↦
      let rest = digits-is_path_text (n * 10 + (code c - b'0')) s (rw (digit, digits) at h) in
      rw (digit_in_path (code c) digit) rest
  | inr other ↦ ground (arith, other, h)
]

unsigned-is_path_text : (s : String) → is_some (unsigned s) ≡ true → is_path_text s ≡ true
unfolding unsigned
unsigned-is_path_text String.[] h = cc
unsigned-is_path_text (String.◌∷◌ c s) h = digits-is_path_text 0 (String.◌∷◌ c s) h

-- White space at the ends.
trim_start-is_path_text : (s : String) → is_path_text (trim_start s) ≡ true → is_path_text s ≡ true
unfolding trim_start is_path_text
trim_start-is_path_text String.[] h = refl
trim_start-is_path_text (String.◌∷◌ c s) h = elim (Bool-cases (is_whitespace (code c))) [
  | inl space ↦
      rw (whitespace_in_path (code c) space)
        (trim_start-is_path_text s (rw (space, trim_start) at h))
  | inr other ↦ rw (other, trim_start) at h
]

empty-is_path_text : (s : String) → is_empty s ≡ true → is_path_text s ≡ true
unfolding is_path_text
empty-is_path_text String.[] h = refl
empty-is_path_text (String.◌∷◌ c s) h = cc

trim_end-is_path_text : (s : String) → is_path_text (trim_end s) ≡ true → is_path_text s ≡ true
unfolding trim_end is_path_text
trim_end-is_path_text String.[] h = refl
trim_end-is_path_text (String.◌∷◌ c s) h =
    elim (Bool-cases (is_empty (trim_end s) && is_whitespace (code c))) [
      | inl blank ↦
          let nothing : is_path_text (trim_end s) ≡ true =
            empty-is_path_text (trim_end s) (ground (arith, blank)) in
          rw (whitespace_in_path (code c) (ground (arith, blank))) (trim_end-is_path_text s nothing)
      | inr kept ↦
          let both = rw (kept, trim_end) at h in
          ground (arith, both, trim_end-is_path_text s (ground (arith, both)))
    ]

pub trim-is_path_text : (s : String) → is_path_text (trim s) ≡ true → is_path_text s ≡ true
unfolding trim
trim-is_path_text s h = trim_start-is_path_text s (trim_end-is_path_text (trim_start s) h)

-- The parts between separators.
onto_first-all_parts :
    (c : Char) (parts : List String)
    → all_parts (onto_first c parts) ≡ true
    → (is_path_char (code c) && all_parts parts) ≡ true
unfolding all_parts is_path_text
onto_first-all_parts c [] h = ground (arith, h)
onto_first-all_parts c (part ∷ parts) h = ground (arith, h)

split-is_path_text :
    (b : ℕ) (s : String)
    → is_path_char b ≡ true
    → all_parts (split b s) ≡ true
    → is_path_text s ≡ true
unfolding split is_path_text all_parts
split-is_path_text b String.[] sep h = refl
split-is_path_text b (String.◌∷◌ c s) sep h = elim (Bool-cases (eqb (code c) b)) [
  | inl here ↦
      let rest = split-is_path_text b s sep (rw (here, split) at h) in
      let same : code c ≡ b = ground (arith, here) in rw (same, sep) rest
  | inr other ↦
      let first = onto_first-all_parts c (split b s) (rw (other, split) at h) in
      let rest = split-is_path_text b s sep (ground (arith, first)) in ground (arith, first, rest)
]

-- What is read as an integer, a slice or a union.
pub and_then-is_ok :
    {A B : Type 0} (p : Parsed A) (f : A → Parsed B) → is_ok (and_then p f) ≡ true → is_ok p ≡ true
and_then-is_ok (ok a) f h = refl
and_then-is_ok (err e) f h = h

pub both-is_ok :
    {A B C : Type 0} (p : Parsed A) (q : Parsed B) (f : A → B → C)
    → is_ok (and_then p (λ a. and_then q (λ b. ok (f a b)))) ≡ true
    → (is_ok p ≡ true) × (is_ok q ≡ true)
both-is_ok (ok a) (ok b) f h = (refl, refl)
both-is_ok (ok a) (err e) f h = cc
both-is_ok (err e) q f h = cc

in_range-is_some :
    (o : Option ℕ) (fits : ℕ → Bool) (f : ℕ → ℤ)
    → is_some
        (elim o as (λ o. Option ℤ) [ none ↦ none | some n ↦ if fits n then some (f n) else none ])
      ≡ true
    → is_some o ≡ true
in_range-is_some none fits f h = h
in_range-is_some (some n) fits f h = refl

sign_in_path : (b : ℕ) → (eqb b b'-' || eqb b b'+') ≡ true → is_path_char b ≡ true
unfolding is_path_char
sign_in_path b h = ground (arith, h)

parse_isize-is_path_text : (s : String) → is_some (parse_isize s) ≡ true → is_path_text s ≡ true
unfolding parse_isize is_path_text
parse_isize-is_path_text String.[] h = refl
parse_isize-is_path_text (String.◌∷◌ c s) h = elim (Bool-cases (eqb (code c) b'-')) [
  | inl minus ↦
      let read =
        in_range-is_some (unsigned s) (λ n. leb n (2 ^ 63)) negative
          (rw (minus, parse_isize) at h) in
      rw (sign_in_path (code c) (ground (arith, minus))) (unsigned-is_path_text s read)
  | inr other ↦ elim (Bool-cases (eqb (code c) b'+')) [
    | inl plus ↦
        let read =
          in_range-is_some (unsigned s) (λ n. ltb n (2 ^ 63)) pos
            (rw (other, parse_isize, plus) at h) in
        rw (sign_in_path (code c) (ground (arith, plus))) (unsigned-is_path_text s read)
    | inr digit ↦ unsigned-is_path_text (String.◌∷◌ c s) (
        in_range-is_some (unsigned (String.◌∷◌ c s)) (λ n. ltb n (2 ^ 63)) pos
          (rw (other, parse_isize, digit) at h))
  ]
]

parse_int-is_path_text :
    (offset : ℕ) (s : String) → is_ok (parse_int offset s) ≡ true → is_path_text s ≡ true
unfolding parse_int
parse_int-is_path_text offset s h = elim (Option-cases (parse_isize s)) [
  | inl bad ↦ ground (arith, h, bad)
  | inr (i, good) ↦ parse_isize-is_path_text s (rw good refl)
]

parse_bound-is_path_text :
    (offset : ℕ) (s : String) → is_ok (parse_bound offset s) ≡ true → is_path_text s ≡ true
unfolding parse_bound
parse_bound-is_path_text offset s h = elim (Bool-cases (is_empty (trim s))) [
  | inl blank ↦ trim-is_path_text s (empty-is_path_text (trim s) blank)
  | inr present ↦ trim-is_path_text s (
      parse_int-is_path_text offset (trim s) (
        and_then-is_ok (parse_int offset (trim s)) (λ i. ok (some i))
          (rw (present, parse_bound) at h)))
]

parse_slice-is_path_text :
    (offset : ℕ) (parts : List String)
    → is_ok (parse_slice offset parts) ≡ true
    → all_parts parts ≡ true
unfolding parse_slice all_parts
parse_slice-is_path_text offset [] h = refl
parse_slice-is_path_text offset (start ∷ []) h = cc
parse_slice-is_path_text offset (start ∷ end ∷ step ∷ more) h = cc
parse_slice-is_path_text offset (start ∷ end ∷ []) h =
    let bounds =
      both-is_ok (parse_bound offset start) (parse_bound offset end) (λ s e. slice s e) h in
    rw
      (parse_bound-is_path_text offset start bounds.0, parse_bound-is_path_text offset end bounds.1)
      refl

parse_indices-is_path_text :
    (offset : ℕ) (parts : List String)
    → is_ok (parse_indices offset parts) ≡ true
    → all_parts parts ≡ true
unfolding parse_indices all_parts
parse_indices-is_path_text offset [] h = refl
parse_indices-is_path_text offset (part ∷ parts) h =
    let reads =
      both-is_ok (parse_int offset (trim part)) (parse_indices offset parts) (λ i is. i ∷ is) h in
    rw
      (
        trim-is_path_text part (parse_int-is_path_text offset (trim part) reads.0),
        parse_indices-is_path_text offset parts reads.1,
      )
      refl

pub parse_trimmed-is_path_text :
    (offset : ℕ) (content : String)
    → is_ok (parse_trimmed offset content) ≡ true
    → is_path_text content ≡ true
unfolding parse_trimmed is_path_char is_field_char is_digit is_whitespace
parse_trimmed-is_path_text offset content h = elim (Bool-cases (ends_with "()" content)) [
  | inl call ↦ ground (arith, h, call)
  | inr plain ↦ elim (Bool-cases (contains b':' content)) [
    | inl colon ↦ split-is_path_text b':' content refl (
        parse_slice-is_path_text offset (split b':' content)
          (rw (plain, parse_trimmed, colon) at h))
    | inr no_colon ↦ elim (Bool-cases (contains b',' content)) [
      | inl comma ↦ split-is_path_text b',' content refl (
          parse_indices-is_path_text offset (split b',' content) (
            and_then-is_ok (parse_indices offset (split b',' content))
              (λ indices. ok (union indices)) (rw (plain, parse_trimmed, no_colon, comma) at h)))
      | inr no_comma ↦ parse_int-is_path_text offset content (
          and_then-is_ok (parse_int offset content) (λ i. ok (index i))
            (rw (plain, parse_trimmed, no_colon, no_comma) at h))
    ]
  ]
]
