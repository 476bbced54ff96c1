-- ===== src/JsonPath/Contents.antt =====
-- What the parser's helpers make of the contents of brackets.
use Prim.Native.Char.{Char, code}
use Prim.Native.String.{◌++◌ as str_append}
use Prim.Native.String.append
use post_cortex.Base.{
  ℕ, ◌≡◌, refl, Bool, true, false, ◌&&◌, ◌||◌, [], ◌∷◌, String, eqb, ap, arith, inl, inr,
  Bool-cases,
}
use post_cortex.Base.Keys.{string_eq, ◌==◌, ==-iff}
use post_cortex.JsonPath.Parser.{
  is_digit, is_empty, is_whitespace, contains, ends_with, trim_start, trim_end, trim, split,
  read_bracket_content,
}
use post_cortex.JsonPath.Numerals.{is_number_char, is_number}

-- The characters between brackets.
unfoldable pub is_content_char : ℕ → Bool
is_content_char b = is_number_char b || eqb b b':' || eqb b b','

abbrev pub is_content : String → Bool
is_content String.[] = true
is_content (String.◌∷◌ c s) = is_content_char (code c) && is_content s

pub is_number-is_content : (s : String) → is_number s ≡ true → is_content s ≡ true
unfolding is_content_char
is_number-is_content String.[] h = refl
is_number-is_content (String.◌∷◌ c s) h =
    ground (arith, h, is_number-is_content s (ground (arith, h)))

pub append-is_content :
    (s t : String) → is_content s ≡ true → is_content t ≡ true → is_content (str_append s t) ≡ true
append-is_content String.[] t h k = rw (append.nil t) k
append-is_content (String.◌∷◌ c s) t h k =
    let rest = append-is_content s t (ground (arith, h)) k in
    rw (append.cons c s t) (ground (arith, h, rest))

pub read_bracket_content_lem :
    (t end : String)
    → is_content t ≡ true
    → read_bracket_content 1 (str_append t (String.◌∷◌ "]" end)) ≡ (t, String.◌∷◌ "]" end)
unfolding read_bracket_content is_content_char is_number_char is_digit
read_bracket_content_lem String.[] end h = rw (append.nil (String.◌∷◌ "]" end)) refl
read_bracket_content_lem (String.◌∷◌ c t) end h =
    let rest = read_bracket_content_lem t end (ground (arith, h)) in
    let closing : eqb (code c) b']' ≡ false = ground (arith, h) in
    let opening : eqb (code c) b'[' ≡ false = ground (arith, h) in
    rw (append.cons c t (String.◌∷◌ "]" end), read_bracket_content, closing, opening, rest) refl

trim_end_lem : (t : String) → is_content t ≡ true → trim_end t ≡ t
unfolding trim_end is_whitespace is_content_char is_number_char is_digit
trim_end_lem String.[] h = refl
trim_end_lem (String.◌∷◌ c t) h =
    let rest = trim_end_lem t (ground (arith, h)) in
    let solid : is_whitespace (code c) ≡ false = ground (arith, h) in
    let kept : (is_empty (trim_end t) && is_whitespace (code c)) ≡ false = ground (arith, solid) in
    rw (kept, trim_end) (ap (String.◌∷◌ c) rest)

trim_start_lem : (t : String) → is_content t ≡ true → trim_start t ≡ t
unfolding trim_start is_whitespace is_content_char is_number_char is_digit
trim_start_lem String.[] h = refl
trim_start_lem (String.◌∷◌ c t) h =
    let solid : is_whitespace (code c) ≡ false = ground (arith, h) in rw (solid, trim_start) refl

pub trim_lem : (t : String) → is_content t ≡ true → trim t ≡ t
unfolding trim
trim_lem t h = rw (trim_start_lem t h, trim_end_lem t h) refl

pub ends_with_lem : (t : String) → is_content t ≡ true → ends_with "()" t ≡ false
unfolding ends_with is_content_char is_number_char is_digit
ends_with_lem String.[] h = refl
ends_with_lem (String.◌∷◌ c t) h = elim (Bool-cases (String.◌∷◌ c t == "()")) [
  | inl same ↦
      let text : String.◌∷◌ c t ≡ "()" = (==-iff (String.◌∷◌ c t) "()").0 same in
      let wrong : is_content (String.◌∷◌ c t) ≡ false = ap is_content text in cc (wrong, h)
  | inr other ↦ rw (other, ends_with_lem t (ground (arith, h))) refl
]

-- A separator that is no character of numbers.
pub number_char_ne :
    (c b : ℕ) → is_number_char c ≡ true → is_number_char b ≡ false → eqb c b ≡ false
unfolding is_number_char is_digit
number_char_ne c b h other = ground (arith, h, other)

pub contains_lem :
    (b : ℕ) (t : String) → is_number_char b ≡ false → is_number t ≡ true → contains b t ≡ false
unfolding contains
contains_lem b String.[] sep h = refl
contains_lem b (String.◌∷◌ c t) sep h =
    let rest = contains_lem b t sep (ground (arith, h)) in
    rw (number_char_ne (code c) b (ground (arith, h)) sep) rest

-- Past a number.
pub contains-append :
    (b : ℕ) (t end : String)
    → is_number_char b ≡ false
    → is_number t ≡ true
    → contains b (str_append t end) ≡ contains b end
unfolding contains
contains-append b String.[] end sep h = rw (append.nil end) refl
contains-append b (String.◌∷◌ c t) end sep h =
    let rest = contains-append b t end sep (ground (arith, h)) in
    rw (append.cons c t end, contains, number_char_ne (code c) b (ground (arith, h)) sep) rest

pub split_lem :
    (b : ℕ) (t : String) → is_number_char b ≡ false → is_number t ≡ true → split b t ≡ t ∷ []
unfolding split
split_lem b String.[] sep h = refl
split_lem b (String.◌∷◌ c t) sep h =
    let rest = split_lem b t sep (ground (arith, h)) in
    rw (number_char_ne (code c) b (ground (arith, h)) sep, split, rest) refl

pub split-append :
    (b : ℕ) (t : String) (c : Char) (end : String)
    → is_number_char b ≡ false
    → is_number t ≡ true
    → code c ≡ b
    → split b (str_append t (String.◌∷◌ c end)) ≡ t ∷ split b end
unfolding split
split-append b String.[] c end sep h same =
    let here : eqb (code c) b ≡ true = ground (arith, same) in
    rw (append.nil (String.◌∷◌ c end), split, here) refl
split-append b (String.◌∷◌ d t) c end sep h same =
    let rest = split-append b t c end sep (ground (arith, h)) same in
    rw
      (
        append.cons d t (String.◌∷◌ c end),
        split,
        number_char_ne (code d) b (ground (arith, h)) sep,
        rest,
      )
      refl
