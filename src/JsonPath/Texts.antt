-- ===== src/JsonPath/Texts.antt =====
-- The methods of `str`, `u8` and `isize` that the parser of
-- crates/post-cortex-memory/src/jsonpath.rs calls.
use Prim.Native.Char.{Char, code}
use post_cortex.Base.{
  ℕ, zero, suc, ◌+◌, ◌-◌, ◌*◌, ◌^◌, Bool, true, false, ◌&&◌, ◌||◌, Option, none, some, List, [],
  ◌∷◌, String, if◌then◌else◌, eqb, leb, ltb,
}
use post_cortex.Base.Keys.{string_eq, ◌==◌}
use post_cortex.JsonPath.{ℤ, pos, negsuc}

unfoldable pub is_digit : ℕ → Bool
is_digit b = leb b'0' b && leb b b'9'

unfoldable pub is_field_char : ℕ → Bool
is_field_char b =
    is_digit b || (leb b'a' b && leb b b'z') || (leb b'A' b && leb b b'Z') || eqb b b'_'

-- Unicode's `White_Space`.
unfoldable pub is_whitespace : ℕ → Bool
is_whitespace c =
    (leb 9 c && leb c 13)
    || eqb c 32
    || eqb c 133
    || eqb c 160
    || eqb c 5760
    || (leb 8192 c && leb c 8202)
    || eqb c 8232
    || eqb c 8233
    || eqb c 8239
    || eqb c 8287
    || eqb c 12288

abbrev pub is_empty : String → Bool
is_empty String.[] = true
is_empty (String.◌∷◌ c s) = false

abbrev pub starts_with : ℕ → String → Bool
starts_with b String.[] = false
starts_with b (String.◌∷◌ c s) = eqb (code c) b

abbrev pub tail : String → String
tail String.[] = String.[]
tail (String.◌∷◌ c s) = s

unfoldable pub contains : ℕ → String → Bool
contains b String.[] = false
contains b (String.◌∷◌ c s) = eqb (code c) b || contains b s

unfoldable pub ends_with : String → String → Bool
ends_with suffix String.[] = is_empty suffix
ends_with suffix (String.◌∷◌ c s) = (String.◌∷◌ c s == suffix) || ends_with suffix s

unfoldable pub trim_start : String → String
trim_start String.[] = String.[]
trim_start (String.◌∷◌ c s) =
    let rest = trim_start s in if is_whitespace (code c) then rest else String.◌∷◌ c s

unfoldable pub trim_end : String → String
trim_end String.[] = String.[]
trim_end (String.◌∷◌ c s) =
    let rest = trim_end s in
    if is_empty rest && is_whitespace (code c) then String.[] else String.◌∷◌ c rest

unfoldable pub trim : String → String
trim s = trim_end (trim_start s)

abbrev pub onto_first : Char → List String → List String
onto_first c [] = String.◌∷◌ c String.[] ∷ []
onto_first c (part ∷ parts) = String.◌∷◌ c part ∷ parts

unfoldable pub split : ℕ → String → List String
split b String.[] = String.[] ∷ []
split b (String.◌∷◌ c s) =
    let parts = split b s in if eqb (code c) b then String.[] ∷ parts else onto_first c parts

-- `str::parse::<isize>` on 64 bits.
unfoldable pub digits : ℕ → String → Option ℕ
digits n String.[] = some n
digits n (String.◌∷◌ c s) =
    let rest = digits (n * 10 + (code c - b'0')) s in if is_digit (code c) then rest else none

unfoldable pub unsigned : String → Option ℕ
unsigned String.[] = none
unsigned (String.◌∷◌ c s) = digits 0 (String.◌∷◌ c s)

abbrev pub negative : ℕ → ℤ
negative zero = pos 0
negative (suc n) = negsuc n

unfoldable pub parse_isize : String → Option ℤ
parse_isize String.[] = none
parse_isize (String.◌∷◌ c s) =
    if eqb (code c) b'-'
    then elim (unsigned s) [
      | none ↦ none
      | some n ↦ if leb n (2 ^ 63) then some (negative n) else none
    ]
    else elim (unsigned (if eqb (code c) b'+' then s else String.◌∷◌ c s)) [
      | none ↦ none
      | some n ↦ if ltb n (2 ^ 63) then some (pos n) else none
    ]
