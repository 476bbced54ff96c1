-- ===== src/JsonPath/Printing.antt =====
-- A text for every path, as one would write it. Segments are written before a given end.
use Prim.Native.Char.{Char, code}
use Prim.Native.String.{◌++◌ as str_append}
use post_cortex.Base.{
  ℕ, zero, suc, ◌/◌, ◌%◌, ◌^◌, Bool, true, ◌&&◌, not, Option, none, some, List, [], ◌∷◌, String,
  if◌then◌else◌, ltb, length,
}
use post_cortex.Base.Keys.{string_eq}
use post_cortex.JsonPath.{
  ℤ, pos, negsuc, PathSegment, field, index, slice, wildcard, union, JsonPath,
}
use post_cortex.JsonPath.Parser.{is_empty, is_field_char}

unfoldable pub digit_char : ℕ → Char
digit_char zero = "0"
digit_char (suc zero) = "1"
digit_char (suc (suc zero)) = "2"
digit_char (suc (suc (suc zero))) = "3"
digit_char (suc (suc (suc (suc zero)))) = "4"
digit_char (suc (suc (suc (suc (suc zero))))) = "5"
digit_char (suc (suc (suc (suc (suc (suc zero)))))) = "6"
digit_char (suc (suc (suc (suc (suc (suc (suc zero))))))) = "7"
digit_char (suc (suc (suc (suc (suc (suc (suc (suc zero)))))))) = "8"
digit_char (suc (suc (suc (suc (suc (suc (suc (suc (suc n))))))))) = "9"

-- The last `fuel` digits at most; a number has no more digits than its successor says.
unfoldable pub decimal : ℕ → ℕ → String → String
decimal zero n end = end
decimal (suc fuel) n end =
    let more = decimal fuel (n / 10) (String.◌∷◌ (digit_char (n % 10)) end) in
    if ltb n 10 then String.◌∷◌ (digit_char n) end else more

unfoldable pub int_text : ℤ → String
int_text (pos n) = decimal (suc n) n ""
int_text (negsuc n) = String.◌∷◌ "-" (decimal (suc (suc n)) (suc n) "")

abbrev pub bound_text : Option ℤ → String
bound_text none = ""
bound_text (some i) = int_text i

unfoldable pub slice_text : Option ℤ → Option ℤ → String
slice_text a b = str_append (bound_text a) (String.◌∷◌ ":" (bound_text b))

unfoldable pub indices_text : List ℤ → String
indices_text [] = ""
indices_text (i ∷ []) = int_text i
indices_text (i ∷ j ∷ rest) = str_append (int_text i) (String.◌∷◌ "," (indices_text (j ∷ rest)))

-- A segment in brackets.
abbrev pub bracketed : String → String → String
bracketed content end = String.◌∷◌ "[" (str_append content (String.◌∷◌ "]" end))

unfoldable pub print_segment : PathSegment → String → String
print_segment (field name) end = String.◌∷◌ "." (str_append name end)
print_segment (index i) end = bracketed (int_text i) end
print_segment (slice a b) end = bracketed (slice_text a b) end
print_segment wildcard end = String.◌∷◌ "." (String.◌∷◌ "*" end)
print_segment (union indices) end = bracketed (indices_text indices) end

unfoldable pub print_segments : List PathSegment → String
print_segments [] = String.[]
print_segments (segment ∷ rest) = print_segment segment (print_segments rest)

unfoldable pub print : JsonPath → String
print path = String.◌∷◌ "$" (print_segments path.segments)

abbrev pub is_field_name : String → Bool
is_field_name String.[] = true
is_field_name (String.◌∷◌ c s) = is_field_char (code c) && is_field_name s

-- The machine's range.
unfoldable pub in_range : ℤ → Bool
in_range (pos n) = ltb n (2 ^ 63)
in_range (negsuc n) = ltb n (2 ^ 63)

abbrev pub bound_in_range : Option ℤ → Bool
bound_in_range none = true
bound_in_range (some i) = in_range i

unfoldable pub all_in_range : List ℤ → Bool
all_in_range [] = true
all_in_range (i ∷ rest) = in_range i && all_in_range rest

-- What a path of the parser's grammar has: names of field characters, numbers of the machine, and
-- two indices or more in a union.
unfoldable pub is_printable : PathSegment → Bool
is_printable (field name) = not (is_empty name) && is_field_name name
is_printable (index i) = in_range i
is_printable (slice a b) = bound_in_range a && bound_in_range b
is_printable wildcard = true
is_printable (union indices) = ltb 1 (length indices) && all_in_range indices

unfoldable pub all_printable : List PathSegment → Bool
all_printable [] = true
all_printable (segment ∷ rest) = is_printable segment && all_printable rest
