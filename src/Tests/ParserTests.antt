-- ===== src/Tests/ParserTests.antt =====
-- The parser of paths on concrete texts.
use post_cortex.Base.{◌≡◌, refl, true, ◌&&◌, none, some, [], ◌∷◌}
use post_cortex.JsonPath.{pos, negsuc, field, index, slice, union, wildcard, JsonPath}
use post_cortex.JsonPath.Parser.{
  ok, recursive_descent, filter_expression, function_call, fail, slice_step, expected_integer,
  expected_after, is_digit, is_field_char, is_whitespace, contains, ends_with, trim_start, trim_end,
  trim, split, digits, unsigned, parse_isize, parse_int, parse_bound, parse_slice, parse_indices,
  parse_trimmed, parse_bracket_content, take_field, read_bracket_content, expect_byte, parse_dot,
  parse_bracket, lead_byte, parse_segment, parse_segments, count, parse, starts_with, tail,
}
use post_cortex.JsonPath.Printing.{
  digit_char, decimal, int_text, slice_text, indices_text, print_segment, print_segments, print,
  in_range, all_in_range, is_printable, all_printable,
}
use post_cortex.JsonPath.Accepted.{is_path_text}
use post_cortex.JsonPath.Allowed.{parse-is_path_text}
use post_cortex.JsonPath.RoundTrip.{parse-print}
use post_cortex.Session.Active.Truncation.{bytes, utf8_len}

program : Unit {0}
unfolding is_digit is_field_char is_whitespace contains ends_with trim_start trim_end trim split
    digits unsigned parse_isize parse_int parse_bound parse_slice parse_indices parse_trimmed
    parse_bracket_content take_field read_bracket_content expect_byte parse_dot parse_bracket
    lead_byte parse_segment parse_segments count parse bytes utf8_len
program = tt

abbrev entity_path : JsonPath
entity_path = record {
  segments =
      field "entities"
      ∷ index (negsuc 0)
      ∷ slice none (some (pos 25))
      ∷ union (pos 0 ∷ pos 2 ∷ [])
      ∷ wildcard
      ∷ [];
}

printed : print entity_path ≡ "$.entities[-1][:25][0,2].*"
unfolding digit_char decimal int_text slice_text indices_text print_segment print_segments print
printed = refl

parsed_loosely : parse "$.entities[ -1 ][ : 25 ][0, 2][*]" ≡ some (ok entity_path)
unfolding program
parsed_loosely = refl

refused :
    (parse "$..a" ≡ some (fail 1 recursive_descent))
    × (parse "$.a[?(@.b)]" ≡ some (fail 3 filter_expression))
    × (parse "$.a.length()" ≡ some (fail 4 (function_call "length()")))
    × (parse "$[1:2:3]" ≡ some (fail 2 slice_step))
    × (parse "$[9223372036854775808]" ≡ some (fail 2 (expected_integer "9223372036854775808")))
    × (parse "$[1" ≡ some (fail 3 (expected_after 93 "1")))
unfolding program
refused = (refl, refl, refl, refl, refl, refl)

parse-print_example : parse (print entity_path) ≡ some (ok entity_path)
unfolding all_printable is_printable in_range all_in_range is_field_char is_digit
parse-print_example = parse-print entity_path refl

loose_parse : parse "$.a[ 7 ]" ≡ some (ok (record { segments = field "a" ∷ index (pos 7) ∷ [] }))
unfolding program
loose_parse = refl

parse-is_path_text_example : (starts_with b'$' "$.a[ 7 ]" && is_path_text (tail "$.a[ 7 ]")) ≡ true
parse-is_path_text_example =
    parse-is_path_text "$.a[ 7 ]" (record { segments = field "a" ∷ index (pos 7) ∷ [] }) loose_parse
