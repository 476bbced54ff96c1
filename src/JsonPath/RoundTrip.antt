-- ===== src/JsonPath/RoundTrip.antt =====
-- Every path that can be written is read back from its text.
use Prim.Native.Char.{code}
use Prim.Native.String.{◌++◌ as str_append}
use Prim.Native.String.append
use post_cortex.Base.{
  ℕ, zero, suc, ◌+◌, ◌≤◌, ◌≡◌, refl, Bool, true, false, not, ◌&&◌, ◌||◌, some, List, [], ◌∷◌,
  String, eqb, arith,
}
use post_cortex.JsonPath.{PathSegment, field, index, slice, wildcard, union, JsonPath}
use post_cortex.JsonPath.Parser.{
  is_digit, is_empty, is_field_char, take_field, starts_with, expect_byte, ok, parse_trimmed,
  parse_bracket_content, parse_bracket, parse_dot, parse_segment, parse_segments, count, parse,
}
use post_cortex.JsonPath.Printing.{
  int_text, slice_text, indices_text, bracketed, print_segment, print_segments, print,
  is_field_name, is_printable, all_printable,
}
use post_cortex.JsonPath.Numerals.{is_number_char}
use post_cortex.JsonPath.Contents.{is_content, is_content_char, read_bracket_content_lem, trim_lem}
use post_cortex.JsonPath.Brackets.{
  int_text-is_content, slice_text-is_content, indices_text-is_content, parse_trimmed-index,
  parse_trimmed-slice, parse_trimmed-union,
}
use post_cortex.Session.Active.Truncation.{bytes}

-- A byte that no content starts with, nor its closing bracket.
char_ne : (c b : ℕ) → is_content_char c ≡ true → is_content_char b ≡ false → eqb c b ≡ false
unfolding is_content_char is_number_char is_digit
char_ne c b h other = ground (arith, h, other)

starts_with-content :
    (b : ℕ) (t end : String)
    → (is_content_char b || eqb b b']') ≡ false
    → is_content t ≡ true
    → starts_with b (str_append t (String.◌∷◌ "]" end)) ≡ false
starts_with-content b String.[] end other h =
    rw (append.nil (String.◌∷◌ "]" end)) (ground (arith, other))
starts_with-content b (String.◌∷◌ c t) end other h =
    rw (append.cons c t (String.◌∷◌ "]" end))
      (char_ne (code c) b (ground (arith, h)) (ground (arith, other)))

parse_bracket_lem :
    (position : ℕ) (segment : PathSegment) (content end : String)
    → is_content content ≡ true
    → parse_trimmed position content ≡ ok segment
    → parse_bracket (record { position = position; rest = str_append content (String.◌∷◌ "]" end) })
      ≡ ok (segment, record { position = position + bytes content + 1; rest = end })
unfolding parse_bracket expect_byte parse_bracket_content is_content_char is_number_char is_digit
parse_bracket_lem position segment content end good read =
    rw
      (
        starts_with-content b'?' content end refl good,
        parse_bracket,
        starts_with-content b'*' content end refl good,
        read_bracket_content_lem content end good,
        trim_lem content good,
        trim_lem content good,
        read,
      )
      refl

-- Where a segment can end.
abbrev is_break : String → Bool
is_break String.[] = true
is_break (String.◌∷◌ c s) = eqb (code c) b'.' || eqb (code c) b'['

take_field_lem :
    (name end : String)
    → is_field_name name ≡ true
    → is_break end ≡ true
    → take_field (str_append name end) ≡ (name, end)
unfolding take_field is_field_char is_digit
take_field_lem String.[] String.[] h k = rw (append.nil "") refl
take_field_lem String.[] (String.◌∷◌ c end) h k =
    let stop : is_field_char (code c) ≡ false = ground (arith, k) in
    rw (append.nil (String.◌∷◌ c end), take_field, stop) refl
take_field_lem (String.◌∷◌ c name) end h k =
    let rest = take_field_lem name end (ground (arith, h)) k in
    let more : is_field_char (code c) ≡ true = ground (arith, h) in
    rw (append.cons c name end, take_field, more, rest) refl

starts_with-break : (end : String) → is_break end ≡ true → starts_with b'(' end ≡ false
starts_with-break String.[] h = refl
starts_with-break (String.◌∷◌ c end) h = ground (arith, h)

starts_with-name :
    (b : ℕ) (name end : String)
    → is_field_char b ≡ false
    → (not (is_empty name) && is_field_name name) ≡ true
    → starts_with b (str_append name end) ≡ false
unfolding is_field_char is_digit
starts_with-name b String.[] end other h = cc
starts_with-name b (String.◌∷◌ c name) end other h =
    rw (append.cons c name end) (ground (arith, other, h))

parse_dot_lem :
    (position : ℕ) (name end : String)
    → (not (is_empty name) && is_field_name name) ≡ true
    → is_break end ≡ true
    → parse_dot (record { position = position; rest = str_append name end })
      ≡ ok (field name, record { position = position + bytes name; rest = end })
unfolding parse_dot is_field_char is_digit
parse_dot_lem position name end h k =
    let present : is_empty name ≡ false = ground (arith, h) in
    rw
      (
        starts_with-name b'.' name end refl h,
        parse_dot,
        starts_with-name b'*' name end refl h,
        take_field_lem name end (ground (arith, h)) k,
        present,
        starts_with-break end k,
      )
      refl

-- A text that is read as one segment, up to a given end.
abbrev Reads : ℕ → PathSegment → String → String → Type 0
Reads position segment String.[] end = ⊥
Reads position segment (String.◌∷◌ c s) end =
    (after : ℕ) × (parse_segment position c s
      ≡ ok (segment, record { position = after; rest = end }))

parse_segment_lem :
    (position : ℕ) (segment : PathSegment) (end : String)
    → is_printable segment ≡ true
    → is_break end ≡ true
    → Reads position segment (print_segment segment end) end
unfolding parse_segment parse_dot print_segment is_printable
parse_segment_lem position (field name) end h k =
    (position + 1 + bytes name, parse_dot_lem (position + 1) name end h k)
parse_segment_lem position wildcard end h k = (position + 1 + 1, refl)
parse_segment_lem position (index i) end h k = (
  position + 1 + bytes (int_text i) + 1,
  parse_bracket_lem (position + 1) (index i) (int_text i) end (int_text-is_content i)
      (parse_trimmed-index (position + 1) i h),
)
parse_segment_lem position (slice a b) end h k = (
  position + 1 + bytes (slice_text a b) + 1,
  parse_bracket_lem (position + 1) (slice a b) (slice_text a b) end (slice_text-is_content a b)
      (parse_trimmed-slice (position + 1) a b h),
)
parse_segment_lem position (union indices) end h k = (
  position + 1 + bytes (indices_text indices) + 1,
  parse_bracket_lem (position + 1) (union indices) (indices_text indices) end
      (indices_text-is_content indices) (parse_trimmed-union (position + 1) indices h),
)

print_segment-is_break :
    (segment : PathSegment) (end : String) → is_break (print_segment segment end) ≡ true
unfolding print_segment
print_segment-is_break (field name) end = refl
print_segment-is_break wildcard end = refl
print_segment-is_break (index i) end = refl
print_segment-is_break (slice a b) end = refl
print_segment-is_break (union indices) end = refl

print_segments-is_break : (segments : List PathSegment) → is_break (print_segments segments) ≡ true
unfolding print_segments
print_segments-is_break [] = refl
print_segments-is_break (segment ∷ rest) = print_segment-is_break segment (print_segments rest)

count-append : (s t : String) → count t ≤ count (str_append s t)
unfolding count
count-append String.[] t = rw (append.nil t) (omega arith)
count-append (String.◌∷◌ c s) t = rw (append.cons c s t) (omega (arith, count-append s t))

count-bracketed : (content end : String) → suc (count end) ≤ count (bracketed content end)
unfolding count
count-bracketed content end = omega (arith, count-append content (String.◌∷◌ "]" end))

count-print_segment :
    (segment : PathSegment) (end : String) → suc (count end) ≤ count (print_segment segment end)
unfolding print_segment count
count-print_segment (field name) end = omega (arith, count-append name end)
count-print_segment wildcard end = omega arith
count-print_segment (index i) end = count-bracketed (int_text i) end
count-print_segment (slice a b) end = count-bracketed (slice_text a b) end
count-print_segment (union indices) end = count-bracketed (indices_text indices) end

-- One turn of the loop reads the segment that the text starts with.
turn :
    (fuel position : ℕ) (segment : PathSegment) (s end : String) (segments : List PathSegment)
    → Reads position segment s end
    → ((after : ℕ) → parse_segments fuel after end ≡ some (ok segments))
    → parse_segments (suc fuel) position s ≡ some (ok (segment ∷ segments))
unfolding parse_segments
turn fuel position segment String.[] end segments h next = absurd h
turn fuel position segment (String.◌∷◌ c s) end segments h next =
    rw (h.1, parse_segments, next h.0) refl

parse_segments-print_segments :
    (fuel position : ℕ) (segments : List PathSegment)
    → all_printable segments ≡ true
    → count (print_segments segments) ≤ fuel
    → parse_segments fuel position (print_segments segments) ≡ some (ok segments)
unfolding print_segments all_printable parse_segments count
parse_segments-print_segments fuel position [] h enough = refl
parse_segments-print_segments zero position (segment ∷ rest) h enough =
    absurd (omega (arith, enough, count-print_segment segment (print_segments rest)))
parse_segments-print_segments (suc fuel) position (segment ∷ rest) h enough =
    turn fuel position segment (print_segment segment (print_segments rest)) (print_segments rest)
      rest
      (parse_segment_lem position segment (print_segments rest) (ground (arith, h))
        (print_segments-is_break rest))
      (λ after.
        parse_segments-print_segments fuel after rest (ground (arith, h))
          (omega (arith, enough, count-print_segment segment (print_segments rest))))

-- A path is read back from the text it is written as, if its field names are not empty and have
-- field characters only, its numbers are the machine's, and its unions have two indices or more.
pub parse-print :
    (path : JsonPath) → all_printable path.segments ≡ true → parse (print path) ≡ some (ok path)
unfolding parse print count
parse-print path h =
    rw
      (parse_segments-print_segments (suc (count (print_segments path.segments))) 1 path.segments h
        (omega arith))
      refl
