-- ===== src/JsonPath/Brackets.antt =====
-- The contents of brackets are read back.
use Prim.Native.Char.{Char, code}
use post_cortex.Base.{
  ℕ, ◌≡◌, refl, true, false, ◌&&◌, Option, none, some, List, [], ◌∷◌, map, String, ltb, length,
  arith,
}
use post_cortex.JsonPath.{ℤ, index, slice, union}
use post_cortex.JsonPath.Parser.{
  is_digit, is_empty, contains, trim, trim_start, trim_end, split, parse_isize, parse_int,
  parse_bound, parse_slice, parse_indices, parse_trimmed, ok,
}
use post_cortex.JsonPath.Printing.{
  int_text, slice_text, bound_text, indices_text, in_range, bound_in_range, all_in_range,
}
use post_cortex.JsonPath.Numerals.{
  is_number_char, is_number, int_text-is_number, parse_isize-int_text,
}
use post_cortex.JsonPath.Contents.{
  is_content, is_content_char, is_number-is_content, append-is_content, trim_lem, ends_with_lem,
  contains_lem, contains-append, split_lem, split-append,
}

pub int_text-is_content : (i : ℤ) → is_content (int_text i) ≡ true
int_text-is_content i = is_number-is_content (int_text i) (int_text-is_number i)

parse_int-int_text : (offset : ℕ) (i : ℤ) → in_range i ≡ true → parse_int offset (int_text i) ≡ ok i
unfolding parse_int
parse_int-int_text offset i fits = rw (parse_isize-int_text i fits, parse_int) refl

parse_isize-is_empty : (s : String) (i : ℤ) → parse_isize s ≡ some i → is_empty s ≡ false
unfolding parse_isize
parse_isize-is_empty String.[] i h = cc
parse_isize-is_empty (String.◌∷◌ c s) i h = refl

parse_bound_empty : (offset : ℕ) → parse_bound offset "" ≡ ok none
unfolding parse_bound trim trim_start trim_end
parse_bound_empty offset = refl

parse_bound-bound_text :
    (offset : ℕ) (a : Option ℤ) → bound_in_range a ≡ true → parse_bound offset (bound_text a) ≡ ok a
unfolding parse_bound
parse_bound-bound_text offset none fits = parse_bound_empty offset
parse_bound-bound_text offset (some i) fits =
    let trimmed = trim_lem (int_text i) (int_text-is_content i) in
    let present = parse_isize-is_empty (int_text i) i (parse_isize-int_text i fits) in
    rw (trimmed, parse_bound, present, parse_int-int_text offset i fits) refl

bound_text-is_number : (a : Option ℤ) → is_number (bound_text a) ≡ true
bound_text-is_number none = refl
bound_text-is_number (some i) = int_text-is_number i

split-indices_text :
    (i : ℤ) (rest : List ℤ) → split b',' (indices_text (i ∷ rest)) ≡ map int_text (i ∷ rest)
unfolding indices_text is_number_char is_digit
split-indices_text i [] = split_lem b',' (int_text i) refl (int_text-is_number i)
split-indices_text i (j ∷ rest) =
    rw
      (
        split-append b',' (int_text i) "," (indices_text (j ∷ rest)) refl (int_text-is_number i)
            refl,
        split-indices_text j rest,
      )
      refl

parse_indices-int_text :
    (offset : ℕ) (indices : List ℤ)
    → all_in_range indices ≡ true
    → parse_indices offset (map int_text indices) ≡ ok indices
unfolding parse_indices all_in_range
parse_indices-int_text offset [] fits = refl
parse_indices-int_text offset (i ∷ rest) fits =
    let more = parse_indices-int_text offset rest (ground (arith, fits)) in
    rw
      (
        trim_lem (int_text i) (int_text-is_content i),
        parse_int-int_text offset i (ground (arith, fits)),
        more,
      )
      refl

pub indices_text-is_content : (indices : List ℤ) → is_content (indices_text indices) ≡ true
unfolding indices_text is_content_char is_number_char is_digit
indices_text-is_content [] = refl
indices_text-is_content (i ∷ []) = int_text-is_content i
indices_text-is_content (i ∷ j ∷ rest) =
    append-is_content (int_text i) (String.◌∷◌ "," (indices_text (j ∷ rest)))
      (int_text-is_content i) (indices_text-is_content (j ∷ rest))

contains-indices_text : (indices : List ℤ) → contains b':' (indices_text indices) ≡ false
unfolding indices_text contains is_number_char is_digit
contains-indices_text [] = refl
contains-indices_text (i ∷ []) = contains_lem b':' (int_text i) refl (int_text-is_number i)
contains-indices_text (i ∷ j ∷ rest) =
    rw
      (contains-append b':' (int_text i) (String.◌∷◌ "," (indices_text (j ∷ rest))) refl
        (int_text-is_number i))
      (contains-indices_text (j ∷ rest))

contains_first : (b : ℕ) (c : Char) (s : String) → code c ≡ b → contains b (String.◌∷◌ c s) ≡ true
unfolding contains
contains_first b c s same = ground (arith, same)

pub slice_text-is_content : (a b : Option ℤ) → is_content (slice_text a b) ≡ true
unfolding slice_text is_content_char is_number_char is_digit
slice_text-is_content a b =
    append-is_content (bound_text a) (String.◌∷◌ ":" (bound_text b))
      (is_number-is_content (bound_text a) (bound_text-is_number a))
      (is_number-is_content (bound_text b) (bound_text-is_number b))

contains-slice_text : (a b : Option ℤ) → contains b':' (slice_text a b) ≡ true
unfolding slice_text is_number_char is_digit
contains-slice_text a b =
    rw
      (contains-append b':' (bound_text a) (String.◌∷◌ ":" (bound_text b)) refl
        (bound_text-is_number a))
      (contains_first b':' ":" (bound_text b) refl)

split-slice_text : (a b : Option ℤ) → split b':' (slice_text a b) ≡ bound_text a ∷ bound_text b ∷ []
unfolding slice_text is_number_char is_digit
split-slice_text a b =
    rw
      (
        split-append b':' (bound_text a) ":" (bound_text b) refl (bound_text-is_number a) refl,
        split_lem b':' (bound_text b) refl (bound_text-is_number b),
      )
      refl

comma-indices_text : (i j : ℤ) (rest : List ℤ) → contains b',' (indices_text (i ∷ j ∷ rest)) ≡ true
unfolding indices_text is_number_char is_digit
comma-indices_text i j rest =
    rw
      (contains-append b',' (int_text i) (String.◌∷◌ "," (indices_text (j ∷ rest))) refl
        (int_text-is_number i))
      (contains_first b',' "," (indices_text (j ∷ rest)) refl)

pub parse_trimmed-index :
    (offset : ℕ) (i : ℤ) → in_range i ≡ true → parse_trimmed offset (int_text i) ≡ ok (index i)
unfolding parse_trimmed is_number_char is_digit
parse_trimmed-index offset i fits =
    rw
      (
        ends_with_lem (int_text i) (int_text-is_content i),
        parse_trimmed,
        contains_lem b':' (int_text i) refl (int_text-is_number i),
        contains_lem b',' (int_text i) refl (int_text-is_number i),
        parse_int-int_text offset i fits,
      )
      refl

pub parse_trimmed-slice :
    (offset : ℕ) (a b : Option ℤ)
    → (bound_in_range a && bound_in_range b) ≡ true
    → parse_trimmed offset (slice_text a b) ≡ ok (slice a b)
unfolding parse_trimmed parse_slice
parse_trimmed-slice offset a b fits =
    rw
      (
        ends_with_lem (slice_text a b) (slice_text-is_content a b),
        parse_trimmed,
        contains-slice_text a b,
        split-slice_text a b,
        parse_bound-bound_text offset a (ground (arith, fits)),
        parse_bound-bound_text offset b (ground (arith, fits)),
      )
      refl

pub parse_trimmed-union :
    (offset : ℕ) (indices : List ℤ)
    → (ltb 1 (length indices) && all_in_range indices) ≡ true
    → parse_trimmed offset (indices_text indices) ≡ ok (union indices)
unfolding parse_trimmed
parse_trimmed-union offset [] fits = cc
parse_trimmed-union offset (i ∷ []) fits = cc
parse_trimmed-union offset (i ∷ j ∷ rest) fits =
    let indices = i ∷ j ∷ rest in
    rw
      (
        ends_with_lem (indices_text indices) (indices_text-is_content indices),
        parse_trimmed,
        contains-indices_text indices,
        comma-indices_text i j rest,
        split-indices_text i (j ∷ rest),
        parse_indices-int_text offset indices (ground (arith, fits)),
      )
      refl
