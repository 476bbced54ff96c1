-- ===== src/JsonPath/Numerals.antt =====
-- Numbers written in decimal are read back.
use Prim.Native.Char.{code}
use post_cortex.Base.{
  ℕ, zero, suc, ◌+◌, ◌-◌, ◌*◌, ◌/◌, ◌%◌, ◌^◌, ◌<◌, ◌≡◌, refl, Bool, true, false, ◌&&◌, ◌||◌, some,
  String, eqb, leb, ltb, arith, inl, inr, Bool-cases,
}
use post_cortex.Base.Keys.{string_eq}
use post_cortex.JsonPath.{ℤ, pos, negsuc}
use post_cortex.JsonPath.Parser.{is_digit, digits, unsigned, parse_isize}
use post_cortex.JsonPath.Printing.{digit_char, decimal, int_text, in_range}

code-digit_char : (n : ℕ) → n < 10 → code (digit_char n) ≡ n + b'0'
unfolding digit_char
code-digit_char zero h = refl
code-digit_char (suc zero) h = refl
code-digit_char (suc (suc zero)) h = refl
code-digit_char (suc (suc (suc zero))) h = refl
code-digit_char (suc (suc (suc (suc zero)))) h = refl
code-digit_char (suc (suc (suc (suc (suc zero))))) h = refl
code-digit_char (suc (suc (suc (suc (suc (suc zero)))))) h = refl
code-digit_char (suc (suc (suc (suc (suc (suc (suc zero))))))) h = refl
code-digit_char (suc (suc (suc (suc (suc (suc (suc (suc zero)))))))) h = refl
code-digit_char (suc (suc (suc (suc (suc (suc (suc (suc (suc zero))))))))) h = refl
code-digit_char (suc (suc (suc (suc (suc (suc (suc (suc (suc (suc n)))))))))) h =
    absurd (omega (arith, h))

digit_char-is_digit : (n : ℕ) → n < 10 → is_digit (code (digit_char n)) ≡ true
unfolding is_digit
digit_char-is_digit n h = ground (arith, h, code-digit_char n h)

digits-decimal :
    (fuel n : ℕ) (end : String) → n < fuel → digits 0 (decimal fuel n end) ≡ digits n end
unfolding digits decimal
digits-decimal zero n end h = absurd (omega (arith, h))
digits-decimal (suc fuel) n end h = elim (Bool-cases (ltb n 10)) [
  | inl small ↦
      let value = code-digit_char n (ground (arith, small)) in
      let good = digit_char-is_digit n (ground (arith, small)) in
      let read : 0 * 10 + (code (digit_char n) - b'0') ≡ n = omega (arith, value) in
      rw (small, decimal, digits, good, read) refl
  | inr large ↦
      let value = code-digit_char (n % 10) (omega arith) in
      let good = digit_char-is_digit (n % 10) (omega arith) in
      let read : n / 10 * 10 + (code (digit_char (n % 10)) - b'0') ≡ n = omega (arith, value) in
      let before =
        digits-decimal fuel (n / 10) (String.◌∷◌ (digit_char (n % 10)) end)
          (ground (arith, large, h)) in
      rw (large, decimal, before, digits, good, read) refl
]

-- The characters of numbers.
unfoldable pub is_number_char : ℕ → Bool
is_number_char b = is_digit b || eqb b b'-'

abbrev pub is_number : String → Bool
is_number String.[] = true
is_number (String.◌∷◌ c s) = is_number_char (code c) && is_number s

decimal-is_number : (fuel n : ℕ) (end : String) → is_number (decimal fuel n end) ≡ is_number end
unfolding decimal is_number_char
decimal-is_number zero n end = refl
decimal-is_number (suc fuel) n end = elim (Bool-cases (ltb n 10)) [
  | inl small ↦ rw (small, decimal, digit_char-is_digit n (ground (arith, small))) refl
  | inr large ↦
      let before = decimal-is_number fuel (n / 10) (String.◌∷◌ (digit_char (n % 10)) end) in
      rw (large, decimal, before, digit_char-is_digit (n % 10) (omega arith)) refl
]

pub int_text-is_number : (i : ℤ) → is_number (int_text i) ≡ true
unfolding int_text is_number_char is_digit
int_text-is_number (pos n) = decimal-is_number (suc n) n ""
int_text-is_number (negsuc n) = decimal-is_number (suc (suc n)) (suc n) ""

abbrev starts_with_digit : String → Bool
starts_with_digit String.[] = false
starts_with_digit (String.◌∷◌ c s) = is_digit (code c)

decimal-starts_with_digit :
    (fuel n : ℕ) (end : String) → starts_with_digit (decimal (suc fuel) n end) ≡ true
unfolding decimal
decimal-starts_with_digit zero n end = elim (Bool-cases (ltb n 10)) [
  | inl small ↦ rw (small, decimal) (digit_char-is_digit n (ground (arith, small)))
  | inr large ↦ rw (large, decimal) (digit_char-is_digit (n % 10) (omega arith))
]
decimal-starts_with_digit (suc fuel) n end = elim (Bool-cases (ltb n 10)) [
  | inl small ↦ rw (small, decimal) (digit_char-is_digit n (ground (arith, small)))
  | inr large ↦
      rw (large, decimal)
        (decimal-starts_with_digit fuel (n / 10) (String.◌∷◌ (digit_char (n % 10)) end))
]

unsigned-digits : (s : String) → starts_with_digit s ≡ true → unsigned s ≡ digits 0 s
unfolding unsigned
unsigned-digits String.[] h = cc
unsigned-digits (String.◌∷◌ c s) h = refl

parse_isize-unsigned :
    (s : String) (n : ℕ)
    → starts_with_digit s ≡ true
    → digits 0 s ≡ some n
    → ltb n (2 ^ 63) ≡ true
    → parse_isize s ≡ some (pos n)
unfolding parse_isize unsigned is_digit
parse_isize-unsigned String.[] n h read fits = cc
parse_isize-unsigned (String.◌∷◌ c s) n h read fits =
    let minus : eqb (code c) b'-' ≡ false = ground (arith, h) in
    let plus : eqb (code c) b'+' ≡ false = ground (arith, h) in
    rw (minus, parse_isize, plus, read, fits) refl

pub parse_isize-int_text : (i : ℤ) → in_range i ≡ true → parse_isize (int_text i) ≡ some i
unfolding int_text in_range digits parse_isize
parse_isize-int_text (pos n) fits =
    parse_isize-unsigned (decimal (suc n) n "") n (decimal-starts_with_digit n n "")
      (digits-decimal (suc n) n "" (omega arith)) fits
parse_isize-int_text (negsuc n) fits =
    let text = decimal (suc (suc n)) (suc n) "" in
    let read : unsigned text ≡ some (suc n) =
      rw (unsigned-digits text (decimal-starts_with_digit (suc n) (suc n) ""))
        (digits-decimal (suc (suc n)) (suc n) "" (omega arith)) in
    let limit : leb (suc n) (2 ^ 63) ≡ true = ground (arith, fits) in
    rw (read, parse_isize, limit) refl
