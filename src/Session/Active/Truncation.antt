-- ===== src/Session/Active/Truncation.antt =====
-- `truncate_safe` and the limits on an update's content. A character takes the bytes of its UTF-8
-- encoding; the loop to the nearest boundary is the longest run of whole characters that fits.
use Prim.Native.Char.{Char, code}
use Prim.Native.String.{◌++◌ as str_append}
use post_cortex.Base.{
  ℕ, ◌+◌, ◌-◌, ◌≤◌, ◌≡◌, refl, String, if◌then◌else◌, leb, ltb, arith, inl, inr, Bool-cases,
}
use Prim.Native.String.append
use post_cortex.Core.Update.{ContextUpdate}

unfoldable pub utf8_len : Char → ℕ
utf8_len c =
    if ltb (code c) 128
    then 1
    else if ltb (code c) 2048
    then 2
    else if ltb (code c) 65536
    then 3
    else 4

unfoldable pub bytes : String → ℕ
bytes String.[] = 0
bytes (String.◌∷◌ c s) = utf8_len c + bytes s

-- The longest run of characters from the start within `max` bytes.
unfoldable pub prefix : String → ℕ → String
prefix String.[] max = String.[]
prefix (String.◌∷◌ c s) max =
    let rest = prefix s (max - utf8_len c) in
    if leb (utf8_len c) max then String.◌∷◌ c rest else String.[]

unfoldable pub truncate_safe : String → ℕ → String
truncate_safe s max = if leb (bytes s) max then s else prefix s max

abbrev pub max_description_bytes : ℕ
max_description_bytes = 65536

unfoldable pub limited_description : String → String
limited_description text =
    if ltb max_description_bytes (bytes text)
    then str_append (truncate_safe text max_description_bytes) "... (truncated)"
    else text

unfoldable pub limited_title : String → String
limited_title text =
    if ltb 200 (bytes text) then str_append (truncate_safe text 190) "..." else text

unfoldable pub limited : {F : Type 0} → ContextUpdate F → ContextUpdate F
limited update = record update {
  content = record update.content {
    description = limited_description update.content.description;
    title = limited_title update.content.title;
  };
}

pub bytes-prefix : (s : String) (max : ℕ) → bytes (prefix s max) ≤ max
unfolding bytes prefix
bytes-prefix String.[] max = omega arith
bytes-prefix (String.◌∷◌ c s) max = elim (Bool-cases (leb (utf8_len c) max)) [
  | inl fits ↦ let rest = bytes-prefix s (max - utf8_len c) in rw fits (ground (arith, fits, rest))
  | inr full ↦ rw full (omega arith)
]

bytes-append : (a b : String) → bytes (str_append a b) ≡ bytes a + bytes b
unfolding bytes
bytes-append String.[] b = rw (append.nil b) (omega arith)
bytes-append (String.◌∷◌ c a) b = rw (append.cons c a b) (omega (arith, bytes-append a b))

ellipsis_len : (bytes "..." ≡ 3) × (bytes "... (truncated)" ≡ 15)
unfolding bytes utf8_len
ellipsis_len = (refl, refl)

bytes-truncate_safe : (s : String) (max : ℕ) → bytes (truncate_safe s max) ≤ max
unfolding truncate_safe
bytes-truncate_safe s max = elim (Bool-cases (leb (bytes s) max)) [
  | inl fits ↦ rw fits (ground (arith, fits))
  | inr long ↦ rw long (bytes-prefix s max)
]

-- What a session stores of an update has a title of at most 200 bytes of UTF-8, and a description
-- of at most 65536 bytes and the 15 of the note that it was truncated.
pub limited-bytes :
    {F : Type 0} (update : ContextUpdate F)
    → (bytes (limited update).content.title ≤ 200)
      × (bytes (limited update).content.description ≤ 65551)
unfolding limited limited_title limited_description
limited-bytes update =
    (title_fits update.content.title, description_fits update.content.description)
  where
    title_fits : (text : String) → bytes (limited_title text) ≤ 200
    title_fits text = elim (Bool-cases (ltb 200 (bytes text))) [
      | inl long ↦
          rw (long, limited_title, bytes-append (truncate_safe text 190) "...", ellipsis_len.0)
            (omega (arith, bytes-truncate_safe text 190))
      | inr short ↦ rw (short, limited_title) (ground (arith, short))
    ]

    description_fits : (text : String) → bytes (limited_description text) ≤ 65551
    description_fits text = elim (Bool-cases (ltb max_description_bytes (bytes text))) [
      | inl long ↦
          rw
            (
              long,
              limited_description,
              bytes-append (truncate_safe text max_description_bytes) "... (truncated)",
              ellipsis_len.1,
            )
            (omega (arith, bytes-truncate_safe text max_description_bytes))
      | inr short ↦ rw (short, limited_description) (ground (arith, short))
    ]
