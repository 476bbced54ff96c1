-- ===== src/Graph/Names.antt =====
-- `entity_key`: the names that are spellings of one entity. The character tables of Unicode, which
-- the standard library holds, are a parameter.
use Prim.Native.Char.{Char, code}
use Prim.Native.String.{◌++◌}
use post_cortex.Base.{String, Bool, ◌||◌, if◌then◌else◌, eqb}
use post_cortex.Base.Keys.{string_eq, ◌==◌}

pub record Unicode : Type 0 where
  pub is_whitespace : Char → Bool
  pub char_to_lowercase : Char → String
  pub to_lowercase : String → String

-- Whitespace, `-` and `_` are left out.
unfoldable pub is_skipped : Unicode → Char → Bool
is_skipped u c = u.is_whitespace c || (eqb (code c) b'-' || eqb (code c) b'_')

-- The characters kept, in lower case.
unfoldable pub folded : Unicode → String → String
folded u String.[] = ""
folded u (String.◌∷◌ c name) =
    let rest = folded u name in if is_skipped u c then rest else u.char_to_lowercase c ++ rest

unfoldable pub entity_key : Unicode → String → String
entity_key u name = if folded u name == "" then u.to_lowercase name else folded u name
