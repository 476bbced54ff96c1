-- ===== src/HostAllowlist.antt =====
-- crates/post-cortex-daemon/src/daemon/host_allowlist.rs: which `Host` headers the endpoints accept.
-- The parsers of the `http` crate and of `std::net` are an interface.
pub mod Access
use Prim.Native.Char.{Char, code}
use Prim.Native.String.{◌++◌ as str_append}
use post_cortex.Base.{
  ℕ, Bool, true, false, not, ◌&&◌, ◌||◌, Option, none, some, is_some, List, [], ◌∷◌, ◌++◌, any,
  filter, String, if◌then◌else◌, eqb,
}
use post_cortex.Base.Keys.{nat_eq, string_eq, ◌==◌}
use post_cortex.ConcurrentMap.{lookup}
use post_cortex.JsonPath.Texts.{trim, contains, is_empty}

pub record Parsers : Type 0 where
  -- `Authority::try_from`, its `host` and its `port_u16`.
  pub authority : String → Option (String × Option ℕ)
  -- `parse::<IpAddr>` and its `is_unspecified`.
  pub ip_address : String → Option Bool
  -- Whether `parse::<Ipv6Addr>` succeeds.
  pub is_ipv6 : String → Bool

pub data HostPolicy : Type 0 where
  any_host : HostPolicy
  only : List String → HostPolicy

-- The parts of the configuration that are read.
pub record DaemonConfig : Type 0 where
  pub host : String
  pub allowed_hosts : List String

abbrev pub loopback_hosts : List String
loopback_hosts = "localhost" ∷ "127.0.0.1" ∷ "::1" ∷ []

abbrev pub public_paths : List String
public_paths = "/health" ∷ []

abbrev ascii_letters : List (ℕ × Char)
ascii_letters =
    (65, "a")
    ∷ (66, "b")
    ∷ (67, "c")
    ∷ (68, "d")
    ∷ (69, "e")
    ∷ (70, "f")
    ∷ (71, "g")
    ∷ (72, "h")
    ∷ (73, "i")
    ∷ (74, "j")
    ∷ (75, "k")
    ∷ (76, "l")
    ∷ (77, "m")
    ∷ (78, "n")
    ∷ (79, "o")
    ∷ (80, "p")
    ∷ (81, "q")
    ∷ (82, "r")
    ∷ (83, "s")
    ∷ (84, "t")
    ∷ (85, "u")
    ∷ (86, "v")
    ∷ (87, "w")
    ∷ (88, "x")
    ∷ (89, "y")
    ∷ (90, "z")
    ∷ []

abbrev lowercase : Option Char → Char → Char
lowercase none c = c
lowercase (some lower) c = lower

unfoldable pub to_ascii_lowercase : String → String
to_ascii_lowercase String.[] = String.[]
to_ascii_lowercase (String.◌∷◌ c s) =
    String.◌∷◌ (lowercase (lookup (code c) ascii_letters) c) (to_ascii_lowercase s)

unfoldable pub trim_start_matches : (ℕ → Bool) → String → String
trim_start_matches p String.[] = String.[]
trim_start_matches p (String.◌∷◌ c s) =
    let rest = trim_start_matches p s in if p (code c) then rest else String.◌∷◌ c s

unfoldable pub trim_end_matches : (ℕ → Bool) → String → String
trim_end_matches p String.[] = String.[]
trim_end_matches p (String.◌∷◌ c s) =
    let rest = trim_end_matches p s in
    if is_empty rest && p (code c) then String.[] else String.◌∷◌ c rest

abbrev pub is_bracket : ℕ → Bool
is_bracket b = eqb b b'[' || eqb b b']'

unfoldable pub normalize_host : String → String
normalize_host host =
    to_ascii_lowercase (trim_end_matches is_bracket (trim_start_matches is_bracket host))

-- The entries that are the first of their lower-case spelling.
unfoldable pub first_spellings : List String → List String → List String
first_spellings seen [] = []
first_spellings seen (entry ∷ rest) =
    let spelling = to_ascii_lowercase entry in
    let more = first_spellings (spelling ∷ seen) rest in
    if any (λ s. s == spelling) seen then more else entry ∷ more

abbrev pub listed : Option String → List String
listed none = []
listed (some entry) = entry ∷ []

pub data Outcome : Type 0 where
  entries : List String → Outcome
  disabled : Outcome
  invalid : String → Outcome

-- The error names the entry.
pub data Configured : Type 0 where
  ok : HostPolicy → Configured
  err : String → Configured

pub data Answer : Type 0 where
  forwarded : Answer
  forbidden : Answer
  missing_host : Answer

module _ (P : Parsers) where
  unfoldable pub parse_entry : String → Option (String × Option ℕ)
  parse_entry raw =
      let entry = trim raw in
      if is_empty entry
        || contains b'/' entry
        || contains b'@' entry
        || contains b' ' entry
        || contains b'*' entry
      then none
      else elim (P.authority entry) [
        | some (host, port) ↦ some (normalize_host host, port)
        | none ↦ if P.is_ipv6 entry then some (to_ascii_lowercase entry, none) else none
      ]

  unfoldable pub specific_bind_host : String → Option String
  specific_bind_host host =
      let trimmed =
        trim_end_matches (λ b. eqb b b']') (trim_start_matches (λ b. eqb b b'[') (trim host)) in
      let named = if is_empty trimmed then none else some trimmed in
      elim (P.ip_address trimmed) [
        | none ↦ named
        | some unspecified ↦ if unspecified then none else named
      ]

  -- The loop over the configured entries.
  unfoldable pub read_entries : List String → Outcome
  read_entries [] = entries []
  read_entries (raw ∷ rest) =
      if trim raw == "*"
      then disabled
      else if is_some (parse_entry (trim raw))
      then elim (read_entries rest) [
        | entries more ↦ entries (trim raw ∷ more)
        | disabled ↦ disabled
        | invalid entry ↦ invalid entry
      ]
      else invalid raw

  unfoldable pub from_config : DaemonConfig → Configured
  from_config config = elim (read_entries config.allowed_hosts) [
    | disabled ↦ ok any_host
    | invalid entry ↦ err entry
    | entries configured ↦ ok (
        only (
          first_spellings []
            (loopback_hosts ++ (listed (specific_bind_host config.host) ++ configured))))
  ]

  abbrev pub port_allowed : Option ℕ → Option ℕ → Bool
  port_allowed none port = true
  port_allowed (some p) none = false
  port_allowed (some p) (some port) = eqb port p

  unfoldable pub entry_allows : String → String × Option ℕ → Bool
  entry_allows entry authority = elim (parse_entry entry) [
    | none ↦ false
    | some (host, port) ↦ (host == normalize_host authority.0) && port_allowed port authority.1
  ]

  unfoldable pub allows : HostPolicy → String → Bool
  allows any_host host_header = true
  allows (only hosts) host_header = elim (P.authority (trim host_header)) [
    | none ↦ false
    | some authority ↦ any (λ entry. entry_allows entry authority) hosts
  ]

  -- With the path, the header if it is readable, and the authority of the URI.
  unfoldable pub require_allowed_host : HostPolicy → String → Option String → Option String → Answer
  require_allowed_host policy path header authority =
      if any (λ p. p == path) public_paths then forwarded else elim header [
        | some host ↦ if allows policy host then forwarded else forbidden
        | none ↦ elim authority [
          | some host ↦ if allows policy host then forwarded else forbidden
          | none ↦ missing_host
        ]
      ]
