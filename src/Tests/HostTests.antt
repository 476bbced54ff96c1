-- ===== src/Tests/HostTests.antt =====
-- The allowlist with a small parser of authorities, which knows no ports.
use post_cortex.Base.{◌≡◌, refl, true, none, some, [], ◌∷◌, if◌then◌else◌}
use post_cortex.Base.Keys.{string_eq, ◌==◌, nat_eq}
use post_cortex.ConcurrentMap.{lookup}
use post_cortex.JsonPath.Texts.{trim, trim_start, trim_end, contains, is_whitespace}
use post_cortex.HostAllowlist.{
  Parsers, HostPolicy, only, DaemonConfig, ok, forwarded, forbidden, missing_host,
  to_ascii_lowercase, trim_start_matches, trim_end_matches, normalize_host, first_spellings,
  parse_entry, specific_bind_host, read_entries, from_config, entry_allows, allows,
  require_allowed_host,
}
use post_cortex.HostAllowlist.Access.{IsConfigured, require_allowed_host-IsConfigured}

abbrev names : Parsers
names = record {
  authority = λ s. if contains b':' s then none else some (s, none);
  ip_address = λ s. if s == "0.0.0.0" then some true else none;
  is_ipv6 = λ s. s == "::1";
}

abbrev tailnet : DaemonConfig
tailnet = record { host = "0.0.0.0"; allowed_hosts = "My-Mac.ts.net" ∷ "LOCALHOST" ∷ [] }

abbrev policy : HostPolicy
policy = only ("localhost" ∷ "127.0.0.1" ∷ "::1" ∷ "My-Mac.ts.net" ∷ [])

program : Unit {0}
unfolding lookup trim trim_start trim_end contains is_whitespace to_ascii_lowercase
    trim_start_matches trim_end_matches normalize_host first_spellings parse_entry
    specific_bind_host read_entries from_config entry_allows allows require_allowed_host
program = tt

from_config_lem : from_config names tailnet ≡ ok policy
unfolding program
from_config_lem = refl

answers :
    (require_allowed_host names policy "/api/x" (some "my-mac.TS.net") none ≡ forwarded)
    × (require_allowed_host names policy "/api/x" (some "evil.example") none ≡ forbidden)
    × (require_allowed_host names policy "/api/x" none none ≡ missing_host)
    × (require_allowed_host names policy "/health" (some "evil.example") none ≡ forwarded)
unfolding program
answers = (refl, refl, refl, refl)

require_allowed_host-IsConfigured_example : IsConfigured names tailnet (some "my-mac.TS.net")
unfolding program
require_allowed_host-IsConfigured_example =
    require_allowed_host-IsConfigured names tailnet policy "/api/x" none (some "my-mac.TS.net")
      from_config_lem refl refl refl
