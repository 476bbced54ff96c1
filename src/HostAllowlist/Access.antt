-- ===== src/HostAllowlist/Access.antt =====
-- What the allowlist lets through.
use post_cortex.Base.{
  Bool, true, false, ◌≡◌, refl, Option, none, some, is_some, List, [], ◌∷◌, ◌++◌, any, map, String,
  ap, arith, ◌⊎◌, ℕ, ◌&&◌, if◌then◌else◌, inl, inr, Bool-cases, Option-cases,
}
use post_cortex.Base.Keys.{string_eq, ◌==◌, ==-iff, nat_eq}
use post_cortex.JsonPath.Texts.{trim}
use post_cortex.HostAllowlist.{
  Parsers, HostPolicy, any_host, only, DaemonConfig, loopback_hosts, public_paths,
  to_ascii_lowercase, first_spellings, listed, parse_entry, specific_bind_host, Outcome, entries,
  disabled, invalid, read_entries, Configured, ok, err, from_config, entry_allows, allows,
  forwarded, forbidden, normalize_host, port_allowed, require_allowed_host,
}

any-first_spellings :
    (p : String → Bool) (seen l : List String)
    → any p (first_spellings seen l) ≡ true
    → any p l ≡ true
unfolding first_spellings
any-first_spellings p seen [] h = h
any-first_spellings p seen (entry ∷ rest) h =
    let spelling = to_ascii_lowercase entry in
    let later = any-first_spellings p (spelling ∷ seen) rest in
    elim (Bool-cases (p entry)) [
      | inl here ↦ rw here refl
      | inr not_here ↦ elim (Bool-cases (any (λ s. s == spelling) seen)) [
        | inl known ↦ rw not_here (later (rw (known, first_spellings) at h))
        | inr first ↦ rw not_here (later (rw (first, first_spellings, not_here) at h))
      ]
    ]

abbrev is_star : String → Bool
is_star raw = trim raw == "*"

module _ (P : Parsers) where
  -- The entry's port, where it has one, is the port that was sent.
  port_allowed-same :
      (wanted sent : Option ℕ)
      → port_allowed P wanted sent ≡ true
      → (wanted ≡ none) ⊎ (wanted ≡ sent)
  port_allowed-same none sent h = inl refl
  port_allowed-same (some p) none h = cc
  port_allowed-same (some p) (some q) h = inr (ap some (ground (arith, h)))

  -- Without a star, the entries are those of the configuration.
  abbrev IsReading : List String → Outcome → Type 0
  IsReading raws (entries more) = more ≡ map trim raws
  IsReading raws disabled = any is_star raws ≡ true
  IsReading raws (invalid entry) = Unit {0}

  cons-IsReading :
      (raw : String) (rest : List String) (o : Outcome)
      → is_star raw ≡ false
      → IsReading rest o
      → IsReading (raw ∷ rest) (elim o as (λ o. Outcome) [
        | entries more ↦ entries (trim raw ∷ more)
        | disabled ↦ disabled
        | invalid entry ↦ invalid entry
      ])
  cons-IsReading raw rest (entries more) star h = ap (◌∷◌ (trim raw)) h
  cons-IsReading raw rest disabled star h = rw star h
  cons-IsReading raw rest (invalid entry) star h = tt

  read_entries-IsReading : (raws : List String) → IsReading raws (read_entries P raws)
  unfolding read_entries
  read_entries-IsReading [] = refl
  read_entries-IsReading (raw ∷ rest) = elim (Bool-cases (is_star raw)) [
    | inl star ↦ rw (star, read_entries) (rw star refl)
    | inr plain ↦ elim (Bool-cases (is_some (parse_entry P (trim raw)))) [
      | inl good ↦
          rw (plain, read_entries, good)
            (cons-IsReading raw rest (read_entries P rest) plain (read_entries-IsReading rest))
      | inr bad ↦ rw (plain, read_entries, bad) tt
    ]
  ]

  -- An entry that reads as the host that was sent, and names no port or the port that was sent.
  abbrev pub IsMatch : String → String × Option ℕ → Type 0
  IsMatch entry sent =
      (host : String) × (port : Option ℕ) × (parse_entry P entry ≡ some (host, port))
      × (host ≡ normalize_host sent.0)
      × ((port ≡ none) ⊎ (port ≡ sent.1))

  abbrev pub HasMatch : List String → String × Option ℕ → Type 0
  HasMatch [] sent = ⊥
  HasMatch (entry ∷ rest) sent = IsMatch entry sent ⊎ HasMatch rest sent

  -- The header, or the authority of the URI, reads as a host and a port that match an entry: a name
  -- of the loopback, the host that the daemon is bound to, or an entry of the configuration.
  abbrev pub IsConfigured : DaemonConfig → Option String → Type 0
  IsConfigured config none = ⊥
  IsConfigured config (some host) =
      (sent : String × Option ℕ) × (P.authority (trim host) ≡ some sent)
      × HasMatch
          (loopback_hosts
            ++ (listed (specific_bind_host P config.host) ++ map trim config.allowed_hosts))
          sent

  entry_allows-IsMatch :
      (entry : String) (sent : String × Option ℕ)
      → entry_allows P entry sent ≡ true
      → IsMatch entry sent
  unfolding entry_allows
  entry_allows-IsMatch entry sent h = elim (Option-cases (parse_entry P entry)) [
    | inl unreadable ↦ absurd (ground (arith, rw (unreadable, entry_allows) at h))
    | inr ((host, port), read) ↦
        let both : ((host == normalize_host sent.0) && port_allowed P port sent.1) ≡ true =
          rw (read, entry_allows) at h in
        elim (Bool-cases (host == normalize_host sent.0)) [
          | inl same ↦ (
            host,
            port,
            read,
            (==-iff host (normalize_host sent.0)).0 same,
            port_allowed-same port sent.1 (rw same at both),
          )
          | inr other ↦ absurd (ground (arith, rw other at both))
        ]
  ]

  any-HasMatch :
      (l : List String) (sent : String × Option ℕ)
      → any (λ entry. entry_allows P entry sent) l ≡ true
      → HasMatch l sent
  any-HasMatch [] sent h = absurd (ground (arith, h))
  any-HasMatch (entry ∷ rest) sent h = elim (Bool-cases (entry_allows P entry sent)) [
    | inl here ↦ inl (entry_allows-IsMatch entry sent here)
    | inr not_here ↦ inr (any-HasMatch rest sent (rw not_here at h))
  ]

  allows-only :
      (config : DaemonConfig) (host : String)
      → allows P
          (only (
            first_spellings [] (
              loopback_hosts
              ++ (listed (specific_bind_host P config.host) ++ map trim config.allowed_hosts))))
          host
        ≡ true
      → IsConfigured config (some host)
  unfolding allows
  allows-only config host h = elim (Option-cases (P.authority (trim host))) [
    | inl unreadable ↦ absurd (ground (arith, rw (unreadable, allows) at h))
    | inr (sent, read) ↦
        let all =
          loopback_hosts
          ++ (listed (specific_bind_host P config.host) ++ map trim config.allowed_hosts) in
        (
          sent,
          read,
          any-HasMatch all sent (
              any-first_spellings (λ entry. entry_allows P entry sent) [] all
                (rw (read, allows) at h)),
        )
  ]

  -- A policy that lets through configured hosts only.
  abbrev IsGuarding : DaemonConfig → String → Configured → Type 0
  IsGuarding config host (ok policy) = allows P policy host ≡ true → IsConfigured config (some host)
  IsGuarding config host (err entry) = Unit {0}

  read-IsGuarding :
      (config : DaemonConfig) (host : String) (o : Outcome)
      → any is_star config.allowed_hosts ≡ false
      → IsReading config.allowed_hosts o
      → IsGuarding config host (elim o as (λ o. Configured) [
        | disabled ↦ ok any_host
        | invalid entry ↦ err entry
        | entries configured ↦ ok (
            only (
              first_spellings []
                (loopback_hosts ++ (listed (specific_bind_host P config.host) ++ configured))))
      ])
  read-IsGuarding config host (entries more) plain same = rw same (allows-only config host)
  read-IsGuarding config host disabled plain star = absurd (ground (arith, plain, star))
  read-IsGuarding config host (invalid entry) plain same = tt

  -- What a request sends to be judged by.
  abbrev pub sent_host : Option String → Option String → Option String
  sent_host (some host) authority = some host
  sent_host none authority = authority

  -- The judgement of one host.
  judged :
      (config : DaemonConfig) (policy : HostPolicy) (host : String)
      → from_config P config ≡ ok policy
      → any (λ raw. trim raw == "*") config.allowed_hosts ≡ false
      → (if allows P policy host then forwarded else forbidden) ≡ forwarded
      → IsConfigured config (some host)
  unfolding from_config
  judged config policy host made plain passed =
      let guard : IsGuarding config host (from_config P config) =
        read-IsGuarding config host (read_entries P config.allowed_hosts) plain
          (read_entries-IsReading config.allowed_hosts) in
      let guarded : IsGuarding config host (ok policy) = rw made at guard in
      elim (Bool-cases (allows P policy host)) [
        | inl allowed ↦ guarded allowed
        | inr refused ↦ let answer = rw refused at passed in cc
      ]

  -- With no star in the configuration, a request outside the public paths is forwarded only if the
  -- host and port of its readable `Host` header, or of the authority of its URI where it has no
  -- such header, match a name of the loopback, the host that the daemon is bound to, or an entry of
  -- the configuration: the hosts are equal once normalized, and the entry names no port or the
  -- same one. One with neither is not forwarded.
  pub require_allowed_host-IsConfigured :
      (config : DaemonConfig) (policy : HostPolicy) (path : String)
      (header authority : Option String)
      → from_config P config ≡ ok policy
      → any (λ raw. trim raw == "*") config.allowed_hosts ≡ false
      → any (λ p. p == path) public_paths ≡ false
      → require_allowed_host P policy path header authority ≡ forwarded
      → IsConfigured config (sent_host header authority)
  unfolding require_allowed_host
  require_allowed_host-IsConfigured config policy path (some host) authority made plain private
        passed =
      judged config policy host made plain (rw (private, require_allowed_host) at passed)
  require_allowed_host-IsConfigured config policy path none (some host) made plain private passed =
      judged config policy host made plain (rw (private, require_allowed_host) at passed)
  require_allowed_host-IsConfigured config policy path none none made plain private passed =
      let answer = rw (private, require_allowed_host) at passed in cc
