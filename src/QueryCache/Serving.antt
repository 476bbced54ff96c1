-- ===== src/QueryCache/Serving.antt =====
-- What a lookup gives after an insert, and after the writes of a session.
use post_cortex.Base.{
  ℕ, ◌-◌, ◌/◌, max, ◌&&◌, is_some, String, ◌≡◌, refl, Bool, true, not, none, some, List, [], ◌∷◌,
  filter, length, eqb, inl, inr, Option-cases, if◌then◌else◌, ltb, leb, arith, Bool-cases,
}
use post_cortex.Base.Keys.{nat_eq, string_eq, ◌==◌}
use post_cortex.ConcurrentMap.{DashMaps, total}
use post_cortex.Core.Update.{Uuid}
use post_cortex.QueryCache.{
  QueryCache, QueryCacheConfig, CachedQuery, CacheScope, SemanticSearchResult, Runtime, len,
  sync_size, remove_where, get, hit, miss, is_expired, ttl_nanos, invalidate_session, covers,
  global, session, sessions, cached_query, sweep, capacity, cleanup_expired, evict_least_efficient,
  evict_keys, victims, scored, make_room, store, insert,
}
use post_cortex.QueryCache.Capacity.{cleanup_expired-len, evict_keys-config}
use post_cortex.QueryCache.Histories.{store-config, sweep-len}

-- Whether results of the scope come from the session: one over several sessions does if it lists
-- the session once at least.
abbrev pub involves : CacheScope → Uuid → Bool
involves global id = true
involves (session i) id = eqb i id
involves (sessions ids) id = ltb 0 (length (filter (λ i. eqb i id) ids))

covers-involves : (scope : CacheScope) (id : Uuid) → covers scope id ≡ involves scope id
unfolding covers
covers-involves global id = refl
covers-involves (session i) id = refl
covers-involves (sessions []) id = refl
covers-involves (sessions (i ∷ ids)) id =
    let rec = covers-involves (sessions ids) id in
    elim (Bool-cases (eqb i id)) [
      | inl this ↦ rw (this, covers) (ground arith)
      | inr other ↦ rw (other, covers) rec
    ]

module _ {D : DashMaps} {P : Type 0} where
  remove_where-cache :
      (c : QueryCache D P) (p : CachedQuery P → Bool)
      → (remove_where c p).0.cache ≡ D.retain c.cache (λ entry. not (p entry))
  unfolding remove_where sync_size
  remove_where-cache c p =
      elim (Bool-cases (ltb 0 (total (λ e. if p e then 1 else 0) (D.iter c.cache)))) [
        | inl some_went ↦ rw (some_went, remove_where) refl
        | inr none_went ↦ rw (none_went, remove_where) refl
      ]

  -- A write to a session takes away exactly the stored results that it can change: those over all
  -- sessions, of the session, or of several sessions of which it is one. The other slots are as they
  -- were.
  pub get-invalidate_session :
      (c : QueryCache D P) (session_id : Uuid) (k : ℕ)
      → D.get (invalidate_session c session_id).cache k ≡ elim (D.get c.cache k) [
        | none ↦ none
        | some entry ↦ if involves entry.scope session_id then none else some entry
      ]
  unfolding invalidate_session
  get-invalidate_session c session_id k =
      let kept = D.get-retain c.cache (λ entry. not (covers entry.scope session_id)) k in
      rw (remove_where-cache c (λ entry. covers entry.scope session_id), kept)
        (elim (Option-cases (D.get c.cache k)) [
          | inl missing ↦ rw missing refl
          | inr (entry, found) ↦
              let same = covers-involves entry.scope session_id in
              elim (Bool-cases (covers entry.scope session_id)) [
                | inl covered ↦ rw (found, ← same, covered) refl
                | inr free ↦ rw (found, ← same, free) refl
              ]
        ])

  evict_least_efficient-config :
      {F : Type 0} (R : Runtime F P) (now : ℕ) (c : QueryCache D P)
      → (evict_least_efficient R now c).config ≡ c.config
  unfolding evict_least_efficient sync_size
  evict_least_efficient-config R now c =
      let keys = victims R (max (c.config.max_cache_size / 10) 1) (scored R now (D.iter c.cache)) in
      elim (Bool-cases (ltb 0 (evict_keys c keys).1)) [
        | inl some_went ↦ rw (some_went, evict_least_efficient) (evict_keys-config c keys)
        | inr none_went ↦ rw (none_went, evict_least_efficient) (evict_keys-config c keys)
      ]

  make_room-config :
      {F : Type 0} (R : Runtime F P) (now : ℕ) (c : QueryCache D P) (k : ℕ)
      → (make_room R now c k).config ≡ c.config
  unfolding make_room
  make_room-config R now c k =
      let cleaned = cleanup_expired now c in
      let same = (cleanup_expired-len now c).1 in
      elim (Bool-cases (leb (capacity c.config) (len c) && not (is_some (D.get c.cache k)))) [
        | inr skipped ↦ rw (skipped, make_room) refl
        | inl needed ↦ elim (Bool-cases (leb (capacity c.config) (len cleaned))) [
          | inr freed ↦
              let room : make_room R now c k ≡ cleaned = rw (needed, make_room, freed) refl in
              rw room same
          | inl still ↦
              let room : make_room R now c k ≡ evict_least_efficient R now cleaned =
                rw (needed, make_room, still) refl in
              rw room (cc (evict_least_efficient-config R now cleaned, same))
        ]
      ]

  insert-config :
      {F : Type 0} (R : Runtime F P) (c : QueryCache D P) (now k : ℕ) (text : String)
      (results : List (SemanticSearchResult P)) (scope : CacheScope)
      → (insert R now c text results k scope).config ≡ c.config
  unfolding insert
  insert-config R c now k text results scope =
      let room = make_room R now (sweep now c) k in
      cc (
        store-config room k (cached_query R now text results k scope),
        make_room-config R now (sweep now c) k,
        (sweep-len now c).1,
      )

  stored :
      {F : Type 0} (R : Runtime F P) (c : QueryCache D P) (now k : ℕ) (text : String)
      (results : List (SemanticSearchResult P)) (scope : CacheScope)
      → D.get (insert R now c text results k scope).cache k
        ≡ some (cached_query R now text results k scope)
  unfolding insert store sync_size
  stored R c now k text results scope =
      let room = make_room R now (sweep now c) k in
      let entry = cached_query R now text results k scope in
      let written = D.get-insert room.cache k entry k in ground (arith, written)

  -- The answer, by the entry in the slot.
  get-found :
      (c : QueryCache D P) (later k : ℕ) (asked : String) (entry : CachedQuery P)
      (config : QueryCacheConfig)
      → c.config ≡ config
      → D.get c.cache k ≡ some entry
      → (get later c k asked).1 ≡ (
          if is_expired later config.ttl_minutes entry
          then none
          else if entry.query_text == asked
          then some entry.results
          else none)
  unfolding get hit miss
  get-found c later k asked entry config same_config found =
      elim (Bool-cases (is_expired later c.config.ttl_minutes entry)) [
        | inl expired ↦ rw (← same_config, found, get, expired) refl
        | inr fresh ↦ elim (Bool-cases (entry.query_text == asked)) [
          | inl same ↦ rw (← same_config, found, get, fresh, same) refl
          | inr other ↦ rw (← same_config, found, get, fresh, other) refl
        ]
      ]

  -- A lookup after an insert under the same hash: the results, if it asks for the text that was
  -- inserted before their time to live has passed, and nothing for another text or later.
  pub get-insert :
      {F : Type 0} (R : Runtime F P) (c : QueryCache D P) (now later k : ℕ) (text asked : String)
      (results : List (SemanticSearchResult P)) (scope : CacheScope)
      → (get later (insert R now c text results k scope) k asked).1 ≡ (
          if leb (ttl_nanos c.config.ttl_minutes) (later - now)
          then none
          else if text == asked
          then some results
          else none)
  unfolding is_expired cached_query
  get-insert R c now later k text asked results scope =
      get-found (insert R now c text results k scope) later k asked
        (cached_query R now text results k scope) c.config
        (insert-config R c now k text results scope) (stored R c now k text results scope)
