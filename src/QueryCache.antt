-- ===== src/QueryCache.antt =====
-- crates/post-cortex-memory/src/query_cache.rs: search results by the hash of the query's
-- parameters, run by one caller at a time, so that an `Arc` read from a slot is the one in it.
-- Instants are nanoseconds. `F` is `f32`, the type of the eviction scores; `P` is what a search
-- result has besides the two texts that the size estimate reads.
pub mod Accounting
pub mod Capacity
pub mod Histories
pub mod Serving
use post_cortex.Base.{
  ℕ, zero, suc, ◌+◌, ◌-◌, ◌≤◌, ◌≡◌, ◌*◌, ◌/◌, ◌%◌, max, Bool, true, false, not, ◌&&◌, Option, none,
  some, List, [], ◌∷◌, map, String, if◌then◌else◌, is_some, eqb, ltb, leb, length, any,
}
use post_cortex.Base.Words.{wrapping_add, u64_mod}
use post_cortex.Base.Keys.{nat_eq, string_eq, ◌==◌}
use post_cortex.ConcurrentMap.{DashMaps, total}
use post_cortex.Core.Update.{Uuid}
use post_cortex.JsonPath.{ℤ, pos, negsuc}
use post_cortex.Session.Active.Truncation.{bytes}

abbrev pub expiry_sweep_interval : ℕ
expiry_sweep_interval = 64

pub record QueryCacheConfig : Type 0 where
  pub max_cache_size : ℕ
  pub ttl_minutes : ℤ

pub data CacheScope : Type 0 where
  global : CacheScope
  session : Uuid → CacheScope
  sessions : List Uuid → CacheScope

-- Whether a write to the session can change the results.
unfoldable pub covers : CacheScope → Uuid → Bool
covers global session_id = true
covers (session id) session_id = eqb id session_id
covers (sessions ids) session_id = any (λ id. eqb id session_id) ids

pub record SemanticSearchResult (P : Type 0) : Type 0 where
  pub content_id : String
  pub text_content : String
  pub other : P

pub record CachedQuery (P : Type 0) : Type 0 where
  pub query_text : String
  pub results : List (SemanticSearchResult P)
  pub scope : CacheScope
  pub params_hash : ℕ
  pub cached_at : ℕ
  pub access_count : ℕ
  pub estimated_bytes : ℕ

pub record QueryCacheStats : Type 0 where
  pub total_queries : ℕ
  pub cache_hits : ℕ
  pub cache_misses : ℕ
  pub expired_removed : ℕ
  pub evicted_entries : ℕ
  pub current_cache_size : ℕ
  pub estimated_memory_bytes : ℕ

-- What the compiler and the standard library give: the sizes of the two structs, the score of an
-- entry at a time, and `select_nth_unstable_by` on the scores with `truncate`, which keeps `n` of
-- a longer list; which of them is a matter of the scores alone.
pub record Runtime (F P : Type 0) : Type 0 where
  pub size_of_result : ℕ
  pub size_of_query : ℕ
  pub efficiency_score : ℕ → CachedQuery P → F
  pub least : ℕ → List (F × ℕ) → List (F × ℕ)
  pub length-least : (n : ℕ) (l : List (F × ℕ)) → n ≤ length l → length (least n l) ≡ n
  pub any-least :
      (p : F × ℕ → Bool) (n : ℕ) (l : List (F × ℕ)) → any p (least n l) ≡ true → any p l ≡ true

pub record QueryCache (D : DashMaps) (P : Type 0) : Type 0 where
  pub cache : D.Map ℕ (CachedQuery P)
  pub config : QueryCacheConfig
  pub stats : QueryCacheStats
  pub inserts : ℕ

unfoldable pub new : (D : DashMaps) (P : Type 0) → QueryCacheConfig → QueryCache D P
new D P config = record {
  cache = D.new;
  config = config;
  stats = record {
    total_queries = 0;
    cache_hits = 0;
    cache_misses = 0;
    expired_removed = 0;
    evicted_entries = 0;
    current_cache_size = 0;
    estimated_memory_bytes = 0;
  };
  inserts = 0;
}

-- `ttl_minutes.max(0)` in nanoseconds.
unfoldable pub ttl_nanos : ℤ → ℕ
ttl_nanos (pos n) = ((n * 60) % u64_mod) * 1000000000
ttl_nanos (negsuc n) = 0

unfoldable pub is_expired : {P : Type 0} → ℕ → ℤ → CachedQuery P → Bool
is_expired now ttl_minutes entry = leb (ttl_nanos ttl_minutes) (now - entry.cached_at)

unfoldable pub results_bytes : {P : Type 0} → ℕ → List (SemanticSearchResult P) → ℕ
results_bytes size [] = 0
results_bytes size (r ∷ rest) =
    (size + bytes r.content_id + bytes r.text_content) + results_bytes size rest

unfoldable pub estimate_entry_bytes :
    {F P : Type 0} → Runtime F P → String → List (SemanticSearchResult P) → ℕ
estimate_entry_bytes R query_text results =
    (bytes query_text + results_bytes R.size_of_result results + R.size_of_query) % u64_mod

unfoldable pub cached_query :
    {F P : Type 0}
    → Runtime F P
    → ℕ
    → String
    → List (SemanticSearchResult P)
    → ℕ
    → CacheScope
    → CachedQuery P
cached_query R now query_text results params_hash scope = record {
  query_text = query_text;
  results = results;
  scope = scope;
  params_hash = params_hash;
  cached_at = now;
  access_count = 0;
  estimated_bytes = estimate_entry_bytes R query_text results;
}

-- Saturating.
unfoldable pub sub_bytes : QueryCacheStats → ℕ → QueryCacheStats
sub_bytes stats freed = record stats {
  estimated_memory_bytes = stats.estimated_memory_bytes - freed;
}

-- The `max(1)` of the configured size.
abbrev pub capacity : QueryCacheConfig → ℕ
capacity config = max config.max_cache_size 1

unfoldable pub scored : {F P : Type 0} → Runtime F P → ℕ → List (ℕ × CachedQuery P) → List (F × ℕ)
scored R now [] = []
scored R now ((key, entry) ∷ rest) = (R.efficiency_score now entry, key) ∷ scored R now rest

unfoldable pub victims : {F P : Type 0} → Runtime F P → ℕ → List (F × ℕ) → List (F × ℕ)
victims R batch all = if ltb batch (length all) then R.least batch all else all

module _ {D : DashMaps} {P : Type 0} where
  unfoldable pub len : QueryCache D P → ℕ
  len c = length (D.iter c.cache)

  unfoldable pub sync_size : QueryCache D P → QueryCache D P
  sync_size c = record c { stats = record c.stats { current_cache_size = len c } }

  -- `remove_if_same` and `account_removed`.
  unfoldable pub remove_entry : QueryCache D P → ℕ → CachedQuery P → Bool → QueryCache D P
  remove_entry c params_hash removed expired =
      let freed = sub_bytes c.stats removed.estimated_bytes in
      sync_size (record c {
        cache = D.remove c.cache params_hash;
        stats =
            if expired
            then record freed { expired_removed = wrapping_add freed.expired_removed 1 }
            else freed;
      })

  unfoldable pub remove_where : QueryCache D P → (CachedQuery P → Bool) → QueryCache D P × ℕ
  remove_where c predicate =
      let removed = total (λ entry. if predicate entry then 1 else 0) (D.iter c.cache) in
      let freed =
        total (λ entry. if predicate entry then entry.estimated_bytes else 0) (D.iter c.cache) in
      let kept = record c { cache = D.retain c.cache (λ entry. not (predicate entry)) } in
      (
        if ltb 0 removed then sync_size (record kept { stats = sub_bytes c.stats freed }) else kept,
        removed,
      )

  unfoldable pub cleanup_expired : ℕ → QueryCache D P → QueryCache D P
  cleanup_expired now c =
      let swept = remove_where c (is_expired now c.config.ttl_minutes) in
      if ltb 0 swept.1
      then record swept.0 {
        stats = record swept.0.stats {
          expired_removed = wrapping_add swept.0.stats.expired_removed swept.1;
        };
      }
      else swept.0

  unfoldable pub miss : QueryCache D P → QueryCache D P × Option (List (SemanticSearchResult P))
  miss c = (
    record c { stats = record c.stats { cache_misses = wrapping_add c.stats.cache_misses 1 } },
    none,
  )

  -- `mark_accessed`, and the results.
  unfoldable pub hit :
      QueryCache D P → ℕ → CachedQuery P → QueryCache D P × Option (List (SemanticSearchResult P))
  hit c params_hash entry = (
    record c {
      cache =
          D.insert c.cache params_hash
            (record entry { access_count = wrapping_add entry.access_count 1 });
      stats = record c.stats { cache_hits = wrapping_add c.stats.cache_hits 1 };
    },
    some entry.results,
  )

  unfoldable pub get :
      ℕ → QueryCache D P → ℕ → String → QueryCache D P × Option (List (SemanticSearchResult P))
  get now c params_hash query_text =
      let counted = record c {
        stats = record c.stats { total_queries = wrapping_add c.stats.total_queries 1 };
      } in
      elim (D.get c.cache params_hash) [
        | none ↦ miss counted
        | some entry ↦
            if is_expired now c.config.ttl_minutes entry
            then miss (remove_entry counted params_hash entry true)
            else if entry.query_text == query_text
            then hit counted params_hash entry
            else miss counted
      ]

  unfoldable pub clear : QueryCache D P → QueryCache D P
  clear c = record c {
    cache = D.new;
    stats = record c.stats { current_cache_size = 0; estimated_memory_bytes = 0 };
  }

  unfoldable pub invalidate_session : QueryCache D P → Uuid → QueryCache D P
  invalidate_session c session_id = (remove_where c (λ entry. covers entry.scope session_id)).0

  -- The loop of `evict_least_efficient`, with the number of entries that went.
  unfoldable pub evict_keys : {F : Type 0} → QueryCache D P → List (F × ℕ) → QueryCache D P × ℕ
  evict_keys c [] = (c, 0)
  evict_keys c ((score, key) ∷ rest) = elim (D.get c.cache key) [
    | none ↦ evict_keys c rest
    | some removed ↦
        let more =
          evict_keys
            (record c {
              cache = D.remove c.cache key;
              stats = sub_bytes c.stats removed.estimated_bytes;
            })
            rest in
        (more.0, more.1 + 1)
  ]

  unfoldable pub evict_least_efficient :
      {F : Type 0} → Runtime F P → ℕ → QueryCache D P → QueryCache D P
  evict_least_efficient R now c =
      let batch = max (c.config.max_cache_size / 10) 1 in
      let gone = evict_keys c (victims R batch (scored R now (D.iter c.cache))) in
      if ltb 0 gone.1
      then sync_size (record gone.0 {
        stats = record gone.0.stats {
          evicted_entries = wrapping_add gone.0.stats.evicted_entries gone.1;
        };
      })
      else gone.0

  -- The sweep of every 64th insert.
  unfoldable pub sweep : ℕ → QueryCache D P → QueryCache D P
  sweep now c =
      let counted = record c { inserts = wrapping_add c.inserts 1 } in
      if eqb (counted.inserts % expiry_sweep_interval) 0
      then cleanup_expired now counted
      else counted

  -- Room for a new key.
  unfoldable pub make_room : {F : Type 0} → Runtime F P → ℕ → QueryCache D P → ℕ → QueryCache D P
  make_room R now c params_hash =
      if leb (capacity c.config) (len c) && not (is_some (D.get c.cache params_hash))
      then (let cleaned = cleanup_expired now c in
          if leb (capacity c.config) (len cleaned)
          then evict_least_efficient R now cleaned
          else cleaned)
      else c

  unfoldable pub store : QueryCache D P → ℕ → CachedQuery P → QueryCache D P
  store c params_hash entry =
      let freed = elim (D.get c.cache params_hash) as (λ o. QueryCacheStats) [
        | none ↦ c.stats
        | some old ↦ sub_bytes c.stats old.estimated_bytes
      ] in
      sync_size (record c {
        cache = D.insert c.cache params_hash entry;
        stats = record freed {
          estimated_memory_bytes = wrapping_add freed.estimated_memory_bytes entry.estimated_bytes;
        };
      })

  unfoldable pub insert :
      {F : Type 0}
      → Runtime F P
      → ℕ
      → QueryCache D P
      → String
      → List (SemanticSearchResult P)
      → ℕ
      → CacheScope
      → QueryCache D P
  insert R now c query_text results params_hash scope =
      store (make_room R now (sweep now c) params_hash) params_hash
        (cached_query R now query_text results params_hash scope)
