-- ===== src/QueryCache/Histories.antt =====
-- Calls of the cache in any order, each at a time of its own.
use post_cortex.Base.{
  ℕ, suc, ◌%◌, max, String, ◌≤◌, ◌<◌, ◌≡◌, refl, Bool, true, not, ◌&&◌, List, [], ◌∷◌, inl, inr,
  if◌then◌else◌, is_some, ltb, leb, eqb, arith, Bool-cases,
}
use post_cortex.Base.Words.{wrapping_add, u64_mod}
use post_cortex.Base.Keys.{nat_eq}
use post_cortex.ConcurrentMap.{DashMaps, total}
use post_cortex.Core.Update.{Uuid}
use post_cortex.QueryCache.{
  QueryCache, remove_where, QueryCacheConfig, CachedQuery, CacheScope, SemanticSearchResult,
  Runtime, len, capacity, sync_size, cleanup_expired, get, clear, invalidate_session, covers,
  cached_query, sweep, make_room, store, insert, new, expiry_sweep_interval,
}
use post_cortex.QueryCache.Accounting.{
  IsAccounted, entries_bytes, remove_where-IsAccounted, cleanup_expired-IsAccounted,
  evict_least_efficient-IsAccounted, get-IsAccounted, clear-IsAccounted, store-IsAccounted,
}
use post_cortex.QueryCache.Capacity.{remove_where-len, cleanup_expired-len, get-len, make_room-len}

pub data Call (P : Type 0) : Type 0 where
  lookup_of : ℕ → ℕ → String → Call P
  insert_of : ℕ → String → List (SemanticSearchResult P) → ℕ → CacheScope → Call P
  invalidate_of : Uuid → Call P
  cleanup_of : ℕ → Call P
  clear_of : Call P

module _ {P : Type 0} {D : DashMaps} where
  sweep-IsAccounted : (now : ℕ) (c : QueryCache D P) → IsAccounted c → IsAccounted (sweep now c)
  unfolding sweep len
  sweep-IsAccounted now c h =
      let counted = record c { inserts = wrapping_add c.inserts 1 } in
      let same : IsAccounted counted = record { memory = h.memory; size = h.size } in
      elim (Bool-cases (eqb (wrapping_add c.inserts 1 % expiry_sweep_interval) 0)) [
        | inl due ↦ rw (due, sweep) (cleanup_expired-IsAccounted now counted same)
        | inr not_due ↦ rw (not_due, sweep) same
      ]

  -- What a call keeps: no more entries than fit, the configuration the cache started with.
  record HasRoom (config : QueryCacheConfig) (c : QueryCache D P) : Type 0 where
    few : len c ≤ capacity config
    same : c.config ≡ config

  fewer-HasRoom :
      (config : QueryCacheConfig) (c d : QueryCache D P)
      → (len d ≤ len c) × (d.config ≡ c.config)
      → HasRoom config c
      → HasRoom config d
  fewer-HasRoom config c d (less, kept) h = record {
    few = omega (arith, less, h.few);
    same = cc (kept, h.same);
  }

  store-len :
      (c : QueryCache D P) (k : ℕ) (entry : CachedQuery P)
      → len (store c k entry) ≡ (if is_some (D.get c.cache k) then len c else suc (len c))
  unfolding store sync_size len
  store-len c k entry = D.len-insert c.cache k entry

  pub store-config :
      (c : QueryCache D P) (k : ℕ) (entry : CachedQuery P) → (store c k entry).config ≡ c.config
  unfolding store sync_size
  store-config c k entry = refl

  pub sweep-len :
      (now : ℕ) (c : QueryCache D P)
      → (len (sweep now c) ≤ len c) × ((sweep now c).config ≡ c.config)
  unfolding sweep len
  sweep-len now c =
      let counted = record c { inserts = wrapping_add c.inserts 1 } in
      elim (Bool-cases (eqb (wrapping_add c.inserts 1 % expiry_sweep_interval) 0)) [
        | inl due ↦ rw (due, sweep) (cleanup_expired-len now counted)
        | inr not_due ↦ rw (not_due, sweep) (omega arith, refl)
      ]

module _ {F P : Type 0} {D : DashMaps} where
  unfoldable pub step : Runtime F P → QueryCache D P → Call P → QueryCache D P
  step R c (lookup_of now k text) = (get now c k text).0
  step R c (insert_of now text results k scope) = insert R now c text results k scope
  step R c (invalidate_of id) = invalidate_session c id
  step R c (cleanup_of now) = cleanup_expired now c
  step R c clear_of = clear c

  unfoldable pub run : Runtime F P → QueryCache D P → List (Call P) → QueryCache D P
  run R c [] = c
  run R c (call ∷ rest) = run R (step R c call) rest

  -- After each call the estimates add up to less than `2 ^ 64`.
  unfoldable pub fits : Runtime F P → QueryCache D P → List (Call P) → Bool
  fits R c [] = true
  fits R c (call ∷ rest) =
      ltb (entries_bytes (step R c call)) u64_mod && fits R (step R c call) rest

  make_room-IsAccounted :
      (R : Runtime F P) (now : ℕ) (c : QueryCache D P) (k : ℕ)
      → IsAccounted c
      → IsAccounted (make_room R now c k)
  unfolding make_room
  make_room-IsAccounted R now c k h =
      let cleaned = cleanup_expired now c in
      let kept = cleanup_expired-IsAccounted now c h in
      elim (Bool-cases (leb (capacity c.config) (len c) && not (is_some (D.get c.cache k)))) [
        | inr skipped ↦ rw (skipped, make_room) h
        | inl needed ↦ elim (Bool-cases (leb (capacity c.config) (len cleaned))) [
          | inr freed ↦ rw (needed, make_room, freed) kept
          | inl still ↦
              rw (needed, make_room, still) (evict_least_efficient-IsAccounted R now cleaned kept)
        ]
      ]

  stored-HasRoom :
      (R : Runtime F P) (now : ℕ) (config : QueryCacheConfig) (c : QueryCache D P) (k : ℕ)
      (entry : CachedQuery P)
      → HasRoom config c
      → HasRoom config (store (make_room R now c k) k entry)
  unfolding len
  stored-HasRoom R now config c k entry h =
      let room = make_room R now c k in
      let count = store-len room k entry in
      let bound : len c ≤ capacity c.config = rw h.same h.few in
      elim (make_room-len R now c k bound) [
        | inl (there, unchanged) ↦ record {
          few = ground (arith, count, unchanged, there, h.few);
          same = cc (store-config room k entry, unchanged, h.same);
        }
        | inr (less, kept) ↦
            let limit : len room < capacity config = rw (← h.same) less in
            record {
              few = ground (arith, count, limit);
              same = cc (store-config room k entry, kept, h.same);
            }
      ]

  step-HasRoom :
      (R : Runtime F P) (config : QueryCacheConfig) (c : QueryCache D P) (call : Call P)
      → HasRoom config c
      → HasRoom config (step R c call)
  unfolding step insert invalidate_session clear len
  step-HasRoom R config c (lookup_of now k text) h =
      fewer-HasRoom config c (get now c k text).0 (get-len now c k text) h
  step-HasRoom R config c (insert_of now text results k scope) h =
      stored-HasRoom R now config (sweep now c) k (cached_query R now text results k scope)
        (fewer-HasRoom config c (sweep now c) (sweep-len now c) h)
  step-HasRoom R config c (invalidate_of id) h =
      fewer-HasRoom config c (remove_where c (λ entry. covers entry.scope id)).0
        (remove_where-len c (λ entry. covers entry.scope id)) h
  step-HasRoom R config c (cleanup_of now) h =
      fewer-HasRoom config c (cleanup_expired now c) (cleanup_expired-len now c) h
  step-HasRoom R config c clear_of h = record {
    few = rw (D.iter-new {K = ℕ} {V = CachedQuery P}) (omega arith);
    same = h.same;
  }

  run-HasRoom :
      (R : Runtime F P) (config : QueryCacheConfig) (c : QueryCache D P) (calls : List (Call P))
      → HasRoom config c
      → HasRoom config (run R c calls)
  unfolding run
  run-HasRoom R config c [] h = h
  run-HasRoom R config c (call ∷ rest) h =
      run-HasRoom R config (step R c call) rest (step-HasRoom R config c call h)

  step-IsAccounted :
      (R : Runtime F P) (c : QueryCache D P) (call : Call P)
      → entries_bytes (step R c call) < u64_mod
      → IsAccounted c
      → IsAccounted (step R c call)
  unfolding step insert invalidate_session
  step-IsAccounted R c (lookup_of now k text) fit h = get-IsAccounted now c k text h
  step-IsAccounted R c (insert_of now text results k scope) fit h =
      store-IsAccounted (make_room R now (sweep now c) k) k
        (cached_query R now text results k scope) fit
        (make_room-IsAccounted R now (sweep now c) k (sweep-IsAccounted now c h))
  step-IsAccounted R c (invalidate_of id) fit h =
      remove_where-IsAccounted c (λ entry. covers entry.scope id) h
  step-IsAccounted R c (cleanup_of now) fit h = cleanup_expired-IsAccounted now c h
  step-IsAccounted R c clear_of fit h = clear-IsAccounted c

  IsAccounted-run :
      (R : Runtime F P) (c : QueryCache D P) (calls : List (Call P))
      → fits R c calls ≡ true
      → IsAccounted c
      → IsAccounted (run R c calls)
  unfolding run fits
  IsAccounted-run R c [] fit h = h
  IsAccounted-run R c (call ∷ rest) fit h =
      let after = step R c call in
      IsAccounted-run R after rest (ground (arith, fit))
        (step-IsAccounted R c call (ground (arith, fit)) h)

module _ {F P : Type 0} (D : DashMaps) where
  -- After any calls of a new cache, the counter of bytes is the sum of the estimates of the
  -- entries that are stored and the counter of entries their number, if no call brings the
  -- estimates of the stored entries to `2 ^ 64` bytes together.
  pub run-IsAccounted :
      (R : Runtime F P) (config : QueryCacheConfig) (calls : List (Call P))
      → fits R (new D P config) calls ≡ true
      → IsAccounted (run R (new D P config) calls)
  unfolding new len total
  run-IsAccounted R config calls fit = IsAccounted-run R (new D P config) calls fit (record {
    memory = rw (D.iter-new {K = ℕ} {V = CachedQuery P}) refl;
    size = rw (D.iter-new {K = ℕ} {V = CachedQuery P}) refl;
  })

  -- After any calls of a new cache, it holds at most as many entries as it is configured for,
  -- one if it is configured for none.
  pub len-run :
      (R : Runtime F P) (config : QueryCacheConfig) (calls : List (Call P))
      → len (run R (new D P config) calls) ≤ max config.max_cache_size 1
  unfolding new len
  len-run R config calls =
      let room =
        run-HasRoom R config (new D P config) calls (record {
          few = rw (D.iter-new {K = ℕ} {V = CachedQuery P}) (omega arith);
          same = refl;
        }) in
      room.few
