-- ===== src/QueryCache/Accounting.antt =====
-- The counters of the cache: the bytes of the entries and their number.
use post_cortex.Base.{
  ℕ, ◌+◌, ◌-◌, ◌/◌, max, String, ◌<◌, ◌≡◌, refl, Bool, true, not, some, List, [], ◌∷◌, inl, inr,
  if◌then◌else◌, is_some, ltb, length, arith, Option-cases, Bool-cases,
}
use post_cortex.Base.Words.{wrapping_add, wrapping_add_lem, u64_mod}
use post_cortex.Base.Keys.{nat_eq, string_eq, ◌==◌}
use post_cortex.ConcurrentMap.{DashMaps, total, get-occupied}
use post_cortex.QueryCache.{
  QueryCache, CachedQuery, Runtime, len, sync_size, remove_entry, remove_where, cleanup_expired,
  is_expired, sub_bytes, miss, hit, get, clear, evict_keys, evict_least_efficient, scored, victims,
  store,
}

-- Sums over the entries.
module _ {K V : Type 0} where
  total_split :
      (p : V → Bool) (f : V → ℕ) (l : List (K × V))
      → total (λ v. if p v then f v else 0) l + total (λ v. if not (p v) then f v else 0) l
        ≡ total f l
  unfolding total
  total_split p f [] = omega arith
  total_split p f ((k, v) ∷ l) = ground (arith, total_split p f l)

  total_none :
      (p : V → Bool) (f : V → ℕ) (l : List (K × V))
      → total (λ v. if p v then 1 else 0) l ≡ 0
      → total (λ v. if p v then f v else 0) l ≡ 0
  unfolding total
  total_none p f [] h = refl
  total_none p f ((k, v) ∷ l) h = elim (Bool-cases (p v)) [
    | inl holds ↦ ground (arith, holds, h)
    | inr fails ↦ ground (arith, fails, total_none p f l (ground (arith, fails, h)))
  ]

  pub length-total : (l : List (K × V)) → total (λ v. 1) l ≡ length l
  unfolding total
  length-total [] = refl
  length-total ((k, v) ∷ l) = omega (arith, length-total l)

module _ {D : DashMaps} {P : Type 0} where
  abbrev pub entries_bytes : QueryCache D P → ℕ
  entries_bytes c = total (λ entry. entry.estimated_bytes) (D.iter c.cache)

  -- The counter of bytes is the sum of the entries' estimates, the counter of entries their number.
  pub record IsAccounted (c : QueryCache D P) : Type 0 where
    pub memory : c.stats.estimated_memory_bytes ≡ entries_bytes c
    pub size : c.stats.current_cache_size ≡ len c

  remove_entry-IsAccounted :
      (c : QueryCache D P) (k : ℕ) (entry : CachedQuery P) (expired : Bool)
      → D.get c.cache k ≡ some entry
      → IsAccounted c
      → IsAccounted (remove_entry c k entry expired)
  unfolding remove_entry sync_size sub_bytes len
  remove_entry-IsAccounted c k entry expired found h =
      let gone = D.total-remove (λ e. e.estimated_bytes) c.cache k in
      record { memory = ground (arith, h.memory, gone, found); size = refl }

  -- The sum over what is kept, and the number of it.
  kept_bytes :
      (c : QueryCache D P) (p : CachedQuery P → Bool) (f : CachedQuery P → ℕ)
      → total (λ e. if p e then f e else 0) (D.iter c.cache)
          + total f (D.iter (D.retain c.cache (λ e. not (p e))))
        ≡ total f (D.iter c.cache)
  kept_bytes c p f =
      rw (D.total-retain f c.cache (λ e. not (p e))) (total_split p f (D.iter c.cache))

  pub len-retain :
      (c : QueryCache D P) (p : CachedQuery P → Bool)
      → total (λ e. if p e then 1 else 0) (D.iter c.cache)
          + length (D.iter (D.retain c.cache (λ e. not (p e))))
        ≡ len c
  unfolding len
  len-retain c p =
      rw
        (
          ← length-total (D.iter (D.retain c.cache (λ e. not (p e)))),
          ← length-total (D.iter c.cache),
        )
        (kept_bytes c p (λ e. 1))

  pub remove_where-IsAccounted :
      (c : QueryCache D P) (p : CachedQuery P → Bool)
      → IsAccounted c
      → IsAccounted (remove_where c p).0
  unfolding remove_where sync_size sub_bytes len
  remove_where-IsAccounted c p h =
      let bytes_left = kept_bytes c p (λ e. e.estimated_bytes) in
      let left = len-retain c p in
      elim (Bool-cases (ltb 0 (total (λ e. if p e then 1 else 0) (D.iter c.cache)))) [
        | inl some_went ↦
            rw (some_went, remove_where)
              (record { memory = omega (arith, h.memory, bytes_left); size = refl })
        | inr none_went ↦
            let nothing : total (λ e. if p e then 1 else 0) (D.iter c.cache) ≡ 0 =
              ground (arith, none_went) in
            let no_bytes = total_none p (λ e. e.estimated_bytes) (D.iter c.cache) nothing in
            rw (none_went, remove_where)
              (record {
                memory = omega (arith, h.memory, bytes_left, no_bytes);
                size = omega (arith, h.size, left, nothing);
              })
      ]

  pub cleanup_expired-IsAccounted :
      (now : ℕ) (c : QueryCache D P) → IsAccounted c → IsAccounted (cleanup_expired now c)
  unfolding cleanup_expired len
  cleanup_expired-IsAccounted now c h =
      let swept = remove_where c (is_expired now c.config.ttl_minutes) in
      let kept = remove_where-IsAccounted c (is_expired now c.config.ttl_minutes) h in
      elim (Bool-cases (ltb 0 swept.1)) [
        | inl some_went ↦
            rw (some_went, cleanup_expired) (record { memory = kept.memory; size = kept.size })
        | inr none_went ↦ rw (none_went, cleanup_expired) kept
      ]

  evict_keys-memory :
      {F : Type 0} (c : QueryCache D P) (keys : List (F × ℕ))
      → c.stats.estimated_memory_bytes ≡ entries_bytes c
      → (evict_keys c keys).0.stats.estimated_memory_bytes ≡ entries_bytes (evict_keys c keys).0
  unfolding evict_keys sub_bytes
  evict_keys-memory c [] h = h
  evict_keys-memory c ((score, key) ∷ rest) h = elim (Option-cases (D.get c.cache key)) [
    | inl absent ↦ rw (absent, evict_keys) (evict_keys-memory c rest h)
    | inr (removed, found) ↦
        let gone = D.total-remove (λ e. e.estimated_bytes) c.cache key in
        rw (found, evict_keys)
          (evict_keys-memory
            (record c {
              cache = D.remove c.cache key;
              stats = sub_bytes c.stats removed.estimated_bytes;
            })
            rest (ground (arith, h, gone, found)))
  ]

  -- As many entries go as are counted, and the counter of entries waits for `sync_size`.
  pub evict_keys-len :
      {F : Type 0} (c : QueryCache D P) (keys : List (F × ℕ))
      → (len (evict_keys c keys).0 + (evict_keys c keys).1 ≡ len c)
        × ((evict_keys c keys).0.stats.current_cache_size ≡ c.stats.current_cache_size)
  unfolding evict_keys len sub_bytes
  evict_keys-len c [] = (omega arith, refl)
  evict_keys-len c ((score, key) ∷ rest) = elim (Option-cases (D.get c.cache key)) [
    | inl absent ↦ rw (absent, evict_keys) (evict_keys-len c rest)
    | inr (removed, found) ↦
        let fewer = record c {
          cache = D.remove c.cache key;
          stats = sub_bytes c.stats removed.estimated_bytes;
        } in
        let (more, same) = evict_keys-len fewer rest in
        let present : is_some (D.get c.cache key) ≡ true = rw found refl in
        rw (found, evict_keys)
          (
            ground
                (arith, more, D.len-remove c.cache key, found, get-occupied D c.cache key present),
            same,
          )
  ]

  pub evict_least_efficient-IsAccounted :
      {F : Type 0} (R : Runtime F P) (now : ℕ) (c : QueryCache D P)
      → IsAccounted c
      → IsAccounted (evict_least_efficient R now c)
  unfolding evict_least_efficient sync_size len
  evict_least_efficient-IsAccounted R now c h =
      let keys = victims R (max (c.config.max_cache_size / 10) 1) (scored R now (D.iter c.cache)) in
      let memory = evict_keys-memory c keys h.memory in
      let (count, same) = evict_keys-len c keys in
      elim (Bool-cases (ltb 0 (evict_keys c keys).1)) [
        | inl some_went ↦
            rw (some_went, evict_least_efficient) (record { memory = memory; size = refl })
        | inr none_went ↦
            rw (none_went, evict_least_efficient)
              (record { memory = memory; size = ground (arith, none_went, count, same, h.size) })
      ]

  pub get-IsAccounted :
      (now : ℕ) (c : QueryCache D P) (k : ℕ) (text : String)
      → IsAccounted c
      → IsAccounted (get now c k text).0
  unfolding get miss hit len
  get-IsAccounted now c k text h = elim (Option-cases (D.get c.cache k)) [
    | inl absent ↦ rw (absent, get) (record { memory = h.memory; size = h.size })
    | inr (entry, found) ↦ elim (Bool-cases (is_expired now c.config.ttl_minutes entry)) [
      | inl expired ↦
          let counted = record c {
            stats = record c.stats { total_queries = wrapping_add c.stats.total_queries 1 };
          } in
          let swept =
            remove_entry-IsAccounted counted k entry true found
              (record { memory = h.memory; size = h.size }) in
          rw (found, get, expired) (record { memory = swept.memory; size = swept.size })
      | inr fresh ↦ elim (Bool-cases (entry.query_text == text)) [
        | inl same ↦
            let accessed = record entry { access_count = wrapping_add entry.access_count 1 } in
            let swapped = D.total-insert (λ e. e.estimated_bytes) c.cache k accessed in
            rw (found, get, fresh, same)
              (record {
                memory = ground (arith, h.memory, swapped, found);
                size = ground (arith, h.size, D.len-insert c.cache k accessed, found);
              })
        | inr other ↦ rw (found, get, fresh, other) (record { memory = h.memory; size = h.size })
      ]
    ]
  ]

  pub clear-IsAccounted : (c : QueryCache D P) → IsAccounted (clear c)
  unfolding clear len total
  clear-IsAccounted c = record {
    memory = rw (D.iter-new {K = ℕ} {V = CachedQuery P}) refl;
    size = rw (D.iter-new {K = ℕ} {V = CachedQuery P}) refl;
  }

  pub store-IsAccounted :
      (c : QueryCache D P) (k : ℕ) (entry : CachedQuery P)
      → entries_bytes (store c k entry) < u64_mod
      → IsAccounted c
      → IsAccounted (store c k entry)
  unfolding store sync_size len sub_bytes
  store-IsAccounted c k entry fits h =
      let swapped = D.total-insert (λ e. e.estimated_bytes) c.cache k entry in
      elim (Option-cases (D.get c.cache k)) [
        | inl absent ↦
            rw (absent, store)
              (record {
                memory = ground (
                  arith,
                  h.memory,
                  swapped,
                  absent,
                  fits,
                  wrapping_add_lem c.stats.estimated_memory_bytes entry.estimated_bytes,
                );
                size = refl;
              })
        | inr (old, found) ↦
            rw (found, store)
              (record {
                memory = ground (
                  arith,
                  h.memory,
                  swapped,
                  found,
                  fits,
                  D.total-remove (λ e. e.estimated_bytes) c.cache k,
                  wrapping_add_lem (c.stats.estimated_memory_bytes - old.estimated_bytes)
                      entry.estimated_bytes,
                );
                size = refl;
              })
      ]
