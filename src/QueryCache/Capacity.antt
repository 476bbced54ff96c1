-- ===== src/QueryCache/Capacity.antt =====
-- The number of entries: only `insert` adds one, and it makes room before.
use post_cortex.Base.{
  ℕ, ◌/◌, max, String, ◌≤◌, ◌<◌, ◌≡◌, ◌⊎◌, refl, Bool, true, false, not, ◌&&◌, List, [], ◌∷◌, inl,
  inr, if◌then◌else◌, is_some, any, ltb, leb, eqb, length, arith, Option-cases, Bool-cases,
}
use post_cortex.Base.Words.{wrapping_add}
use post_cortex.Base.Keys.{nat_eq, string_eq, ◌==◌}
use post_cortex.ConcurrentMap.{DashMaps, total, lookup}
use post_cortex.QueryCache.{
  QueryCache, CachedQuery, Runtime, len, capacity, sync_size, remove_entry, remove_where,
  cleanup_expired, is_expired, sub_bytes, miss, hit, get, evict_keys, evict_least_efficient, scored,
  victims, make_room,
}
use post_cortex.QueryCache.Accounting.{len-retain, evict_keys-len}

module _ {F P : Type 0} where
  -- A key that is scored is stored.
  scored-lookup :
      (R : Runtime F P) (now k : ℕ) (l : List (ℕ × CachedQuery P))
      → any (λ x. eqb x.1 k) (scored R now l) ≡ true
      → is_some (lookup k l) ≡ true
  unfolding scored lookup
  scored-lookup R now k [] h = cc
  scored-lookup R now k ((j, entry) ∷ l) h = elim (Bool-cases (eqb j k)) [
    | inl here ↦ rw here refl
    | inr later ↦ rw later (scored-lookup R now k l (rw (later, scored) at h))
  ]

  length-scored :
      (R : Runtime F P) (now : ℕ) (l : List (ℕ × CachedQuery P))
      → length (scored R now l) ≡ length l
  unfolding scored
  length-scored R now [] = refl
  length-scored R now ((j, entry) ∷ l) = omega (arith, length-scored R now l)

  any-victims :
      (R : Runtime F P) (p : F × ℕ → Bool) (n : ℕ) (all : List (F × ℕ))
      → any p (victims R n all) ≡ true
      → any p all ≡ true
  unfolding victims
  any-victims R p n all h = elim (Bool-cases (ltb n (length all))) [
    | inl more ↦ R.any-least p n all (rw (more, victims) at h)
    | inr few ↦ rw (few, victims) at h
  ]

  victims_some :
      (R : Runtime F P) (n : ℕ) (all : List (F × ℕ))
      → 0 < n
      → 0 < length all
      → 0 < length (victims R n all)
  unfolding victims
  victims_some R n all h k = elim (Bool-cases (ltb n (length all))) [
    | inl more ↦
        let count = R.length-least n all (ground (arith, more)) in rw (more, victims, count) h
    | inr few ↦ rw (few, victims) k
  ]

module _ {D : DashMaps} {P : Type 0} where
  pub remove_where-len :
      (c : QueryCache D P) (p : CachedQuery P → Bool)
      → (len (remove_where c p).0 ≤ len c) × ((remove_where c p).0.config ≡ c.config)
  unfolding remove_where sync_size len
  remove_where-len c p =
      let left = len-retain c p in
      elim (Bool-cases (ltb 0 (total (λ e. if p e then 1 else 0) (D.iter c.cache)))) [
        | inl some_went ↦ rw (some_went, remove_where) (omega (arith, left), refl)
        | inr none_went ↦ rw (none_went, remove_where) (omega (arith, left), refl)
      ]

  pub cleanup_expired-len :
      (now : ℕ) (c : QueryCache D P)
      → (len (cleanup_expired now c) ≤ len c) × ((cleanup_expired now c).config ≡ c.config)
  unfolding cleanup_expired len
  cleanup_expired-len now c =
      let fewer = remove_where-len c (is_expired now c.config.ttl_minutes) in
      elim (Bool-cases (ltb 0 (remove_where c (is_expired now c.config.ttl_minutes)).1)) [
        | inl some_went ↦ rw (some_went, cleanup_expired) (fewer.0, fewer.1)
        | inr none_went ↦ rw (none_went, cleanup_expired) fewer
      ]

  pub evict_keys-config :
      {F : Type 0} (c : QueryCache D P) (keys : List (F × ℕ))
      → (evict_keys c keys).0.config ≡ c.config
  unfolding evict_keys
  evict_keys-config c [] = refl
  evict_keys-config c ((score, key) ∷ rest) = elim (Option-cases (D.get c.cache key)) [
    | inl absent ↦ rw (absent, evict_keys) (evict_keys-config c rest)
    | inr (removed, found) ↦
        rw (found, evict_keys)
          (evict_keys-config
            (record c {
              cache = D.remove c.cache key;
              stats = sub_bytes c.stats removed.estimated_bytes;
            })
            rest)
  ]

  -- The first key goes, if it is there.
  evict_keys_some :
      {F : Type 0} (c : QueryCache D P) (keys : List (F × ℕ))
      → 0 < length keys
      → ((k : ℕ) → any (λ x. eqb x.1 k) keys ≡ true → is_some (D.get c.cache k) ≡ true)
      → 0 < (evict_keys c keys).1
  unfolding evict_keys
  evict_keys_some c [] h stored = omega (arith, h)
  evict_keys_some c ((score, key) ∷ rest) h stored = elim (Option-cases (D.get c.cache key)) [
    | inl absent ↦ let there = stored key (ground arith) in ground (arith, there, absent)
    | inr (removed, found) ↦ rw (found, evict_keys) (omega arith)
  ]

  evict_least_efficient-len :
      {F : Type 0} (R : Runtime F P) (now : ℕ) (c : QueryCache D P)
      → 0 < len c
      → (len (evict_least_efficient R now c) < len c)
        × ((evict_least_efficient R now c).config ≡ c.config)
  unfolding evict_least_efficient sync_size len
  evict_least_efficient-len R now c h =
      let batch = max (c.config.max_cache_size / 10) 1 in
      let all = scored R now (D.iter c.cache) in
      let keys = victims R batch all in
      let some_keys =
        victims_some R batch all (omega arith)
          (omega (arith, h, length-scored R now (D.iter c.cache))) in
      let went = evict_keys_some c keys some_keys (λ k there. rw (D.get-iter c.cache k) (
        scored-lookup R now k (D.iter c.cache) (any-victims R (λ x. eqb x.1 k) batch all there))) in
      let (count, same) = evict_keys-len c keys in
      let went_test : ltb 0 (evict_keys c keys).1 ≡ true = ground (arith, went) in
      rw (went_test, evict_least_efficient) (omega (arith, went, count), evict_keys-config c keys)

  pub get-len :
      (now : ℕ) (c : QueryCache D P) (k : ℕ) (text : String)
      → (len (get now c k text).0 ≤ len c) × ((get now c k text).0.config ≡ c.config)
  unfolding get miss hit len remove_entry sync_size
  get-len now c k text = elim (Option-cases (D.get c.cache k)) [
    | inl absent ↦ rw (absent, get) (omega arith, refl)
    | inr (entry, found) ↦ elim (Bool-cases (is_expired now c.config.ttl_minutes entry)) [
      | inl expired ↦ rw (found, get, expired) (ground (arith, D.len-remove c.cache k, found), refl)
      | inr fresh ↦ elim (Bool-cases (entry.query_text == text)) [
        | inl same ↦
            let accessed = record entry { access_count = wrapping_add entry.access_count 1 } in
            rw (found, get, fresh, same)
              (ground (arith, D.len-insert c.cache k accessed, found), refl)
        | inr other ↦ rw (found, get, fresh, other) (omega arith, refl)
      ]
    ]
  ]

  -- Room is made for a new key only.
  pub make_room-len :
      {F : Type 0} (R : Runtime F P) (now : ℕ) (c : QueryCache D P) (k : ℕ)
      → len c ≤ capacity c.config
      → ((is_some (D.get c.cache k) ≡ true) × (make_room R now c k ≡ c))
        ⊎ ((len (make_room R now c k) < capacity c.config)
            × ((make_room R now c k).config ≡ c.config))
  unfolding make_room
  make_room-len R now c k h = elim (Bool-cases (is_some (D.get c.cache k))) [
    | inl there ↦
        let skipped : (leb (capacity c.config) (len c) && not (is_some (D.get c.cache k))) ≡ false =
          ground (arith, there) in
        inl (there, rw (skipped, make_room) refl)
    | inr absent ↦ elim (Bool-cases (leb (capacity c.config) (len c))) [
      | inr room ↦
          let skipped : (leb (capacity c.config) (len c) && not (is_some (D.get c.cache k)))
              ≡ false =
            ground (arith, room) in
          inr (rw (skipped, make_room) (ground (arith, room), refl))
      | inl full ↦
          let needed : (leb (capacity c.config) (len c) && not (is_some (D.get c.cache k))) ≡ true =
            ground (arith, full, absent) in
          let cleaned = cleanup_expired now c in
          let (fewer, same) = cleanup_expired-len now c in
          elim (Bool-cases (leb (capacity c.config) (len cleaned))) [
            | inr freed ↦
                let room : make_room R now c k ≡ cleaned = rw (needed, make_room, freed) refl in
                inr (rw room (ground (arith, freed), same))
            | inl still ↦
                let room : make_room R now c k ≡ evict_least_efficient R now cleaned =
                  rw (needed, make_room, still) refl in
                let (less, kept) =
                  evict_least_efficient-len R now cleaned (ground (arith, still)) in
                inr (rw room (ground (arith, less, fewer, h), cc (kept, same)))
          ]
    ]
  ]
