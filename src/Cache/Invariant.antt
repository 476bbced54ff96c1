-- ===== src/Cache/Invariant.antt =====
-- The invariant of the cache, and that every operation preserves it.
use post_cortex.Base.{
  ℕ, ◌+◌, ◌≤◌, ◌<◌, ◌%◌, min, ◌≡◌, refl, true, ◌⊎◌, inl, inr, Option, none, some, List, is_some,
  arith, ap, ◌∙◌, leb→le, le→ltb_false, pos→eqb_false, leb, eqb, ltb, Bool-cases, Option-cases,
}
use native.Mathlib.Nat.{mod-lt}
use post_cortex.Base.Words.{u64_mod, wrapping_add, wrapping_sub}
use post_cortex.Base.Keys.{Eq, ◌==◌}
use post_cortex.ConcurrentMap.{DashMaps, get-occupied}
use post_cortex.Channel.{Channels}
use post_cortex.Cache.{
  Cache, CacheEntry, len, evict, try_evict_excluding, sample_window, get, make_room, put, remove,
  clear, store, new_with_logical_time, touch, eviction_sample,
}
use post_cortex.Cache.Scan.{
  NoneExcluded, sample_window-HasKey, sample_window-some, HasKey-lookup, absent-NoneExcluded,
}

module _ {D : DashMaps} {C : Channels} {K V : Type 0} ⦃e : Eq K⦄ where
  -- The size counter agrees with the map, and the map fits the capacity.
  pub record IsConsistent (c : Cache D C K V) : Type 0 where
    pub counted : c.current_size ≡ len c
    pub fits : len c ≤ c.capacity
    pub positive : 0 < c.capacity
    pub word : c.capacity < u64_mod

  -- What an eviction does to a full cache: exactly one entry goes, and the counter follows.
  pub record Shrinks (c c' : Cache D C K V) : Type 0 where
    pub entries_less : len c' + 1 ≡ len c
    pub counter_less : c'.current_size + 1 ≡ len c
    pub same_capacity : c'.capacity ≡ c.capacity

  evict-Shrinks :
      (clock : ℕ) (o : Option K) (c : Cache D C K V)
      → is_some o ≡ true
      → ((k : K) → o ≡ some k → is_some (D.get c.entries k) ≡ true)
      → c.current_size ≡ len c
      → 0 < len c
      → len c < u64_mod
      → Shrinks c (evict clock o c)
  unfolding evict wrapping_sub
  evict-Shrinks clock none c h found counted p word = cc
  evict-Shrinks clock (some k) c h found counted p word =
      ground (arith, found k refl, D.len-remove c.entries k)

  -- An eviction from a full map that excludes none of its keys removes exactly one entry.
  pub try_evict_excluding-Shrinks :
      (clock : ℕ) (ex : Option K) (c : Cache D C K V)
      → c.current_size ≡ len c
      → len c < u64_mod
      → c.capacity ≤ c.current_size
      → 0 < len c
      → NoneExcluded ex (D.iter c.entries)
      → Shrinks c (try_evict_excluding clock ex c)
  unfolding try_evict_excluding
  try_evict_excluding-Shrinks clock ex c counted word full p h =
      rw (le→ltb_false c.current_size c.capacity full, pos→eqb_false (len c) p)
        (record {
          entries_less = shrinks.entries_less;
          counter_less = shrinks.counter_less;
          same_capacity = shrinks.same_capacity;
        })
    where
      es : List (K × CacheEntry V)
      es = D.iter c.entries

      size : ℕ
      size = min eviction_sample (len c)

      start : ℕ
      start = c.eviction_cursor % len c

      seen : Option K × ℕ
      seen = sample_window ex c.global_access_counter start size es

      stored : (k : K) → seen.0 ≡ some k → is_some (D.get c.entries k) ≡ true
      stored k q =
          rw D.get-iter
            (HasKey-lookup k es (sample_window-HasKey ex c.global_access_counter start size es k q))

      shrinks :
          Shrinks
            (record c { eviction_cursor = wrapping_add c.eviction_cursor size })
            (evict clock seen.0
              (record c { eviction_cursor = wrapping_add c.eviction_cursor size }))
      shrinks =
          evict-Shrinks clock seen.0 _
            (sample_window-some ex c.global_access_counter start size es h (omega arith)
              (mod-lt c.eviction_cursor p))
            stored counted p word

  -- An eviction changes a lookup only by losing the entry.
  pub get-evict :
      (clock : ℕ) (o : Option K) (c : Cache D C K V) (j : K)
      → (D.get (evict clock o c).entries j ≡ D.get c.entries j)
        ⊎ (D.get (evict clock o c).entries j ≡ none)
  unfolding evict
  get-evict clock none c j = inl refl
  get-evict clock (some k) c j = elim (Option-cases (D.get c.entries k)) [
    | inl missing ↦ inl (rw (missing, evict))
    | inr (old, found) ↦ elim (Bool-cases (k == j)) [
      | inl same ↦ inr (rw (found, evict, D.get-remove, same))
      | inr other ↦ inl (rw (found, evict, D.get-remove, other))
    ]
  ]

  pub get-try_evict_excluding :
      (clock : ℕ) (ex : Option K) (c : Cache D C K V) (j : K)
      → (D.get (try_evict_excluding clock ex c).entries j ≡ D.get c.entries j)
        ⊎ (D.get (try_evict_excluding clock ex c).entries j ≡ none)
  unfolding try_evict_excluding
  get-try_evict_excluding clock ex c j = elim (Bool-cases (ltb c.current_size c.capacity)) [
    | inl below ↦ inl (rw below)
    | inr full ↦ elim (Bool-cases (eqb (len c) 0)) [
      | inl empty ↦ inl (rw (full, empty))
      | inr some_left ↦ rw (full, some_left) (get-evict clock _ _ j)
    ]
  ]

  -- There is room for one more entry, and the key is still absent.
  pub record HasRoom (c : Cache D C K V) (capacity : ℕ) (key : K) : Type 0 where
    pub counted : c.current_size ≡ len c
    pub room : len c + 1 ≤ capacity
    pub same_capacity : c.capacity ≡ capacity
    pub absent : D.get c.entries key ≡ none

  pub make_room-HasRoom :
      (clock : ℕ) (c : Cache D C K V) (key : K)
      → IsConsistent c
      → D.get c.entries key ≡ none
      → HasRoom (make_room clock c key) c.capacity key
  unfolding make_room
  make_room-HasRoom clock c key v absent = elim (Bool-cases (leb c.capacity c.current_size)) [
    | inr below ↦
        rw below (record {
          counted = v.counted;
          room = ground arith;
          same_capacity = refl;
          absent = absent;
        })
    | inl full ↦
        let shrinks =
          try_evict_excluding-Shrinks clock (some key) c v.counted (omega (arith, v.fits, v.word))
            (leb→le c.capacity c.current_size full)
            (omega (arith, leb→le c.capacity c.current_size full, v.counted, v.positive))
            (absent-NoneExcluded key (D.iter c.entries) (rw D.get-iter at absent)) in
        rw (full, absent)
          (record {
            counted = omega (arith, shrinks.entries_less, shrinks.counter_less);
            room = omega (arith, shrinks.entries_less, v.fits);
            same_capacity = shrinks.same_capacity;
            absent = elim (get-try_evict_excluding clock (some key) c key) [
              | inl same ↦ same ∙ absent
              | inr gone ↦ gone
            ];
          })
  ]

  -- Replacing the value of a key evicts nothing.
  pub make_room_present :
      (clock : ℕ) (c : Cache D C K V) (key : K)
      → is_some (D.get c.entries key) ≡ true
      → make_room clock c key ≡ c
  unfolding make_room
  make_room_present clock c key h = elim (Bool-cases (leb c.capacity c.current_size)) [
    | inl full ↦ rw (full, h)
    | inr below ↦ rw below
  ]

  store_absent-IsConsistent :
      (c : Cache D C K V) (capacity now : ℕ) (key : K) (v : V)
      → HasRoom c capacity key
      → capacity < u64_mod
      → IsConsistent (store c now key v).0
  unfolding store wrapping_add
  store_absent-IsConsistent c capacity now key v h word = ground (
    arith,
    h.counted,
    h.room,
    h.absent,
    h.same_capacity,
    D.len-insert c.entries key (new_with_logical_time v now),
  )

  store_present-IsConsistent :
      (c : Cache D C K V) (now : ℕ) (key : K) (v : V) {old : CacheEntry V}
      → IsConsistent c
      → D.get c.entries key ≡ some old
      → IsConsistent (store c now key v).0
  unfolding store
  store_present-IsConsistent c now key v h found =
      ground (arith, D.len-insert c.entries key (new_with_logical_time v now))

  -- A tick of the logical clock changes nothing that the invariant speaks of.
  ticked-IsConsistent :
      (c : Cache D C K V) (t : ℕ)
      → IsConsistent c
      → IsConsistent (record c { global_access_counter = t })
  ticked-IsConsistent c t h = record {
    counted = h.counted;
    fits = h.fits;
    positive = h.positive;
    word = h.word;
  }

  -- `put` keeps the size counter right and never passes the capacity.
  pub put-IsConsistent :
      (clock : ℕ) (c : Cache D C K V) (key : K) (v : V)
      → IsConsistent c
      → IsConsistent (put clock c key v).0
  unfolding put
  put-IsConsistent clock c key v h =
      let now = wrapping_add c.global_access_counter 1 in
      let ticked = ticked-IsConsistent c now h in
      elim (Option-cases (D.get c.entries key)) [
        | inl absent ↦
            store_absent-IsConsistent _ c.capacity now key v
              (make_room-HasRoom clock _ key ticked absent) h.word
        | inr (old, found) ↦
            rw
              (make_room_present clock (record c { global_access_counter = now }) key
                (ap is_some found))
              (store_present-IsConsistent _ now key v ticked found)
      ]

  -- A read keeps the size counter equal to the number of entries, and both within the capacity.
  pub get-IsConsistent : (c : Cache D C K V) (key : K) → IsConsistent c → IsConsistent (get c key).0
  unfolding get
  get-IsConsistent c key h = elim (Option-cases (D.get c.entries key)) [
    | inl missing ↦ ground arith
    | inr (x, found) ↦
        ground
          (arith, D.len-insert c.entries key (touch x (wrapping_add c.global_access_counter 1)))
  ]

  -- A removal keeps the size counter equal to the number of entries, and both within the capacity.
  pub remove-IsConsistent :
      (c : Cache D C K V) (key : K) → IsConsistent c → IsConsistent (remove c key).0
  unfolding remove wrapping_sub
  remove-IsConsistent c key h =
      ground (arith, D.len-remove c.entries key, get-occupied D c.entries key)

  -- Clearing the cache keeps the size counter equal to the number of entries, and both within the capacity.
  pub clear-IsConsistent : (c : Cache D C K V) → IsConsistent c → IsConsistent (clear c)
  unfolding clear
  clear-IsConsistent c h = ground (arith, D.iter-new {K = K} {V = CacheEntry V} ⦃e = e⦄)
