-- ===== src/Cache/Reads.antt =====
-- What can be read after a `put`, and what the eviction picks.
use post_cortex.Base.{
  ℕ, ◌≤◌, ◌≢◌, ◌≡◌, refl, ◌∙◌, ap, false, ◌⊎◌, inl, inr, Option, none, some, arith, Bool-cases,
  Option-cases, leb, ltb, eqb, leb→le, min, ◌%◌, if◌then◌else◌,
}
use post_cortex.Base.Words.{wrapping_add}
use post_cortex.Base.Keys.{Eq, ◌==◌, ==-iff}
use post_cortex.ConcurrentMap.{DashMaps}
use post_cortex.Channel.{Channels}
use post_cortex.Cache.{
  Cache, new_with_logical_time, make_room, store, put, evict, try_evict_excluding, sample_window,
  eviction_sample, len,
}

differ : {K : Type 0} ⦃e : Eq K⦄ (k j : K) → k ≢ j → (k == j) ≡ false
differ k j h = elim (Bool-cases (k == j)) [
  | inl same ↦ absurd (h ((==-iff k j).0 same))
  | inr other ↦ other
]

module _ {D : DashMaps} {C : Channels} {K V : Type 0} ⦃e : Eq K⦄ where
  -- The value that a read of the key would return, without the bookkeeping of the read.
  abbrev pub peek : Cache D C K V → K → Option V
  peek c k = elim (D.get c.entries k) [ none ↦ none | some x ↦ some x.value ]

  store-peek :
      (c : Cache D C K V) (now : ℕ) (k : K) (v : V) (j : K)
      → peek (store c now k v).0 j ≡ (if k == j then some v else peek c j)
  unfolding store new_with_logical_time
  store-peek c now k v j = ground (arith, D.get-insert c.entries k (new_with_logical_time v now) j)

  -- Only the victim of the eviction is lost.
  abbrev pub IsWithout : Option K → Cache D C K V → Cache D C K V → Type 0
  IsWithout victim before after =
      ((j : K) → victim ≢ some j → peek after j ≡ peek before j)
      × ((j : K) → victim ≡ some j → peek after j ≡ none)

  unchanged-IsWithout : (c : Cache D C K V) → IsWithout none c c
  unchanged-IsWithout c = (λ j other. refl, λ j is_none. cc)

  evict-IsWithout :
      (clock : ℕ) (victim : Option K) (c : Cache D C K V)
      → IsWithout victim c (evict clock victim c)
  unfolding evict
  evict-IsWithout clock none c = (λ j other. refl, λ j is_none. cc)
  evict-IsWithout clock (some k) c = elim (Option-cases (D.get c.entries k)) [
    | inl missing ↦
        rw (missing, evict)
          (
            λ j other. refl,
            λ j this.
                let same : k ≡ j = cc in
                let gone : D.get c.entries j ≡ none = rw same at missing in rw (gone, peek) refl,
          )
    | inr (old, found) ↦
        rw (found, evict)
          (
            λ j other.
                let kept : D.get (D.remove c.entries k) j ≡ D.get c.entries j =
                  rw (D.get-remove c.entries k j, differ k j (λ same. other (ap some same))) refl in
                rw (kept, peek) refl,
            λ j this.
                let same : k ≡ j = cc in
                let gone : D.get (D.remove c.entries k) j ≡ none =
                  rw (D.get-remove c.entries k j, (==-iff k j).1 same) refl in
                rw (gone, peek) refl,
          )
  ]

  try_evict_excluding-IsWithout :
      (clock : ℕ) (ex : Option K) (c : Cache D C K V)
      → (victim : Option K) × IsWithout victim c (try_evict_excluding clock ex c)
  unfolding try_evict_excluding
  try_evict_excluding-IsWithout clock ex c = elim (Bool-cases (ltb c.current_size c.capacity)) [
    | inl below ↦ rw below (none, unchanged-IsWithout c)
    | inr full ↦ elim (Bool-cases (eqb (len c) 0)) [
      | inl empty ↦ rw (full, empty) (none, unchanged-IsWithout c)
      | inr some_left ↦
          let size = min eviction_sample (len c) in
          let victim =
            (sample_window ex c.global_access_counter (c.eviction_cursor % len c) size
              (D.iter c.entries)).0 in
          rw (full, some_left)
            (
              victim,
              evict-IsWithout clock victim
                  (record c { eviction_cursor = wrapping_add c.eviction_cursor size }),
            )
    ]
  ]

  -- There is no victim, or the cache was full and the key new.
  abbrev pub IsNeeded : Option K → Cache D C K V → K → Type 0
  IsNeeded victim c k = (victim ≡ none) ⊎ (c.capacity ≤ c.current_size) × (D.get c.entries k ≡ none)

  make_room-IsWithout :
      (clock : ℕ) (c : Cache D C K V) (k : K)
      → (victim : Option K) × IsWithout victim c (make_room clock c k) × IsNeeded victim c k
  unfolding make_room
  make_room-IsWithout clock c k = elim (Bool-cases (leb c.capacity c.current_size)) [
    | inr below ↦ rw below (none, unchanged-IsWithout c, inl refl)
    | inl full ↦ elim (Option-cases (D.get c.entries k)) [
      | inr (x, found) ↦ rw (full, found) (none, unchanged-IsWithout c, inl refl)
      | inl missing ↦
          let (victim, rest) = try_evict_excluding-IsWithout clock (some k) c in
          rw (full, missing) (victim, rest, inr (leb→le c.capacity c.current_size full, refl))
    ]
  ]

  -- After `put` the key reads as the new value.
  pub put-peek_self :
      (clock : ℕ) (c : Cache D C K V) (k : K) (v : V) → peek (put clock c k v).0 k ≡ some v
  unfolding put
  put-peek_self clock c k v =
      let now = wrapping_add c.global_access_counter 1 in
      let ticked = record c { global_access_counter = now } in
      store-peek (make_room clock ticked k) now k v k ∙ rw ((==-iff k k).1 refl)

  -- After `put` every other key reads as before, except for one victim at most, which reads as
  -- missing. There is a victim only if the put key was new and the cache was full.
  pub put-peek_ne :
      (clock : ℕ) (c : Cache D C K V) (k : K) (v : V)
      → (victim : Option K) × ((j : K)
          → k ≢ j
          → victim ≢ some j
          → peek (put clock c k v).0 j ≡ peek c j)
        × ((j : K) → k ≢ j → victim ≡ some j → peek (put clock c k v).0 j ≡ none)
        × IsNeeded victim c k
  unfolding put
  put-peek_ne clock c k v =
      let now = wrapping_add c.global_access_counter 1 in
      let ticked : Cache D C K V = record c { global_access_counter = now } in
      let (victim, without, needed) = make_room-IsWithout clock ticked k in
      (
        victim,
        λ j other lives.
            rw (store-peek (make_room clock ticked k) now k v j, differ k j other)
              (without.0 j lives),
        λ j other dies.
            rw (store-peek (make_room clock ticked k) now k v j, differ k j other)
              (without.1 j dies),
        needed,
      )
