-- ===== src/Cache.antt =====
-- crates/post-cortex-core/src/core/cache.rs: the approximate LRU cache, run by one caller at a
-- time. The map and the channel are interfaces; `now` is the clock reading of the call. Counters
-- are 64-bit and wrap as the atomics do.
pub mod Scan
pub mod Invariant
pub mod Reads
pub mod Priority
pub mod Resize
pub mod Histories
use post_cortex.Base.{
  ℕ, zero, suc, ◌+◌, ◌-◌, ◌/◌, ◌%◌, min, String, Bool, true, false, not, ◌||◌, Option, none, some,
  List, [], ◌∷◌, length, take, drop, ltb, leb, eqb, if◌then◌else◌, is_some,
}
use post_cortex.Base.Words.{wrapping_add, wrapping_sub}
use post_cortex.Base.Keys.{Eq, ◌==◌}
use post_cortex.ConcurrentMap.{DashMaps}
use post_cortex.Channel.{Channels}

pub record CacheEntry (V : Type 0) : Type 0 where
  pub value : V
  pub access_count : ℕ
  pub last_accessed : ℕ
  pub created_at : ℕ

pub data EvictionEvent (K : Type 0) : Type 0 where
  should_evict : K → ℕ → ℕ → EvictionEvent K
  evicted : K → ℕ → EvictionEvent K

pub record Cache (D : DashMaps) (C : Channels) (K V : Type 0) : Type 0 where
  pub entries : D.Map K (CacheEntry V)
  pub capacity : ℕ
  pub current_size : ℕ
  pub global_access_counter : ℕ
  pub hits : ℕ
  pub misses : ℕ
  pub evictions : ℕ
  pub eviction_cursor : ℕ
  pub name : String
  pub created_at : ℕ
  pub events : C.Chan (EvictionEvent K)

-- The number of entries examined per eviction.
abbrev pub eviction_sample : ℕ
eviction_sample = 20

unfoldable pub new_with_logical_time : {V : Type 0} → V → ℕ → CacheEntry V
new_with_logical_time v t = record {
  value = v;
  access_count = 1;
  last_accessed = t;
  created_at = t;
}

-- The logical time is the one that `fetch_add` on the global counter gives.
unfoldable pub touch : {V : Type 0} → CacheEntry V → ℕ → CacheEntry V
touch e t = record e { last_accessed = t; access_count = wrapping_add e.access_count 1 }

-- `saturating_sub` is the truncated subtraction.
unfoldable pub priority_score : {V : Type 0} → CacheEntry V → ℕ → ℕ
priority_score e now =
    let recency_factor = now - e.last_accessed in
    let frequency_factor = if ltb 0 e.access_count then 1000 / e.access_count else 1000 in
    wrapping_add recency_factor frequency_factor

unfoldable pub is_excluded : {K : Type 0} ⦃e : Eq K⦄ → Option K → K → Bool
is_excluded none k = false
is_excluded (some x) k = x == k

module _ {K V : Type 0} ⦃e : Eq K⦄ where
  -- The closure `consider`, with the two variables that it captures.
  unfoldable pub consider : Option K → ℕ → Option K × ℕ → K × CacheEntry V → Option K × ℕ
  unfolding is_excluded
  consider exclude now (candidate, highest) (key, entry) =
      let priority = priority_score entry now in
      if is_excluded exclude key
      then (candidate, highest)
      else if not (is_some candidate) || ltb highest priority
      then (some key, priority)
      else (candidate, highest)

  unfoldable pub consider_all : Option K → ℕ → Option K × ℕ → List (K × CacheEntry V) → Option K × ℕ
  consider_all exclude now seen [] = seen
  consider_all exclude now seen (x ∷ xs) = consider_all exclude now (consider exclude now seen x) xs

  -- The window from `start`, and its part that wraps to the beginning.
  unfoldable pub sample_window : Option K → ℕ → ℕ → ℕ → List (K × CacheEntry V) → Option K × ℕ
  sample_window exclude now start sample_size es =
      let window = take sample_size (drop start es) in
      let seen = consider_all exclude now (none, 0) window in
      if ltb (length window) sample_size
      then consider_all exclude now seen (take (sample_size - length window) es)
      else seen

module _ {D : DashMaps} {C : Channels} {K V : Type 0} ⦃e : Eq K⦄ where
  abbrev pub len : Cache D C K V → ℕ
  len c = length (D.iter c.entries)

  -- The end of `try_evict_excluding`: remove the candidate, if there is one and it is in the map.
  unfoldable pub evict : ℕ → Option K → Cache D C K V → Cache D C K V
  evict clock none c = c
  evict clock (some key) c = elim (D.get c.entries key) [
    | none ↦ c
    | some old ↦ record c {
      entries = D.remove c.entries key;
      current_size = wrapping_sub c.current_size 1;
      evictions = wrapping_add c.evictions 1;
      events = C.try_send c.events (evicted key clock);
    }
  ]

  unfoldable pub try_evict_excluding : ℕ → Option K → Cache D C K V → Cache D C K V
  try_evict_excluding clock exclude c =
      let sample_size = min eviction_sample (len c) in
      let start = c.eviction_cursor % len c in
      let seen =
        sample_window exclude c.global_access_counter start sample_size (D.iter c.entries) in
      if ltb c.current_size c.capacity
      then c
      else if eqb (len c) 0
      then c
      else evict clock seen.0
          (record c { eviction_cursor = wrapping_add c.eviction_cursor sample_size })

  unfoldable pub try_evict : ℕ → Cache D C K V → Cache D C K V
  try_evict clock = try_evict_excluding clock none

  unfoldable pub get : Cache D C K V → K → Cache D C K V × Option V
  get c key = elim (D.get c.entries key) [
    | none ↦ (record c { misses = wrapping_add c.misses 1 }, none)
    | some entry ↦
        let now = wrapping_add c.global_access_counter 1 in
        (
          record c {
            global_access_counter = now;
            entries = D.insert c.entries key (touch entry now);
            hits = wrapping_add c.hits 1;
          },
          some entry.value,
        )
  ]

  -- The eviction that `put` makes first.
  unfoldable pub make_room : ℕ → Cache D C K V → K → Cache D C K V
  make_room clock c key =
      if leb c.capacity c.current_size
      then (if is_some (D.get c.entries key) then c else try_evict_excluding clock (some key) c)
      else c

  -- The part of `put` after the eviction, with the logical time of the call.
  unfoldable pub store : Cache D C K V → ℕ → K → V → Cache D C K V × Option V
  store c now key v =
      let inserted = record c { entries = D.insert c.entries key (new_with_logical_time v now) } in
      elim (D.get c.entries key) [
        | none ↦ (record inserted { current_size = wrapping_add inserted.current_size 1 }, none)
        | some old ↦ (inserted, some old.value)
      ]

  unfoldable pub put : ℕ → Cache D C K V → K → V → Cache D C K V × Option V
  put clock c key v =
      let now = wrapping_add c.global_access_counter 1 in
      store (make_room clock (record c { global_access_counter = now }) key) now key v

  unfoldable pub contains_key : Cache D C K V → K → Bool
  contains_key c key = is_some (D.get c.entries key)

  unfoldable pub remove : Cache D C K V → K → Cache D C K V × Option V
  remove c key = elim (D.get c.entries key) [
    | none ↦ (c, none)
    | some entry ↦ (
      record c { entries = D.remove c.entries key; current_size = wrapping_sub c.current_size 1 },
      some entry.value,
    )
  ]

  unfoldable pub clear : Cache D C K V → Cache D C K V
  clear c = record c { entries = D.new; current_size = 0 }

  unfoldable pub reset_counters : Cache D C K V → Cache D C K V
  reset_counters c = record c { hits = 0; misses = 0; evictions = 0 }

  -- `for _ in 0..n { self.try_evict() }`; the clock is read anew in each round.
  unfoldable pub evict_times : (ℕ → ℕ) → ℕ → Cache D C K V → Cache D C K V
  evict_times clocks zero c = c
  evict_times clocks (suc n) c = evict_times clocks n (try_evict (clocks n) c)

  -- `none` is the error "Cache capacity must be greater than 0".
  unfoldable pub resize : (ℕ → ℕ) → Cache D C K V → ℕ → Option (Cache D C K V)
  resize clocks c new_capacity =
      let resized = record c { capacity = new_capacity } in
      if eqb new_capacity 0
      then none
      else if ltb new_capacity c.current_size
      then some (evict_times clocks (c.current_size - new_capacity) resized)
      else some resized

unfoldable pub new :
    (D : DashMaps) (C : Channels) (K V : Type 0) ⦃e : Eq K⦄
    → ℕ
    → ℕ
    → String
    → Option (Cache D C K V)
new D C K V clock capacity name =
    if eqb capacity 0
    then none
    else some (record {
      entries = D.new;
      capacity = capacity;
      current_size = 0;
      global_access_counter = 0;
      hits = 0;
      misses = 0;
      evictions = 0;
      eviction_cursor = 0;
      name = name;
      created_at = clock;
      events = C.bounded 1000;
    })
