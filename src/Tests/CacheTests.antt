-- ===== src/Tests/CacheTests.antt =====
-- The cache on concrete maps.
use post_cortex.Base.{ℕ, Option, ◌≡◌, ◌≢◌, refl, none, some, List, [], ◌∷◌, ◌++◌, arith}
use post_cortex.Base.Words.{wrapping_add, wrapping_sub}
use post_cortex.Base.Keys.{nat_eq}
use post_cortex.ConcurrentMap.{lookup}
use post_cortex.ConcurrentMap.Assoc.{assoc_maps, without, entries}
use post_cortex.Channel.{Channels}
use post_cortex.Cache.{
  Cache, CacheEntry, touch, priority_score, is_excluded, consider, consider_all, sample_window,
  evict, try_evict_excluding, get, make_room, store, put, resize, new_with_logical_time, new,
}
use post_cortex.Cache.Invariant.{IsConsistent}
use post_cortex.Cache.Histories.{
  Call, puts, gets, removes, resizes, clears, in_words, run, run-IsConsistent,
}
use post_cortex.Cache.Reads.{peek, put-peek_self, put-peek_ne, IsNeeded}
use post_cortex.Cache.Resize.{IsResized, resize-IsResized}
use post_cortex.Cache.Priority.{sampled, AtMost, Attains, sample_window-best}

abbrev list_channels : Channels
list_channels = record {
  Chan = λ E. List E;
  bounded = λ n. [];
  try_send = λ c e. c ++ e ∷ [];
  try_recv = λ c. elim c [ [] ↦ none | e ∷ rest ↦ some (e, rest) ];
}

abbrev entry : ℕ → ℕ → ℕ → CacheEntry ℕ
entry v n t = record { value = v; access_count = n; last_accessed = t; created_at = t }

-- Full: key 1 was read often and late, key 2 was never read again.
abbrev two : Cache assoc_maps list_channels ℕ ℕ
two = record {
  entries = (1, entry 10 5 7) ∷ (2, entry 20 1 2) ∷ [];
  capacity = 2;
  current_size = 2;
  global_access_counter = 7;
  hits = 4;
  misses = 0;
  evictions = 0;
  eviction_cursor = 0;
  name = "session";
  created_at = 1000;
  events = [];
}

program : Unit {0}
unfolding lookup without entries wrapping_add wrapping_sub touch priority_score is_excluded consider
    consider_all sample_window evict try_evict_excluding get make_room store put
    new_with_logical_time
program = tt

-- A new key evicts key 2, the one with the higher priority.
put_evicts :
    (peek (put 5 two 3 30).0 1 ≡ some 10)
    × (peek (put 5 two 3 30).0 2 ≡ none)
    × (peek (put 5 two 3 30).0 3 ≡ some 30)
    × ((put 5 two 3 30).0.current_size ≡ 2)
unfolding program
put_evicts = (refl, refl, refl, refl)

two-IsConsistent : IsConsistent two
unfolding lookup without entries
two-IsConsistent = record {
  counted = refl;
  fits = omega arith;
  positive = omega arith;
  word = omega arith;
}

put-peek_self_example : peek (put 5 two 3 30).0 3 ≡ some 30
put-peek_self_example = put-peek_self 5 two 3 30

put-peek_ne_example :
    (victim : Option ℕ) × ((j : ℕ)
      → 3 ≢ j
      → victim ≢ some j
      → peek (put 5 two 3 30).0 j ≡ peek two j)
    × ((j : ℕ) → 3 ≢ j → victim ≡ some j → peek (put 5 two 3 30).0 j ≡ none)
    × IsNeeded victim two 3
put-peek_ne_example = put-peek_ne 5 two 3 30

resize-IsResized_example :
    (c' : Cache assoc_maps list_channels ℕ ℕ) × (resize (λ n. n) two 1 ≡ some c')
    × IsResized 1 two c'
resize-IsResized_example =
    resize-IsResized (λ n. n) two 1 two-IsConsistent (omega arith) (omega arith)

picked : (sample_window (some 3) 8 1 1 two.entries).0 ≡ some 2
unfolding program
picked = refl

sample_window-best_example :
    AtMost (some 3) 8 (sample_window (some 3) 8 1 1 two.entries).1 (sampled 1 1 two.entries)
    × Attains (some 3) 8 2 (sample_window (some 3) 8 1 1 two.entries).1 (sampled 1 1 two.entries)
sample_window-best_example =
    sample_window-best (some 3) 8 1 1 two.entries 2 (omega arith) (omega arith) picked

abbrev started : Cache assoc_maps list_channels ℕ ℕ
started = record {
  entries = [];
  capacity = 2;
  current_size = 0;
  global_access_counter = 0;
  hits = 0;
  misses = 0;
  evictions = 0;
  eviction_cursor = 0;
  name = "session";
  created_at = 1000;
  events = [];
}

abbrev busy : List (Call ℕ ℕ)
busy =
    puts 1 7 70
    ∷ puts 2 8 80
    ∷ gets 7
    ∷ puts 3 9 90
    ∷ resizes (λ n. n) 1
    ∷ removes 7
    ∷ resizes (λ n. n) 0
    ∷ clears
    ∷ []

run-IsConsistent_example : IsConsistent (run started busy)
unfolding new in_words
run-IsConsistent_example =
    run-IsConsistent ℕ ℕ assoc_maps list_channels 1000 2 "session" busy started refl refl
