-- ===== src/Tests/QueryCacheTests.antt =====
-- The query cache on concrete maps, with room for two queries for one minute.
use post_cortex.Base.{
  ℕ, zero, suc, ◌≡◌, ◌≤◌, refl, Bool, true, none, some, List, [], ◌∷◌, take, any, arith, max,
  length-take, String, inl, inr, Bool-cases, if◌then◌else◌, is_some,
}
use post_cortex.Base.Words.{wrapping_add}
use post_cortex.Base.Keys.{nat_eq, string_eq}
use post_cortex.ConcurrentMap.{lookup, total}
use post_cortex.ConcurrentMap.Assoc.{assoc_maps, without, kept, entries}
use post_cortex.JsonPath.{pos}
use post_cortex.Session.Active.Truncation.{bytes, utf8_len}
use post_cortex.QueryCache.{
  QueryCache, QueryCacheConfig, SemanticSearchResult, Runtime, global, session, sessions, covers,
  len, sync_size, remove_entry, remove_where, cleanup_expired, is_expired, ttl_nanos, results_bytes,
  estimate_entry_bytes, cached_query, sub_bytes, miss, hit, get, clear, invalidate_session,
  evict_keys, evict_least_efficient, scored, victims, sweep, make_room, store, insert, new,
}
use post_cortex.QueryCache.Histories.{
  Call, lookup_of, insert_of, step, run, fits, run-IsAccounted, len-run,
}
use post_cortex.QueryCache.Accounting.{IsAccounted}
use post_cortex.QueryCache.Serving.{involves, get-invalidate_session, get-insert}

any-take :
    {A : Type 0} (p : A → Bool) (n : ℕ) (l : List A) → any p (take n l) ≡ true → any p l ≡ true
any-take p zero l h = cc
any-take p (suc n) [] h = h
any-take p (suc n) (x ∷ l) h = elim (Bool-cases (p x)) [
  | inl here ↦ rw here refl
  | inr later ↦ rw later (any-take p n l (rw later at h))
]

-- An entry is worth its accesses. The first entries of the list go.
abbrev first_out : Runtime ℕ ℕ
first_out = record {
  size_of_result = 100;
  size_of_query = 200;
  efficiency_score = λ now entry. entry.access_count;
  least = λ n l. take n l;
  length-least = λ n l h. omega (arith, h, length-take n l);
  any-least = λ p n l h. any-take p n l h;
}

abbrev small : QueryCacheConfig
small = record { max_cache_size = 2; ttl_minutes = pos 1 }

abbrev found : String → SemanticSearchResult ℕ
found text = record { content_id = "id"; text_content = text; other = 7 }

-- A third query comes while two are stored; the session of the second one changes.
abbrev three : List (Call ℕ)
three =
    insert_of 0 "lock" (found "mutex" ∷ []) 1 global
    ∷ insert_of 5000000000 "map" (found "dashmap" ∷ []) 2 (session 44)
    ∷ lookup_of 6000000000 1 "lock"
    ∷ insert_of 7000000000 "loop" (found "while" ∷ found "for" ∷ []) 3 (sessions (44 ∷ 45 ∷ []))
    ∷ []

abbrev filled : QueryCache assoc_maps ℕ
unfolding run
filled = run first_out (new assoc_maps ℕ small) three

program : Unit {0}
unfolding lookup without kept entries utf8_len total wrapping_add bytes covers new len sync_size
    remove_entry remove_where cleanup_expired is_expired ttl_nanos results_bytes
    estimate_entry_bytes cached_query sub_bytes miss hit get clear invalidate_session evict_keys
    evict_least_efficient scored victims sweep make_room store insert step run fits
program = tt

-- The first entry goes, by the runtime above.
three_evict :
    (len filled ≡ 2)
    × (filled.stats.evicted_entries ≡ 1)
    × (filled.stats.cache_hits ≡ 1)
    × (filled.stats.estimated_memory_bytes ≡ 728)
unfolding program
three_evict = (refl, refl, refl, refl)

three-fits : fits first_out (new assoc_maps ℕ small) three ≡ true
unfolding program
three-fits = refl

run-IsAccounted_example : IsAccounted (run first_out (new assoc_maps ℕ small) three)
run-IsAccounted_example = run-IsAccounted assoc_maps first_out small three three-fits

len-run_example : len (run first_out (new assoc_maps ℕ small) three) ≤ max 2 1
len-run_example = len-run assoc_maps first_out small three

get-invalidate_session_example :
    assoc_maps.get (invalidate_session filled 45).cache 3 ≡ elim (assoc_maps.get filled.cache 3) [
      | none ↦ none
      | some entry ↦ if involves entry.scope 45 then none else some entry
    ]
get-invalidate_session_example = get-invalidate_session filled 45 3

invalidate_45 :
    (is_some (assoc_maps.get filled.cache 3) ≡ true)
    × (assoc_maps.get (invalidate_session filled 45).cache 3 ≡ none)
unfolding program
invalidate_45 = (refl, refl)

get-insert_example :
    (get 9000000000
      (insert first_out 8000000000 (new assoc_maps ℕ small) "trait" (found "impl" ∷ []) 4 global)
      4
      "trait").1
    ≡ some (found "impl" ∷ [])
unfolding new ttl_nanos
get-insert_example =
    get-insert first_out (new assoc_maps ℕ small) 8000000000 9000000000 4 "trait" "trait"
      (found "impl" ∷ []) global
