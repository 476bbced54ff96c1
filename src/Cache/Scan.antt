-- ===== src/Cache/Scan.antt =====
-- The sampling loop of `try_evict_excluding`: what it picks.
use post_cortex.Base.{
  ℕ, zero, suc, ◌-◌, ◌<◌, ◌≡◌, refl, Bool, true, false, ◌⊎◌, inl, inr, Option, none, some, List, [],
  ◌∷◌, length, take, drop, ltb, if◌then◌else◌, is_some, arith, length-drop, length-take,
}
use post_cortex.Base.Keys.{Eq, ==-iff}
use post_cortex.ConcurrentMap.{lookup}
use post_cortex.Cache.{CacheEntry, is_excluded, consider, consider_all, sample_window}

branch_cases :
    {K : Type 0} (b : Bool) (x y : Option K × ℕ) (k : K)
    → (if b then x else y).0 ≡ some k
    → (x.0 ≡ some k) ⊎ (y.0 ≡ some k)
branch_cases true x y k h = inl h
branch_cases false x y k h = inr h

branch_some :
    {K : Type 0} (b : Bool) (x y : Option K × ℕ)
    → is_some x.0 ≡ true
    → is_some y.0 ≡ true
    → is_some (if b then x else y).0 ≡ true
branch_some true x y p q = p
branch_some false x y p q = q

module _ {K V : Type 0} ⦃e : Eq K⦄ where
  -- Some entry of the list has the key.
  abbrev pub HasKey : K → List (K × CacheEntry V) → Type 0
  HasKey k [] = ⊥
  HasKey k (x ∷ xs) = (x.0 ≡ k) ⊎ HasKey k xs

  -- No entry of the list is the excluded one.
  abbrev pub NoneExcluded : Option K → List (K × CacheEntry V) → Type 0
  NoneExcluded ex [] = Unit {0}
  NoneExcluded ex (x ∷ xs) = (is_excluded ex x.0 ≡ false) × NoneExcluded ex xs

  pub HasKey-lookup :
      (k : K) (xs : List (K × CacheEntry V)) → HasKey k xs → is_some (lookup k xs) ≡ true
  unfolding lookup
  HasKey-lookup k [] h = absurd h
  HasKey-lookup k ((j, v) ∷ xs) (inl p) = rw ((==-iff j k).1 p)
  HasKey-lookup k ((j, v) ∷ xs) (inr h) = ground (arith, HasKey-lookup k xs h)

  pub HasKey-take :
      (n : ℕ) (k : K) (xs : List (K × CacheEntry V)) → HasKey k (take n xs) → HasKey k xs
  HasKey-take zero k xs h = absurd h
  HasKey-take (suc n) k [] h = h
  HasKey-take (suc n) k (x ∷ xs) (inl p) = inl p
  HasKey-take (suc n) k (x ∷ xs) (inr h) = inr (HasKey-take n k xs h)

  pub HasKey-drop :
      (n : ℕ) (k : K) (xs : List (K × CacheEntry V)) → HasKey k (drop n xs) → HasKey k xs
  HasKey-drop zero k xs h = h
  HasKey-drop (suc n) k [] h = h
  HasKey-drop (suc n) k (x ∷ xs) h = inr (HasKey-drop n k xs h)

  pub NoneExcluded-take :
      (n : ℕ) (ex : Option K) (xs : List (K × CacheEntry V))
      → NoneExcluded ex xs
      → NoneExcluded ex (take n xs)
  NoneExcluded-take zero ex xs h = tt
  NoneExcluded-take (suc n) ex [] h = tt
  NoneExcluded-take (suc n) ex (x ∷ xs) h = (h.0, NoneExcluded-take n ex xs h.1)

  pub NoneExcluded-drop :
      (n : ℕ) (ex : Option K) (xs : List (K × CacheEntry V))
      → NoneExcluded ex xs
      → NoneExcluded ex (drop n xs)
  NoneExcluded-drop zero ex xs h = h
  NoneExcluded-drop (suc n) ex [] h = tt
  NoneExcluded-drop (suc n) ex (x ∷ xs) h = NoneExcluded-drop n ex xs h.1

  -- A key that is not in the map excludes no entry.
  pub absent-NoneExcluded :
      (k : K) (xs : List (K × CacheEntry V)) → lookup k xs ≡ none → NoneExcluded (some k) xs
  unfolding lookup is_excluded
  absent-NoneExcluded k [] h = tt
  absent-NoneExcluded k ((j, v) ∷ xs) h =
      (ground (arith, ==-iff j k, ==-iff k j), absent-NoneExcluded k xs (ground arith))

  pub none-NoneExcluded : (xs : List (K × CacheEntry V)) → NoneExcluded none xs
  unfolding is_excluded
  none-NoneExcluded [] = tt
  none-NoneExcluded (x ∷ xs) = (refl, none-NoneExcluded xs)

  consider-some :
      (ex : Option K) (now : ℕ) (seen : Option K × ℕ) (x : K × CacheEntry V)
      → (is_some seen.0 ≡ true) ⊎ (is_excluded ex x.0 ≡ false)
      → is_some (consider ex now seen x).0 ≡ true
  unfolding consider
  consider-some ex now (candidate, highest) (k, v) h = ground arith

  consider_all-some :
      (ex : Option K) (now : ℕ) (seen : Option K × ℕ) (xs : List (K × CacheEntry V))
      → is_some seen.0 ≡ true
      → is_some (consider_all ex now seen xs).0 ≡ true
  unfolding consider_all
  consider_all-some ex now seen [] h = h
  consider_all-some ex now seen (x ∷ xs) h =
      consider_all-some ex now (consider ex now seen x) xs (consider-some ex now seen x (inl h))

  pub consider_all-some_of_ne :
      (ex : Option K) (now : ℕ) (seen : Option K × ℕ) (xs : List (K × CacheEntry V))
      → NoneExcluded ex xs
      → 0 < length xs
      → is_some (consider_all ex now seen xs).0 ≡ true
  unfolding consider_all
  consider_all-some_of_ne ex now seen [] h p = absurd (omega arith)
  consider_all-some_of_ne ex now seen (x ∷ xs) h p =
      consider_all-some ex now (consider ex now seen x) xs (consider-some ex now seen x (inr h.0))

  -- The candidate is one of the keys met, or the candidate at the start; it is never excluded.
  consider-HasKey :
      (ex : Option K) (now : ℕ) (seen : Option K × ℕ) (x : K × CacheEntry V) (k : K)
      → (consider ex now seen x).0 ≡ some k
      → (seen.0 ≡ some k) ⊎ (x.0 ≡ k)
  unfolding consider
  consider-HasKey ex now (candidate, highest) (j, v) k h = ground arith

  pub consider_all-HasKey :
      (ex : Option K) (now : ℕ) (seen : Option K × ℕ) (xs : List (K × CacheEntry V)) (k : K)
      → (consider_all ex now seen xs).0 ≡ some k
      → (seen.0 ≡ some k) ⊎ HasKey k xs
  unfolding consider_all
  consider_all-HasKey ex now seen [] k h = inl h
  consider_all-HasKey ex now seen (x ∷ xs) k h =
      elim (consider_all-HasKey ex now (consider ex now seen x) xs k h) [
        | inr later ↦ inr (inr later)
        | inl before ↦ elim (consider-HasKey ex now seen x k before) [
          | inl start ↦ inl start
          | inr here ↦ inr (inl here)
        ]
      ]

  window-HasKey :
      (ex : Option K) (now start n : ℕ) (es : List (K × CacheEntry V)) (k : K)
      → (consider_all ex now (none, 0) (take n (drop start es))).0 ≡ some k
      → HasKey k es
  window-HasKey ex now start n es k h =
      elim (consider_all-HasKey ex now (none, 0) (take n (drop start es)) k h) [
        | inl start_none ↦ absurd (cc)
        | inr found ↦ HasKey-drop start k es (HasKey-take n k (drop start es) found)
      ]

  -- What the sampling picks is a key of the map.
  pub sample_window-HasKey :
      (ex : Option K) (now start n : ℕ) (es : List (K × CacheEntry V)) (k : K)
      → (sample_window ex now start n es).0 ≡ some k
      → HasKey k es
  unfolding sample_window
  sample_window-HasKey ex now start n es k h =
      let window = take n (drop start es) in
      let seen = consider_all ex now (none, 0) window in
      let rest = take (n - length window) es in
      elim (branch_cases (ltb (length window) n) (consider_all ex now seen rest) seen k h) [
        | inr no_wrap ↦ window-HasKey ex now start n es k no_wrap
        | inl wraps ↦ elim (consider_all-HasKey ex now seen rest k wraps) [
          | inl before ↦ window-HasKey ex now start n es k before
          | inr found ↦ HasKey-take (n - length window) k es found
        ]
      ]

  -- The sampling picks something where the map has entries, none of them excluded.
  pub sample_window-some :
      (ex : Option K) (now start n : ℕ) (es : List (K × CacheEntry V))
      → NoneExcluded ex es
      → 0 < n
      → start < length es
      → is_some (sample_window ex now start n es).0 ≡ true
  unfolding sample_window
  sample_window-some ex now start n es h p q =
      let window = take n (drop start es) in
      let seen = consider_all ex now (none, 0) window in
      let rest = take (n - length window) es in
      branch_some (ltb (length window) n) (consider_all ex now seen rest) seen
        (consider_all-some ex now seen rest picked) picked
    where
      picked : is_some (consider_all ex now (none, 0) (take n (drop start es))).0 ≡ true
      picked =
          consider_all-some_of_ne ex now (none, 0) (take n (drop start es))
            (NoneExcluded-take n ex (drop start es) (NoneExcluded-drop start ex es h))
            (omega (arith, length-take n (drop start es), length-drop start es))
