-- ===== src/Cache/Priority.antt =====
-- The eviction picks an entry of the highest priority among those that it samples.
use post_cortex.Base.{
  ℕ, zero, suc, ◌-◌, ◌≤◌, ◌<◌, ◌≡◌, refl, ◌∙◌, true, false, ◌⊎◌, inl, inr, Option, none, some, List,
  [], ◌∷◌, ◌++◌, length, take, drop, length-take, ltb, Bool-cases, is_some, arith, length-drop,
}
use post_cortex.Base.Keys.{Eq}
use post_cortex.Cache.{
  CacheEntry, is_excluded, consider, consider_all, sample_window, priority_score,
}

-- With no candidate yet, the highest priority seen is 0.
abbrev Coherent : {K : Type 0} → Option K × ℕ → Type 0
Coherent (candidate, highest) = is_some candidate ≡ false → highest ≡ 0

module _ {K V : Type 0} ⦃e : Eq K⦄ where
  -- Every entry that is not excluded has a priority of at most `h`.
  abbrev pub AtMost : Option K → ℕ → ℕ → List (K × CacheEntry V) → Type 0
  AtMost ex now h [] = Unit {0}
  AtMost ex now h (x ∷ xs) =
      ((is_excluded ex x.0 ≡ true) ⊎ (priority_score x.1 now ≤ h)) × AtMost ex now h xs

  -- Some entry that is not excluded has the key `k` and the priority `h`.
  abbrev pub Attains : Option K → ℕ → K → ℕ → List (K × CacheEntry V) → Type 0
  Attains ex now k h [] = ⊥
  Attains ex now k h (x ∷ xs) =
      ((is_excluded ex x.0 ≡ false) × (x.0 ≡ k) × (priority_score x.1 now ≡ h))
      ⊎ Attains ex now k h xs

  consider-step :
      (ex : Option K) (now : ℕ) (seen : Option K × ℕ) (x : K × CacheEntry V)
      → Coherent seen
      → Coherent (consider ex now seen x)
        × (seen.1 ≤ (consider ex now seen x).1)
        × ((is_excluded ex x.0 ≡ true) ⊎ (priority_score x.1 now ≤ (consider ex now seen x).1))
  unfolding consider
  consider-step ex now (none, highest) (k, v) h = ground (arith, h refl)
  consider-step ex now (some c, highest) (k, v) h = ground arith

  consider_all-AtMost :
      (ex : Option K) (now : ℕ) (seen : Option K × ℕ) (xs : List (K × CacheEntry V))
      → Coherent seen
      → Coherent (consider_all ex now seen xs)
        × (seen.1 ≤ (consider_all ex now seen xs).1)
        × AtMost ex now (consider_all ex now seen xs).1 xs
  unfolding consider_all
  consider_all-AtMost ex now seen [] h = (h, omega arith, tt)
  consider_all-AtMost ex now seen (x ∷ xs) h =
      let (h', grows, covers) = consider-step ex now seen x h in
      let (h'', grows', rest) = consider_all-AtMost ex now (consider ex now seen x) xs h' in
      (h'', omega arith, (widen covers grows', rest))
    where
      widen :
          {m : ℕ}
          → (is_excluded ex x.0 ≡ true) ⊎ (priority_score x.1 now ≤ (consider ex now seen x).1)
          → (consider ex now seen x).1 ≤ m
          → (is_excluded ex x.0 ≡ true) ⊎ (priority_score x.1 now ≤ m)
      widen (inl out) g = inl out
      widen (inr le) g = inr (omega arith)

  consider-Attains :
      (ex : Option K) (now : ℕ) (seen : Option K × ℕ) (x : K × CacheEntry V) (k : K)
      → (consider ex now seen x).0 ≡ some k
      → ((seen.0 ≡ some k) × (seen.1 ≡ (consider ex now seen x).1))
        ⊎ ((is_excluded ex x.0 ≡ false)
            × (x.0 ≡ k)
            × (priority_score x.1 now ≡ (consider ex now seen x).1))
  unfolding consider
  consider-Attains ex now (candidate, highest) (j, v) k h = ground arith

  consider_all-Attains :
      (ex : Option K) (now : ℕ) (seen : Option K × ℕ) (xs : List (K × CacheEntry V)) (k : K)
      → (consider_all ex now seen xs).0 ≡ some k
      → ((seen.0 ≡ some k) × (seen.1 ≡ (consider_all ex now seen xs).1))
        ⊎ Attains ex now k (consider_all ex now seen xs).1 xs
  unfolding consider_all
  consider_all-Attains ex now seen [] k h = inl (h, refl)
  consider_all-Attains ex now seen (x ∷ xs) k h =
      elim (consider_all-Attains ex now (consider ex now seen x) xs k h) [
        | inr later ↦ inr (inr later)
        | inl before ↦ elim (consider-Attains ex now seen x k before.0) [
          | inl start ↦ inl (start.0, start.1 ∙ before.1)
          | inr here ↦ inr (inl (here.0, here.1, here.2 ∙ before.1))
        ]
      ]

  -- The choice among the entries met: no other has a higher priority.
  abbrev IsBest : Option K → ℕ → Option K × ℕ → List (K × CacheEntry V) → Type 0
  IsBest ex now seen es =
      AtMost ex now seen.1 es × ((k : K) → seen.0 ≡ some k → Attains ex now k seen.1 es)

  whole-IsBest :
      (ex : Option K) (now : ℕ) (es : List (K × CacheEntry V))
      → IsBest ex now (consider_all ex now (none, 0) es) es
  whole-IsBest ex now es = (
    (consider_all-AtMost ex now (none, 0) es (λ _. refl)).2,
    λ k found. elim (consider_all-Attains ex now (none, 0) es k found) [
      | inl start_none ↦ absurd (cc start_none.0)
      | inr a ↦ a
    ],
  )

  consider_all-append :
      (ex : Option K) (now : ℕ) (seen : Option K × ℕ) (a b : List (K × CacheEntry V))
      → consider_all ex now seen (a ++ b) ≡ consider_all ex now (consider_all ex now seen a) b
  unfolding consider_all
  consider_all-append ex now seen [] b = refl
  consider_all-append ex now seen (x ∷ a) b =
      consider_all-append ex now (consider ex now seen x) a b

  -- What a sample of `n` entries from `start` meets: the entries from there to the end, then those
  -- from the first one on to `start`, cut off after `n`.
  abbrev pub sampled : ℕ → ℕ → List (K × CacheEntry V) → List (K × CacheEntry V)
  sampled start n es = take n (drop start es ++ take start es)

  take-append :
      (n : ℕ) (a b : List (K × CacheEntry V)) → take n (a ++ b) ≡ take n a ++ take (n - length a) b
  take-append zero a b = let nothing : 0 - length a ≡ 0 = omega arith in rw nothing refl
  take-append (suc n) [] b = let all : suc n - 0 ≡ suc n = omega arith in rw all refl
  take-append (suc n) (x ∷ a) b = let rec = take-append n a b in ground (arith, rec)

  take-take : (m n : ℕ) (es : List (K × CacheEntry V)) → m ≤ n → take m (take n es) ≡ take m es
  take-take zero n es le = refl
  take-take (suc m) zero es le = absurd (omega arith)
  take-take (suc m) (suc n) [] le = refl
  take-take (suc m) (suc n) (x ∷ es) le =
      let rec = take-take m n es (omega arith) in ground (arith, rec)

  sample_window-sampled :
      (ex : Option K) (now start n : ℕ) (es : List (K × CacheEntry V))
      → n ≤ length es
      → start < length es
      → sample_window ex now start n es ≡ consider_all ex now (none, 0) (sampled start n es)
  unfolding sample_window consider_all
  sample_window-sampled ex now start n es small p =
      let ends = drop start es in
      let left : length ends ≡ length es - start = length-drop start es in
      let met : sampled start n es ≡ take n ends ++ take (n - length ends) es =
        rw
          (
            take-append n ends (take start es),
            take-take (n - length ends) start es (omega (arith, left)),
          )
          refl in
      rw (met, consider_all-append ex now (none, 0) (take n ends) (take (n - length ends) es))
        (elim (Bool-cases (ltb (length (take n ends)) n)) [
          | inl short ↦
              let size : length (take n ends) ≡ length ends =
                ground (arith, short, length-take n ends) in
              rw (sample_window, short, size) refl
          | inr enough ↦
              let nothing : n - length ends ≡ 0 = ground (arith, enough, length-take n ends) in
              rw (sample_window, enough, nothing, consider_all) refl
        ])

  -- A sample of at most as many entries as the map has picks, of the entries that it meets, one of
  -- the highest priority, and never the excluded one. It meets that many entries from the cursor
  -- on, with the first ones of the map after its last.
  pub sample_window-best :
      (ex : Option K) (now start n : ℕ) (es : List (K × CacheEntry V)) (k : K)
      → n ≤ length es
      → start < length es
      → (sample_window ex now start n es).0 ≡ some k
      → AtMost ex now (sample_window ex now start n es).1 (sampled start n es)
        × Attains ex now k (sample_window ex now start n es).1 (sampled start n es)
  sample_window-best ex now start n es k small p found =
      let same = sample_window-sampled ex now start n es small p in
      let (highest, attained) = whole-IsBest ex now (sampled start n es) in
      rw same (highest, attained k (rw same at found))
