-- ===== src/ConcurrentMap/Assoc.antt =====
-- A concrete `DashMaps`: association lists without repeated keys. The witnesses run on it.
use post_cortex.Base.{
  ℕ, Bool, suc, ◌+◌, ◌-◌, ◌≡◌, refl, none, some, List, [], ◌∷◌, if◌then◌else◌, length, is_some,
  arith, inl, inr, Bool-cases, sym,
}
use post_cortex.Base.Keys.{Eq, ◌==◌, ==-iff}
use post_cortex.ConcurrentMap.{lookup, lookup-occupied, total, weight, AllDistinct, DashMaps}

module _ {K V : Type 0} ⦃e : Eq K⦄ where
  unfoldable pub without : K → List (K × V) → List (K × V)
  without key [] = []
  without key ((k, value) ∷ more) =
      let rest = without key more in if k == key then rest else (k, value) ∷ rest

  pub lookup-without :
      (k j : K) (l : List (K × V)) → lookup j (without k l) ≡ (if k == j then none else lookup j l)
  unfolding lookup without
  lookup-without k j [] = ground arith
  lookup-without k j ((first, v) ∷ more) =
      ground (arith, ==-iff first k, ==-iff first j, ==-iff k j, lookup-without k j more)

  without-AllDistinct : (k : K) (l : List (K × V)) → AllDistinct l → AllDistinct (without k l)
  unfolding without
  without-AllDistinct k [] d = tt
  without-AllDistinct k ((i, v) ∷ l) d =
      ground (arith, lookup-without k i l, without-AllDistinct k l d.1)

  without_absent : (k : K) (l : List (K × V)) → lookup k l ≡ none → without k l ≡ l
  unfolding lookup without
  without_absent k [] h = refl
  without_absent k ((i, v) ∷ l) h = ground (arith, without_absent k l)

  length-without :
      (k : K) (l : List (K × V))
      → AllDistinct l
      → length (without k l) ≡ (if is_some (lookup k l) then length l - 1 else length l)
  unfolding lookup without
  length-without k [] d = refl
  length-without k ((i, v) ∷ l) d =
      grind (arith, length-without k l d.1, without_absent k l, ==-iff i k)

  -- The first entry of each key.
  unfoldable pub entries : List (K × V) → List (K × V)
  entries [] = []
  entries ((k, v) ∷ l) = (k, v) ∷ without k (entries l)

  pub entries-nil : entries [] ≡ []
  unfolding entries
  entries-nil = refl

  lookup-entries : (k : K) (l : List (K × V)) → lookup k (entries l) ≡ lookup k l
  unfolding lookup entries
  lookup-entries k [] = refl
  lookup-entries k ((i, v) ∷ l) = ground (arith, lookup-entries k l, lookup-without i k (entries l))

  pub entries-AllDistinct : (l : List (K × V)) → AllDistinct (entries l)
  unfolding entries
  entries-AllDistinct [] = tt
  entries-AllDistinct ((i, v) ∷ l) = (
    ground (arith, lookup-without i i (entries l), ==-iff i i),
    without-AllDistinct i (entries l) (entries-AllDistinct l),
  )

  without-without : (k j : K) (l : List (K × V)) → without k (without j l) ≡ without j (without k l)
  unfolding without
  without-without k j [] = refl
  without-without k j ((i, v) ∷ l) = ground (arith, without-without k j l)

  without_twice : (k : K) (l : List (K × V)) → without k (without k l) ≡ without k l
  unfolding without
  without_twice k [] = refl
  without_twice k ((i, v) ∷ l) = ground (arith, without_twice k l)

  entries-without : (k : K) (l : List (K × V)) → entries (without k l) ≡ without k (entries l)
  unfolding entries without
  entries-without k [] = refl
  entries-without k ((i, v) ∷ l) = elim (Bool-cases (i == k)) [
    | inl same ↦
        rw same (cc ((==-iff i k).0 same, entries-without k l, without_twice k (entries l)))
    | inr other ↦ rw (other, entries-without k l, without-without k i (entries l))
  ]

  pub get-entries : (l : List (K × V)) (k : K) → lookup k l ≡ lookup k (entries l)
  get-entries l k = sym (lookup-entries k l)

  pub get-cons :
      (l : List (K × V)) (k : K) (v : V) (j : K)
      → lookup j ((k, v) ∷ l) ≡ (if k == j then some v else lookup j l)
  unfolding lookup
  get-cons l k v j = refl

  pub len-cons :
      (l : List (K × V)) (k : K) (v : V)
      → length (entries ((k, v) ∷ l))
        ≡ (if is_some (lookup k l) then length (entries l) else suc (length (entries l)))
  unfolding entries
  len-cons l k v = ground (
    arith,
    length-without k (entries l) (entries-AllDistinct l),
    lookup-entries k l,
    lookup-occupied k (entries l),
  )

  pub len-without :
      (l : List (K × V)) (k : K)
      → length (entries (without k l))
        ≡ (if is_some (lookup k l) then length (entries l) - 1 else length (entries l))
  len-without l k =
      rw (entries-without k l, ← lookup-entries k l)
        (length-without k (entries l) (entries-AllDistinct l))

-- The entries kept are those that a lookup finds.
unfoldable pub kept : {K V : Type 0} → (V → Bool) → List (K × V) → List (K × V)
kept keep [] = []
kept keep ((k, v) ∷ l) = let rest = kept keep l in if keep v then (k, v) ∷ rest else rest

module _ {K V : Type 0} ⦃e : Eq K⦄ where
  lookup-kept :
      (keep : V → Bool) (k : K) (l : List (K × V))
      → AllDistinct l
      → lookup k (kept keep l)
        ≡ elim (lookup k l) [ none ↦ none | some v ↦ if keep v then some v else none ]
  unfolding lookup kept
  lookup-kept keep k [] d = refl
  lookup-kept keep k ((j, v) ∷ l) d = grind (arith, lookup-kept keep k l d.1, ==-iff j k, d.0)

  pub get-kept :
      (l : List (K × V)) (keep : V → Bool) (k : K)
      → lookup k (kept keep (entries l))
        ≡ elim (lookup k l) [ none ↦ none | some v ↦ if keep v then some v else none ]
  get-kept l keep k =
      rw (← lookup-entries k l) (lookup-kept keep k (entries l) (entries-AllDistinct l))

-- What the entries add up to.
module _ {K V : Type 0} ⦃e : Eq K⦄ where
  total-without :
      (f : V → ℕ) (k : K) (l : List (K × V))
      → AllDistinct l
      → total f (without k l) + weight f (lookup k l) ≡ total f l
  unfolding total without lookup
  total-without f k [] d = omega arith
  total-without f k ((j, v) ∷ l) d = elim (Bool-cases (j == k)) [
    | inl same ↦
        let absent : lookup k l ≡ none = rw (← (==-iff j k).0 same) (d.0) in
        rw (same, without_absent k l absent) (omega arith)
    | inr other ↦ rw other (omega (arith, total-without f k l d.1))
  ]

  pub total-entries_without :
      (f : V → ℕ) (l : List (K × V)) (k : K)
      → total f (entries (without k l)) + weight f (lookup k l) ≡ total f (entries l)
  total-entries_without f l k =
      rw (entries-without k l, ← lookup-entries k l)
        (total-without f k (entries l) (entries-AllDistinct l))

  pub total-entries_cons :
      (f : V → ℕ) (l : List (K × V)) (k : K) (v : V)
      → total f (entries ((k, v) ∷ l)) + weight f (lookup k l) ≡ total f (entries l) + f v
  unfolding total entries
  total-entries_cons f l k v =
      let rest : total f (without k (entries l)) + weight f (lookup k l) ≡ total f (entries l) =
        rw (← lookup-entries k l) (total-without f k (entries l) (entries-AllDistinct l)) in
      omega (arith, rest)

  entries_distinct : (l : List (K × V)) → AllDistinct l → entries l ≡ l
  unfolding entries
  entries_distinct [] d = refl
  entries_distinct ((k, v) ∷ l) d = rw (entries_distinct l d.1, without_absent k l d.0) refl

  kept-AllDistinct :
      (keep : V → Bool) (l : List (K × V)) → AllDistinct l → AllDistinct (kept keep l)
  unfolding kept
  kept-AllDistinct keep [] d = tt
  kept-AllDistinct keep ((k, v) ∷ l) d =
      let rest = kept-AllDistinct keep l d.1 in
      elim (Bool-cases (keep v)) [
        | inl stays ↦
            let absent : lookup k (kept keep l) ≡ none = rw (lookup-kept keep k l d.1, d.0) refl in
            rw stays (absent, rest)
        | inr goes ↦ rw goes rest
      ]

  total-kept :
      (f : V → ℕ) (keep : V → Bool) (l : List (K × V))
      → total f (kept keep l) ≡ total (λ v. if keep v then f v else 0) l
  unfolding total kept
  total-kept f keep [] = refl
  total-kept f keep ((k, v) ∷ l) = ground (arith, total-kept f keep l)

  pub total-entries_kept :
      (f : V → ℕ) (l : List (K × V)) (keep : V → Bool)
      → total f (entries (kept keep (entries l)))
        ≡ total (λ v. if keep v then f v else 0) (entries l)
  total-entries_kept f l keep =
      rw
        (entries_distinct (kept keep (entries l))
          (kept-AllDistinct keep (entries l) (entries-AllDistinct l)))
        (total-kept f keep (entries l))

unfoldable pub updated : {K V : Type 0} → (V → V) → List (K × V) → List (K × V)
updated f [] = []
updated f ((k, v) ∷ l) = (k, f v) ∷ updated f l

pub lookup-updated :
    {K V : Type 0} ⦃e : Eq K⦄ (l : List (K × V)) (f : V → V) (k : K)
    → lookup k (updated f l) ≡ elim (lookup k l) [ none ↦ none | some v ↦ some (f v) ]
unfolding lookup updated
lookup-updated [] f k = refl
lookup-updated ((j, v) ∷ l) f k = ground (arith, lookup-updated l f k)

abbrev pub assoc_maps : DashMaps
assoc_maps = record {
  Map = λ K V. List (K × V);
  new = [];
  get = λ l k. lookup k l;
  insert = λ l k v. (k, v) ∷ l;
  remove = λ l k. without k l;
  retain = λ l keep. kept keep (entries l);
  update_all = λ l f. updated f l;
  iter = entries;
  iter-new = entries-nil;
  iter-AllDistinct = λ m. entries-AllDistinct m;
  get-iter = get-entries;
  get-insert = get-cons;
  get-update_all = lookup-updated;
  get-remove = λ l k j. lookup-without k j l;
  get-retain = get-kept;
  len-insert = len-cons;
  len-remove = len-without;
  total-insert = λ f l k v. total-entries_cons f l k v;
  total-remove = λ f l k. total-entries_without f l k;
  total-retain = λ f l keep. total-entries_kept f l keep;
}
