-- ===== src/Cache/Histories.antt =====
-- Calls of the cache in any order.
use post_cortex.Base.{
  ℕ, ◌<◌, ◌≡◌, refl, String, Bool, true, ◌&&◌, Option, none, some, List, [], ◌∷◌, ltb, eqb, arith,
  inl, inr, Bool-cases,
}
use post_cortex.Base.Words.{u64_mod}
use post_cortex.Base.Keys.{Eq}
use post_cortex.ConcurrentMap.{DashMaps}
use post_cortex.Channel.{Channels}
use post_cortex.Cache.{Cache, CacheEntry, new, get, put, remove, clear, resize}
use post_cortex.Cache.Invariant.{
  IsConsistent, put-IsConsistent, get-IsConsistent, remove-IsConsistent, clear-IsConsistent,
}
use post_cortex.Cache.Resize.{resize-IsResized}

pub data Call (K V : Type 0) : Type 0 where
  gets : K → Call K V
  puts : ℕ → K → V → Call K V
  removes : K → Call K V
  clears : Call K V
  resizes : (ℕ → ℕ) → ℕ → Call K V

-- The capacities that are asked for are words.
unfoldable pub in_words : {K V : Type 0} → List (Call K V) → Bool
in_words [] = true
in_words (gets key ∷ rest) = in_words rest
in_words (puts clock key v ∷ rest) = in_words rest
in_words (removes key ∷ rest) = in_words rest
in_words (clears ∷ rest) = in_words rest
in_words (resizes clocks capacity ∷ rest) = ltb capacity u64_mod && in_words rest

module _ {D : DashMaps} {C : Channels} {K V : Type 0} ⦃e : Eq K⦄ where
  abbrev pub or_else : Option (Cache D C K V) → Cache D C K V → Cache D C K V
  or_else none c = c
  or_else (some resized) c = resized

  -- An error leaves the cache as it was.
  unfoldable pub step : Cache D C K V → Call K V → Cache D C K V
  step c (gets key) = (get c key).0
  step c (puts clock key v) = (put clock c key v).0
  step c (removes key) = (remove c key).0
  step c clears = clear c
  step c (resizes clocks capacity) = or_else (resize clocks c capacity) c

  unfoldable pub run : Cache D C K V → List (Call K V) → Cache D C K V
  run c [] = c
  run c (call ∷ rest) = run (step c call) rest

  resized-IsConsistent :
      (clocks : ℕ → ℕ) (c : Cache D C K V) (capacity : ℕ)
      → capacity < u64_mod
      → IsConsistent c
      → IsConsistent (or_else (resize clocks c capacity) c)
  unfolding resize
  resized-IsConsistent clocks c capacity word h = elim (Bool-cases (eqb capacity 0)) [
    | inl refused ↦ rw (refused, resize) h
    | inr positive ↦
        let (resized, done, promised) =
          resize-IsResized clocks c capacity h (ground (arith, positive)) word in
        rw done promised.consistent
  ]

  IsConsistent-run :
      (c : Cache D C K V) (calls : List (Call K V))
      → in_words calls ≡ true
      → IsConsistent c
      → IsConsistent (run c calls)
  unfolding run step in_words
  IsConsistent-run c [] words h = h
  IsConsistent-run c (gets key ∷ rest) words h =
      IsConsistent-run (get c key).0 rest words (get-IsConsistent c key h)
  IsConsistent-run c (puts clock key v ∷ rest) words h =
      IsConsistent-run (put clock c key v).0 rest words (put-IsConsistent clock c key v h)
  IsConsistent-run c (removes key ∷ rest) words h =
      IsConsistent-run (remove c key).0 rest words (remove-IsConsistent c key h)
  IsConsistent-run c (clears ∷ rest) words h =
      IsConsistent-run (clear c) rest words (clear-IsConsistent c h)
  IsConsistent-run c (resizes clocks capacity ∷ rest) words h =
      IsConsistent-run (or_else (resize clocks c capacity) c) rest (ground (arith, words))
        (resized-IsConsistent clocks c capacity (ground (arith, words)) h)

module _ (K V : Type 0) ⦃e : Eq K⦄ (D : DashMaps) (C : Channels) where
  abbrev AreConsistent : Option (Cache D C K V) → Type 0
  AreConsistent none = Unit {0}
  AreConsistent (some c) = IsConsistent c

  new-AreConsistent :
      (clock capacity : ℕ) (name : String)
      → capacity < u64_mod
      → AreConsistent (new D C K V clock capacity name)
  unfolding new
  new-AreConsistent clock capacity name word = elim (Bool-cases (eqb capacity 0)) [
    | inl refused ↦ rw (refused, new) tt
    | inr positive ↦
        rw (positive, new)
          (record {
            counted = rw (D.iter-new {K = K} {V = CacheEntry V}) refl;
            fits = rw (D.iter-new {K = K} {V = CacheEntry V}) (omega arith);
            positive = ground (arith, positive);
            word = word;
          })
  ]

  -- After any calls of a new cache, its size counter is the number of its entries, and these are
  -- within its capacity, if the capacities it is given are words.
  pub run-IsConsistent :
      (clock capacity : ℕ) (name : String) (calls : List (Call K V)) (c : Cache D C K V)
      → new D C K V clock capacity name ≡ some c
      → (ltb capacity u64_mod && in_words calls) ≡ true
      → IsConsistent (run c calls)
  run-IsConsistent clock capacity name calls c made words =
      let fresh = new-AreConsistent clock capacity name (ground (arith, words)) in
      IsConsistent-run c calls (ground (arith, words)) (rw made at fresh)
