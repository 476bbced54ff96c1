-- ===== src/Cache/Resize.antt =====
-- `resize`: the loop of evictions reaches the new capacity exactly.
use post_cortex.Base.{
  ℕ, zero, suc, ◌+◌, ◌-◌, ◌<◌, min, ◌≡◌, refl, none, some, arith, Bool-cases, inl, inr, ltb, ltb→lt,
  pos→eqb_false,
}
use post_cortex.Base.Words.{u64_mod}
use post_cortex.Base.Keys.{Eq}
use post_cortex.ConcurrentMap.{DashMaps}
use post_cortex.Channel.{Channels}
use post_cortex.Cache.{Cache, len, try_evict, evict_times, resize}
use post_cortex.Cache.Scan.{none-NoneExcluded}
use post_cortex.Cache.Invariant.{IsConsistent, Shrinks, try_evict_excluding-Shrinks}

module _ {D : DashMaps} {C : Channels} {K V : Type 0} ⦃e : Eq K⦄ where
  try_evict-Shrinks :
      (clock : ℕ) (c : Cache D C K V)
      → c.current_size ≡ len c
      → len c < u64_mod
      → c.capacity < c.current_size
      → Shrinks c (try_evict clock c)
  unfolding try_evict
  try_evict-Shrinks clock c counted word over =
      try_evict_excluding-Shrinks clock none c counted word (omega arith) (omega arith)
        (none-NoneExcluded (D.iter c.entries))

  -- `n` evictions from `n` entries above the capacity.
  record ShrinksTo (c c' : Cache D C K V) : Type 0 where
    counted : c'.current_size ≡ len c'
    reached : len c' ≡ c.capacity
    same_capacity : c'.capacity ≡ c.capacity

  evict_times-ShrinksTo :
      (clocks : ℕ → ℕ) (n : ℕ) (c : Cache D C K V)
      → c.current_size ≡ len c
      → len c < u64_mod
      → len c ≡ n + c.capacity
      → ShrinksTo c (evict_times clocks n c)
  unfolding evict_times
  evict_times-ShrinksTo clocks zero c counted word over = record {
    counted = counted;
    reached = omega arith;
    same_capacity = refl;
  }
  evict_times-ShrinksTo clocks (suc n) c counted word over =
      let s = try_evict-Shrinks (clocks n) c counted word (omega arith) in
      let rest =
        evict_times-ShrinksTo clocks n (try_evict (clocks n) c)
          (omega (arith, s.entries_less, s.counter_less)) (omega (arith, s.entries_less))
          (omega (arith, s.entries_less, s.same_capacity)) in
      record {
        counted = rest.counted;
        reached = omega (arith, rest.reached, s.same_capacity);
        same_capacity = omega (arith, rest.same_capacity, s.same_capacity);
      }

  -- What `resize` promises of the resized cache.
  pub record IsResized (n : ℕ) (c c' : Cache D C K V) : Type 0 where
    pub consistent : IsConsistent c'
    pub new_capacity : c'.capacity ≡ n
    pub kept : len c' ≡ min n (len c)

  -- `resize` to a nonzero capacity succeeds; the size counter is right, the capacity is the new
  -- one, and exactly as many entries stay as fit.
  pub resize-IsResized :
      (clocks : ℕ → ℕ) (c : Cache D C K V) (n : ℕ)
      → IsConsistent c
      → 0 < n
      → n < u64_mod
      → (c' : Cache D C K V) × (resize clocks c n ≡ some c') × IsResized n c c'
  unfolding resize
  resize-IsResized clocks c n v p word = elim (Bool-cases (ltb n c.current_size)) [
    | inr fits ↦ (
      record c { capacity = n },
      rw (pos→eqb_false n p, fits),
      record {
        consistent = record { counted = v.counted; fits = ground arith; positive = p; word = word };
        new_capacity = refl;
        kept = ground arith;
      },
    )
    | inl over ↦
        let t =
          evict_times-ShrinksTo clocks (c.current_size - n) (record c { capacity = n }) v.counted
            (omega (arith, v.fits, v.word))
            (omega (arith, v.counted, ltb→lt n c.current_size over)) in
        (
          evict_times clocks (c.current_size - n) (record c { capacity = n }),
          rw (pos→eqb_false n p, over),
          record {
            consistent = record {
              counted = t.counted;
              fits = omega (arith, t.reached, t.same_capacity);
              positive = omega (arith, t.same_capacity);
              word = omega (arith, t.same_capacity);
            };
            new_capacity = t.same_capacity;
            kept = omega (arith, t.reached, v.counted, ltb→lt n c.current_size over);
          },
        )
  ]
