-- ===== src/Permits/Bound.antt =====
-- However the threads interleave, the permits held are counted and never too many.
use post_cortex.Base.{
  ℕ, zero, suc, ◌+◌, ◌≡◌, ◌≤◌, ◌<◌, refl, ◌∙◌, Bool, List, [], ◌∷◌, leb, eqb, arith, Bool-cases,
  inl, inr,
}
use post_cortex.Base.Words.{u64_mod, wrapping_sub}
use post_cortex.Permits.{
  Controller, Thread, idle, looping, loaded, holding, new, release, exchange, advance, advance_at,
  run,
}

abbrev pub permits : Thread → ℕ
permits idle = 0
permits looping = 0
permits (loaded current) = 0
permits holding = 1

unfoldable pub held : List Thread → ℕ
held [] = 0
held (t ∷ ts) = permits t + held ts

-- What a thread loaded was below the bound.
abbrev pub IsBelow : ℕ → Thread → Type 0
IsBelow n idle = Unit {0}
IsBelow n looping = Unit {0}
IsBelow n (loaded current) = current < n
IsBelow n holding = Unit {0}

abbrev pub AllBelow : ℕ → List Thread → Type 0
AllBelow n [] = Unit {0}
AllBelow n (t ∷ ts) = IsBelow n t × AllBelow n ts

-- The counter counts the permits held, `others` elsewhere, and is within the bound.
pub record IsCounted (others : ℕ) (c : Controller) (ts : List Thread) : Type 0 where
  pub counted : c.current_operations ≡ others + held ts
  pub bounded : c.current_operations ≤ c.max_operations
  pub below : AllBelow c.max_operations ts
  pub word : c.max_operations < u64_mod

exchange-IsCounted :
    (spurious : Bool) (c : Controller) (current : ℕ) (ts : List Thread) (others : ℕ)
    → IsCounted others c (loaded current ∷ ts)
    → IsCounted others (exchange spurious c current).0 ((exchange spurious c current).1 ∷ ts)
unfolding held exchange
exchange-IsCounted spurious c current ts others h = elim (Bool-cases spurious) [
  | inl failed ↦
      rw (failed, exchange)
        (record {
          counted = h.counted;
          bounded = h.bounded;
          below = (tt, h.below.1);
          word = h.word;
        })
  | inr tried ↦ elim (Bool-cases (eqb c.current_operations current)) [
    | inl same ↦
        let before = h.below.0 in
        rw (tried, same, exchange)
          (record {
            counted = ground (arith, h.counted, same);
            bounded = omega arith;
            below = (tt, h.below.1);
            word = h.word;
          })
    | inr other ↦
        rw (tried, other, exchange)
          (record {
            counted = h.counted;
            bounded = h.bounded;
            below = (tt, h.below.1);
            word = h.word;
          })
  ]
]

advance-IsCounted :
    (spurious : Bool) (c : Controller) (t : Thread) (ts : List Thread) (others : ℕ)
    → IsCounted others c (t ∷ ts)
    → IsCounted others (advance spurious c t).0 ((advance spurious c t).1 ∷ ts)
unfolding advance release wrapping_sub held
advance-IsCounted spurious c idle ts others h = elim (Bool-cases c.active) [
  | inl up ↦
      rw (up, advance)
        (record {
          counted = h.counted;
          bounded = h.bounded;
          below = (tt, h.below.1);
          word = h.word;
        })
  | inr down ↦
      rw (down, advance)
        (record {
          counted = h.counted;
          bounded = h.bounded;
          below = (tt, h.below.1);
          word = h.word;
        })
]
advance-IsCounted spurious c looping ts others h =
    elim (Bool-cases (leb c.max_operations c.current_operations)) [
      | inl full ↦
          rw (full, advance)
            (record {
              counted = h.counted;
              bounded = h.bounded;
              below = (tt, h.below.1);
              word = h.word;
            })
      | inr room ↦
          rw (room, advance)
            (record {
              counted = h.counted;
              bounded = h.bounded;
              below = (ground (arith, room), h.below.1);
              word = h.word;
            })
    ]
advance-IsCounted spurious c (loaded current) ts others h =
    exchange-IsCounted spurious c current ts others h
advance-IsCounted spurious c holding ts others h = record {
  counted = ground (arith, h.counted, h.bounded, h.word);
  bounded = ground (arith, h.counted, h.bounded, h.word);
  below = (tt, h.below.1);
  word = h.word;
}

advance-max :
    (spurious : Bool) (c : Controller) (t : Thread)
    → (advance spurious c t).0.max_operations ≡ c.max_operations
unfolding advance exchange release
advance-max spurious c idle = ground arith
advance-max spurious c looping = ground arith
advance-max spurious c (loaded current) = ground arith
advance-max spurious c holding = refl

-- A step of the thread at any position.
advance_at-IsCounted :
    (spurious : Bool) (i : ℕ) (c : Controller) (ts : List Thread) (others : ℕ)
    → IsCounted others c ts
    → IsCounted others (advance_at spurious i c ts).0 (advance_at spurious i c ts).1
      × ((advance_at spurious i c ts).0.max_operations ≡ c.max_operations)
unfolding advance_at held
advance_at-IsCounted spurious i c [] others h = (h, refl)
advance_at-IsCounted spurious zero c (t ∷ ts) others h =
    (advance-IsCounted spurious c t ts others h, advance-max spurious c t)
advance_at-IsCounted spurious (suc i) c (t ∷ ts) others h =
    let inner : IsCounted (others + permits t) c ts = record {
      counted = ground (arith, h.counted);
      bounded = h.bounded;
      below = h.below.1;
      word = h.word;
    } in
    let (rec, same) = advance_at-IsCounted spurious i c ts (others + permits t) inner in
    (
      record {
        counted = ground (arith, rec.counted);
        bounded = rec.bounded;
        below = (rw (same) h.below.0, rec.below);
        word = rec.word;
      },
      same,
    )

run-IsCounted :
    (schedule : List (ℕ × Bool)) (c : Controller) (ts : List Thread)
    → IsCounted 0 c ts
    → IsCounted 0 (run schedule c ts).0 (run schedule c ts).1
      × ((run schedule c ts).0.max_operations ≡ c.max_operations)
unfolding run
run-IsCounted [] c ts h = (h, refl)
run-IsCounted ((i, spurious) ∷ schedule) c ts h =
    let (next, same) = advance_at-IsCounted spurious i c ts 0 h in
    let (rec, more) =
      run-IsCounted schedule (advance_at spurious i c ts).0 (advance_at spurious i c ts).1 next in
    (rec, more ∙ same)

-- `n` threads that have not started.
abbrev pub idle_threads : ℕ → List Thread
idle_threads zero = []
idle_threads (suc n) = idle ∷ idle_threads n

idle_threads-held : (n : ℕ) → held (idle_threads n) ≡ 0
unfolding held
idle_threads-held zero = refl
idle_threads-held (suc n) = omega (arith, idle_threads-held n)

idle_threads-AllBelow : (m n : ℕ) → AllBelow m (idle_threads n)
idle_threads-AllBelow m zero = tt
idle_threads-AllBelow m (suc n) = (tt, idle_threads-AllBelow m n)

-- However `n` threads interleave, the counter equals the number of permits held and no more than
-- `max_operations` are held at once, for a bound below 2 ^ 64.
pub run-held :
    (schedule : List (ℕ × Bool)) (max_operations n : ℕ)
    → max_operations < u64_mod
    → (held (run schedule (new max_operations) (idle_threads n)).1
        ≡ (run schedule (new max_operations) (idle_threads n)).0.current_operations)
      × (held (run schedule (new max_operations) (idle_threads n)).1 ≤ max_operations)
run-held schedule m n word =
    let start : IsCounted 0 (new m) (idle_threads n) =
      unfold new in
      record {
        counted = omega (arith, idle_threads-held n);
        bounded = omega arith;
        below = idle_threads-AllBelow m n;
        word = word;
      } in
    let (end, same) = run-IsCounted schedule (new m) (idle_threads n) start in
    let bound : (new m).max_operations ≡ m = unfold new in refl in
    (ground (arith, end.counted), ground (arith, end.counted, end.bounded, same, bound))
