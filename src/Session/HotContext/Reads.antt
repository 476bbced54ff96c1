-- ===== src/Session/HotContext/Reads.antt =====
-- What the reads of a `HotContext` return, in terms of the log of its pushes.
use mathlib.Core.List.{reverse, reverse-cons, append-nil}
use native.Mathlib.Nat.{add-zero, add-suc, suc-add, zero-add}
use post_cortex.Base.{
  ℕ, zero, suc, ◌+◌, ◌-◌, ◌≤◌, ◌<◌, min, ◌≡◌, refl, ap, ◌∙◌, Option, none, some, List, [], ◌∷◌,
  ◌++◌, length, drop, get_elem?, if◌then◌else◌, arith, length-drop, eqb, Option-cases, inl, inr,
  le→leb,
}
use post_cortex.Base.Words.{u64_mod}
use post_cortex.Base.Keys.{nat_eq}
use post_cortex.ConcurrentMap.{DashMaps}
use post_cortex.Core.Update.{ContextUpdate}
use post_cortex.Session.HotContext.{
  HotContext, range, values, id_range, get_all, get_recent, back, len, from_updates,
}
use post_cortex.Session.HotContext.Window.{
  IsWindow, get_elem?-ge, from_updates-IsWindow, from_updates-max_size,
}

module _ {A : Type 0} where
  -- Reading consecutive ids of a function that agrees with a list from there on.
  values-range :
      (g : ℕ → Option A) (start : ℕ) (xs : List A)
      → ((j : ℕ) → j < length xs → g (start + j) ≡ get_elem? xs j)
      → values g (range start (length xs)) ≡ xs
  unfolding values range
  values-range g start [] agree = refl
  values-range g start (x ∷ xs) agree =
      let here : g start ≡ some x = rw (← add-zero start) (agree 0 (omega arith)) in
      let rest : values g (range (suc start) (length xs)) ≡ xs =
        values-range g (suc start) xs
          (λ j h. rw (suc-add, ← add-suc) (agree (suc j) (omega arith))) in
      rw here (ap (◌∷◌ x) rest)

  get_elem?-drop : (n : ℕ) (xs : List A) (j : ℕ) → get_elem? (drop n xs) j ≡ get_elem? xs (n + j)
  get_elem?-drop zero xs j = rw zero-add
  get_elem?-drop (suc n) [] j = refl
  get_elem?-drop (suc n) (x ∷ xs) j = rw (suc-add) (get_elem?-drop n xs j)

  values-append :
      (g : ℕ → Option A) (is js : List ℕ) → values g (is ++ js) ≡ values g is ++ values g js
  unfolding values
  values-append g [] js = refl
  values-append g (i ∷ is) js = ground (arith, values-append g is js)

  values-reverse : (g : ℕ → Option A) (is : List ℕ) → values g (reverse is) ≡ reverse (values g is)
  unfolding values
  values-reverse g [] = refl
  values-reverse g (i ∷ is) =
      rw (reverse-cons, values-append, values-reverse g is)
        (elim (Option-cases (g i)) [
          | inl missing ↦ ground (arith, missing, append-nil (reverse (values g is)))
          | inr (a, found) ↦ ground (arith, found, reverse-cons a (values g is))
        ])

module _ {D : DashMaps} {F : Type 0} (log : List (ContextUpdate F)) (h : HotContext D F) where
  -- From any id of the window on, the map holds the log.
  window_from :
      IsWindow log h
      → (start : ℕ) → length log - h.max_size ≤ start
      → start ≤ length log
      → values (D.get h.updates) (range start (h.next_id - start)) ≡ drop start log
  window_from w start low high =
      rw (← count) (values-range (D.get h.updates) start (drop start log) agree)
    where
      count : length (drop start log) ≡ h.next_id - start
      count = omega (arith, length-drop start log, w.counted)

      agree :
          (j : ℕ)
          → j < length (drop start log)
          → D.get h.updates (start + j) ≡ get_elem? (drop start log) j
      agree j lt = rw (
        w.holds (start + j),
        get_elem?-drop start log j,
        le→leb (length log - h.max_size) (start + j) (omega arith),
      )

  pub get_all-drop : IsWindow log h → get_all h ≡ drop (length log - h.max_size) log
  unfolding get_all id_range
  get_all-drop w =
      window_from w (h.next_id - h.max_size) (omega arith) (omega arith)
      ∙ ap (λ (m : ℕ). drop (m - h.max_size) log) w.counted

  pub get_recent-drop :
      (n : ℕ) → IsWindow log h → get_recent h n ≡ reverse (drop (length log - min n h.max_size) log)
  unfolding get_recent
  get_recent-drop n w = rw values-reverse (
      ap reverse (
        window_from w (h.next_id - min n h.max_size) (omega arith) (omega arith)
        ∙ ap (λ (m : ℕ). drop (m - min n h.max_size) log) w.counted))

  pub back-get_elem? :
      IsWindow log h → back h ≡ (if eqb h.max_size 0 then none else get_elem? log (length log - 1))
  unfolding back
  back-get_elem? w =
      grind (arith, w.counted, w.holds (h.next_id - 1), get_elem?-ge log (length log - 1))

-- A context built from updates, oldest first, reads as the last `max_size` of them: all of them
-- in order, the `n` latest newest first, the very last one, and their number.
pub from_updates_reads :
    (D : DashMaps) (F : Type 0) (us : List (ContextUpdate F)) (max_size n : ℕ)
    → length us < u64_mod
    → (get_all (from_updates D F us max_size) ≡ drop (length us - max_size) us)
      × (get_recent (from_updates D F us max_size) n
          ≡ reverse (drop (length us - min n max_size) us))
      × (back (from_updates D F us max_size)
          ≡ (if eqb max_size 0 then none else get_elem? us (length us - 1)))
      × (len (from_updates D F us max_size) ≡ min (length us) max_size)
unfolding len
from_updates_reads D F us max_size n word =
    let w = from_updates-IsWindow D F us max_size word in
    let h = from_updates D F us max_size in
    let m : h.max_size ≡ max_size = from_updates-max_size D F us max_size in
    (
      get_all-drop us h w ∙ ap (λ (k : ℕ). drop (length us - k) us) m,
      get_recent-drop us h n w ∙ ap (λ (k : ℕ). reverse (drop (length us - min n k) us)) m,
      back-get_elem? us h w
          ∙ ap (λ (k : ℕ). if eqb k 0 then none else get_elem? us (length us - 1)) m,
      w.size ∙ ap (λ (k : ℕ). min (length us) k) m,
    )
