-- ===== src/Session/HotContext/Window.antt =====
-- `HotContext` refines a log: it holds the last `max_size` of the updates pushed.
use post_cortex.Base.{
  ℕ, zero, suc, ◌+◌, ◌-◌, ◌≤◌, ◌<◌, min, ◌≡◌, refl, ap, true, none, some, List, [], ◌∷◌, ◌++◌,
  length, get_elem?, leb, if◌then◌else◌, is_some, arith, length-append,
}
use post_cortex.Base.Words.{u64_mod, wrapping_add_lem}
use mathlib.Core.List.{append-nil, append_assoc}
use post_cortex.Base.Keys.{nat_eq}
use post_cortex.ConcurrentMap.{DashMaps, get-new}
use post_cortex.Core.Update.{ContextUpdate}
use post_cortex.Session.HotContext.{HotContext, new, push, push_all, from_updates}

module _ {A : Type 0} where
  pub get_elem?-append_lt :
      (xs : List A) (a : A) (i : ℕ) → i < length xs → get_elem? (xs ++ a ∷ []) i ≡ get_elem? xs i
  get_elem?-append_lt [] a i h = absurd (omega arith)
  get_elem?-append_lt (x ∷ xs) a zero h = refl
  get_elem?-append_lt (x ∷ xs) a (suc i) h = get_elem?-append_lt xs a i (omega arith)

  pub get_elem?-append_length :
      (xs : List A) (a : A) → get_elem? (xs ++ a ∷ []) (length xs) ≡ some a
  get_elem?-append_length [] a = refl
  get_elem?-append_length (x ∷ xs) a = get_elem?-append_length xs a

  pub get_elem?-ge : (xs : List A) (i : ℕ) → length xs ≤ i → get_elem? xs i ≡ none
  get_elem?-ge [] i h = refl
  get_elem?-ge (x ∷ xs) zero h = absurd (omega arith)
  get_elem?-ge (x ∷ xs) (suc i) h = get_elem?-ge xs i (omega arith)

  pub get_elem?-lt : (xs : List A) (i : ℕ) → i < length xs → is_some (get_elem? xs i) ≡ true
  get_elem?-lt [] i h = absurd (omega arith)
  get_elem?-lt (x ∷ xs) zero h = refl
  get_elem?-lt (x ∷ xs) (suc i) h = get_elem?-lt xs i (omega arith)

module _ {D : DashMaps} {F : Type 0} where
  -- The map holds exactly the entries of the log from `next_id - max_size` on.
  pub record IsWindow (log : List (ContextUpdate F)) (h : HotContext D F) : Type 0 where
    pub counted : h.next_id ≡ length log
    pub holds :
        (i : ℕ)
        → D.get h.updates i ≡ (if leb (length log - h.max_size) i then get_elem? log i else none)
    pub size : length (D.iter h.updates) ≡ min (length log) h.max_size

  push-holds :
      (log : List (ContextUpdate F)) (h : HotContext D F) (u : ContextUpdate F) (i : ℕ)
      → IsWindow log h
      → D.get (push h u).updates i ≡ (
          if leb (length (log ++ u ∷ []) - h.max_size) i then get_elem? (log ++ u ∷ []) i else none)
  unfolding push
  push-holds log h u i w = grind (
    arith,
    w.counted,
    w.holds i,
    D.get-insert h.updates h.next_id u i,
    D.get-remove (D.insert h.updates h.next_id u) (h.next_id - h.max_size) i,
    length-append log (u ∷ []),
    get_elem?-append_lt log u i,
    get_elem?-append_length log u,
    get_elem?-ge log i,
    get_elem?-ge (log ++ u ∷ []) i,
  )

  push-size :
      (log : List (ContextUpdate F)) (h : HotContext D F) (u : ContextUpdate F)
      → IsWindow log h
      → length (D.iter (push h u).updates) ≡ min (length (log ++ u ∷ [])) h.max_size
  unfolding push
  push-size log h u w = grind (
    arith,
    w.counted,
    w.size,
    w.holds h.next_id,
    w.holds (h.next_id - h.max_size),
    D.len-insert h.updates h.next_id u,
    D.len-remove (D.insert h.updates h.next_id u) (h.next_id - h.max_size),
    D.get-insert h.updates h.next_id u (h.next_id - h.max_size),
    length-append log (u ∷ []),
    get_elem?-ge log h.next_id,
    get_elem?-lt log (h.next_id - h.max_size),
  )

  -- One more update in the log is one more `push`.
  pub push-IsWindow :
      (log : List (ContextUpdate F)) (h : HotContext D F) (u : ContextUpdate F)
      → length log + 1 < u64_mod
      → IsWindow log h
      → IsWindow (log ++ u ∷ []) (push h u)
  unfolding push
  push-IsWindow log h u word w = record {
    counted = push-counted;
    holds = λ i. push-holds log h u i w;
    size = push-size log h u w;
  }
    where
      push-counted : (push h u).next_id ≡ length (log ++ u ∷ [])
      push-counted =
          omega (arith, wrapping_add_lem h.next_id 1, w.counted, length-append log (u ∷ []))

  pub push_all-IsWindow :
      (us log : List (ContextUpdate F)) (h : HotContext D F)
      → length log + length us < u64_mod
      → IsWindow log h
      → IsWindow (log ++ us) (push_all h us)
  unfolding push_all
  push_all-IsWindow [] log h word w = rw append-nil w
  push_all-IsWindow (u ∷ us) log h word w = rw (← append_assoc log (u ∷ []) us) (
      push_all-IsWindow us (log ++ u ∷ []) (push h u) (omega (arith, length-append log (u ∷ [])))
        (push-IsWindow log h u (omega arith) w))

  new-IsWindow : (max_size : ℕ) → IsWindow [] (new D F max_size)
  unfolding new
  new-IsWindow max_size = record {
    counted = refl;
    holds = λ i. ground (arith, get-new {V = ContextUpdate F} D i);
    size = omega (arith, ap length empty);
  }
    where
      empty : D.iter (D.new {K = ℕ} {V = ContextUpdate F}) ≡ []
      empty = D.iter-new

-- A context built from updates holds the last `max_size` of them.
pub from_updates-IsWindow :
    (D : DashMaps) (F : Type 0) (us : List (ContextUpdate F)) (max_size : ℕ)
    → length us < u64_mod
    → IsWindow us (from_updates D F us max_size)
unfolding from_updates
from_updates-IsWindow D F us max_size word =
    push_all-IsWindow us [] (new D F max_size) (omega arith) (new-IsWindow max_size)

push_all-max_size :
    {D : DashMaps} {F : Type 0} (us : List (ContextUpdate F)) (h : HotContext D F)
    → (push_all h us).max_size ≡ h.max_size
unfolding push_all push
push_all-max_size [] h = refl
push_all-max_size (u ∷ us) h = push_all-max_size us (push h u)

pub from_updates-max_size :
    (D : DashMaps) (F : Type 0) (us : List (ContextUpdate F)) (max_size : ℕ)
    → (from_updates D F us max_size).max_size ≡ max_size
unfolding from_updates new
from_updates-max_size D F us max_size = push_all-max_size us (new D F max_size)
