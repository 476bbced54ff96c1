-- ===== src/Session/HotContext.antt =====
-- `HotContext` of crates/post-cortex-core/src/session/session_components.rs: the most recent
-- updates in a map from consecutive ids, run by one caller at a time.
pub mod Window
pub mod Reads
pub mod Removals
use post_cortex.Base.{
  ℕ, zero, suc, ◌-◌, min, ◌≡◌, Bool, true, false, Option, none, some, List, [], ◌∷◌, length, any,
  find?, leb, eqb, if◌then◌else◌, is_some,
}
use mathlib.Core.List.{reverse}
use post_cortex.Base.Words.{wrapping_add}
use post_cortex.Base.Keys.{nat_eq}
use post_cortex.ConcurrentMap.{DashMaps}
use post_cortex.Core.Update.{ContextUpdate, Uuid}

pub record HotContext (D : DashMaps) (F : Type 0) : Type 0 where
  pub updates : D.Map ℕ (ContextUpdate F)
  pub next_id : ℕ
  pub max_size : ℕ

unfoldable pub new : (D : DashMaps) (F : Type 0) → ℕ → HotContext D F
new D F max_size = record { updates = D.new; next_id = 0; max_size = max_size }

-- The ids `start, start + 1, …`, `n` of them: `start .. start + n`.
unfoldable pub range : ℕ → ℕ → List ℕ
range start zero = []
range start (suc n) = start ∷ range (suc start) n

-- The updates under the ids, those that are there.
unfoldable pub values : {A : Type 0} → (ℕ → Option A) → List ℕ → List A
values g [] = []
values g (i ∷ is) = let rest = values g is in elim (g i) [ none ↦ rest | some a ↦ a ∷ rest ]

module _ {D : DashMaps} {F : Type 0} where
  unfoldable pub push : HotContext D F → ContextUpdate F → HotContext D F
  push h update =
      let id = h.next_id in
      let inserted = D.insert h.updates id update in
      record h {
        next_id = wrapping_add id 1;
        updates = if leb h.max_size id then D.remove inserted (id - h.max_size) else inserted;
      }

  -- `id_range`, with `saturating_sub`.
  unfoldable pub id_range : HotContext D F → List ℕ
  id_range h = range (h.next_id - h.max_size) (h.next_id - (h.next_id - h.max_size))

  -- `snapshot_arcs`, `get_all`, `snapshot`, `iter` and `to_deque` give this list.
  unfoldable pub get_all : HotContext D F → List (ContextUpdate F)
  get_all h = values (D.get h.updates) (id_range h)

  unfoldable pub get_recent : HotContext D F → ℕ → List (ContextUpdate F)
  get_recent h n =
      let effective_n = min n h.max_size in
      let start = h.next_id - effective_n in
      values (D.get h.updates) (reverse (range start (h.next_id - start)))

  -- The oldest retained update that matches.
  unfoldable pub find : HotContext D F → (ContextUpdate F → Bool) → Option (ContextUpdate F)
  find h pred = find? pred (values (D.get h.updates) (id_range h))

  unfoldable pub contains_id : HotContext D F → Uuid → Bool
  contains_id h entry_id = any (λ x. eqb x.1.id entry_id) (D.iter h.updates)

  unfoldable pub len : HotContext D F → ℕ
  len h = length (D.iter h.updates)

  unfoldable pub clear : HotContext D F → HotContext D F
  clear h = record h { updates = D.new; next_id = 0 }

  unfoldable pub remove_by_id : HotContext D F → Uuid → HotContext D F × Bool
  remove_by_id h entry_id = elim (find? (λ x. eqb x.1.id entry_id) (D.iter h.updates)) [
    | none ↦ (h, false)
    | some x ↦ (record h { updates = D.remove h.updates x.0 }, is_some (D.get h.updates x.0))
  ]

  unfoldable pub back : HotContext D F → Option (ContextUpdate F)
  back h = if eqb h.next_id 0 then none else D.get h.updates (h.next_id - 1)

  unfoldable pub push_all : HotContext D F → List (ContextUpdate F) → HotContext D F
  push_all h [] = h
  push_all h (u ∷ us) = push_all (push h u) us

unfoldable pub from_updates :
    (D : DashMaps) (F : Type 0) → List (ContextUpdate F) → ℕ → HotContext D F
from_updates D F us max_size = push_all (new D F max_size) us
