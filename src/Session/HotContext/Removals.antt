-- ===== src/Session/HotContext/Removals.antt =====
-- What removing an update by its id leaves in the hot tier.
use post_cortex.Base.{
  ℕ, ◌-◌, ◌≡◌, refl, Bool, true, false, none, some, List, [], ◌∷◌, any, find?, eqb, if◌then◌else◌,
  arith, inl, inr, Bool-cases, Option-cases,
}
use post_cortex.Base.Keys.{nat_eq, ==-iff, ◌==◌}
use post_cortex.ConcurrentMap.{DashMaps, lookup, total, AllDistinct}
use post_cortex.Core.Update.{Uuid, ContextUpdate}
use post_cortex.Session.HotContext.{HotContext, contains_id, remove_by_id}

-- In a list without repeated keys, an entry is found under its key.
lookup-found :
    {V : Type 0} (p : ℕ × V → Bool) (l : List (ℕ × V)) (x : ℕ × V)
    → AllDistinct l
    → find? p l ≡ some x
    → (lookup x.0 l ≡ some x.1) × (p x ≡ true)
unfolding lookup
lookup-found p [] x d h = cc
lookup-found p ((k, v) ∷ l) x d h = elim (Bool-cases (p (k, v))) [
  | inl holds ↦
      let same : (k, v) ≡ x = ground (arith, h, holds) in
      rw (← same) (ground (arith, ==-iff k k), holds)
  | inr fails ↦
      let (there, good) = lookup-found p l x d.1 (rw fails at h) in
      elim (Bool-cases (k == x.0)) [
        | inl twice ↦
            let same : k ≡ x.0 = (==-iff k x.0).0 twice in
            let absent : lookup x.0 l ≡ none = rw same at d.0 in absurd (cc (there, absent))
        | inr other ↦ (rw (lookup, other) there, good)
      ]
]

module _ {F : Type 0} where
  total-any :
      (id : Uuid) (l : List (ℕ × ContextUpdate F))
      → any (λ x. eqb x.1.id id) l ≡ false
      → total (λ (u : ContextUpdate F). if eqb u.id id then 1 else 0) l ≡ 0
  unfolding total
  total-any id [] h = refl
  total-any id (x ∷ l) h = let rec = total-any id l in ground (arith, h, rec)

  find?-any :
      (id : Uuid) (l : List (ℕ × ContextUpdate F))
      → find? (λ x. eqb x.1.id id) l ≡ none
      → any (λ x. eqb x.1.id id) l ≡ false
  find?-any id [] h = refl
  find?-any id (x ∷ l) h = let rec = find?-any id l in ground (arith, h, rec)

module _ {D : DashMaps} {F : Type 0} where
  -- How many of the updates kept have the id.
  abbrev pub copies : Uuid → HotContext D F → ℕ
  copies id h = total (λ u. if eqb u.id id then 1 else 0) (D.iter h.updates)

  -- One copy goes, if there is one.
  pub copies-remove_by_id :
      (h : HotContext D F) (id : Uuid) → copies id (remove_by_id h id).0 ≡ copies id h - 1
  unfolding remove_by_id
  copies-remove_by_id h id =
      elim (Option-cases (find? (λ (x : ℕ × ContextUpdate F). eqb x.1.id id) (D.iter h.updates))) [
        | inl missing ↦
            rw (missing, remove_by_id)
              (omega
                (arith, total-any id (D.iter h.updates) (find?-any id (D.iter h.updates) missing)))
        | inr (x, found) ↦
            let (there, good) =
              lookup-found (λ (x : ℕ × ContextUpdate F). eqb x.1.id id) (D.iter h.updates) x
                (D.iter-AllDistinct h.updates) found in
            let one : D.get h.updates x.0 ≡ some x.1 = rw (D.get-iter h.updates x.0) there in
            rw (found, remove_by_id)
              (ground (
                arith,
                one,
                good,
                D.total-remove (λ (u : ContextUpdate F). if eqb u.id id then 1 else 0) h.updates
                    x.0,
              ))
      ]

  copies-contains_id : (h : HotContext D F) (id : Uuid) → contains_id h id ≡ false → copies id h ≡ 0
  unfolding contains_id
  copies-contains_id h id lacks = total-any id (D.iter h.updates) lacks

  -- The hot tier after `drop_entry`, which asks first.
  pub copies_dropped :
      (h : HotContext D F) (id : Uuid)
      → copies id (if contains_id h id then (remove_by_id h id).0 else h) ≡ copies id h - 1
  copies_dropped h id = elim (Bool-cases (contains_id h id)) [
    | inl has ↦ rw has (copies-remove_by_id h id)
    | inr lacks ↦ rw lacks (omega (arith, copies-contains_id h id lacks))
  ]
