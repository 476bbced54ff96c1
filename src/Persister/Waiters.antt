-- ===== src/Persister/Waiters.antt =====
-- What becomes of the queued rows and of the waiters.
use post_cortex.Base.{
  ℕ, ◌+◌, ◌≡◌, refl, Bool, not, ◌&&◌, ◌||◌, none, some, List, [], ◌∷◌, ◌++◌, map, filter, eqb,
  if◌then◌else◌, any, arith, inl, inr, Bool-cases, Option-cases,
}
use post_cortex.Base.Keys.{nat_eq, ==-iff}
use post_cortex.ConcurrentMap.{DashMaps}
use post_cortex.Core.Update.{Uuid, ContextUpdate}
use post_cortex.Persister.{
  Handle, Waiter, Outcome, Slot, Standing, Pending, SessionPersister, no_work, merge,
  session_deleted, handle_superseded, written, current, superseded, deleted, standing, queue, tell,
  enqueue,
}

-- How often a waiter occurs.
unfoldable pub count : Waiter → List Waiter → ℕ
count w [] = 0
count w (v ∷ rest) = (if eqb v w then 1 else 0) + count w rest

count-append : (w : Waiter) (a b : List Waiter) → count w (a ++ b) ≡ count w a + count w b
unfolding count
count-append w [] b = omega arith
count-append w (v ∷ a) b = ground (arith, count-append w a b)

-- How often a waiter was told an outcome.
unfoldable pub told : Waiter → List (Waiter × Outcome) → ℕ
told w [] = 0
told w ((v, o) ∷ rest) = (if eqb v w then 1 else 0) + told w rest

told-append :
    (w : Waiter) (a : List (Waiter × Outcome)) (ws : List Waiter) (o : Outcome)
    → told w (a ++ map (λ v. (v, o)) ws) ≡ told w a + count w ws
unfolding count told
told-append w [] [] o = refl
told-append w [] (v ∷ ws) o = ground (arith, told-append w [] ws o)
told-append w ((v, x) ∷ a) ws o = ground (arith, told-append w a ws o)

any-append : {A : Type 0} (f : A → Bool) (a b : List A) → any f (a ++ b) ≡ any f a || any f b
any-append f [] b = refl
any-append f (x ∷ a) b = ground (arith, any-append f a b)

-- The queued row of an update.
abbrev pub has_row : {F : Type 0} → Uuid → List (ContextUpdate F) → Bool
has_row id rows = any (λ u. eqb u.id id) rows

has_row-filter :
    {F : Type 0} (id : Uuid) (gone : List Uuid) (rows : List (ContextUpdate F))
    → has_row id (filter (λ u. not (any (λ r. eqb r u.id) gone)) rows)
      ≡ has_row id rows && not (any (λ r. eqb r id) gone)
has_row-filter id gone [] = refl
has_row-filter id gone (u ∷ rows) = elim (Bool-cases (eqb u.id id)) [
  | inl this ↦
      let same : u.id ≡ id = ground (arith, this) in
      let rest = has_row-filter id gone rows in rw (same) (ground (arith, rest))
  | inr other ↦ let rest = has_row-filter id gone rows in ground (arith, rest)
]

-- After a merge a row is queued if it was queued or is asked for, unless the new work removes it;
-- its removals and waiters join those queued.
merge_lem :
    {F : Type 0} (p work : Pending F) (id : Uuid) (w : Waiter)
    → (has_row id (merge p work).updates
        ≡ (has_row id p.updates || has_row id work.updates)
          && not (any (λ r. eqb r id) work.removed))
      × (any (λ r. eqb r id) (merge p work).removed
          ≡ any (λ r. eqb r id) p.removed || any (λ r. eqb r id) work.removed)
      × (count w (merge p work).waiters ≡ count w p.waiters + count w work.waiters)
unfolding merge
merge_lem p work id w = (
  ground (
    arith,
    has_row-filter id work.removed (p.updates ++ work.updates),
    any-append (λ u. eqb u.id id) p.updates work.updates,
  ),
  any-append (λ r. eqb r id) p.removed work.removed,
  count-append w p.waiters work.waiters,
)

module _ {D : DashMaps} {F : Type 0} where
  -- A waiter's places: those in the queue of the session, and what it was told.
  unfoldable pub tally : SessionPersister D F → Uuid → Waiter → ℕ
  tally p id w =
      told w p.replies
      + (elim (D.get p.slots id) [ none ↦ 0 | some slot ↦ count w slot.pending.waiters ])

  tally-tell :
      (p : SessionPersister D F) (ws : List Waiter) (o : Outcome) (id : Uuid) (w : Waiter)
      → tally (tell p ws o) id w ≡ tally p id w + count w ws
  unfolding tally tell
  tally-tell p ws o id w = ground (arith, told-append w p.replies ws o)

  tally-queue :
      (p : SessionPersister D F) (id : Uuid) (work : Pending F) (w : Waiter)
      → tally (queue p id work) id w ≡ tally p id w + count w work.waiters
  unfolding tally queue count
  tally-queue p id work w = elim (Option-cases (D.get p.slots id)) [
    | inl fresh ↦
        let slot : Slot F = record { pending = merge no_work work; last_result = written } in
        ground
          (arith, D.get-insert p.slots id slot id, ==-iff id id, (merge_lem no_work work 0 w).2)
    | inr (old, there) ↦
        let slot : Slot F = record old { pending = merge old.pending work } in
        ground
          (arith, D.get-insert p.slots id slot id, ==-iff id id, (merge_lem old.pending work 0 w).2)
  ]

  enqueue-tally_at :
      (alive : Handle → Bool) (p : SessionPersister D F) (id : Uuid) (handle : Handle)
      (updates : List (ContextUpdate F)) (removed : List Uuid) (waiters : List Waiter) (w : Waiter)
      (s : Standing)
      → standing alive p id handle ≡ s
      → tally (enqueue alive p id handle updates removed waiters) id w
        ≡ tally p id w + count w waiters
  unfolding enqueue
  enqueue-tally_at alive p id handle updates removed waiters w current e =
      rw (e, enqueue)
        (tally-queue p id
          (record { source = some handle; updates = updates; removed = removed; waiters = waiters })
          w)
  enqueue-tally_at alive p id handle updates removed waiters w (superseded (some newer)) e =
      rw (e, enqueue)
        (tally-queue p id
          (record { source = some newer; updates = updates; removed = removed; waiters = waiters })
          w)
  enqueue-tally_at alive p id handle updates removed waiters w (superseded none) e =
      rw (e, enqueue) (tally-tell p waiters handle_superseded id w)
  enqueue-tally_at alive p id handle updates removed waiters w deleted e =
      rw (e, enqueue) (tally-tell p waiters session_deleted id w)

  -- A request accounts for each of its waiters once: it is queued or told, never both or neither.
  pub enqueue-tally :
      (alive : Handle → Bool) (p : SessionPersister D F) (id : Uuid) (handle : Handle)
      (updates : List (ContextUpdate F)) (removed : List Uuid) (waiters : List Waiter) (w : Waiter)
      → tally (enqueue alive p id handle updates removed waiters) id w
        ≡ tally p id w + count w waiters
  enqueue-tally alive p id handle updates removed waiters w =
      enqueue-tally_at alive p id handle updates removed waiters w (standing alive p id handle) refl
