-- ===== src/Persister/Deletion.antt =====
-- A deleted session's handles are silent: nothing is queued or written from them.
use post_cortex.Base.{
  ℕ, ◌≡◌, refl, ◌⊎◌, Bool, true, Option, none, some, List, [], ◌∷◌, ◌++◌, filter, eqb,
  if◌then◌else◌, any, arith, inl, inr, Bool-cases,
}
use post_cortex.Base.Keys.{nat_eq, ==-iff}
use post_cortex.ConcurrentMap.{DashMaps}
use post_cortex.Core.Update.{Uuid, ContextUpdate}
use post_cortex.Persister.{
  Handle, Waiter, Slot, SessionPersister, session_deleted, deleted, prune, generation_of,
  is_tombstoned, tombstone, tombstone_live, standing, standing_in, retire, delete, empty_lineage,
  or_else, tell, enqueue, write_batch, batch_source,
}
use post_cortex.Persister.Lineages.{
  IsNumbered, lineage_of, standing-lineage_of, standing-delete, standing_in-retired,
}

-- A live handle stays among the live ones, and one appended is found.
any_of_tombstones :
    (alive : Handle → Bool) (dead : List Handle) (k : Handle)
    → alive k ≡ true
    → any (λ h. eqb h k) (filter alive (dead ++ k ∷ [])) ≡ true
any_of_tombstones alive [] k up = ground arith
any_of_tombstones alive (d ∷ rest) k up =
    let rec = any_of_tombstones alive rest k up in ground arith

any_of_kept :
    (alive : Handle → Bool) (dead : List Handle) (k : Handle)
    → alive k ≡ true
    → any (λ h. eqb h k) dead ≡ true
    → any (λ h. eqb h k) (filter alive dead) ≡ true
any_of_kept alive [] k up there = there
any_of_kept alive (d ∷ rest) k up there = elim (Bool-cases (eqb d k)) [
  | inl same ↦ ground arith
  | inr other ↦ let rec = any_of_kept alive rest k up (ground arith) in ground arith
]

module _ {D : DashMaps} {F : Type 0} where
  tombstone-is_tombstoned :
      (alive : Handle → Bool) (p : SessionPersister D F) (id : Uuid) (k : Handle)
      → alive k ≡ true
      → is_tombstoned alive (tombstone alive p id k) id k ≡ true
  unfolding tombstone is_tombstoned
  tombstone-is_tombstoned alive p id k up =
      let dead = filter alive (or_else (D.get p.tombstones id) []) in
      elim (Bool-cases (any (λ h. eqb h k) dead)) [
        | inl there ↦ ground (
          arith,
          D.get-insert p.tombstones id dead id,
          ==-iff id id,
          any_of_kept alive dead k up there,
        )
        | inr fresh ↦ ground (
          arith,
          D.get-insert p.tombstones id (dead ++ k ∷ []) id,
          ==-iff id id,
          any_of_tombstones alive dead k up,
        )
      ]

  retire-standing :
      (alive : Handle → Bool) (p : SessionPersister D F) (id : Uuid) (live : Option Handle)
      (k : Handle)
      → standing alive (retire alive p id live) id k ≡ (
          if is_tombstoned alive (tombstone_live alive p id live) id k
          then deleted
          else standing_in alive
              (record (prune alive (lineage_of p id)) { deleted_below = (lineage_of p id).next })
              k)
  unfolding retire lineage_of is_tombstoned tombstone_live tombstone prune
  retire-standing alive p id none k =
      let l = or_else (D.get p.lineages id) empty_lineage in
      ground (
        arith,
        standing-lineage_of alive (retire alive p id none) id k,
        D.get-insert p.lineages id (record (prune alive l) { deleted_below = l.next }) id,
        ==-iff id id,
      )
  retire-standing alive p id (some h) k =
      let l = or_else (D.get p.lineages id) empty_lineage in
      ground (
        arith,
        standing-lineage_of alive (retire alive p id (some h)) id k,
        D.get-insert p.lineages id (record (prune alive l) { deleted_below = l.next }) id,
        ==-iff id id,
      )

  -- A live handle that a deletion is given, or that was registered, is deleted by it.
  pub delete-standing :
      {R : Type 0} (alive : Handle → Bool) (during : SessionPersister D F → SessionPersister D F)
      (same : Bool) (result : R) (p : SessionPersister D F) (id : Uuid) (live : Option Handle)
      (k : Handle)
      → (during (retire alive p id live)).lineages ≡ (retire alive p id live).lineages
      → (during (retire alive p id live)).tombstones ≡ (retire alive p id live).tombstones
      → IsNumbered (lineage_of p id)
      → alive k ≡ true
      → ((g : ℕ) × (generation_of (lineage_of p id) k ≡ some g)) ⊎ (live ≡ some k)
      → standing alive (delete alive during same result p id live).0 id k ≡ deleted
  unfolding tombstone_live
  delete-standing alive during same result p id live k ls ts num up (inl (g, known)) =
      rw (standing-delete alive during same result p id live k ls ts) (
        ground (
          arith,
          retire-standing alive p id live k,
          standing_in-retired alive (lineage_of p id) k g num up known,
        ))
  delete-standing alive during same result p id live k ls ts num up (inr given) =
      rw (standing-delete alive during same result p id live k ls ts, given)
        (ground
          (arith, retire-standing alive p id (some k) k, tombstone-is_tombstoned alive p id k up))

  -- After a deletion, a live handle that was registered or that the deletion was given is silent:
  -- a request made with it queues nothing, a batch taken from it writes nothing, and in both
  -- cases every waiter is told that the session is deleted. So it is whatever the storage answered
  -- to the deletion, and whatever was done while it waited for a running write, provided that no
  -- lineage and no tombstone was changed then.
  pub delete_silences :
      {R : Type 0} (alive : Handle → Bool) (during : SessionPersister D F → SessionPersister D F)
      (same : Bool) (result : R) (p : SessionPersister D F) (id : Uuid) (live : Option Handle)
      (k : Handle) (updates : List (ContextUpdate F)) (removed : List Uuid) (waiters : List Waiter)
      (meanwhile : SessionPersister D F → SessionPersister D F) (accepted registered : Bool)
      (slot : Slot F)
      → (during (retire alive p id live)).lineages ≡ (retire alive p id live).lineages
      → (during (retire alive p id live)).tombstones ≡ (retire alive p id live).tombstones
      → IsNumbered (lineage_of p id)
      → alive k ≡ true
      → ((g : ℕ) × (generation_of (lineage_of p id) k ≡ some g)) ⊎ (live ≡ some k)
      → (enqueue alive (delete alive during same result p id live).0 id k updates removed waiters
          ≡ tell (delete alive during same result p id live).0 waiters session_deleted)
        × (write_batch alive meanwhile accepted
              (delete alive during same result p id live).0
              id
              slot
              (record { source = some k; updates = updates; removed = removed; waiters = waiters })
              registered
            ≡ tell (delete alive during same result p id live).0 waiters session_deleted)
  unfolding enqueue write_batch batch_source
  delete_silences alive during same result p id live k updates removed waiters meanwhile accepted
        registered slot ls ts num up known =
      let retired = delete-standing alive during same result p id live k ls ts num up known in
      (
        rw (retired, enqueue) refl,
        elim (Bool-cases registered) [
          | inl here ↦ rw (here, write_batch, batch_source, retired) refl
          | inr gone ↦ rw (gone, write_batch, batch_source) refl
        ],
      )
