-- ===== src/Persister.antt =====
-- crates/post-cortex-memory/src/memory_system/persister.rs: the per-session queue of writes, and
-- the lineage of handles that decides which of them may still write. A handle is the address of
-- its `ArcSwap`; `alive` says which handles somebody still holds (`strong_count() > 0`). The
-- writer's steps are operations on the state, in the order in which the locks let them run; what
-- other tasks do to the state while a write runs or a deletion waits is an argument of theirs.
-- What the storage is asked to do and what waiters are told is logged.
pub mod Lineages
pub mod Deletion
pub mod Numbering
pub mod Waiters
pub mod Rounds
use post_cortex.Base.{
  ℕ, zero, suc, ◌+◌, Bool, true, false, not, Option, none, some, List, [], ◌∷◌, ◌++◌, map, filter,
  any, find?, ltb, leb, eqb, if◌then◌else◌, is_some, length,
}
use post_cortex.Base.Keys.{nat_eq}
use post_cortex.Base.Words.{wrapping_add}
use post_cortex.ConcurrentMap.{DashMaps}
use post_cortex.Core.Update.{ContextUpdate, Uuid}

abbrev pub Handle : Type 0
Handle = ℕ

abbrev pub Waiter : Type 0
Waiter = ℕ

-- What a waiter is told; `storage` is an error of the sink.
pub data Outcome : Type 0 where
  written : Outcome
  session_deleted : Outcome
  handle_superseded : Outcome
  storage : Outcome

pub record Pending (F : Type 0) : Type 0 where
  pub source : Option Handle
  pub updates : List (ContextUpdate F)
  pub removed : List Uuid
  pub waiters : List Waiter

abbrev pub no_work : {F : Type 0} → Pending F
no_work = record { source = none; updates = []; removed = []; waiters = [] }

pub record Slot (F : Type 0) : Type 0 where
  pub pending : Pending F
  pub last_result : Outcome

pub record Lineage : Type 0 where
  pub members : List (Handle × ℕ)
  pub next : ℕ
  pub deleted_below : ℕ

abbrev pub empty_lineage : Lineage
empty_lineage = record { members = []; next = 0; deleted_below = 0 }

pub data Standing : Type 0 where
  current : Standing
  superseded : Option Handle → Standing
  deleted : Standing

unfoldable pub prune : (Handle → Bool) → Lineage → Lineage
prune alive l = record l { members = filter (λ m. alive m.0) l.members }

unfoldable pub generation_in : List (Handle × ℕ) → Handle → Option ℕ
generation_in [] handle = none
generation_in ((h, g) ∷ rest) handle = if eqb h handle then some g else generation_in rest handle

unfoldable pub generation_of : Lineage → Handle → Option ℕ
unfolding generation_in
generation_of l handle = generation_in l.members handle

-- `max_by_key` of the generation: the last of the greatest.
unfoldable pub newest :
    (Handle → Bool) → Option (Handle × ℕ) → List (Handle × ℕ) → Option (Handle × ℕ)
newest alive best [] = best
newest alive best ((h, g) ∷ rest) =
    newest alive
      (if alive h
        then (elim best [ none ↦ some (h, g) | some b ↦ if leb b.1 g then some (h, g) else some b ])
        else best)
      rest

unfoldable pub newest_alive : (Handle → Bool) → Lineage → Option (Handle × ℕ)
newest_alive alive l = newest alive none l.members

-- `merge`: a removal cancels a queued row of the same update.
unfoldable pub merge : {F : Type 0} → Pending F → Pending F → Pending F
merge p work = record {
  source = if is_some work.source then work.source else p.source;
  updates = filter (λ u. not (any (λ r. eqb r u.id) work.removed)) (p.updates ++ work.updates);
  removed = p.removed ++ work.removed;
  waiters = p.waiters ++ work.waiters;
}

unfoldable pub is_empty : {F : Type 0} → Pending F → Bool
is_empty p = elim p.source [
  | some handle ↦ false
  | none ↦
      if eqb (length p.updates) 0
      then (if eqb (length p.removed) 0 then eqb (length p.waiters) 0 else false)
      else false
]

-- What a batch is written from, or why it is not.
pub data Source : Type 0 where
  writer : Handle → Source
  refused : Outcome → Source

-- What the storage was asked to do, oldest first.
pub data SinkCall (F : Type 0) : Type 0 where
  write : Uuid → Handle → List (ContextUpdate F) → List Uuid → SinkCall F
  delete_session : Uuid → SinkCall F

pub record SessionPersister (D : DashMaps) (F : Type 0) : Type 0 where
  pub slots : D.Map Uuid (Slot F)
  pub tombstones : D.Map Uuid (List Handle)
  pub lineages : D.Map Uuid Lineage
  pub failed : D.Map Uuid Handle
  pub sink : List (SinkCall F)
  pub replies : List (Waiter × Outcome)

abbrev pub or_else : {A : Type 0} → Option A → A → A
or_else none a = a
or_else (some b) a = b

unfoldable pub standing_in : (Handle → Bool) → Lineage → Handle → Standing
standing_in alive lineage handle = elim (generation_of lineage handle) [
  | none ↦ current
  | some generation ↦
      if ltb generation lineage.deleted_below
      then deleted
      else if eqb (wrapping_add generation 1) lineage.next
      then current
      else superseded (elim (newest_alive alive lineage) [
        | none ↦ none
        | some n ↦ if ltb generation n.1 then some n.0 else none
      ])
]

module _ {D : DashMaps} {F : Type 0} where
  -- Each waiter is told the outcome.
  unfoldable pub tell : SessionPersister D F → List Waiter → Outcome → SessionPersister D F
  tell p waiters outcome = record p { replies = p.replies ++ map (λ w. (w, outcome)) waiters }

  unfoldable pub register :
      (Handle → Bool) → SessionPersister D F → Uuid → Handle → SessionPersister D F
  register alive p session_id handle =
      let lineage = prune alive (or_else (D.get p.lineages session_id) empty_lineage) in
      record p {
        lineages = D.insert p.lineages session_id (record lineage {
          next = wrapping_add lineage.next 1;
          members = lineage.members ++ (handle, lineage.next) ∷ [];
        });
      }

  -- The test of `is_tombstoned`; its clean-up of dead handles has no other effect.
  unfoldable pub is_tombstoned : (Handle → Bool) → SessionPersister D F → Uuid → Handle → Bool
  is_tombstoned alive p session_id handle = elim (D.get p.tombstones session_id) [
    | none ↦ false
    | some dead ↦ any (λ h. eqb h handle) (filter alive dead)
  ]

  unfoldable pub tombstone :
      (Handle → Bool) → SessionPersister D F → Uuid → Handle → SessionPersister D F
  tombstone alive p session_id handle =
      let dead = filter alive (or_else (D.get p.tombstones session_id) []) in
      record p {
        tombstones =
            D.insert p.tombstones session_id
              (if any (λ h. eqb h handle) dead then dead else dead ++ handle ∷ []);
      }

  unfoldable pub standing : (Handle → Bool) → SessionPersister D F → Uuid → Handle → Standing
  standing alive p session_id handle =
      if is_tombstoned alive p session_id handle
      then deleted
      else (elim (D.get p.lineages session_id) [
        | none ↦ current
        | some lineage ↦ standing_in alive lineage handle
      ])

  unfoldable pub has_unflushed : SessionPersister D F → Uuid → Bool
  has_unflushed p session_id =
      if is_some (D.get p.slots session_id) then true else is_some (D.get p.failed session_id)

  -- `queue`; starting the writer task is left to the steps that follow.
  unfoldable pub queue : SessionPersister D F → Uuid → Pending F → SessionPersister D F
  queue p session_id work = elim (D.get p.slots session_id) [
    | some slot ↦ record p {
      slots = D.insert p.slots session_id (record slot { pending = merge slot.pending work });
    }
    | none ↦ record p {
      slots =
          D.insert p.slots session_id
            (record { pending = merge no_work work; last_result = written });
    }
  ]

  unfoldable pub enqueue :
      (Handle → Bool)
      → SessionPersister D F
      → Uuid
      → Handle
      → List (ContextUpdate F)
      → List Uuid
      → List Waiter
      → SessionPersister D F
  enqueue alive p session_id handle updates removed waiters =
      let work = λ (source : Handle). record no_work {
        source = some source;
        updates = updates;
        removed = removed;
        waiters = waiters;
      } in
      elim (standing alive p session_id handle) [
        | current ↦ queue p session_id (work handle)
        | superseded (some newer) ↦ queue p session_id (work newer)
        | superseded none ↦ tell p waiters handle_superseded
        | deleted ↦ tell p waiters session_deleted
      ]

  -- `mem::take` of the pending work of a slot.
  unfoldable pub take_pending : SessionPersister D F → Uuid → Slot F → SessionPersister D F
  take_pending p session_id slot = record p {
    slots = D.insert p.slots session_id (record slot { pending = no_work });
  }

  -- The handle to write from, or what the waiters are told instead.
  unfoldable pub batch_source :
      (Handle → Bool) → SessionPersister D F → Uuid → Outcome → Option Handle → Bool → Source
  batch_source alive p session_id last source registered = elim source [
    | none ↦ if registered then refused last else refused session_deleted
    | some handle ↦
        if registered
        then (elim (standing alive p session_id handle) [
          | current ↦ writer handle
          | superseded (some newer) ↦ writer newer
          | superseded none ↦ refused handle_superseded
          | deleted ↦ refused session_deleted
        ])
        else refused session_deleted
  ]

  -- The result of a write is kept in the slot, unless that was unregistered: nobody reads it then.
  unfoldable pub keep_result : SessionPersister D F → Uuid → Outcome → SessionPersister D F
  keep_result p session_id outcome = elim (D.get p.slots session_id) [
    | none ↦ p
    | some slot ↦ record p {
      slots = D.insert p.slots session_id (record slot { last_result = outcome });
    }
  ]

  -- A write of the sink that ended with `accepted`, and its bookkeeping. While the sink writes,
  -- other tasks do `during`: they may queue work in the slot, or retire handles.
  unfoldable pub write_through :
      (SessionPersister D F → SessionPersister D F)
      → SessionPersister D F
      → Uuid
      → Pending F
      → Handle
      → Bool
      → SessionPersister D F
  write_through during p session_id batch handle accepted =
      let asked = record p {
        sink = p.sink ++ write session_id handle batch.updates batch.removed ∷ [];
      } in
      let q = during asked in
      tell
        (keep_result
          (record q {
            failed =
                if accepted
                then D.remove q.failed session_id
                else D.insert q.failed session_id handle;
          })
          session_id (if accepted then written else storage))
        batch.waiters (if accepted then written else storage)

  -- `write_batch`, where `slot` is the one the batch was taken from.
  unfoldable pub write_batch :
      (Handle → Bool)
      → (SessionPersister D F → SessionPersister D F)
      → Bool
      → SessionPersister D F
      → Uuid
      → Slot F
      → Pending F
      → Bool
      → SessionPersister D F
  write_batch alive during accepted p session_id slot batch registered =
      elim (batch_source alive p session_id slot.last_result batch.source registered) [
        | refused outcome ↦ tell p batch.waiters outcome
        | writer handle ↦ write_through during p session_id batch handle accepted
      ]

  -- The first half of a round of `drain`: what is queued is taken and written. The lock that the
  -- round holds keeps a deletion from unregistering the slot. A slot that was unregistered before
  -- the round is empty, and a round on it does nothing.
  unfoldable pub drain_batch :
      (Handle → Bool)
      → (SessionPersister D F → SessionPersister D F)
      → Bool
      → SessionPersister D F
      → Uuid
      → SessionPersister D F
  drain_batch alive during accepted p session_id = elim (D.get p.slots session_id) [
    | none ↦ p
    | some slot ↦
        write_batch alive during accepted (take_pending p session_id slot) session_id slot
          slot.pending true
  ]

  -- The second half: the slot is unregistered if nothing was queued meanwhile.
  unfoldable pub unregister : SessionPersister D F → Uuid → SessionPersister D F
  unregister p session_id = elim (D.get p.slots session_id) [
    | none ↦ p
    | some slot ↦
        if is_empty slot.pending then record p { slots = D.remove p.slots session_id } else p
  ]

  unfoldable pub is_deleted : (Handle → Bool) → SessionPersister D F → Uuid → Handle → Bool
  is_deleted alive p session_id handle = elim (standing alive p session_id handle) [
    | deleted ↦ true
    | current ↦ false
    | superseded newer ↦ false
  ]

  unfoldable pub tombstone_live :
      (Handle → Bool) → SessionPersister D F → Uuid → Option Handle → SessionPersister D F
  tombstone_live alive p session_id none = p
  tombstone_live alive p session_id (some handle) = tombstone alive p session_id handle

  -- The first part of `delete`: the handles are retired.
  unfoldable pub retire :
      (Handle → Bool) → SessionPersister D F → Uuid → Option Handle → SessionPersister D F
  retire alive p session_id live =
      let q = tombstone_live alive p session_id live in
      let lineage = prune alive (or_else (D.get q.lineages session_id) empty_lineage) in
      record q {
        lineages = D.insert q.lineages session_id (record lineage { deleted_below = lineage.next });
        failed = D.remove q.failed session_id;
      }

  -- Work left in a deleted session's slot: queued again for a session re-created under the id,
  -- else failed.
  unfoldable pub settle :
      (Handle → Bool) → SessionPersister D F → Uuid → Pending F → SessionPersister D F
  settle alive p session_id leftover = elim leftover.source [
    | none ↦ tell p leftover.waiters session_deleted
    | some handle ↦
        if is_deleted alive p session_id handle
        then tell p leftover.waiters session_deleted
        else queue p session_id leftover
  ]

  -- The last part of `delete`, with the lock of the slot found before: the slot is unregistered if
  -- it still is the `same`. Another one of the session was registered after the found one was
  -- drained, so that nothing is left in the latter.
  unfoldable pub finish_delete :
      (Handle → Bool) → Bool → SessionPersister D F → Uuid → SessionPersister D F
  finish_delete alive same p session_id =
      let after = record p { sink = p.sink ++ delete_session session_id ∷ [] } in
      if same
      then (elim (D.get p.slots session_id) [
        | none ↦ after
        | some slot ↦
            settle alive (record after { slots = D.remove after.slots session_id }) session_id
              slot.pending
      ])
      else after

  -- While `delete` waits for the lock of the slot, other tasks do `during`. It answers what the
  -- sink answered, which is `result`.
  unfoldable pub delete :
      {R : Type 0}
      → (Handle → Bool)
      → (SessionPersister D F → SessionPersister D F)
      → Bool
      → R
      → SessionPersister D F
      → Uuid
      → Option Handle
      → SessionPersister D F × R
  delete alive during same result p session_id live =
      let q = retire alive p session_id live in
      (
        elim (D.get q.slots session_id) [
          | none ↦ record q { sink = q.sink ++ delete_session session_id ∷ [] }
          | some slot ↦ finish_delete alive same (during q) session_id
        ],
        result,
      )
