-- ===== src/Tests/PersisterTests.antt =====
-- The persister on concrete maps.
use post_cortex.Base.{
  ℕ, Bool, true, ◌+◌, ◌≡◌, refl, inl, none, some, [], ◌∷◌, arith, false, inr, Option-cases,
}
use post_cortex.Base.Keys.{nat_eq, ==-iff}
use post_cortex.Base.Words.{wrapping_add}
use post_cortex.ConcurrentMap.{lookup}
use post_cortex.ConcurrentMap.Assoc.{assoc_maps, without, entries}
use post_cortex.Core.Update.{Uuid}
use post_cortex.Persister.{
  Handle, session_deleted, SessionPersister, Pending, Slot, storage, merge, queue, written, no_work,
  tell, register, current, prune, generation_in, generation_of, newest, newest_alive, standing_in,
  tombstone_live, standing, is_tombstoned, enqueue, drain_batch, retire, delete, write_batch,
}
use post_cortex.Persister.Lineages.{IsNumbered, lineage_of, superseded_by, register-standing}
use post_cortex.Persister.Numbering.{lineage_of-IsNumbered}
use post_cortex.Persister.Deletion.{delete_silences}
use post_cortex.Persister.Waiters.{count, tally, enqueue-tally}
use post_cortex.Persister.Rounds.{drain_batch-IsRound}

abbrev held : Handle → Bool
held h = true

-- Handle 4 of session 1 is registered; a request of waiter 9 is queued.
abbrev busy : SessionPersister assoc_maps ℕ
busy = record {
  slots =
      (
        1,
        record {
          pending = record { source = none; updates = []; removed = 6 ∷ []; waiters = 9 ∷ [] };
          last_result = written;
        },
      )
      ∷ [];
  tombstones = [];
  lineages = (1, record { members = (4, 0) ∷ []; next = 1; deleted_below = 0 }) ∷ [];
  failed = [];
  sink = [];
  replies = [];
}

program : Unit {0}
unfolding lookup without entries lineage_of prune generation_in generation_of newest newest_alive
    standing_in standing is_tombstoned retire tombstone_live queue wrapping_add
program = tt

busy-IsNumbered : IsNumbered (lineage_of busy 1)
unfolding program
busy-IsNumbered = record { given = (omega arith, tt); retired = omega arith }

register-standing_example :
    (standing held (register held busy 1 5) 1 5 ≡ current)
    × (standing held (register held busy 1 5) 1 4 ≡ superseded_by 5 (standing held busy 1 4))
unfolding program
register-standing_example =
    register-standing held busy 1 5 4 0 busy-IsNumbered (omega arith) refl refl refl refl refl

-- While a deletion waits, waiter 8 asks for the removal of update 3.
abbrev more_work : Pending ℕ
more_work = record { source = some 4; updates = []; removed = 3 ∷ []; waiters = 8 ∷ [] }

abbrev asking : SessionPersister assoc_maps ℕ → SessionPersister assoc_maps ℕ
asking p = queue p 1 more_work

asking_quiet : (r : SessionPersister assoc_maps ℕ) → (asking r).replies ≡ r.replies
unfolding queue
asking_quiet r = elim (Option-cases (assoc_maps.get r.slots 1)) [
  | inl fresh ↦ rw (fresh, queue) refl
  | inr (slot, there) ↦ rw (there, queue) refl
]

asking_merges :
    (r : SessionPersister assoc_maps ℕ) (s : Slot ℕ)
    → assoc_maps.get r.slots 1 ≡ some s
    → assoc_maps.get (asking r).slots 1 ≡ some (record s { pending = merge s.pending more_work })
unfolding queue
asking_merges r s there =
    let slot : Slot ℕ = record s { pending = merge s.pending more_work } in
    rw (there, queue)
      (ground (arith, assoc_maps.get-insert r.slots 1 slot 1, ==-iff {A = Uuid} 1 1))

delete_silences_example :
    (enqueue held (delete held asking true true busy 1 none).0 1 4 [] (7 ∷ []) (2 ∷ [])
      ≡ tell (delete held asking true true busy 1 none).0 (2 ∷ []) session_deleted)
    × (write_batch held asking true
          (delete held asking true true busy 1 none).0
          1
          (record { pending = no_work; last_result = written })
          (record { source = some 4; updates = []; removed = 7 ∷ []; waiters = 2 ∷ [] })
          true
        ≡ tell (delete held asking true true busy 1 none).0 (2 ∷ []) session_deleted)
unfolding program
delete_silences_example =
    delete_silences held asking true true busy 1 none 4 [] (7 ∷ []) (2 ∷ []) asking true true
      (record { pending = no_work; last_result = written }) refl refl busy-IsNumbered refl
      (inl (0, refl))

enqueue-tally_example :
    tally (enqueue held busy 1 4 [] [] (9 ∷ 9 ∷ [])) 1 9 ≡ tally busy 1 9 + count 9 (9 ∷ 9 ∷ [])
enqueue-tally_example = enqueue-tally held busy 1 4 [] [] (9 ∷ 9 ∷ []) 9

-- The work of waiter 7 is from handle 4.
abbrev loaded : Slot ℕ
loaded = record {
  pending = record { source = some 4; updates = []; removed = 6 ∷ []; waiters = 7 ∷ [] };
  last_result = written;
}

abbrev ready : SessionPersister assoc_maps ℕ
ready = record busy { slots = (1, loaded) ∷ [] }

drain_batch-IsRound_example :
    ((drain_batch held asking false ready 1).replies ≡ (7, storage) ∷ [])
    × (assoc_maps.get (drain_batch held asking false ready 1).slots 1
        ≡ some (record { pending = merge no_work more_work; last_result = storage }))
unfolding program
drain_batch-IsRound_example =
    drain_batch-IsRound held asking false ready 1 loaded more_work asking_quiet asking_merges refl

lineage_of-IsNumbered_example :
    IsNumbered (lineage_of (register held busy 1 5) 1)
    × IsNumbered (lineage_of (retire held busy 1 none) 1)
unfolding program
lineage_of-IsNumbered_example =
    lineage_of-IsNumbered held busy 1 5 none busy-IsNumbered (omega arith)
