-- ===== src/Persister/Rounds.antt =====
-- What a round of the writer and a deletion tell the waiters, and what they leave queued.
use post_cortex.Base.{
  ◌≡◌, ◌∙◌, ap, refl, Bool, true, false, Option, none, some, List, [], ◌∷◌, ◌++◌, map, arith,
}
use post_cortex.Base.Keys.{nat_eq, ==-iff}
use post_cortex.ConcurrentMap.{DashMaps}
use post_cortex.Core.Update.{Uuid}
use post_cortex.Persister.{
  Handle, Waiter, Outcome, Slot, Standing, Pending, SessionPersister, no_work, merge,
  session_deleted, handle_superseded, written, storage, current, superseded, deleted, standing,
  tell, take_pending, keep_result, write_through, write_batch, batch_source, drain_batch, write,
  is_tombstoned,
}

-- Each of the waiters is told the outcome, in their order.
abbrev pub all_told : List Waiter → Outcome → List (Waiter × Outcome)
all_told [] outcome = []
all_told (w ∷ rest) outcome = (w, outcome) ∷ all_told rest outcome

all_told_lem :
    (ws : List Waiter) (outcome : Outcome) → map (λ w. (w, outcome)) ws ≡ all_told ws outcome
all_told_lem [] outcome = refl
all_told_lem (w ∷ rest) outcome = let rec = all_told_lem rest outcome in ground arith

-- What a batch comes to: it is written, or its waiters are told why not.
pub data Fate : Type 0 where
  goes_through : Fate
  is_refused : Outcome → Fate

-- A batch without a source waits for the write before it; one with a source is written if the
-- source, or a newer handle, may write.
abbrev pub fate : Option Standing → Outcome → Fate
fate none last = is_refused last
fate (some current) last = goes_through
fate (some (superseded (some newer))) last = goes_through
fate (some (superseded none)) last = is_refused handle_superseded
fate (some deleted) last = is_refused session_deleted

abbrev pub result_of : Bool → Outcome
result_of true = written
result_of false = storage

-- What the waiters of a batch are told.
abbrev pub reply_of : Fate → Bool → Outcome
reply_of goes_through accepted = result_of accepted
reply_of (is_refused outcome) accepted = outcome

-- The slot after a round: the work merged while the sink wrote, and the result of the write.
abbrev pub left_by : {F : Type 0} → Fate → Bool → Slot F → Pending F → Slot F
left_by goes_through accepted slot more = record {
  pending = merge no_work more;
  last_result = result_of accepted;
}
left_by (is_refused outcome) accepted slot more = record slot { pending = no_work }

-- Whether work belongs to a session that is not deleted.
abbrev pub is_remade : Option Standing → Bool
is_remade none = false
is_remade (some current) = true
is_remade (some (superseded newer)) = true
is_remade (some deleted) = false

module _ {D : DashMaps} {F : Type 0} where
  -- The standing of the source of a batch, if it has one.
  abbrev pub source_standing :
      (Handle → Bool) → SessionPersister D F → Uuid → Option Handle → Option Standing
  source_standing alive p id none = none
  source_standing alive p id (some h) = some (standing alive p id h)

  -- What a round leaves.
  abbrev IsRound :
      SessionPersister D F
      → Uuid
      → List (Waiter × Outcome)
      → List Waiter
      → Outcome
      → Slot F
      → Type 0
  IsRound r id before waiters outcome left =
      (r.replies ≡ before ++ all_told waiters outcome) × (D.get r.slots id ≡ some left)

  tell-IsRound :
      (q : SessionPersister D F) (id : Uuid) (ws : List Waiter) (outcome : Outcome) (left : Slot F)
      → D.get q.slots id ≡ some left
      → IsRound (tell q ws outcome) id q.replies ws outcome left
  unfolding tell
  tell-IsRound q id ws outcome left there = (rw (all_told_lem ws outcome) refl, there)

  keep_result-IsRound :
      (q : SessionPersister D F) (id : Uuid) (outcome : Outcome) (s : Slot F) (ws : List Waiter)
      → D.get q.slots id ≡ some s
      → IsRound
          (tell (keep_result q id outcome) ws outcome)
          id
          q.replies
          ws
          outcome
          (record s { last_result = outcome })
  unfolding keep_result
  keep_result-IsRound q id outcome s ws there =
      let kept : Slot F = record s { last_result = outcome } in
      rw (there, keep_result)
        (tell-IsRound (record q { slots = D.insert q.slots id kept }) id ws outcome kept
          (ground (arith, D.get-insert q.slots id kept id, ==-iff id id)))

  module _ (during : SessionPersister D F → SessionPersister D F) (id : Uuid)
      (more : Pending F) where
    write_through-IsRound :
        (q : SessionPersister D F) (slot : Slot F) (h : Handle) (accepted : Bool)
        (batch : Pending F)
        → ((r : SessionPersister D F) → (during r).replies ≡ r.replies)
        → ((r : SessionPersister D F) (s : Slot F)
            → D.get r.slots id ≡ some s
            → D.get (during r).slots id ≡ some (record s { pending = merge s.pending more }))
        → D.get q.slots id ≡ some (record slot { pending = no_work })
        → IsRound
            (write_through during q id batch h accepted)
            id
            q.replies
            batch.waiters
            (result_of accepted)
            (left_by goes_through accepted slot more)
    unfolding write_through
    write_through-IsRound q slot h true batch quiet merged there =
        let asked : SessionPersister D F = record q {
          sink = q.sink ++ write id h batch.updates batch.removed ∷ [];
        } in
        let now = merged asked (record slot { pending = no_work }) there in
        let r = during asked in
        let said : r.replies ≡ q.replies = quiet asked in
        let (a, b) =
          keep_result-IsRound (record r { failed = D.remove r.failed id }) id written
            (record slot { pending = merge no_work more }) batch.waiters now in
        (a ∙ ap (λ l. l ++ all_told batch.waiters written) said, b)
    write_through-IsRound q slot h false batch quiet merged there =
        let asked : SessionPersister D F = record q {
          sink = q.sink ++ write id h batch.updates batch.removed ∷ [];
        } in
        let now = merged asked (record slot { pending = no_work }) there in
        let r = during asked in
        let said : r.replies ≡ q.replies = quiet asked in
        let (a, b) =
          keep_result-IsRound (record r { failed = D.insert r.failed id h }) id storage
            (record slot { pending = merge no_work more }) batch.waiters now in
        (a ∙ ap (λ l. l ++ all_told batch.waiters storage) said, b)

    write_batch-IsRound :
        (alive : Handle → Bool) (q : SessionPersister D F) (slot : Slot F) (accepted : Bool)
        (batch : Pending F) (source : Option Handle) (o : Option Standing)
        → ((r : SessionPersister D F) → (during r).replies ≡ r.replies)
        → ((r : SessionPersister D F) (s : Slot F)
            → D.get r.slots id ≡ some s
            → D.get (during r).slots id ≡ some (record s { pending = merge s.pending more }))
        → D.get q.slots id ≡ some (record slot { pending = no_work })
        → batch.source ≡ source
        → source_standing alive q id source ≡ o
        → IsRound
            (write_batch alive during accepted q id slot batch true)
            id
            q.replies
            batch.waiters
            (reply_of (fate o slot.last_result) accepted)
            (left_by (fate o slot.last_result) accepted slot more)
    unfolding write_batch batch_source
    write_batch-IsRound alive q slot accepted batch none none quiet merged there src e =
        rw (src, write_batch, batch_source)
          (tell-IsRound q id batch.waiters slot.last_result (record slot { pending = no_work })
            there)
    write_batch-IsRound alive q slot accepted batch none (some s) quiet merged there src e = cc
    write_batch-IsRound alive q slot accepted batch (some h) none quiet merged there src e = cc
    write_batch-IsRound alive q slot accepted batch (some h) (some current) quiet merged there src
          e =
        let st : standing alive q id h ≡ current = cc in
        rw (src, write_batch, batch_source, st)
          (write_through-IsRound q slot h accepted batch quiet merged there)
    write_batch-IsRound alive q slot accepted batch (some h) (some (superseded (some n))) quiet
          merged there src e =
        let st : standing alive q id h ≡ superseded (some n) = cc in
        rw (src, write_batch, batch_source, st)
          (write_through-IsRound q slot n accepted batch quiet merged there)
    write_batch-IsRound alive q slot accepted batch (some h) (some (superseded none)) quiet merged
          there src e =
        let st : standing alive q id h ≡ superseded none = cc in
        rw (src, write_batch, batch_source, st)
          (tell-IsRound q id batch.waiters handle_superseded (record slot { pending = no_work })
            there)
    write_batch-IsRound alive q slot accepted batch (some h) (some deleted) quiet merged there src
          e =
        let st : standing alive q id h ≡ deleted = cc in
        rw (src, write_batch, batch_source, st)
          (tell-IsRound q id batch.waiters session_deleted (record slot { pending = no_work })
            there)

  standing-take :
      (alive : Handle → Bool) (p : SessionPersister D F) (id : Uuid) (slot : Slot F)
      (source : Option Handle)
      → source_standing alive (take_pending p id slot) id source ≡ source_standing alive p id source
  unfolding take_pending standing is_tombstoned
  standing-take alive p id slot none = refl
  standing-take alive p id slot (some h) = refl

  -- A round of the writer on a session's slot, while whose write nobody is told anything and
  -- `more` is merged into the slot: every waiter of the batch, and nobody else, is told the fate
  -- of the batch once. That is the result of the write if the source of the batch or a newer
  -- handle may write, that the source is superseded or the session deleted if not, and the result
  -- of the last write if the batch has no source. The slot is left with the work merged while
  -- the sink wrote, and with no work where nothing was written.
  pub drain_batch-IsRound :
      (alive : Handle → Bool) (during : SessionPersister D F → SessionPersister D F)
      (accepted : Bool) (p : SessionPersister D F) (id : Uuid) (slot : Slot F) (more : Pending F)
      → ((r : SessionPersister D F) → (during r).replies ≡ r.replies)
      → ((r : SessionPersister D F) (s : Slot F)
          → D.get r.slots id ≡ some s
          → D.get (during r).slots id ≡ some (record s { pending = merge s.pending more }))
      → D.get p.slots id ≡ some slot
      → ((drain_batch alive during accepted p id).replies
          ≡ p.replies
            ++ all_told slot.pending.waiters (
                reply_of
                  (fate (source_standing alive p id slot.pending.source) slot.last_result)
                  accepted))
        × (D.get (drain_batch alive during accepted p id).slots id
            ≡ some (
                left_by
                  (fate (source_standing alive p id slot.pending.source) slot.last_result)
                  accepted
                  slot
                  more))
  unfolding drain_batch take_pending
  drain_batch-IsRound alive during accepted p id slot more quiet merged there =
      let idle : Slot F = record slot { pending = no_work } in
      rw (there, drain_batch)
        (write_batch-IsRound during id more alive (take_pending p id slot) slot accepted
          slot.pending slot.pending.source (source_standing alive p id slot.pending.source) quiet
          merged (ground (arith, D.get-insert p.slots id idle id, ==-iff id id)) refl
          (standing-take alive p id slot slot.pending.source))

  -- What a deletion leaves of the work found in the slot: all of it, or nothing, and then the
  -- waiters know.
  abbrev pub IsSettled :
      Bool → SessionPersister D F → Uuid → List (Waiter × Outcome) → Pending F → Type 0
  IsSettled true r id before work =
      (r.replies ≡ before)
      × (D.get r.slots id ≡ some (record { pending = merge no_work work; last_result = written }))
  IsSettled false r id before work =
      (r.replies ≡ before ++ all_told work.waiters session_deleted) × (D.get r.slots id ≡ none)
