-- ===== src/Session/Active/Restoring.antt =====
-- Removing an update that was just added restores what the session had.
use post_cortex.Base.{
  ◌≤◌, ◌≡◌, refl, Bool, true, false, not, ◌&&◌, Option, none, some, [], ◌∷◌, ◌++◌, filter, any, inl,
  inr, eqb, arith, Bool-cases, find?,
}
use post_cortex.Base.Keys.{string_eq}
use post_cortex.ConcurrentMap.{DashMaps}
use post_cortex.Core.Update.{Uuid, CodeReference, ContextUpdate}
use post_cortex.Session.Structured.{update_current_state, relates, remove_derived_state}
use post_cortex.Session.Active.{ActiveSession, Draws, has_update, has_compressed, concerns}
use post_cortex.Session.Active.Adding.{
  add_code_reference, record_change, should_create_summary, create_periodic_summary,
  maintain_context, publish, add_related_code, add_incremental_update_fast,
}
use post_cortex.Session.Active.Removing.{find_update, drop_entry, remove_update_by_id}
use post_cortex.Session.Active.Truncation.{limited, bytes, limited-bytes}
use post_cortex.Session.Active.Removal.{remove_related_code-kept}
use post_cortex.Graph.{EdgeData}
use post_cortex.Graph.Petgraph.{DiGraphs}
use post_cortex.Session.Active.Derived.{
  find?-snoc, filter_lacking, filter-snoc, is_bare, has_item,
  remove_derived_state-update_current_state,
}

-- Nothing in the session stands for the update, and no item of the flow relates to nothing.
unfoldable pub is_new :
    {D : DashMaps} {G : DiGraphs EdgeData} {F : Type 0}
    → ActiveSession D G F
    → ContextUpdate F
    → Bool
is_new s update =
    not (has_update update.id s.incremental_updates)
    && (not (has_compressed update.id s.warm_context)
        && (not (any (concerns update.id) s.change_history)
            && (not (any (relates update.id) s.current_state.conversation_flow)
                && (not (any is_bare s.current_state.conversation_flow)
                    && not (has_item update.update_type s.current_state update)))))

-- The two sessions agree in the list of updates, the warm tier, the history and the state.
abbrev pub HaveSameRecords :
    {D : DashMaps} {G : DiGraphs EdgeData} {F : Type 0}
    → ActiveSession D G F
    → ActiveSession D G F
    → Type 0
HaveSameRecords s t =
    (s.incremental_updates ≡ t.incremental_updates)
    × ((s.warm_context ≡ t.warm_context)
        × ((s.change_history ≡ t.change_history) × (s.current_state ≡ t.current_state)))

module _ {D : DashMaps} {G : DiGraphs EdgeData} {F : Type 0} where
  maintain_context-kept :
      (one : F) (draws : Draws) (s : ActiveSession D G F)
      → maintain_context one draws s
        ≡ record s { cold_context = (maintain_context one draws s).cold_context }
  unfolding maintain_context create_periodic_summary
  maintain_context-kept one draws s = elim (Bool-cases (should_create_summary s)) [
    | inl due ↦ rw (due, maintain_context) refl
    | inr idle ↦ rw (idle, maintain_context) refl
  ]

  add_related_code-kept :
      (s : ActiveSession D G F) (code : Option CodeReference)
      → add_related_code s code
        ≡ record s { code_references = (add_related_code s code).code_references }
  unfolding add_related_code add_code_reference
  add_related_code-kept s none = refl
  add_related_code-kept s (some code_ref) = refl

  find_listed :
      (s : ActiveSession D G F) (id : Uuid) (u : ContextUpdate F)
      → find? (λ x. eqb x.id id) s.incremental_updates ≡ some u
      → find_update s id ≡ some u
  unfolding find_update
  find_listed s id u h = rw (h, find_update) refl

  remove_update_by_id-fields :
      (s : ActiveSession D G F) (id : Uuid) (u : ContextUpdate F)
      → find_update s id ≡ some u
      → ((remove_update_by_id s id).0.incremental_updates
          ≡ filter (λ x. not (eqb x.id id)) s.incremental_updates)
        × (((remove_update_by_id s id).0.warm_context
              ≡ filter (λ c. not (eqb c.update.id id)) s.warm_context)
            × (((remove_update_by_id s id).0.change_history
                  ≡ filter (λ c. not (concerns id c)) s.change_history)
                × ((remove_update_by_id s id).0.current_state
                    ≡ remove_derived_state s.current_state u)))
  unfolding remove_update_by_id drop_entry
  remove_update_by_id-fields s id u found =
      let cleaned = record (drop_entry s id) {
        current_state = remove_derived_state s.current_state u;
      } in
      rw (found, remove_update_by_id, remove_related_code-kept cleaned u.related_code)
        (refl, (refl, (refl, refl)))

  -- The fields of a session that an update was added to.
  add_incremental_update_fast-fields :
      (one : F) (draws : Draws) (s : ActiveSession D G F) (update : ContextUpdate F)
      → ((add_incremental_update_fast one draws s update).incremental_updates
          ≡ s.incremental_updates ++ limited update ∷ [])
        × (((add_incremental_update_fast one draws s update).warm_context ≡ s.warm_context)
            × (((add_incremental_update_fast one draws s update).change_history
                  ≡ (record_change draws s (limited update)).change_history)
                × ((add_incremental_update_fast one draws s update).current_state
                    ≡ update_current_state one s.current_state (limited update))))
  unfolding add_incremental_update_fast publish record_change
  add_incremental_update_fast-fields one draws s update =
      let short = limited update in
      let stated = record s { current_state = update_current_state one s.current_state short } in
      let coded = add_related_code stated short.related_code in
      rw
        (
          maintain_context-kept one draws (record_change draws coded short),
          add_incremental_update_fast,
          add_related_code-kept stated short.related_code,
        )
        (refl, (refl, (refl, refl)))

  -- An update that is added is stored, as the last of the list of updates, under its id, with a
  -- title of at most 200 bytes of UTF-8, and a description of at most 65536 bytes and the 15 of the
  -- note that it was truncated.
  pub add_incremental_update_fast-bytes :
      (one : F) (draws : Draws) (s : ActiveSession D G F) (update : ContextUpdate F)
      → (stored : ContextUpdate F) × ((add_incremental_update_fast one draws s
            update).incremental_updates
          ≡ s.incremental_updates ++ stored ∷ [])
        × (stored.id ≡ update.id)
        × (bytes stored.content.title ≤ 200)
        × (bytes stored.content.description ≤ 65551)
  unfolding limited
  add_incremental_update_fast-bytes one draws s update =
      let (listed, rest) = add_incremental_update_fast-fields one draws s update in
      let (title, description) = limited-bytes update in
      (limited update, listed, refl, title, description)

  -- An update is added, of which the session has nothing yet, in a session whose flow has no item
  -- that relates to nothing: then removing it gives back the list of updates, the warm tier, the
  -- history of changes and the structured state.
  pub remove_update_by_id-add :
      (one : F) (draws : Draws) (s : ActiveSession D G F) (update : ContextUpdate F)
      → is_new s (limited update) ≡ true
      → HaveSameRecords
          (remove_update_by_id
            (add_incremental_update_fast one draws s update)
            (limited update).id).0
          s
  unfolding is_new record_change
  remove_update_by_id-add one draws s update fresh =
      let short = limited update in
      let added = add_incremental_update_fast one draws s update in
      let self : eqb short.id short.id ≡ true = ground arith in
      let unlisted : has_update short.id s.incremental_updates ≡ false = ground (arith, fresh) in
      let cold : has_compressed short.id s.warm_context ≡ false = ground (arith, fresh) in
      let unrecorded : any (concerns short.id) s.change_history ≡ false = ground (arith, fresh) in
      let apart : any (relates short.id) s.current_state.conversation_flow ≡ false =
        ground (arith, fresh) in
      let full : any is_bare s.current_state.conversation_flow ≡ false = ground (arith, fresh) in
      let lacks : has_item short.update_type s.current_state short ≡ false =
        ground (arith, fresh) in
      let (listed, (warm, (history, state))) =
        add_incremental_update_fast-fields one draws s update in
      let first = find?-snoc (λ u. eqb u.id short.id) s.incremental_updates short unlisted self in
      let found = find_listed added short.id short (rw listed first) in
      let (list_left, (warm_left, (history_left, state_left))) =
        remove_update_by_id-fields added short.id short found in
      (
        rw (list_left, listed)
            (filter-snoc (λ u. eqb u.id short.id) s.incremental_updates short unlisted self),
        (
          rw (warm_left, warm) (filter_lacking (λ c. eqb c.update.id short.id) s.warm_context cold),
          (
            rw (history_left, history)
                (filter-snoc (concerns short.id) s.change_history _ unrecorded self),
            rw (state_left, state)
                (remove_derived_state-update_current_state one s.current_state short apart full
                  lacks),
          ),
        ),
      )
