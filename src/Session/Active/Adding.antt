-- ===== src/Session/Active/Adding.antt =====
-- `ActiveSession`, updates added: the state, code references, history, summaries and lists.
use post_cortex.Base.{
  ◌-◌, ◌%◌, Bool, ◌&&◌, Option, none, some, [], ◌∷◌, ◌++◌, if◌then◌else◌, eqb, ltb, length, drop,
}
use post_cortex.Base.Keys.{nat_eq, string_eq}
use post_cortex.ConcurrentMap.{DashMaps}
use post_cortex.Core.Update.{DateTime, CodeReference, ContextUpdate}
use post_cortex.Session.HotContext
use post_cortex.Session.HotContext.{HotContext}
use post_cortex.Session.Structured
use post_cortex.Session.Structured.{
  StructuredContext, update_current_state, remove_first, remove_derived_state,
}
use post_cortex.Session.Active.Truncation.{limited}
use post_cortex.Graph.{EdgeData, Scores}
use post_cortex.Graph.Merges.{apply_update}
use post_cortex.Graph.Petgraph.{DiGraphs}
use post_cortex.Session.Active.{ActiveSession, max_cold_summaries, Draws, debug_type, range_of}

module _ {D : DashMaps} {G : DiGraphs EdgeData} {F : Type 0} where
  unfoldable pub add_code_reference : ActiveSession D G F → CodeReference → ActiveSession D G F
  add_code_reference s code_ref = record s {
    code_references =
        D.insert s.code_references code_ref.file_path
          (elim (D.get s.code_references code_ref.file_path) [
            | none ↦ code_ref ∷ []
            | some refs ↦ refs ++ code_ref ∷ []
          ]);
  }

  unfoldable pub record_change : Draws → ActiveSession D G F → ContextUpdate F → ActiveSession D G F
  record_change draws s update = record s {
    change_history =
        s.change_history
        ++ (record {
          id = draws.change_id;
          timestamp = update.timestamp;
          change_type = debug_type update.update_type;
          description = update.content.description;
          related_update_id = some update.id;
        })
          ∷ [];
  }

  unfoldable pub should_create_summary : ActiveSession D G F → Bool
  should_create_summary s =
      let threshold = s.metadata.user_preferences.auto_summary_threshold in
      let len = length s.incremental_updates in
      ltb 0 threshold && (ltb 0 len && eqb (len % threshold) 0)

  unfoldable pub create_periodic_summary : F → Draws → ActiveSession D G F → ActiveSession D G F
  create_periodic_summary one draws s =
      let threshold = s.metadata.user_preferences.auto_summary_threshold in
      let window = drop (length s.incremental_updates - threshold) s.incremental_updates in
      let cold =
        s.cold_context
        ++ (record {
          summary_id = draws.summary_id;
          created_at = draws.now;
          context_snapshot = Structured.new F;
          referenced_updates = range_of window;
          summary_quality = one;
        })
          ∷ [] in
      record s {
        cold_context =
            if ltb max_cold_summaries (length cold)
            then drop (length cold - max_cold_summaries) cold
            else cold;
      }

  unfoldable pub maintain_context : F → Draws → ActiveSession D G F → ActiveSession D G F
  maintain_context one draws s =
      if should_create_summary s then create_periodic_summary one draws s else s

  -- The end of `add_incremental_update`: history, upkeep, and the lists.
  unfoldable pub publish : F → Draws → ActiveSession D G F → ContextUpdate F → ActiveSession D G F
  publish one draws s update =
      let kept = maintain_context one draws (record_change draws s update) in
      record kept {
        last_updated = draws.now;
        hot_context = HotContext.push kept.hot_context update;
        incremental_updates = kept.incremental_updates ++ update ∷ [];
      }

  unfoldable pub add_related_code : ActiveSession D G F → Option CodeReference → ActiveSession D G F
  add_related_code s none = s
  add_related_code s (some code_ref) = add_code_reference s code_ref

  unfoldable pub add_incremental_update_fast :
      F → Draws → ActiveSession D G F → ContextUpdate F → ActiveSession D G F
  add_incremental_update_fast one draws s update =
      let short = limited update in
      publish one draws
        (add_related_code
          (record s { current_state = update_current_state one s.current_state short })
          short.related_code)
        short

  unfoldable pub add_incremental_update :
      Scores F → Draws → ActiveSession D G F → ContextUpdate F → ActiveSession D G F
  add_incremental_update scores draws s update =
      let short = limited update in
      publish scores.one draws
        (add_related_code
          (record s {
            current_state = update_current_state scores.one s.current_state short;
            entity_graph = apply_update scores draws.now s.entity_graph short;
          })
          short.related_code)
        short

  unfoldable pub apply_entity_graph_update :
      Scores F → DateTime → ActiveSession D G F → ContextUpdate F → ActiveSession D G F
  apply_entity_graph_update scores now s update = record s {
    entity_graph = apply_update scores now s.entity_graph update;
  }
