-- ===== src/Session/Active/Revising.antt =====
-- `ActiveSession`, updates retired, the graph rebuilt, and the metadata.
use post_cortex.Base.{
  ℕ, Bool, false, ◌||◌, Option, none, some, List, [], ◌∷◌, map, String, if◌then◌else◌, is_some, eqb,
  find?, ltb, length, drop, ◌-◌, ◌≡◌, refl, ap,
}
use post_cortex.Base.Keys.{nat_eq, string_eq}
use post_cortex.ConcurrentMap.{DashMaps}
use post_cortex.Core.Update.{Uuid, DateTime, ContextUpdate}
use post_cortex.Session.HotContext
use post_cortex.Session.HotContext.{HotContext}
use post_cortex.Graph
use post_cortex.Graph.{EdgeData, Scores, SimpleEntityGraph}
use post_cortex.Graph.Merges.{apply_update, relink_mentions, explicit_aliases, merge_entities}
use post_cortex.Graph.Petgraph.{DiGraphs}
use post_cortex.Session.Active.{
  ActiveSession, StructuredSummary, max_cold_summaries, has_update, replace_first,
}
use post_cortex.Session.Structured

-- The hot tier with the changed update, rebuilt if it has it.
unfoldable pub retire_hot :
    {D : DashMaps} {F : Type 0} → ℕ → HotContext D F → Uuid → ContextUpdate F → HotContext D F
retire_hot {D} {F} max hot entry_id changed =
    if HotContext.contains_id hot entry_id
    then HotContext.from_updates D F
        (map (λ u. if eqb u.id entry_id then changed else u) (HotContext.get_all hot)) max
    else hot

module _ {D : DashMaps} {G : DiGraphs EdgeData} {F : Type 0} where
  unfoldable pub retire_update :
      ActiveSession D G F → Uuid → DateTime → ActiveSession D G F × Option (ContextUpdate F)
  retire_update s entry_id at_time = elim (find? (λ u. eqb u.id entry_id) s.incremental_updates) [
    | none ↦ (s, none)
    | some u ↦
        if is_some u.meta.retired_at
        then (s, none)
        else (let changed : ContextUpdate F = record u {
          meta = record u.meta { retired_at = some at_time };
        } in
            (
              record s {
                incremental_updates = replace_first entry_id changed s.incremental_updates;
                hot_context =
                    retire_hot s.metadata.user_preferences.max_hot_context_size s.hot_context
                      entry_id changed;
                warm_context =
                    map (λ c. if eqb c.update.id entry_id then record c { update = changed } else c)
                      s.warm_context;
              },
              some changed,
            ))
  ]

  unfoldable pub merge_all :
      Scores F
      → DateTime
      → SimpleEntityGraph D G F
      → List (String × String)
      → SimpleEntityGraph D G F
  merge_all scores now g [] = g
  merge_all scores now g ((alias, into) ∷ rest) =
      merge_all scores now (merge_entities scores now g alias into).0 rest

  unfoldable pub apply_all :
      Scores F
      → DateTime
      → SimpleEntityGraph D G F
      → List (ContextUpdate F)
      → SimpleEntityGraph D G F
  apply_all scores now g [] = g
  apply_all scores now g (u ∷ us) = apply_all scores now (apply_update scores now g u) us

  unfoldable pub rebuild_entity_graph_sync :
      Scores F → DateTime → ActiveSession D G F → ActiveSession D G F
  rebuild_entity_graph_sync scores now s = record s {
    entity_graph =
        merge_all scores now (apply_all scores now (Graph.new D G F) s.incremental_updates)
          (explicit_aliases scores s.entity_graph);
  }

  unfoldable pub relink_entity_mentions : Scores F → ActiveSession D G F → ActiveSession D G F
  relink_entity_mentions scores s = record s {
    entity_graph = relink_mentions scores s.entity_graph s.incremental_updates;
  }

  unfoldable pub is_vectorization_pending : ActiveSession D G F → Uuid → Bool
  is_vectorization_pending s entry_id =
      if is_some (D.get s.vectorized_update_ids entry_id)
      then false
      else HotContext.contains_id s.hot_context entry_id
        || has_update entry_id s.incremental_updates

  unfoldable pub update_metadata :
      DateTime → ActiveSession D G F → Option String → Option String → ActiveSession D G F
  update_metadata now s name description = record s {
    metadata = record s.metadata {
      name = if is_some name then name else s.metadata.name;
      description = if is_some description then description else s.metadata.description;
    };
    last_updated = now;
  }

  unfoldable pub set_name : DateTime → ActiveSession D G F → Option String → ActiveSession D G F
  set_name now s name = record s {
    metadata = record s.metadata { name = name };
    last_updated = now;
  }

  unfoldable pub set_description :
      DateTime → ActiveSession D G F → Option String → ActiveSession D G F
  set_description now s description = record s {
    metadata = record s.metadata { description = description };
    last_updated = now;
  }

-- The ends of a list of identifiers.
unfoldable pub first_and_last : List Uuid → List Uuid
first_and_last [] = []
first_and_last (first ∷ []) = first ∷ []
first_and_last (first ∷ id ∷ rest) = first ∷ last_of id rest ∷ []
  where
    last_of : Uuid → List Uuid → Uuid
    last_of id [] = id
    last_of id (next ∷ rest) = last_of next rest

unfoldable pub compact : {F : Type 0} → StructuredSummary F → StructuredSummary F
compact {F} summary = record summary {
  context_snapshot = Structured.new F;
  referenced_updates = first_and_last summary.referenced_updates;
}

unfoldable pub compact_cold_context :
    {F : Type 0} → List (StructuredSummary F) → List (StructuredSummary F)
compact_cold_context cold = map compact (
    if ltb max_cold_summaries (length cold)
    then drop (length cold - max_cold_summaries) cold
    else cold)

-- Compacting again changes nothing.
compact-compact :
    {F : Type 0} (summary : StructuredSummary F) → compact (compact summary) ≡ compact summary
unfolding compact first_and_last
compact-compact summary =
    ap (λ ids. record (compact summary) { referenced_updates = ids })
      (ends_again summary.referenced_updates)
  where
    ends_again : (ids : List Uuid) → first_and_last (first_and_last ids) ≡ first_and_last ids
    ends_again [] = refl
    ends_again (first ∷ []) = refl
    ends_again (first ∷ id ∷ rest) = refl
