-- ===== src/Tests/SessionTests.antt =====
-- Active sessions at concrete inputs.
use post_cortex.Base.{ℕ, ◌∷◌, ◌-◌, ◌≡◌, ◌≤◌, refl, true, false, none, [], any, length, arith}
use post_cortex.Base.Keys.{nat_eq, string_eq}
use post_cortex.ConcurrentMap.Assoc.{assoc_maps}
use post_cortex.Graph
use post_cortex.Graph.{EdgeData, or_else, contains_id}
use post_cortex.Graph.Petgraph.Edges.{edge_lists}
use post_cortex.Session.HotContext
use post_cortex.Session.HotContext.Removals.{copies}
use post_cortex.Core.Update.{ContextUpdate}
use post_cortex.Session.Structured
use post_cortex.Session.Structured.{relates, update_current_state, add_item, flow_of}
use post_cortex.Session.Active.{
  ActiveSession, max_cold_summaries, Draws, has_update, has_compressed, concerns,
}
use post_cortex.Session.Active.Adding.{
  record_change, should_create_summary, create_periodic_summary, maintain_context, publish,
  add_related_code, add_incremental_update_fast,
}
use post_cortex.Session.Active.Removing.{find_update, remove_update_by_id}
use post_cortex.Session.Active.Truncation.{
  limited, bytes, limited_title, limited_description, utf8_len,
}
use post_cortex.Session.Active.Removal.{remove_update_by_id_gone}
use post_cortex.Session.Active.Restoring.{
  HaveSameRecords, is_new, remove_update_by_id-add, add_incremental_update_fast-bytes,
}
use post_cortex.Session.Active.Upkeep.{add_incremental_update_fast-length}
use post_cortex.Session.Active.Derived.{has_item}
use post_cortex.Tests.HotContextTests.{update}

abbrev Session : Type 0
Session = ActiveSession assoc_maps (edge_lists EdgeData) ℕ

abbrev draws : Draws
draws = record { now = 9; change_id = 70; summary_id = 80 }

abbrev empty : Session
empty = record {
  metadata = record {
    id = 5;
    name = none;
    description = none;
    created_at = 0;
    user_preferences = record {
      auto_save_enabled = true;
      context_retention_days = 30;
      max_hot_context_size = 50;
      auto_summary_threshold = 1;
      important_keywords = [];
    };
  };
  last_updated = 0;
  hot_context = HotContext.new assoc_maps ℕ 50;
  warm_context = [];
  cold_context = [];
  current_state = Structured.new ℕ;
  incremental_updates = [];
  code_references = assoc_maps.new;
  change_history = [];
  entity_graph = Graph.new assoc_maps (edge_lists EdgeData) ℕ;
  vectorized_update_ids = assoc_maps.new;
}

abbrev one_update : Session
one_update = add_incremental_update_fast 1 draws empty (update 1)

second_is_new : is_new one_update (limited (update 2)) ≡ true
unfolding is_new has_item limited limited_title limited_description bytes utf8_len
    add_incremental_update_fast publish maintain_context should_create_summary
    create_periodic_summary record_change add_related_code update_current_state add_item flow_of
    Structured.new
second_is_new = refl

remove_update_by_id-add_example :
    HaveSameRecords
      (remove_update_by_id
        (add_incremental_update_fast 1 draws one_update (update 2))
        (limited (update 2)).id).0
      one_update
remove_update_by_id-add_example =
    remove_update_by_id-add 1 draws one_update (update 2) second_is_new

first_goes : (remove_update_by_id one_update 1).1 ≡ true
unfolding remove_update_by_id find_update limited add_incremental_update_fast publish
    maintain_context should_create_summary create_periodic_summary record_change add_related_code
first_goes = refl

remove_update_by_id_gone_example :
    (copies 1 (remove_update_by_id one_update 1).0.hot_context
      ≡ copies 1 one_update.hot_context - 1)
    × (has_update 1 (remove_update_by_id one_update 1).0.incremental_updates ≡ false)
    × (has_compressed 1 (remove_update_by_id one_update 1).0.warm_context ≡ false)
    × (any (concerns 1) (remove_update_by_id one_update 1).0.change_history ≡ false)
    × (any (relates 1) (remove_update_by_id one_update 1).0.current_state.conversation_flow ≡ false)
    × (contains_id
          (or_else
            (assoc_maps.get
              (remove_update_by_id one_update 1).0.entity_graph.entity_mentions
              "redis")
            [])
          1
        ≡ false)
remove_update_by_id_gone_example = remove_update_by_id_gone one_update 1 "redis" first_goes

add_incremental_update_fast-bytes_example :
    (stored : ContextUpdate ℕ) × ((add_incremental_update_fast 1 draws empty
        (update 1)).incremental_updates
      ≡ stored ∷ [])
    × (stored.id ≡ 1)
    × (bytes stored.content.title ≤ 200)
    × (bytes stored.content.description ≤ 65551)
add_incremental_update_fast-bytes_example =
    add_incremental_update_fast-bytes 1 draws empty (update 1)

add_incremental_update_fast-length_example :
    length (add_incremental_update_fast 1 draws empty (update 1)).cold_context ≤ max_cold_summaries
add_incremental_update_fast-length_example =
    add_incremental_update_fast-length 1 draws empty (update 1) (omega arith)
