-- ===== src/Graph/Linked/Histories.antt =====
-- The histories of a graph: `new` and the public operations that change it, and what holds of
-- every graph that they lead to.
use post_cortex.Base.{List, String}
use post_cortex.Base.Keys.{nat_eq, string_eq}
use post_cortex.ConcurrentMap.{DashMaps}
use post_cortex.Core.Update.{
  Uuid, DateTime, EntityType, EntityRelationship, EntityData, ContextUpdate,
}
use post_cortex.Graph.Petgraph.{DiGraphs}
use post_cortex.Graph.{
  EdgeData, Scores, SimpleEntityGraph, new, clear, remove_entity, update_entity_timestamp,
}
use post_cortex.Graph.Updates.{add_or_update_entity, mention_entity, add_relationship}
use post_cortex.Graph.Merges.{
  merge_entities, link_mentions, relink_mentions, apply_update, insert_entity, merge_from,
}
use post_cortex.Graph.Linked.{IsLinked, new-IsLinked, clear-IsLinked}
use post_cortex.Graph.Linked.Removal.{remove_entity-IsLinked}
use post_cortex.Graph.Linked.Operations.{
  mention_entity-IsLinked, update_entity_timestamp-IsLinked, add_or_update_entity-IsLinked,
  add_relationship-IsLinked,
}
use post_cortex.Graph.Linked.Merging.{
  merge_entities-IsLinked, link_mentions-IsLinked, relink_mentions-IsLinked,
}
use post_cortex.Graph.Linked.Imports.{
  apply_update-IsLinked, insert_entity-IsLinked, merge_from-IsLinked,
}

module _ {D : DashMaps} {G : DiGraphs EdgeData} {F : Type 0} (s : Scores F) where
  -- One operation: the graph before and after.
  pub data Step : SimpleEntityGraph D G F → SimpleEntityGraph D G F → Type 0 where
    clears : {g : SimpleEntityGraph D G F} → Step g (clear g)
    removes : {g : SimpleEntityGraph D G F} (name : String) → Step g (remove_entity g name).0
    touches :
        {g : SimpleEntityGraph D G F} (name : String) (timestamp : DateTime)
        → Step g (update_entity_timestamp g name timestamp)
    mentions :
        {g : SimpleEntityGraph D G F} (name : String) (id : Uuid) (timestamp : DateTime)
        → Step g (mention_entity s g name id timestamp)
    updates :
        {g : SimpleEntityGraph D G F} (name : String) (entity_type : EntityType)
        (timestamp : DateTime) (description : String)
        → Step g (add_or_update_entity s g name entity_type timestamp description)
    relates :
        {g : SimpleEntityGraph D G F} (now : DateTime) (r : EntityRelationship)
        → Step g (add_relationship s now g r)
    merges :
        {g : SimpleEntityGraph D G F} (now : DateTime) (alias into : String)
        → Step g (merge_entities s now g alias into).0
    applies :
        {g : SimpleEntityGraph D G F} (now : DateTime) (update : ContextUpdate F)
        → Step g (apply_update s now g update)
    links :
        {g : SimpleEntityGraph D G F} (update : ContextUpdate F) → Step g (link_mentions s g update)
    relinks :
        {g : SimpleEntityGraph D G F} (all : List (ContextUpdate F))
        → Step g (relink_mentions s g all)
    inserts :
        {g : SimpleEntityGraph D G F} (now : DateTime) (entity : EntityData F)
        → Step g (insert_entity s now g entity)
    imports :
        {g : SimpleEntityGraph D G F} (now : DateTime) (other : SimpleEntityGraph D G F)
        → Step g (merge_from s now g other)

  pub data Reachable : SimpleEntityGraph D G F → Type 0 where
    created : Reachable (new D G F)
    stepped : {g next : SimpleEntityGraph D G F} → Reachable g → Step g next → Reachable next

  Step-IsLinked : (g next : SimpleEntityGraph D G F) → Step g next → IsLinked g → IsLinked next
  Step-IsLinked g next clears h = clear-IsLinked g
  Step-IsLinked g next (removes name) h = remove_entity-IsLinked g name h
  Step-IsLinked g next (touches name timestamp) h =
      update_entity_timestamp-IsLinked g name timestamp h
  Step-IsLinked g next (mentions name id timestamp) h =
      mention_entity-IsLinked s g name id timestamp h
  Step-IsLinked g next (updates name entity_type timestamp description) h =
      add_or_update_entity-IsLinked s g name entity_type timestamp description h
  Step-IsLinked g next (relates now r) h = add_relationship-IsLinked s now g r h
  Step-IsLinked g next (merges now alias into) h = merge_entities-IsLinked s now g alias into h
  Step-IsLinked g next (applies now update) h = apply_update-IsLinked s now g update h
  Step-IsLinked g next (links update) h = link_mentions-IsLinked s g update h
  Step-IsLinked g next (relinks all) h = relink_mentions-IsLinked s g all h
  Step-IsLinked g next (inserts now entity) h = insert_entity-IsLinked s now g entity h
  Step-IsLinked g next (imports now other) h = merge_from-IsLinked s now g other h

  -- In every graph that the public operations lead to from `new`, the maps between names and nodes
  -- agree with the graph, the entities are the names with a node, every spelling of the index leads
  -- to an entity, and from one node to another there is at most one edge of each relation type.
  pub Reachable-IsLinked : (g : SimpleEntityGraph D G F) → Reachable g → IsLinked g
  Reachable-IsLinked g created = new-IsLinked
  Reachable-IsLinked g (stepped {g = before} past step) =
      Step-IsLinked before g step (Reachable-IsLinked before past)
