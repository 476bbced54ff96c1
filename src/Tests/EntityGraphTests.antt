-- ===== src/Tests/EntityGraphTests.antt =====
-- Runs of the entity graph on association lists, with the letters of ASCII for Unicode.
use Prim.Native.Char.{code}
use post_cortex.Base.{
  Option, List, ℕ, ◌≡◌, refl, some, none, true, is_some, [], ◌∷◌, String, max, eqb, map,
}
use post_cortex.Base.Keys.{string_eq}
use post_cortex.Core.Update.{EntityType, RelationType, EntityRelationship, EntityData}
use post_cortex.ConcurrentMap.{lookup}
use post_cortex.ConcurrentMap.Assoc.{assoc_maps, without, kept, entries}
use post_cortex.Core.Relations.{same_relation, variant}
use post_cortex.Graph.Names.{Unicode, entity_key, folded, is_skipped}
use post_cortex.Graph.Petgraph.Edges.{
  edge_lists, tabulate, stays, renumbered, connecting, set_at, renamed, reached, reaching,
  swap_removed,
}
use post_cortex.Graph.{
  all_names, EdgeData, Scores, SimpleEntityGraph, new, add_node, ensure_node, drop_node, with_alias,
  with_aliases, extend_new, mention_ids, relation_ref, outgoing_refs, incoming_refs, remove_entity,
  relationships_of,
}
use post_cortex.Graph.Updates.{
  resolve, add_relationship, add_relationships, add_or_update_entity, get_or_create_node,
  fresh_entity, mentioned_again, index_names, index_all, index_name, put_edge, claim_names,
}
use post_cortex.Graph.Merges.{
  first_other, store_entity, merge_entities, absorb, redirected, fold_entity,
}
use post_cortex.Graph.Linked.{IsLinked, new-IsLinked, edges_between}
use post_cortex.Graph.Linked.Duplicates.{add_relationship_again}
use post_cortex.Graph.Network.{
  EntityNetwork, get_entity_network_bounded, search, visit_all, visit, keep_relation, is_full,
  same_triple,
}
use post_cortex.Graph.Network.Bounds.{IsFound, get_entity_network_bounded-IsFound}
use post_cortex.Graph.Linked.Imports.{store_entity-first_other}
use post_cortex.Graph.Linked.Histories.{
  Reachable-IsLinked, created, stepped, relates, merges, removes,
}

abbrev ascii : Unicode
ascii = record {
  is_whitespace = λ c. eqb (code c) b' ';
  char_to_lowercase = λ c. String.◌∷◌ c String.[];
  to_lowercase = λ name. name;
}

abbrev pub scores : Scores ℕ
scores = record { unicode = ascii; one = 1; fmax = max; of_count = λ n. n }

abbrev Session : Type 0
Session = SimpleEntityGraph assoc_maps (edge_lists EdgeData) ℕ

abbrev start : Session
start = new assoc_maps (edge_lists EdgeData) ℕ

abbrev uses : EntityRelationship
uses = record {
  from_entity = "auth api";
  to_entity = "redis";
  relation_type = RelationType.depends_on;
  context = "cache";
}

abbrev caches : EntityRelationship
caches = record {
  from_entity = "billing";
  to_entity = "auth_api";
  relation_type = RelationType.leads_to;
  context = "";
}

abbrev linked : Session
linked = add_relationship scores 2 (add_relationship scores 1 start uses) caches

abbrev merged : Session
merged = (merge_entities scores 3 linked "redis" "auth-api").0

-- A spelling with other separators finds the entity, and the edge of `redis` is gone with it.
merge-relationships_of :
    (resolve scores linked "auth-api" ≡ some "auth api")
    × (map (λ r. r.to_entity) (relationships_of linked "auth api") ≡ "redis" ∷ "auth api" ∷ [])
    × (map (λ r. r.from_entity) (relationships_of merged "auth api") ≡ "billing" ∷ [])
    × (resolve scores merged "redis" ≡ some "auth api")
unfolding resolve add_relationship add_relationships add_or_update_entity merge_entities
    remove_entity relationships_of new add_node ensure_node drop_node with_alias with_aliases
    extend_new mention_ids relation_ref outgoing_refs incoming_refs get_or_create_node fresh_entity
    mentioned_again index_names index_all index_name put_edge claim_names absorb redirected
    fold_entity entity_key folded is_skipped lookup without kept tabulate stays renumbered
    connecting set_at renamed reached reaching swap_removed same_relation variant
merge-relationships_of = (refl, refl, refl, refl)

add_relationship_again_example :
    edges_between
      (add_relationship scores 9
        (add_relationship scores 8 start uses)
        (record uses { context = "shared" }))
      RelationType.depends_on
      0
      1
    ≡ edges_between (add_relationship scores 8 start uses) RelationType.depends_on 0 1
add_relationship_again_example =
    add_relationship_again scores 8 9 start uses "shared" RelationType.depends_on 0 1 new-IsLinked

abbrev spelling : EntityData ℕ
spelling = record {
  name = "Auth-API";
  entity_type = EntityType.technology;
  first_mentioned = 4;
  last_mentioned = 5;
  mention_count = 2;
  importance_score = 1;
  description = none;
  aliases = "auth api" ∷ [];
}

spelling_known : first_other scores linked spelling.name (all_names spelling) ≡ some "auth api"
unfolding first_other resolve add_relationship add_relationships add_or_update_entity merge_entities
    remove_entity relationships_of new add_node ensure_node drop_node with_alias with_aliases
    extend_new mention_ids relation_ref outgoing_refs incoming_refs get_or_create_node fresh_entity
    mentioned_again index_names index_all index_name put_edge claim_names absorb redirected
    fold_entity entity_key folded is_skipped lookup without kept tabulate stays renumbered
    connecting set_at renamed reached reaching swap_removed same_relation variant
spelling_known = refl

store_entity-first_other_example :
    is_some (assoc_maps.get (store_entity scores linked spelling).entities "auth api") ≡ true
store_entity-first_other_example =
    store_entity-first_other scores linked spelling "auth api"
      (Reachable-IsLinked scores linked
        (stepped (stepped created (relates 1 uses)) (relates 2 caches)))
      spelling_known

Reachable-IsLinked_example : IsLinked (remove_entity merged "auth api").0
Reachable-IsLinked_example = Reachable-IsLinked scores (remove_entity merged "auth api").0 (
    stepped
      (stepped (stepped (stepped created (relates 1 uses)) (relates 2 caches))
        (merges 3 "redis" "auth-api"))
      (removes "auth api"))

names_in : Option (EntityNetwork assoc_maps ℕ) → List String × List String
names_in none = ([], [])
names_in (some n) =
    (map (λ e. e.0) (assoc_maps.iter n.entities), map (λ r. r.from_entity) n.relationships)

-- With room for two entities, the third one and the relation to it are left out.
two_entities :
    names_in (get_entity_network_bounded linked "billing" 5 2 9)
    ≡ ("auth api" ∷ "billing" ∷ [], "billing" ∷ [])
unfolding names_in entries get_entity_network_bounded search visit_all visit keep_relation is_full
    same_triple resolve add_relationship add_relationships add_or_update_entity merge_entities
    remove_entity relationships_of new add_node ensure_node drop_node with_alias with_aliases
    extend_new mention_ids relation_ref outgoing_refs incoming_refs get_or_create_node fresh_entity
    mentioned_again index_names index_all index_name put_edge claim_names absorb redirected
    fold_entity entity_key folded is_skipped lookup without kept tabulate stays renumbered
    connecting set_at renamed reached reaching swap_removed same_relation variant
two_entities = refl

get_entity_network_bounded-IsFound_example :
    IsFound 2 9 (get_entity_network_bounded linked "billing" 5 2 9)
get_entity_network_bounded-IsFound_example =
    get_entity_network_bounded-IsFound linked "billing" 5 2 9
