-- ===== src/Graph/Network.antt =====
-- `get_entity_network_bounded` of crates/post-cortex-core/src/graph/entity_graph.rs: the entities
-- nearest to a center, within limits. Sets are lists of what was put in.
pub mod Bounds
use post_cortex.Base.{
  ℕ, zero, suc, ◌+◌, Bool, true, false, not, ◌&&◌, ◌||◌, Option, none, some, List, [], ◌∷◌, ◌++◌,
  any, String, if◌then◌else◌, is_some, eqb, ltb, leb, length,
}
use post_cortex.Base.Keys.{string_eq, ◌==◌}
use post_cortex.ConcurrentMap.{DashMaps}
use post_cortex.Core.Update.{EntityRelationship, EntityData}
use post_cortex.Core.Relations.{same_relation}
use post_cortex.Graph.Petgraph.{DiGraphs}
use post_cortex.Graph.{SimpleEntityGraph, EdgeData, relationships_of, contains}

pub record EntityNetwork (D : DashMaps) (F : Type 0) : Type 0 where
  pub center : String
  pub entities : D.Map String (EntityData F)
  pub relationships : List EntityRelationship

-- The variables of the loop.
pub record Search (D : DashMaps) (F : Type 0) : Type 0 where
  pub network : EntityNetwork D F
  pub visited : List String
  pub seen_relationships : List EntityRelationship
  pub queue : List (String × ℕ)

-- The triples of two relations are equal; contexts do not count.
unfoldable pub same_triple : EntityRelationship → EntityRelationship → Bool
same_triple r q =
    (r.from_entity == q.from_entity)
    && (r.to_entity == q.to_entity)
    && same_relation r.relation_type q.relation_type

abbrev pub other_end : String → EntityRelationship → String
other_end name rel = if rel.from_entity == name then rel.to_entity else rel.from_entity

module _ {D : DashMaps} {F : Type 0} where
  abbrev pub entity_total : Search D F → ℕ
  entity_total s = length (D.iter s.network.entities)

  abbrev pub has_ends : EntityNetwork D F → EntityRelationship → Bool
  has_ends n rel =
      is_some (D.get n.entities rel.from_entity) && is_some (D.get n.entities rel.to_entity)

  unfoldable pub keep_relation : ℕ → Search D F → EntityRelationship → Search D F
  keep_relation max_relationships s rel =
      if ltb (length s.network.relationships) max_relationships
        && has_ends s.network rel
        && not (any (λ r. same_triple r rel) s.seen_relationships)
      then record s {
        network = record s.network { relationships = s.network.relationships ++ rel ∷ [] };
        seen_relationships = rel ∷ s.seen_relationships;
      }
      else s

  -- The break of the loop, at a name that is not passed over for its depth.
  unfoldable pub is_full : ℕ → ℕ → ℕ → Search D F → ℕ → Bool
  is_full max_depth max_entities max_relationships s depth =
      not (leb max_depth depth)
      && leb max_entities (entity_total s)
      && leb max_relationships (length s.network.relationships)

module _ {D : DashMaps} {G : DiGraphs EdgeData} {F : Type 0} where
  unfoldable pub visit : SimpleEntityGraph D G F → ℕ → ℕ → Search D F → String → Search D F
  visit g max_entities depth s other =
      if ltb (entity_total s) max_entities && not (contains s.visited other)
      then elim (D.get g.entities other) [
        | none ↦ s
        | some entity ↦ record s {
          network = record s.network { entities = D.insert s.network.entities other entity };
          visited = other ∷ s.visited;
          queue = s.queue ++ (other, depth + 1) ∷ [];
        }
      ]
      else s

  -- The loop over the relations of one entity.
  unfoldable pub visit_all :
      SimpleEntityGraph D G F
      → ℕ
      → ℕ
      → String
      → ℕ
      → Search D F
      → List EntityRelationship
      → Search D F
  visit_all g max_entities max_relationships name depth s [] = s
  visit_all g max_entities max_relationships name depth s (rel ∷ rest) =
      visit_all g max_entities max_relationships name depth
        (keep_relation max_relationships (visit g max_entities depth s (other_end name rel)) rel)
        rest

  -- The loop over the queue; none if it is not over after so many turns.
  unfoldable pub search :
      SimpleEntityGraph D G F → ℕ → ℕ → ℕ → ℕ → Search D F → Option (EntityNetwork D F)
  search g max_depth max_entities max_relationships zero s = elim s.queue [
    | [] ↦ some s.network
    | next ∷ rest ↦ none
  ]
  search g max_depth max_entities max_relationships (suc fuel) s = elim s.queue [
    | [] ↦ some s.network
    | next ∷ rest ↦
        let popped : Search D F = record s { queue = rest } in
        elim (is_full max_depth max_entities max_relationships s next.1) [
          | true ↦ some s.network
          | false ↦ search g max_depth max_entities max_relationships fuel (
              if leb max_depth next.1
              then popped
              else visit_all g max_entities max_relationships next.0 next.1 popped
                  (relationships_of g next.0))
        ]
  ]

  -- A turn takes a name from the queue, and only an entity that is new to the network is put
  -- there, so `max_entities` turns are enough.
  unfoldable pub get_entity_network_bounded :
      SimpleEntityGraph D G F → String → ℕ → ℕ → ℕ → Option (EntityNetwork D F)
  get_entity_network_bounded g center max_depth max_entities max_relationships =
      let empty : EntityNetwork D F = record {
        center = center;
        entities = D.new;
        relationships = [];
      } in
      elim (D.get g.entities center) [
        | none ↦ some empty
        | some center_data ↦
            if eqb max_entities 0 || not (is_some (D.get g.entity_to_node center))
            then some empty
            else search g max_depth max_entities max_relationships max_entities (record {
              network = record empty { entities = D.insert D.new center center_data };
              visited = center ∷ [];
              seen_relationships = [];
              queue = (center, 0) ∷ [];
            })
      ]
