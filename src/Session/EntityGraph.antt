-- ===== src/Session/EntityGraph.antt =====
-- crates/post-cortex-core/src/session/session_components.rs: `EntityGraph`, the entities and
-- relations of a session in two maps. Time is in seconds; the importance score keeps its bits.
pub mod Mentions
use post_cortex.Base.{ℕ, ◌+◌, String, Option, none, some, List, [], ◌∷◌, map, length, if◌then◌else◌}
use post_cortex.Base.Words.{wrapping_add}
use post_cortex.Base.Keys.{nat_eq, string_eq, ◌==◌}
use post_cortex.ConcurrentMap.{DashMaps}
use post_cortex.Core.Update.{EntityType, EntityRelationship}

pub record EntityNode : Type 0 where
  pub entity_type : EntityType
  pub mention_count : ℕ
  pub first_mentioned : ℕ
  pub last_mentioned : ℕ
  pub importance_score : ℕ
  pub description : Option String

pub record EntityGraph (D : DashMaps) : Type 0 where
  pub entities : D.Map String EntityNode
  pub relationships : D.Map ℕ EntityRelationship
  pub next_rel_id : ℕ

-- `1.0f32.to_bits()`.
abbrev pub one_bits : ℕ
one_bits = 1065353216

-- The node of a name mentioned again.
unfoldable pub mentioned : ℕ → EntityNode → EntityNode
mentioned timestamp_secs node = record node {
  mention_count = wrapping_add node.mention_count 1;
  last_mentioned = timestamp_secs;
}

unfoldable pub first_node : EntityType → ℕ → String → EntityNode
first_node entity_type timestamp_secs description = record {
  entity_type = entity_type;
  mention_count = 1;
  first_mentioned = timestamp_secs;
  last_mentioned = timestamp_secs;
  importance_score = one_bits;
  description = if description == "" then none else some description;
}

unfoldable pub new : (D : DashMaps) → EntityGraph D
new D = record { entities = D.new; relationships = D.new; next_rel_id = 0 }

module _ {D : DashMaps} where
  unfoldable pub add_or_update_entity :
      EntityGraph D → String → EntityType → ℕ → String → EntityGraph D
  add_or_update_entity g name entity_type timestamp_secs description = record g {
    entities = D.insert g.entities name (elim (D.get g.entities name) [
      | some node ↦ mentioned timestamp_secs node
      | none ↦ first_node entity_type timestamp_secs description
    ]);
  }

  unfoldable pub mention_entity : EntityGraph D → String → ℕ → EntityGraph D
  mention_entity g name timestamp_secs = elim (D.get g.entities name) [
    | none ↦ g
    | some node ↦ record g { entities = D.insert g.entities name (mentioned timestamp_secs node) }
  ]

  unfoldable pub add_relationship : EntityGraph D → EntityRelationship → EntityGraph D
  add_relationship g relationship = record g {
    next_rel_id = wrapping_add g.next_rel_id 1;
    relationships = D.insert g.relationships g.next_rel_id relationship;
  }

  unfoldable pub get_entity : EntityGraph D → String → Option EntityNode
  get_entity g name = D.get g.entities name

  unfoldable pub get_all_entities : EntityGraph D → List (String × EntityType × ℕ)
  get_all_entities g = map (λ e. (e.0, e.1.entity_type, e.1.mention_count)) (D.iter g.entities)

  unfoldable pub get_relationships : EntityGraph D → List EntityRelationship
  get_relationships g = map (λ e. e.1) (D.iter g.relationships)

  unfoldable pub entity_count : EntityGraph D → ℕ
  entity_count g = length (D.iter g.entities)

  unfoldable pub relationship_count : EntityGraph D → ℕ
  relationship_count g = length (D.iter g.relationships)

  unfoldable pub clear : EntityGraph D → EntityGraph D
  clear g = new D
