-- ===== src/Graph.antt =====
-- crates/post-cortex-core/src/graph/entity_graph.rs: `SimpleEntityGraph`, the entities of a session
-- by name, their mentions, a directed graph of their relations with the maps between names and
-- node indices, and an index of the names' spellings. The maps of the standard library have the
-- interface of `DashMaps`; a `BTreeMap` iterates in the order of its keys, on which nothing here
-- depends. `F` is `f32`.
pub mod Petgraph
pub mod Names
pub mod Updates
pub mod Merges
pub mod Network
pub mod Linked
use post_cortex.Base.{
  ℕ, ◌+◌, ◌-◌, ◌%◌, min, max, Bool, true, false, not, ◌&&◌, ◌||◌, Option, none, some, List, [], ◌∷◌,
  ◌++◌, map, filter, any, String, if◌then◌else◌, is_some, eqb, length, find?,
}
use post_cortex.Base.Words.{u32_mod}
use post_cortex.Base.Keys.{nat_eq, string_eq, ◌==◌}
use post_cortex.ConcurrentMap.{DashMaps}
use post_cortex.Core.Update.{
  Uuid, DateTime, EntityType, RelationType, EntityRelationship, TypedEntity, EntityData,
  ContextUpdate,
}
use post_cortex.Core.Relations.{same_relation}
use post_cortex.Graph.Names.{Unicode, entity_key}
use post_cortex.Graph.Petgraph.{DiGraphs}

pub record EdgeData : Type 0 where
  pub relation_type : RelationType
  pub context : String

-- The tables of Unicode, and what the code computes with `f32`.
pub record Scores (F : Type 0) : Type 0 where
  pub unicode : Unicode
  pub one : F
  pub fmax : F → F → F
  -- `(count as f32).log2().max(1.0)`.
  pub of_count : ℕ → F

pub record SimpleEntityGraph (D : DashMaps) (G : DiGraphs EdgeData) (F : Type 0) : Type 0 where
  pub entities : D.Map String (EntityData F)
  pub entity_mentions : D.Map String (List Uuid)
  pub graph : G.Graph
  pub entity_to_node : D.Map String ℕ
  pub node_to_entity : D.Map ℕ String
  pub alias_index : D.Map String String

unfoldable pub new : (D : DashMaps) (G : DiGraphs EdgeData) (F : Type 0) → SimpleEntityGraph D G F
new D G F = record {
  entities = D.new;
  entity_mentions = D.new;
  graph = G.empty;
  entity_to_node = D.new;
  node_to_entity = D.new;
  alias_index = D.new;
}

-- All names of an entity, its own first.
abbrev pub all_names : {F : Type 0} → EntityData F → List String
all_names entity = entity.name ∷ entity.aliases

abbrev pub contains : List String → String → Bool
contains names name = any (λ n. n == name) names

abbrev pub contains_id : List Uuid → Uuid → Bool
contains_id ids id = any (λ i. eqb i id) ids

-- Another name of an entity, unless it bears it already.
unfoldable pub with_alias : {F : Type 0} → EntityData F → String → EntityData F
with_alias entity alias =
    if (alias == entity.name) || contains entity.aliases alias
    then entity
    else record entity { aliases = entity.aliases ++ alias ∷ [] }

unfoldable pub with_aliases : {F : Type 0} → EntityData F → List String → EntityData F
with_aliases entity [] = entity
with_aliases entity (alias ∷ rest) = with_aliases (with_alias entity alias) rest

-- The ids not there yet, appended in order.
unfoldable pub extend_new : List Uuid → List Uuid → List Uuid
extend_new ids [] = ids
extend_new ids (id ∷ rest) = extend_new (if contains_id ids id then ids else ids ++ id ∷ []) rest

unfoldable pub ends : List EntityRelationship → List String
ends [] = []
ends (r ∷ rest) = r.from_entity ∷ r.to_entity ∷ ends rest

-- Names an update mentions; they may repeat.
unfoldable pub mentioned_names : {F : Type 0} → ContextUpdate F → List String
mentioned_names update =
    map (λ t. t.name) update.typed_entities
    ++ (update.creates_entities
        ++ (update.references_entities ++ ends update.creates_relationships))

abbrev pub or_else : {A : Type 0} → Option A → A → A
or_else none a = a
or_else (some b) a = b

module _ {D : DashMaps} {G : DiGraphs EdgeData} {F : Type 0} where
  -- A node for a name that has none.
  unfoldable pub add_node : SimpleEntityGraph D G F → String → SimpleEntityGraph D G F
  add_node g name = record g {
    graph = G.add_node g.graph name;
    entity_to_node = D.insert g.entity_to_node name (G.node_count g.graph);
    node_to_entity = D.insert g.node_to_entity (G.node_count g.graph) name;
  }

  unfoldable pub ensure_node : SimpleEntityGraph D G F → String → SimpleEntityGraph D G F
  ensure_node g name = if is_some (D.get g.entity_to_node name) then g else add_node g name

  unfoldable pub clear : SimpleEntityGraph D G F → SimpleEntityGraph D G F
  clear g = record {
    entities = D.new;
    entity_mentions = D.new;
    graph = G.empty;
    entity_to_node = D.new;
    node_to_entity = D.new;
    alias_index = D.new;
  }

  -- The maps after `remove_node`, which gave the index to the last node.
  unfoldable pub drop_node : SimpleEntityGraph D G F → String → ℕ → SimpleEntityGraph D G F
  drop_node g name node_idx =
      let graph = G.remove_node g.graph node_idx in
      let names = D.remove g.entity_to_node name in
      let nodes = D.remove g.node_to_entity node_idx in
      elim (G.node_weight graph node_idx) [
        | none ↦ record g { graph = graph; entity_to_node = names; node_to_entity = nodes }
        | some swapped ↦ record g {
          graph = graph;
          entity_to_node = D.insert names swapped node_idx;
          node_to_entity =
              D.insert
                (elim (D.get names swapped) [
                  | none ↦ nodes
                  | some old_idx ↦ D.remove nodes old_idx
                ])
                node_idx swapped;
        }
      ]

  unfoldable pub remove_entity : SimpleEntityGraph D G F → String → SimpleEntityGraph D G F × Bool
  remove_entity g name = elim (D.get g.entity_to_node name) [
    | none ↦ (g, false)
    | some node_idx ↦
        let dropped = drop_node g name node_idx in
        (
          record dropped {
            entities = D.remove g.entities name;
            entity_mentions = D.remove g.entity_mentions name;
            alias_index = D.retain g.alias_index (λ canonical. not (canonical == name));
          },
          true,
        )
  ]

  unfoldable pub has_entity : SimpleEntityGraph D G F → String → Bool
  has_entity g name = is_some (D.get g.entities name)

  unfoldable pub entity_count : SimpleEntityGraph D G F → ℕ
  entity_count g = length (D.iter g.entities)

  unfoldable pub update_entity_timestamp :
      SimpleEntityGraph D G F → String → DateTime → SimpleEntityGraph D G F
  update_entity_timestamp g name timestamp = elim (D.get g.entities name) [
    | none ↦ g
    | some entity ↦ record g {
      entities = D.insert g.entities name (record entity {
        last_mentioned = timestamp;
        mention_count = (entity.mention_count + 1) % u32_mod;
      });
    }
  ]

  -- `entry(name).or_default()` of the mentions, extended by new ids.
  unfoldable pub mention_ids :
      SimpleEntityGraph D G F → String → List Uuid → SimpleEntityGraph D G F
  mention_ids g name ids = record g {
    entity_mentions =
        D.insert g.entity_mentions name
          (extend_new (or_else (D.get g.entity_mentions name) []) ids);
  }

  -- The relation of an edge between two nodes, if both have names.
  unfoldable pub relation_ref : SimpleEntityGraph D G F → ℕ → ℕ → EdgeData → List EntityRelationship
  relation_ref g source target weight = elim (G.node_weight g.graph source) [
    | none ↦ []
    | some from ↦ elim (G.node_weight g.graph target) [
      | none ↦ []
      | some to ↦
          (record {
            from_entity = from;
            to_entity = to;
            relation_type = weight.relation_type;
            context = weight.context;
          })
          ∷ []
    ]
  ]

  unfoldable pub outgoing_refs :
      SimpleEntityGraph D G F → ℕ → List (ℕ × EdgeData) → List EntityRelationship
  outgoing_refs g node [] = []
  outgoing_refs g node ((target, w) ∷ rest) =
      relation_ref g node target w ++ outgoing_refs g node rest

  -- A self-loop is reported once, as outgoing.
  unfoldable pub incoming_refs :
      SimpleEntityGraph D G F → ℕ → List (ℕ × EdgeData) → List EntityRelationship
  incoming_refs g node [] = []
  incoming_refs g node ((source, w) ∷ rest) =
      let more = incoming_refs g node rest in
      if eqb source node then more else relation_ref g source node w ++ more

  unfoldable pub relationships_of : SimpleEntityGraph D G F → String → List EntityRelationship
  relationships_of g entity = elim (D.get g.entity_to_node entity) [
    | none ↦ []
    | some node ↦
        outgoing_refs g node (G.outgoing g.graph node)
        ++ incoming_refs g node (G.incoming g.graph node)
  ]
