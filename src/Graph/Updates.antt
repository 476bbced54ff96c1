-- ===== src/Graph/Updates.antt =====
-- The operations of `SimpleEntityGraph` that resolve names: an entity is found under its name, or
-- under the key of any spelling of it.
use post_cortex.Base.{
  ℕ, ◌+◌, ◌%◌, not, ◌&&◌, ◌||◌, Option, none, some, List, [], ◌∷◌, ◌++◌, String, if◌then◌else◌,
  is_some, eqb, find?,
}
use post_cortex.Base.Words.{u32_mod}
use post_cortex.Base.Keys.{nat_eq, string_eq, ◌==◌}
use post_cortex.ConcurrentMap.{DashMaps}
use post_cortex.Core.Update.{Uuid, DateTime, EntityType, EntityRelationship, EntityData}
use post_cortex.Core.Relations.{same_relation}
use post_cortex.Graph.Names.{entity_key}
use post_cortex.Graph.Petgraph.{DiGraphs}
use post_cortex.Graph.{
  EdgeData, Scores, SimpleEntityGraph, all_names, with_alias, or_else, add_node, ensure_node,
}

unfoldable pub fresh_entity :
    {F : Type 0} → Scores F → String → EntityType → DateTime → String → EntityData F
fresh_entity s name entity_type timestamp description = record {
  name = name;
  entity_type = entity_type;
  first_mentioned = timestamp;
  last_mentioned = timestamp;
  mention_count = 1;
  importance_score = s.one;
  description = if description == "" then none else some description;
  aliases = [];
}

-- An entity mentioned again, under the spelling `written`.
unfoldable pub mentioned_again :
    {F : Type 0} → EntityData F → String → DateTime → String → EntityData F
mentioned_again entity written timestamp description =
    with_alias
      (record entity {
        last_mentioned = timestamp;
        mention_count = (entity.mention_count + 1) % u32_mod;
        description =
            if is_some entity.description || (description == "")
            then entity.description
            else some description;
      })
      written

-- The edge of a relation, new or with its context replaced.
unfoldable pub put_edge : (G : DiGraphs EdgeData) → G.Graph → ℕ → ℕ → EdgeData → G.Graph
put_edge G graph from to weight =
    elim (find? (λ x. same_relation x.1.relation_type weight.relation_type)
      (G.edges_connecting graph from to)) [
        | some (id, old) ↦ G.set_edge graph id (record old { context = weight.context })
        | none ↦ G.add_edge graph from to weight
      ]

module _ {D : DashMaps} {G : DiGraphs EdgeData} {F : Type 0} (s : Scores F) where
  unfoldable pub resolve : SimpleEntityGraph D G F → String → Option String
  resolve g name =
      if is_some (D.get g.entities name)
      then some name
      else D.get g.alias_index (entity_key s.unicode name)

  -- `entry(key).or_insert(canonical)`.
  unfoldable pub index_name : SimpleEntityGraph D G F → String → String → SimpleEntityGraph D G F
  index_name g canonical name =
      if is_some (D.get g.alias_index (entity_key s.unicode name))
      then g
      else record g { alias_index = D.insert g.alias_index (entity_key s.unicode name) canonical }

  unfoldable pub index_all :
      SimpleEntityGraph D G F → String → List String → SimpleEntityGraph D G F
  index_all g canonical [] = g
  index_all g canonical (name ∷ rest) = index_all (index_name g canonical name) canonical rest

  unfoldable pub index_names : SimpleEntityGraph D G F → String → SimpleEntityGraph D G F
  index_names g canonical = elim (D.get g.entities canonical) [
    | none ↦ g
    | some entity ↦ index_all g canonical (all_names entity)
  ]

  unfoldable pub note_alias : SimpleEntityGraph D G F → String → String → SimpleEntityGraph D G F
  note_alias g name alias = elim (resolve g name) [
    | none ↦ g
    | some canonical ↦
        index_name
          (elim (D.get g.entities canonical) [
            | none ↦ g
            | some entity ↦ record g {
              entities = D.insert g.entities canonical (with_alias entity alias);
            }
          ])
          canonical alias
  ]

  -- `alias_index.insert` of every key.
  unfoldable pub claim_names :
      SimpleEntityGraph D G F → String → List String → SimpleEntityGraph D G F
  claim_names g canonical [] = g
  claim_names g canonical (name ∷ rest) =
      claim_names
        (record g { alias_index = D.insert g.alias_index (entity_key s.unicode name) canonical })
        canonical rest

  unfoldable pub add_or_update_entity :
      SimpleEntityGraph D G F → String → EntityType → DateTime → String → SimpleEntityGraph D G F
  add_or_update_entity g written entity_type timestamp description =
      let name = or_else (resolve g written) written in
      elim (D.get g.entities name) [
        | some entity ↦
            ensure_node
              (record g {
                entities =
                    D.insert g.entities name (mentioned_again entity written timestamp description);
              })
              name
        | none ↦
            index_names
              (add_node
                (record g {
                  entities =
                      D.insert g.entities name
                        (fresh_entity s name entity_type timestamp description);
                })
                name)
              name
      ]

  unfoldable pub get_or_create_node :
      SimpleEntityGraph D G F → String → EntityType → DateTime → SimpleEntityGraph D G F × ℕ
  get_or_create_node g written entity_type timestamp =
      let name = or_else (resolve g written) written in
      elim (D.get g.entity_to_node name) [
        | some node_idx ↦ (g, node_idx)
        | none ↦
            let created = add_or_update_entity g name entity_type timestamp "" in
            elim (D.get created.entity_to_node name) [
              | some node_idx ↦ (created, node_idx)
              | none ↦ (add_node created name, G.node_count created.graph)
            ]
      ]

  unfoldable pub mention_entity :
      SimpleEntityGraph D G F → String → Uuid → DateTime → SimpleEntityGraph D G F
  mention_entity g name update_id timestamp =
      let ids = or_else (D.get g.entity_mentions name) [] ++ update_id ∷ [] in
      let mentioned = record g { entity_mentions = D.insert g.entity_mentions name ids } in
      elim (D.get g.entities name) [
        | none ↦ mentioned
        | some entity ↦
            let count = (entity.mention_count + 1) % u32_mod in
            record mentioned {
              entities = D.insert g.entities name (record entity {
                last_mentioned = timestamp;
                mention_count = count;
                importance_score = s.of_count count;
              });
            }
      ]

  unfoldable pub add_relationship :
      DateTime → SimpleEntityGraph D G F → EntityRelationship → SimpleEntityGraph D G F
  add_relationship now g r =
      let source = get_or_create_node g r.from_entity EntityType.concept now in
      let target = get_or_create_node source.0 r.to_entity EntityType.concept now in
      if eqb source.1 target.1 && not (r.from_entity == r.to_entity)
      then target.0
      else record target.0 {
        graph =
            put_edge G target.0.graph source.1 target.1
              (record { relation_type = r.relation_type; context = r.context });
      }

  unfoldable pub add_relationships :
      DateTime → SimpleEntityGraph D G F → List EntityRelationship → SimpleEntityGraph D G F
  add_relationships now g [] = g
  add_relationships now g (r ∷ rest) = add_relationships now (add_relationship now g r) rest
