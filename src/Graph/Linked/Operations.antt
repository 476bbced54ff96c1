-- ===== src/Graph/Linked/Operations.antt =====
-- The operations on entities, mentions and relations keep the graph linked.
use post_cortex.Base.{
  ℕ, ◌+◌, ◌%◌, ◌≡◌, refl, true, not, ◌&&◌, some, List, [], ◌∷◌, ◌++◌, String, inl, inr, is_some,
  eqb, arith, Option-cases, Bool-cases,
}
use post_cortex.Base.Words.{u32_mod}
use post_cortex.Base.Keys.{nat_eq, string_eq, ◌==◌, ==-iff}
use post_cortex.ConcurrentMap.{DashMaps}
use post_cortex.Core.Update.{Uuid, DateTime, EntityType, EntityRelationship}
use post_cortex.Graph.Petgraph.{DiGraphs}
use post_cortex.Graph.{
  EdgeData, Scores, SimpleEntityGraph, or_else, add_node, ensure_node, update_entity_timestamp,
  mention_ids,
}
use post_cortex.Graph.Updates.{
  resolve, fresh_entity, mentioned_again, put_edge, add_or_update_entity, get_or_create_node,
  mention_entity, add_relationship, add_relationships,
}
use post_cortex.Graph.Linked.{IsLinked, entity-IsLinked, mentions-IsLinked}
use post_cortex.Graph.Linked.Nodes.{add_node-IsLinked}
use post_cortex.Graph.Linked.Edges.{put_edge-weight, put_edge_simple}
use post_cortex.Graph.Linked.Spellings.{or_else-resolve, index_names-IsLinked, index_names-entities}

module _ {D : DashMaps} {G : DiGraphs EdgeData} {F : Type 0} where
  -- An entity has a node already.
  pub ensure_node_known :
      (g : SimpleEntityGraph D G F) (name : String)
      → IsLinked g
      → is_some (D.get g.entities name) ≡ true
      → ensure_node g name ≡ g
  unfolding ensure_node
  ensure_node_known g name h known =
      let noded : is_some (D.get g.entity_to_node name) ≡ true =
        ground (arith, h.owned name, known) in
      rw noded refl

  pub update_entity_timestamp-IsLinked :
      (g : SimpleEntityGraph D G F) (name : String) (timestamp : DateTime)
      → IsLinked g
      → IsLinked (update_entity_timestamp g name timestamp)
  unfolding update_entity_timestamp
  update_entity_timestamp-IsLinked g name timestamp h =
      elim (Option-cases (D.get g.entities name)) [
        | inl absent ↦ rw (absent, update_entity_timestamp) h
        | inr (entity, there) ↦
            rw (there, update_entity_timestamp)
              (entity-IsLinked g name
                (record entity {
                  last_mentioned = timestamp;
                  mention_count = (entity.mention_count + 1) % u32_mod;
                })
                h (rw there refl))
      ]

  pub mention_ids-IsLinked :
      (g : SimpleEntityGraph D G F) (name : String) (ids : List Uuid)
      → IsLinked g
      → IsLinked (mention_ids g name ids)
  unfolding mention_ids
  mention_ids-IsLinked g name ids h = mentions-IsLinked g (mention_ids g name ids).entity_mentions h

  pub edge-IsLinked :
      (g : SimpleEntityGraph D G F) (a b : ℕ) (w : EdgeData)
      → IsLinked g
      → IsLinked (record g { graph = put_edge G g.graph a b w })
  edge-IsLinked g a b w h = record {
    weighs = λ i. rw (put_edge-weight G g.graph a b w i) (h.weighs i);
    linked = λ name i. rw (put_edge-weight G g.graph a b w i) (h.linked name i);
    owned = h.owned;
    resolves = h.resolves;
    simple = λ r c d. put_edge_simple G g.graph a b w r c d h.simple;
  }

module _ {D : DashMaps} {G : DiGraphs EdgeData} {F : Type 0} (s : Scores F) where
  pub add_or_update_entity-IsLinked :
      (g : SimpleEntityGraph D G F) (written : String) (entity_type : EntityType)
      (timestamp : DateTime) (description : String)
      → IsLinked g
      → IsLinked (add_or_update_entity s g written entity_type timestamp description)
  unfolding add_or_update_entity
  add_or_update_entity-IsLinked g written entity_type timestamp description h =
      let name = or_else (resolve s g written) written in
      elim (Option-cases (D.get g.entities name)) [
        | inr (entity, there) ↦
            let again = mentioned_again entity written timestamp description in
            let known : is_some (D.get g.entities name) ≡ true = rw there refl in
            let kept = entity-IsLinked g name again h known in
            let stored = record g { entities = D.insert g.entities name again } in
            let same =
              ensure_node_known stored name kept
                (ground (arith, D.get-insert g.entities name again name)) in
            rw (there, add_or_update_entity, same) kept
        | inl absent ↦
            let fresh = fresh_entity s name entity_type timestamp description in
            rw (absent, add_or_update_entity)
              (index_names-IsLinked s
                (add_node (record g { entities = D.insert g.entities name fresh }) name) name
                (add_node-IsLinked g name fresh h absent))
      ]

  -- The entity is there afterwards, under the name that the spelling resolved to.
  pub add_or_update_entity-entities :
      (g : SimpleEntityGraph D G F) (written : String) (entity_type : EntityType)
      (timestamp : DateTime) (description : String)
      → is_some (
          D.get
            (add_or_update_entity s g written entity_type timestamp description).entities
            (or_else (resolve s g written) written))
        ≡ true
  unfolding add_or_update_entity ensure_node add_node
  add_or_update_entity-entities g written entity_type timestamp description =
      let name = or_else (resolve s g written) written in
      elim (Option-cases (D.get g.entities name)) [
        | inr (entity, there) ↦
            let again = mentioned_again entity written timestamp description in
            rw (there, add_or_update_entity)
              (ground (arith, D.get-insert g.entities name again name))
        | inl absent ↦
            let fresh = fresh_entity s name entity_type timestamp description in
            let added = add_node (record g { entities = D.insert g.entities name fresh }) name in
            rw (absent, add_or_update_entity, index_names-entities s added name)
              (ground (arith, D.get-insert g.entities name fresh name, ==-iff name name))
      ]

  -- The entity's node after `get_or_create_node` has to create it.
  pub created_noded :
      (g : SimpleEntityGraph D G F) (written : String) (entity_type : EntityType)
      (timestamp : DateTime)
      → IsLinked g
      → is_some (
          D.get
            (add_or_update_entity s g
              (or_else (resolve s g written) written)
              entity_type
              timestamp
              "").entity_to_node
            (or_else (resolve s g written) written))
        ≡ true
  created_noded g written entity_type timestamp h =
      let name = or_else (resolve s g written) written in
      let created = add_or_update_entity s g name entity_type timestamp "" in
      let linked = add_or_update_entity-IsLinked g name entity_type timestamp "" h in
      let there : is_some (D.get created.entities name) ≡ true =
        rw (or_else-resolve s g written h) at
          (add_or_update_entity-entities g name entity_type timestamp "") in
      ground (arith, linked.owned name, there)

  pub get_or_create_node-IsLinked :
      (g : SimpleEntityGraph D G F) (written : String) (entity_type : EntityType)
      (timestamp : DateTime)
      → IsLinked g
      → IsLinked (get_or_create_node s g written entity_type timestamp).0
  unfolding get_or_create_node
  get_or_create_node-IsLinked g written entity_type timestamp h =
      let name = or_else (resolve s g written) written in
      let created = add_or_update_entity s g name entity_type timestamp "" in
      elim (Option-cases (D.get g.entity_to_node name)) [
        | inr (i, there) ↦ rw (there, get_or_create_node) h
        | inl absent ↦ elim (Option-cases (D.get created.entity_to_node name)) [
          | inr (i, there) ↦
              rw (absent, get_or_create_node, there)
                (add_or_update_entity-IsLinked g name entity_type timestamp "" h)
          | inl lost ↦
              let noded = created_noded g written entity_type timestamp h in cc (rw lost at noded)
        ]
      ]

  -- The index is that of the entity's node.
  pub get_or_create_node-found :
      (g : SimpleEntityGraph D G F) (written : String) (entity_type : EntityType)
      (timestamp : DateTime)
      → IsLinked g
      → D.get
          (get_or_create_node s g written entity_type timestamp).0.entity_to_node
          (or_else (resolve s g written) written)
        ≡ some (get_or_create_node s g written entity_type timestamp).1
  unfolding get_or_create_node
  get_or_create_node-found g written entity_type timestamp h =
      let name = or_else (resolve s g written) written in
      let created = add_or_update_entity s g name entity_type timestamp "" in
      elim (Option-cases (D.get g.entity_to_node name)) [
        | inr (i, there) ↦ rw (there, get_or_create_node, there) refl
        | inl absent ↦ elim (Option-cases (D.get created.entity_to_node name)) [
          | inr (i, there) ↦ rw (absent, get_or_create_node, there, there) refl
          | inl lost ↦
              let noded = created_noded g written entity_type timestamp h in cc (rw lost at noded)
        ]
      ]

  pub mention_entity-IsLinked :
      (g : SimpleEntityGraph D G F) (name : String) (update_id : Uuid) (timestamp : DateTime)
      → IsLinked g
      → IsLinked (mention_entity s g name update_id timestamp)
  unfolding mention_entity
  mention_entity-IsLinked g name update_id timestamp h =
      let ids = or_else (D.get g.entity_mentions name) [] ++ update_id ∷ [] in
      let mentions = D.insert g.entity_mentions name ids in
      elim (Option-cases (D.get g.entities name)) [
        | inl absent ↦ rw (absent, mention_entity) (mentions-IsLinked g mentions h)
        | inr (entity, there) ↦
            let count = (entity.mention_count + 1) % u32_mod in
            rw (there, mention_entity)
              (entity-IsLinked (record g { entity_mentions = mentions }) name
                (record entity {
                  last_mentioned = timestamp;
                  mention_count = count;
                  importance_score = s.of_count count;
                })
                (mentions-IsLinked g mentions h) (rw there refl))
      ]

  pub add_relationship-IsLinked :
      (now : DateTime) (g : SimpleEntityGraph D G F) (r : EntityRelationship)
      → IsLinked g
      → IsLinked (add_relationship s now g r)
  unfolding add_relationship
  add_relationship-IsLinked now g r h =
      let source = get_or_create_node s g r.from_entity EntityType.concept now in
      let target = get_or_create_node s source.0 r.to_entity EntityType.concept now in
      let from_linked = get_or_create_node-IsLinked g r.from_entity EntityType.concept now h in
      let linked =
        get_or_create_node-IsLinked source.0 r.to_entity EntityType.concept now from_linked in
      elim (Bool-cases (eqb source.1 target.1 && not (r.from_entity == r.to_entity))) [
        | inl same ↦ rw (same, add_relationship) linked
        | inr other ↦
            rw (other, add_relationship)
              (edge-IsLinked target.0 source.1 target.1
                (record { relation_type = r.relation_type; context = r.context }) linked)
      ]

  pub add_relationships-IsLinked :
      (now : DateTime) (g : SimpleEntityGraph D G F) (rs : List EntityRelationship)
      → IsLinked g
      → IsLinked (add_relationships s now g rs)
  unfolding add_relationships
  add_relationships-IsLinked now g [] h = h
  add_relationships-IsLinked now g (r ∷ rest) h =
      add_relationships-IsLinked now (add_relationship s now g r) rest
        (add_relationship-IsLinked now g r h)
