-- ===== src/Graph/Linked/Duplicates.antt =====
-- Adding a relation again adds no edge.
use post_cortex.Base.{
  ℕ, ◌≡◌, refl, not, ◌&&◌, none, some, String, ◌⊎◌, inl, inr, eqb, arith, Option-cases, Bool-cases,
  if◌then◌else◌,
}
use post_cortex.Base.Keys.{nat_eq, string_eq, ◌==◌}
use post_cortex.ConcurrentMap.{DashMaps}
use post_cortex.Core.Update.{DateTime, EntityType, RelationType, EntityRelationship}
use post_cortex.Graph.Petgraph.{DiGraphs}
use post_cortex.Graph.{EdgeData, Scores, SimpleEntityGraph, or_else}
use post_cortex.Graph.Updates.{
  resolve, put_edge, add_or_update_entity, get_or_create_node, add_relationship,
}
use post_cortex.Graph.Linked.{IsLinked, edges_between}
use post_cortex.Graph.Linked.Edges.{put_edge_replaces, put_edge_counted}
use post_cortex.Graph.Linked.Spellings.{resolve_known, resolve_self}
use post_cortex.Graph.Linked.Operations.{
  created_noded, add_or_update_entity-entities, get_or_create_node-IsLinked,
  get_or_create_node-found,
}
use post_cortex.Graph.Linked.Repeats.{unresolved, new_entity-resolve, new_entity-entity_to_node}

module _ {D : DashMaps} {G : DiGraphs EdgeData} {F : Type 0} (s : Scores F) where
  -- A name without a node is unknown.
  unknown_name :
      (g : SimpleEntityGraph D G F) (written : String)
      → IsLinked g
      → D.get g.entity_to_node (or_else (resolve s g written) written) ≡ none
      → resolve s g written ≡ none
  unknown_name g written h absent = elim (Option-cases (resolve s g written)) [
    | inl free ↦ free
    | inr (c, found) ↦
        let known = resolve_known s g written c h found in
        let gone : D.get g.entity_to_node c ≡ none = rw found at absent in
        ground (arith, h.owned c, known, gone)
  ]

  -- The entity is known, or a new one.
  get_or_create_node_cases :
      (g : SimpleEntityGraph D G F) (written : String) (entity_type : EntityType)
      (timestamp : DateTime)
      → IsLinked g
      → ((get_or_create_node s g written entity_type timestamp).0 ≡ g)
        ⊎ ((resolve s g written ≡ none)
            × ((get_or_create_node s g written entity_type timestamp).0
                ≡ add_or_update_entity s g written entity_type timestamp ""))
  unfolding get_or_create_node
  get_or_create_node_cases g written entity_type timestamp h =
      let name = or_else (resolve s g written) written in
      let created = add_or_update_entity s g name entity_type timestamp "" in
      elim (Option-cases (D.get g.entity_to_node name)) [
        | inr (i, there) ↦ inl (rw (there, get_or_create_node) refl)
        | inl absent ↦
            let unknown = unknown_name g written h absent in
            elim (Option-cases (D.get created.entity_to_node name)) [
              | inr (i, there) ↦ inr (unknown, rw (absent, get_or_create_node, there, unknown) refl)
              | inl lost ↦
                  let noded = created_noded s g written entity_type timestamp h in
                  cc (rw lost at noded)
            ]
      ]

  get_or_create_node-resolve :
      (g : SimpleEntityGraph D G F) (written : String) (entity_type : EntityType)
      (timestamp : DateTime) (w c : String)
      → IsLinked g
      → resolve s g w ≡ some c
      → resolve s (get_or_create_node s g written entity_type timestamp).0 w ≡ some c
  get_or_create_node-resolve g written entity_type timestamp w c h found =
      elim (get_or_create_node_cases g written entity_type timestamp h) [
        | inl same ↦ rw same found
        | inr (unknown, created) ↦
            rw created (new_entity-resolve s g written entity_type timestamp "" w c unknown found)
      ]

  get_or_create_node-kept :
      (g : SimpleEntityGraph D G F) (written : String) (entity_type : EntityType)
      (timestamp : DateTime) (w : String) (i : ℕ)
      → IsLinked g
      → D.get g.entity_to_node w ≡ some i
      → D.get (get_or_create_node s g written entity_type timestamp).0.entity_to_node w ≡ some i
  get_or_create_node-kept g written entity_type timestamp w i h found =
      elim (get_or_create_node_cases g written entity_type timestamp h) [
        | inl same ↦ rw same found
        | inr (unknown, created) ↦
            rw created
              (new_entity-entity_to_node s g written entity_type timestamp "" w i h unknown found)
      ]

  -- The name resolves afterwards, to what it resolved to.
  get_or_create_node-resolved :
      (g : SimpleEntityGraph D G F) (written : String) (entity_type : EntityType)
      (timestamp : DateTime)
      → IsLinked g
      → resolve s (get_or_create_node s g written entity_type timestamp).0 written
        ≡ some (or_else (resolve s g written) written)
  get_or_create_node-resolved g written entity_type timestamp h =
      elim (Option-cases (resolve s g written)) [
        | inr (c, found) ↦
            rw (get_or_create_node-resolve g written entity_type timestamp written c h found, found)
              refl
        | inl unknown ↦ elim (get_or_create_node_cases g written entity_type timestamp h) [
          | inr (free, created) ↦
              let there =
                rw unknown at
                  (add_or_update_entity-entities s g written entity_type timestamp "") in
              rw (created, unknown)
                (resolve_self s (add_or_update_entity s g written entity_type timestamp "") written
                  there)
          | inl same ↦
              let found = get_or_create_node-found s g written entity_type timestamp h in
              let index = (get_or_create_node s g written entity_type timestamp).1 in
              let noded : D.get g.entity_to_node written ≡ some index =
                rw same at (rw unknown at found) in
              ground (arith, noded, h.owned written, unresolved s g written unknown)
        ]
      ]

  -- A name that resolves to an entity with a node is found there.
  get_or_create_node_again :
      (g : SimpleEntityGraph D G F) (written : String) (entity_type : EntityType)
      (timestamp : DateTime) (c : String) (i : ℕ)
      → resolve s g written ≡ some c
      → D.get g.entity_to_node c ≡ some i
      → get_or_create_node s g written entity_type timestamp ≡ (g, i)
  unfolding get_or_create_node
  get_or_create_node_again g written entity_type timestamp c i found noded =
      let there : D.get g.entity_to_node (or_else (resolve s g written) written) ≡ some i =
        rw found noded in
      rw (there, get_or_create_node) refl

  -- The second of two relations between the same names, on any edges.
  add_relationship_between :
      (now : DateTime) (g : SimpleEntityGraph D G F) (r : EntityRelationship) (a b : String)
      (i j : ℕ)
      → resolve s g r.from_entity ≡ some a
      → D.get g.entity_to_node a ≡ some i
      → resolve s g r.to_entity ≡ some b
      → D.get g.entity_to_node b ≡ some j
      → add_relationship s now g r ≡ (
          if eqb i j && not (r.from_entity == r.to_entity) then g else record g {
            graph =
                put_edge G g.graph i j
                  (record { relation_type = r.relation_type; context = r.context });
          })
  unfolding add_relationship
  add_relationship_between now g r a b i j from_a at_a to_b at_b =
      rw
        (
          get_or_create_node_again g r.from_entity EntityType.concept now a i from_a at_a,
          add_relationship,
          get_or_create_node_again g r.to_entity EntityType.concept now b j to_b at_b,
        )
        refl

  -- Where both names stand once the nodes of a relation are there.
  ends_settled :
      (now : DateTime) (g : SimpleEntityGraph D G F) (r : EntityRelationship)
      (source target : SimpleEntityGraph D G F × ℕ)
      → IsLinked g
      → get_or_create_node s g r.from_entity EntityType.concept now ≡ source
      → get_or_create_node s source.0 r.to_entity EntityType.concept now ≡ target
      → ((resolve s target.0 r.from_entity
            ≡ some (or_else (resolve s g r.from_entity) r.from_entity))
          × (D.get target.0.entity_to_node (or_else (resolve s g r.from_entity) r.from_entity)
              ≡ some source.1))
        × ((resolve s target.0 r.to_entity
              ≡ some (or_else (resolve s source.0 r.to_entity) r.to_entity))
            × (D.get target.0.entity_to_node (or_else (resolve s source.0 r.to_entity) r.to_entity)
                ≡ some target.1))
  ends_settled now g r source target h first second =
      let concept = EntityType.concept in
      let linked : IsLinked source.0 =
        rw first at (get_or_create_node-IsLinked s g r.from_entity concept now h) in
      let resolved = rw first at (get_or_create_node-resolved g r.from_entity concept now h) in
      let noded = rw first at (get_or_create_node-found s g r.from_entity concept now h) in
      let a = or_else (resolve s g r.from_entity) r.from_entity in
      (
        (
          rw second at (
              get_or_create_node-resolve source.0 r.to_entity concept now r.from_entity a linked
                resolved),
          rw second at
              (get_or_create_node-kept source.0 r.to_entity concept now a source.1 linked noded),
        ),
        (
          rw second at (get_or_create_node-resolved source.0 r.to_entity concept now linked),
          rw second at (get_or_create_node-found s source.0 r.to_entity concept now linked),
        ),
      )

  -- Adding a relation again, with whatever context, adds no edge: from each node to each node there
  -- are as many edges of each relation type as after the first time, in a graph whose maps agree.
  pub add_relationship_again :
      (now later : DateTime) (g : SimpleEntityGraph D G F) (r : EntityRelationship) (text : String)
      (q : RelationType) (a b : ℕ)
      → IsLinked g
      → edges_between
          (add_relationship s later (add_relationship s now g r) (record r { context = text }))
          q
          a
          b
        ≡ edges_between (add_relationship s now g r) q a b
  unfolding add_relationship resolve
  add_relationship_again now later g r text q a b h =
      let source = get_or_create_node s g r.from_entity EntityType.concept now in
      let target = get_or_create_node s source.0 r.to_entity EntityType.concept now in
      let ((from_a, at_a), (to_b, at_b)) = ends_settled now g r source target h refl refl in
      let again = record r { context = text } in
      let edge : EdgeData = record { relation_type = r.relation_type; context = r.context } in
      let once = record target.0 { graph = put_edge G target.0.graph source.1 target.1 edge } in
      elim (Bool-cases (eqb source.1 target.1 && not (r.from_entity == r.to_entity))) [
        | inl same ↦
            let twice =
              add_relationship_between later target.0 again _ _ source.1 target.1 from_a at_a to_b
                at_b in
            rw (same, twice, same) refl
        | inr other ↦
            let twice =
              add_relationship_between later once again _ _ source.1 target.1 from_a at_a to_b
                at_b in
            rw (other, twice, other)
              (put_edge_replaces G once.graph source.1 target.1
                (record { relation_type = r.relation_type; context = text }) q a b
                (put_edge_counted G target.0.graph source.1 target.1 edge))
      ]
