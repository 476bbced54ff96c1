-- ===== src/Graph/Linked/Repeats.antt =====
-- What an operation on relations leaves as it was: names keep what they resolve to, entities keep
-- their nodes, and adding a relation again adds no edge.
use post_cortex.Base.{
  ℕ, ◌≡◌, refl, false, none, some, List, [], ◌∷◌, String, inl, inr, is_some, arith, Option-cases,
  Bool-cases,
}
use post_cortex.Base.Keys.{nat_eq, string_eq, ◌==◌, ==-iff}
use post_cortex.ConcurrentMap.{DashMaps}
use post_cortex.Core.Update.{DateTime, EntityType}
use post_cortex.Graph.Names.{entity_key}
use post_cortex.Graph.Petgraph.{DiGraphs}
use post_cortex.Graph.{EdgeData, Scores, SimpleEntityGraph, all_names, or_else, add_node}
use post_cortex.Graph.Updates.{
  resolve, index_name, index_all, index_names, fresh_entity, add_or_update_entity,
}
use post_cortex.Graph.Linked.{IsLinked}
use post_cortex.Graph.Linked.Spellings.{index_names-entities}

module _ {D : DashMaps} {G : DiGraphs EdgeData} {F : Type 0} (s : Scores F) where
  -- Indexing fills free keys only.
  index_all-get :
      (g : SimpleEntityGraph D G F) (canonical : String) (names : List String) (k c : String)
      → D.get g.alias_index k ≡ some c
      → D.get (index_all s g canonical names).alias_index k ≡ some c
  unfolding index_all index_name
  index_all-get g canonical [] k c h = h
  index_all-get g canonical (name ∷ rest) k c h =
      index_all-get (index_name s g canonical name) canonical rest k c
        (elim (Bool-cases (is_some (D.get g.alias_index (entity_key s.unicode name)))) [
          | inl taken ↦ rw taken h
          | inr free ↦ rw free (
              ground (
                arith,
                free,
                h,
                D.get-insert g.alias_index (entity_key s.unicode name) canonical k,
                ==-iff (entity_key s.unicode name) k,
              ))
        ])

  index_names-get :
      (g : SimpleEntityGraph D G F) (canonical k c : String)
      → D.get g.alias_index k ≡ some c
      → D.get (index_names s g canonical).alias_index k ≡ some c
  unfolding index_names
  index_names-get g canonical k c h = elim (Option-cases (D.get g.entities canonical)) [
    | inl absent ↦ rw (absent, index_names) h
    | inr (entity, there) ↦
        rw (there, index_names) (index_all-get g canonical (all_names entity) k c h)
  ]

  index_name-kept :
      (g : SimpleEntityGraph D G F) (canonical name : String)
      → ((index_name s g canonical name).entity_to_node ≡ g.entity_to_node)
        × ((index_name s g canonical name).graph ≡ g.graph)
  unfolding index_name
  index_name-kept g canonical name =
      elim (Bool-cases (is_some (D.get g.alias_index (entity_key s.unicode name)))) [
        | inl taken ↦ rw taken (refl, refl)
        | inr free ↦ rw free (refl, refl)
      ]

  index_all-kept :
      (g : SimpleEntityGraph D G F) (canonical : String) (names : List String)
      → ((index_all s g canonical names).entity_to_node ≡ g.entity_to_node)
        × ((index_all s g canonical names).graph ≡ g.graph)
  unfolding index_all
  index_all-kept g canonical [] = (refl, refl)
  index_all-kept g canonical (name ∷ rest) =
      let (nodes, edges) = index_name-kept g canonical name in
      let (more_nodes, more_edges) =
        index_all-kept (index_name s g canonical name) canonical rest in
      (cc (nodes, more_nodes), cc (edges, more_edges))

  pub index_names-kept :
      (g : SimpleEntityGraph D G F) (canonical : String)
      → ((index_names s g canonical).entity_to_node ≡ g.entity_to_node)
        × ((index_names s g canonical).graph ≡ g.graph)
  unfolding index_names
  index_names-kept g canonical = elim (Option-cases (D.get g.entities canonical)) [
    | inl absent ↦ rw (absent, index_names) (refl, refl)
    | inr (entity, there) ↦ rw (there, index_names) (index_all-kept g canonical (all_names entity))
  ]

  pub unresolved :
      (g : SimpleEntityGraph D G F) (name : String)
      → resolve s g name ≡ none
      → D.get g.entities name ≡ none
  unfolding resolve
  unresolved g name h = elim (Option-cases (D.get g.entities name)) [
    | inl absent ↦ absent
    | inr (entity, there) ↦ ground (arith, h, there)
  ]

  pub new_entity :
      (g : SimpleEntityGraph D G F) (name : String) (entity_type : EntityType)
      (timestamp : DateTime) (description : String)
      → resolve s g name ≡ none
      → add_or_update_entity s g name entity_type timestamp description
        ≡ index_names s
            (add_node
              (record g {
                entities =
                    D.insert g.entities name
                      (fresh_entity s name entity_type timestamp description);
              })
              name)
            name
  unfolding add_or_update_entity
  new_entity g name entity_type timestamp description unknown =
      let absent : D.get g.entities (or_else (resolve s g name) name) ≡ none =
        rw unknown (unresolved g name unknown) in
      rw (absent, add_or_update_entity, unknown) refl

  -- After a new entity, names resolve to what they resolved to.
  pub new_entity-resolve :
      (g : SimpleEntityGraph D G F) (name : String) (entity_type : EntityType)
      (timestamp : DateTime) (description w c : String)
      → resolve s g name ≡ none
      → resolve s g w ≡ some c
      → resolve s (add_or_update_entity s g name entity_type timestamp description) w ≡ some c
  unfolding resolve add_node
  new_entity-resolve g name entity_type timestamp description w c unknown h =
      let absent = unresolved g name unknown in
      let fresh = fresh_entity s name entity_type timestamp description in
      let added = add_node (record g { entities = D.insert g.entities name fresh }) name in
      let other : (name == w) ≡ false = ground (arith, unknown, h, ==-iff name w) in
      rw
        (
          new_entity g name entity_type timestamp description unknown,
          index_names-entities s added name,
          D.get-insert g.entities name fresh w,
          other,
        )
        (elim (Bool-cases (is_some (D.get g.entities w))) [
          | inl there ↦ ground (arith, there, h)
          | inr gone ↦
              let indexed : D.get g.alias_index (entity_key s.unicode w) ≡ some c = rw gone at h in
              rw gone (index_names-get added name (entity_key s.unicode w) c indexed)
        ])

  -- A new entity takes no other's node.
  pub new_entity-entity_to_node :
      (g : SimpleEntityGraph D G F) (name : String) (entity_type : EntityType)
      (timestamp : DateTime) (description w : String) (i : ℕ)
      → IsLinked g
      → resolve s g name ≡ none
      → D.get g.entity_to_node w ≡ some i
      → D.get (add_or_update_entity s g name entity_type timestamp description).entity_to_node w
        ≡ some i
  unfolding add_node
  new_entity-entity_to_node g name entity_type timestamp description w i linked unknown h =
      let absent = unresolved g name unknown in
      let fresh = fresh_entity s name entity_type timestamp description in
      let added = add_node (record g { entities = D.insert g.entities name fresh }) name in
      rw
        (
          new_entity g name entity_type timestamp description unknown,
          (index_names-kept added name).0,
        )
        (ground (
          arith,
          h,
          absent,
          linked.owned name,
          D.get-insert g.entity_to_node name (G.node_count g.graph) w,
          ==-iff name w,
        ))
