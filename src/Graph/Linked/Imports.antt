-- ===== src/Graph/Linked/Imports.antt =====
-- Records, stored entities and other graphs are folded in: the graph stays linked, and the entity
-- that `insert_entity` merges with is there.
use Prim.Native.String.{◌++◌ as str_append}
use post_cortex.Base.{
  ◌≡◌, refl, some, true, false, List, [], ◌∷◌, String, inl, inr, is_some, arith, Option-cases,
  Bool-cases,
}
use post_cortex.Base.Keys.{nat_eq, string_eq, ◌==◌}
use post_cortex.ConcurrentMap.{DashMaps}
use post_cortex.Core.Update.{Uuid, DateTime, TypedEntity, EntityData, ContextUpdate}
use post_cortex.Graph.Petgraph.{DiGraphs}
use post_cortex.Graph.{
  EdgeData, Scores, SimpleEntityGraph, all_names, or_else, add_node, ensure_node, mention_ids,
}
use post_cortex.Graph.Updates.{resolve, note_alias, add_or_update_entity}
use post_cortex.Graph.Merges.{
  earlier, add_typed, add_concepts, link_mentions, apply_update, first_other, store_entity,
  insert_entity, note_aliases, merge_named, merge_mentions, edges_of, merge_from,
}
use post_cortex.Graph.Linked.{IsLinked, entity-IsLinked}
use post_cortex.Graph.Linked.Nodes.{add_node-IsLinked}
use post_cortex.Graph.Linked.Spellings.{
  resolve_known, index_names-entities, index_names-IsLinked, note_alias-IsLinked,
}
use post_cortex.Graph.Linked.Operations.{
  mention_ids-IsLinked, add_or_update_entity-IsLinked, add_relationships-IsLinked,
}
use post_cortex.Graph.Linked.Merging.{
  merge_entities-IsLinked, add_typed-IsLinked, add_concepts-IsLinked, link_names-IsLinked,
}

module _ {D : DashMaps} {G : DiGraphs EdgeData} {F : Type 0} where
  -- An entity stored with a node, new or there.
  stored-IsLinked :
      (g : SimpleEntityGraph D G F) (name : String) (entity : EntityData F)
      → IsLinked g
      → IsLinked (record (ensure_node g name) {
        entities = D.insert (ensure_node g name).entities name entity;
      })
  unfolding ensure_node add_node
  stored-IsLinked g name entity h = elim (Option-cases (D.get g.entities name)) [
    | inr (old, there) ↦
        let known : is_some (D.get g.entities name) ≡ true = rw there refl in
        let noded : is_some (D.get g.entity_to_node name) ≡ true =
          ground (arith, h.owned name, known) in
        rw noded (entity-IsLinked g name entity h known)
    | inl absent ↦
        let free : is_some (D.get g.entity_to_node name) ≡ false =
          ground (arith, h.owned name, absent) in
        rw free (add_node-IsLinked g name entity h absent)
  ]

module _ {D : DashMaps} {G : DiGraphs EdgeData} {F : Type 0} (s : Scores F) where
  pub apply_update-IsLinked :
      (now : DateTime) (g : SimpleEntityGraph D G F) (update : ContextUpdate F)
      → IsLinked g
      → IsLinked (apply_update s now g update)
  unfolding apply_update link_mentions
  apply_update-IsLinked now g update h = link_names-IsLinked s update.id _ _ (
      add_relationships-IsLinked s now _ update.creates_relationships (named update.typed_entities))
    where
      named :
          (typed : List TypedEntity)
          → IsLinked (elim typed as (λ l. SimpleEntityGraph D G F) [
            | [] ↦
                add_concepts s update.timestamp
                  (str_append "From update: " update.content.title)
                  g
                  update.creates_entities
            | t ∷ ts ↦
                add_typed s update.timestamp
                  (str_append "Provided by caller: " update.content.title)
                  g
                  (t ∷ ts)
          ])
      named [] = add_concepts-IsLinked s update.timestamp _ g update.creates_entities h
      named (t ∷ ts) = add_typed-IsLinked s update.timestamp _ g (t ∷ ts) h

  pub store_entity-IsLinked :
      (g : SimpleEntityGraph D G F) (entity : EntityData F)
      → IsLinked g
      → IsLinked (store_entity s g entity)
  unfolding store_entity
  store_entity-IsLinked g entity h =
      index_names-IsLinked s _ entity.name (stored-IsLinked g entity.name entity h)

  first_other_known :
      (g : SimpleEntityGraph D G F) (name other : String) (names : List String)
      → IsLinked g
      → first_other s g name names ≡ some other
      → is_some (D.get g.entities other) ≡ true
  unfolding first_other
  first_other_known g name other [] h found = cc
  first_other_known g name other (n ∷ rest) h found =
      let more = first_other_known g name other rest h in
      elim (Option-cases (resolve s g n)) [
        | inl unknown ↦ more (rw (unknown, first_other) at found)
        | inr (c, resolved) ↦ elim (Bool-cases (c == name)) [
          | inl self ↦ more (rw (resolved, first_other, self) at found)
          | inr differs ↦
              let same : c ≡ other = ground (arith, rw (resolved, first_other, differs) at found) in
              rw (← same) (resolve_known s g n c h resolved)
        ]
      ]

  -- When `insert_entity` finds another entity under one of the names, that entity is still there
  -- once the given one is stored, in a graph whose maps agree: reading it does not panic.
  pub store_entity-first_other :
      (g : SimpleEntityGraph D G F) (entity : EntityData F) (other : String)
      → IsLinked g
      → first_other s g entity.name (all_names entity) ≡ some other
      → is_some (D.get (store_entity s g entity).entities other) ≡ true
  unfolding store_entity ensure_node add_node
  store_entity-first_other g entity other h found =
      let known = first_other_known g entity.name other (all_names entity) h found in
      elim (Bool-cases (is_some (D.get g.entity_to_node entity.name))) [
        | inl noded ↦
            rw
              (
                noded,
                store_entity,
                index_names-entities s
                    (record g { entities = D.insert g.entities entity.name entity }) entity.name,
              )
              (ground (arith, known, D.get-insert g.entities entity.name entity other))
        | inr free ↦
            rw
              (
                free,
                store_entity,
                index_names-entities s
                    (record (add_node g entity.name) {
                      entities = D.insert g.entities entity.name entity;
                    })
                    entity.name,
              )
              (ground (arith, known, D.get-insert g.entities entity.name entity other))
      ]

  pub insert_entity-IsLinked :
      (now : DateTime) (g : SimpleEntityGraph D G F) (entity : EntityData F)
      → IsLinked g
      → IsLinked (insert_entity s now g entity)
  unfolding insert_entity
  insert_entity-IsLinked now g entity h =
      let indexed = store_entity s g entity in
      let linked = store_entity-IsLinked g entity h in
      elim (Option-cases (first_other s g entity.name (all_names entity))) [
        | inl single ↦ rw (single, insert_entity) linked
        | inr (other, found) ↦ elim (Option-cases (D.get indexed.entities other)) [
          | inl lost ↦ rw (found, insert_entity, lost) linked
          | inr (theirs, there) ↦
              elim (Bool-cases
                (earlier entity.first_mentioned entity.name theirs.first_mentioned other)) [
                  | inl mine ↦
                      rw (found, insert_entity, there, mine)
                        (merge_entities-IsLinked s now indexed other entity.name linked)
                  | inr older ↦
                      rw (found, insert_entity, there, older)
                        (merge_entities-IsLinked s now indexed entity.name other linked)
                ]
        ]
      ]

  note_aliases-IsLinked :
      (g : SimpleEntityGraph D G F) (name : String) (aliases : List String)
      → IsLinked g
      → IsLinked (note_aliases s g name aliases)
  unfolding note_aliases
  note_aliases-IsLinked g name [] h = h
  note_aliases-IsLinked g name (alias ∷ rest) h =
      note_aliases-IsLinked (note_alias s g name alias) name rest
        (note_alias-IsLinked s g name alias h)

  merge_named-IsLinked :
      (g : SimpleEntityGraph D G F) (entities : List (String × EntityData F))
      → IsLinked g
      → IsLinked (merge_named s g entities)
  unfolding merge_named
  merge_named-IsLinked g [] h = h
  merge_named-IsLinked g ((name, data_of) ∷ rest) h =
      merge_named-IsLinked
        (note_aliases s
          (add_or_update_entity s g name data_of.entity_type data_of.last_mentioned
            (or_else data_of.description ""))
          name data_of.aliases)
        rest
        (note_aliases-IsLinked _ name data_of.aliases (
          add_or_update_entity-IsLinked s g name data_of.entity_type data_of.last_mentioned
            (or_else data_of.description "") h))

  merge_mentions-IsLinked :
      (g : SimpleEntityGraph D G F) (mentions : List (String × List Uuid))
      → IsLinked g
      → IsLinked (merge_mentions s g mentions)
  unfolding merge_mentions
  merge_mentions-IsLinked g [] h = h
  merge_mentions-IsLinked g ((name, ids) ∷ rest) h =
      merge_mentions-IsLinked (mention_ids g (or_else (resolve s g name) name) ids) rest
        (mention_ids-IsLinked g (or_else (resolve s g name) name) ids h)

  pub merge_from-IsLinked :
      (now : DateTime) (g other : SimpleEntityGraph D G F)
      → IsLinked g
      → IsLinked (merge_from s now g other)
  unfolding merge_from
  merge_from-IsLinked now g other h =
      add_relationships-IsLinked s now _ (edges_of s other (G.edge_references other.graph)) (
        merge_mentions-IsLinked _ (D.iter other.entity_mentions)
          (merge_named-IsLinked g (D.iter other.entities) h))
