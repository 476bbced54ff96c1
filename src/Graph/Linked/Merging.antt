-- ===== src/Graph/Linked/Merging.antt =====
-- The operations that fold entities, records and graphs into a graph keep it linked.
use post_cortex.Base.{
  refl, none, some, List, [], ◌∷◌, String, inl, inr, arith, Option-cases, Bool-cases,
}
use post_cortex.Base.Keys.{nat_eq, string_eq, ◌==◌}
use post_cortex.ConcurrentMap.{DashMaps}
use post_cortex.Core.Update.{Uuid, DateTime, EntityType, TypedEntity, EntityData, ContextUpdate}
use post_cortex.Graph.Petgraph.{DiGraphs}
use post_cortex.Graph.{
  EdgeData, Scores, SimpleEntityGraph, all_names, or_else, remove_entity, mention_ids,
  relationships_of, mentioned_names,
}
use post_cortex.Graph.Updates.{resolve, claim_names, add_or_update_entity}
use post_cortex.Graph.Merges.{
  absorb, redirected, fold_entity, merge_entities, add_typed, add_concepts, link_names,
  link_mentions, relink_all, relink_mentions,
}
use post_cortex.Graph.Linked.{IsLinked, entity-IsLinked, mentions-IsLinked}
use post_cortex.Graph.Linked.Removal.{remove_entity-IsLinked}
use post_cortex.Graph.Linked.Spellings.{claim_names-IsLinked}
use post_cortex.Graph.Linked.Operations.{
  mention_ids-IsLinked, add_or_update_entity-IsLinked, add_relationships-IsLinked,
}

module _ {D : DashMaps} {G : DiGraphs EdgeData} {F : Type 0} where
  joined-IsLinked :
      (g : SimpleEntityGraph D G F) (into : String) (ids : List Uuid)
      → IsLinked g
      → IsLinked (elim ids as (λ o. SimpleEntityGraph D G F) [
        | [] ↦ g
        | id ∷ rest ↦ mention_ids g into (id ∷ rest)
      ])
  joined-IsLinked g into [] h = h
  joined-IsLinked g into (id ∷ rest) h = mention_ids-IsLinked g into (id ∷ rest) h

module _ {D : DashMaps} {G : DiGraphs EdgeData} {F : Type 0} (s : Scores F) where
  -- The target of a merge with what it absorbs, and its names claimed.
  absorbed-IsLinked :
      (g : SimpleEntityGraph D G F) (into : String) (gone : EntityData F)
      → IsLinked g
      → IsLinked (elim (D.get g.entities into) as (λ o. SimpleEntityGraph D G F) [
        | none ↦ g
        | some target ↦
            claim_names s
              (record g { entities = D.insert g.entities into (absorb s target gone) })
              into
              (all_names (absorb s target gone))
      ])
  absorbed-IsLinked g into gone h = elim (Option-cases (D.get g.entities into)) [
    | inl absent ↦ rw absent h
    | inr (target, there) ↦ rw there (
        claim_names-IsLinked s
          (record g { entities = D.insert g.entities into (absorb s target gone) }) into
          (all_names (absorb s target gone))
          (entity-IsLinked g into (absorb s target gone) h (rw there refl))
          (ground (arith, D.get-insert g.entities into (absorb s target gone) into)))
  ]

  pub fold_entity-IsLinked :
      (now : DateTime) (g : SimpleEntityGraph D G F) (alias into : String) (gone : EntityData F)
      → IsLinked g
      → IsLinked (fold_entity s now g alias into gone)
  unfolding fold_entity
  fold_entity-IsLinked now g alias into gone h =
      let removed = (remove_entity g alias).0 in
      let grown = absorbed-IsLinked removed into gone (remove_entity-IsLinked g alias h) in
      add_relationships-IsLinked s now _ (redirected alias into (relationships_of g alias))
        (joined-IsLinked _ into (or_else (D.get g.entity_mentions alias) []) grown)

  pub merge_entities-IsLinked :
      (now : DateTime) (g : SimpleEntityGraph D G F) (alias into : String)
      → IsLinked g
      → IsLinked (merge_entities s now g alias into).0
  unfolding merge_entities
  merge_entities-IsLinked now g alias into h = elim (Option-cases (resolve s g alias)) [
    | inl absent ↦ rw (absent, merge_entities) h
    | inr (a, found) ↦ elim (Option-cases (resolve s g into)) [
      | inl absent ↦ rw (found, merge_entities, absent) h
      | inr (i, there) ↦ elim (Bool-cases (a == i)) [
        | inl same ↦ rw (found, merge_entities, there, same) h
        | inr other ↦ elim (Option-cases (D.get g.entities a)) [
          | inl lost ↦ rw (found, merge_entities, there, other, lost) h
          | inr (gone, stored) ↦
              rw (found, merge_entities, there, other, stored)
                (fold_entity-IsLinked now g a i gone h)
        ]
      ]
    ]
  ]

  pub add_typed-IsLinked :
      (timestamp : DateTime) (description : String) (g : SimpleEntityGraph D G F)
      (entities : List TypedEntity)
      → IsLinked g
      → IsLinked (add_typed s timestamp description g entities)
  unfolding add_typed
  add_typed-IsLinked timestamp description g [] h = h
  add_typed-IsLinked timestamp description g (t ∷ rest) h =
      add_typed-IsLinked timestamp description
        (add_or_update_entity s g t.name t.entity_type timestamp description) rest
        (add_or_update_entity-IsLinked s g t.name t.entity_type timestamp description h)

  pub add_concepts-IsLinked :
      (timestamp : DateTime) (description : String) (g : SimpleEntityGraph D G F)
      (names : List String)
      → IsLinked g
      → IsLinked (add_concepts s timestamp description g names)
  unfolding add_concepts
  add_concepts-IsLinked timestamp description g [] h = h
  add_concepts-IsLinked timestamp description g (name ∷ rest) h =
      add_concepts-IsLinked timestamp description
        (add_or_update_entity s g name EntityType.concept timestamp description) rest
        (add_or_update_entity-IsLinked s g name EntityType.concept timestamp description h)

  pub link_names-IsLinked :
      (id : Uuid) (g : SimpleEntityGraph D G F) (names : List String)
      → IsLinked g
      → IsLinked (link_names s id g names)
  unfolding link_names
  link_names-IsLinked id g [] h = h
  link_names-IsLinked id g (name ∷ rest) h = elim (Option-cases (resolve s g name)) [
    | inl absent ↦ rw absent (link_names-IsLinked id g rest h)
    | inr (c, found) ↦ rw found (
        link_names-IsLinked id (mention_ids g c (id ∷ [])) rest
          (mention_ids-IsLinked g c (id ∷ []) h))
  ]

  pub link_mentions-IsLinked :
      (g : SimpleEntityGraph D G F) (update : ContextUpdate F)
      → IsLinked g
      → IsLinked (link_mentions s g update)
  unfolding link_mentions
  link_mentions-IsLinked g update h = link_names-IsLinked update.id g (mentioned_names update) h

  pub relink_all-IsLinked :
      (g : SimpleEntityGraph D G F) (updates : List (ContextUpdate F))
      → IsLinked g
      → IsLinked (relink_all s g updates)
  unfolding relink_all
  relink_all-IsLinked g [] h = h
  relink_all-IsLinked g (update ∷ rest) h =
      relink_all-IsLinked (link_mentions s g update) rest (link_mentions-IsLinked g update h)

  pub relink_mentions-IsLinked :
      (g : SimpleEntityGraph D G F) (updates : List (ContextUpdate F))
      → IsLinked g
      → IsLinked (relink_mentions s g updates)
  unfolding relink_mentions
  relink_mentions-IsLinked g updates h =
      relink_all-IsLinked (record g { entity_mentions = D.new }) updates
        (mentions-IsLinked g D.new h)
