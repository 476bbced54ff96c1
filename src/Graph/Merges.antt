-- ===== src/Graph/Merges.antt =====
-- The operations of `SimpleEntityGraph` that fold entities, records and graphs into a graph.
use Prim.Native.String.{◌++◌ as str_append, compare as str_compare}
use post_cortex.Base.{
  ℕ, ◌+◌, ◌%◌, min, max, Bool, true, false, not, ◌&&◌, Option, none, some, List, [], ◌∷◌, ◌++◌, map,
  filter, String, if◌then◌else◌, is_some, eqb, ltb, Ordering,
}
use post_cortex.Base.Words.{u32_mod}
use post_cortex.Base.Keys.{nat_eq, string_eq, ◌==◌}
use post_cortex.ConcurrentMap.{DashMaps}
use post_cortex.Core.Update.{
  Uuid, DateTime, EntityType, EntityRelationship, TypedEntity, EntityData, ContextUpdate,
}
use post_cortex.Graph.Names.{entity_key}
use post_cortex.Graph.Petgraph.{DiGraphs}
use post_cortex.Graph.{
  EdgeData, Scores, SimpleEntityGraph, all_names, with_aliases, mentioned_names, or_else,
  ensure_node, remove_entity, mention_ids, relation_ref, relationships_of,
}
use post_cortex.Graph.Updates.{
  resolve, index_names, note_alias, claim_names, add_or_update_entity, add_relationships,
}

-- What the entity merged into gains from the one that goes.
unfoldable pub absorb : {F : Type 0} → Scores F → EntityData F → EntityData F → EntityData F
absorb s target gone =
    with_aliases
      (record target {
        mention_count = (target.mention_count + gone.mention_count) % u32_mod;
        first_mentioned = min target.first_mentioned gone.first_mentioned;
        last_mentioned = max target.last_mentioned gone.last_mentioned;
        importance_score = s.fmax target.importance_score gone.importance_score;
        description = if is_some target.description then target.description else gone.description;
      })
      (all_names gone)

-- The relations with `into` for `alias`, those between the two left out.
unfoldable pub redirected : String → String → List EntityRelationship → List EntityRelationship
redirected alias into [] = []
redirected alias into (r ∷ rest) =
    let from = if r.from_entity == alias then into else r.from_entity in
    let to = if r.to_entity == alias then into else r.to_entity in
    let more = redirected alias into rest in
    if from == to then more else (record r { from_entity = from; to_entity = to }) ∷ more

-- `(first_mentioned, name)` in lexicographic order.
unfoldable pub earlier : DateTime → String → DateTime → String → Bool
earlier t name t' name' =
    if ltb t t'
    then true
    else eqb t t' && elim (str_compare name name') [
      | Ordering.lt ↦ true
      | Ordering.eq ↦ false
      | Ordering.gt ↦ false
    ]

-- The aliases of an entity whose key is not the entity's.
unfoldable pub explicit_of : {F : Type 0} → Scores F → EntityData F → List (String × String)
explicit_of s e =
    map (λ a. (a, e.name))
      (filter (λ a. not (entity_key s.unicode a == entity_key s.unicode e.name)) e.aliases)

unfoldable pub explicit_in :
    {F : Type 0} → Scores F → List (String × EntityData F) → List (String × String)
explicit_in s [] = []
explicit_in s ((name, e) ∷ rest) = explicit_of s e ++ explicit_in s rest

module _ {D : DashMaps} {G : DiGraphs EdgeData} {F : Type 0} (s : Scores F) where
  -- The part of `merge_entities` on two entities that are there and differ.
  unfoldable pub fold_entity :
      DateTime → SimpleEntityGraph D G F → String → String → EntityData F → SimpleEntityGraph D G F
  fold_entity now g alias into gone =
      let relations = relationships_of g alias in
      let mentions = or_else (D.get g.entity_mentions alias) [] in
      let removed = (remove_entity g alias).0 in
      let grown = elim (D.get removed.entities into) as (λ o. SimpleEntityGraph D G F) [
        | none ↦ removed
        | some target ↦
            claim_names s
              (record removed { entities = D.insert removed.entities into (absorb s target gone) })
              into (all_names (absorb s target gone))
      ] in
      let linked = elim mentions as (λ o. SimpleEntityGraph D G F) [
        | [] ↦ grown
        | id ∷ ids ↦ mention_ids grown into (id ∷ ids)
      ] in
      add_relationships s now linked (redirected alias into relations)

  unfoldable pub merge_entities :
      DateTime → SimpleEntityGraph D G F → String → String → SimpleEntityGraph D G F × Bool
  merge_entities now g alias into = elim (resolve s g alias) [
    | none ↦ (g, false)
    | some alias_name ↦ elim (resolve s g into) [
      | none ↦ (g, false)
      | some into_name ↦
          if alias_name == into_name then (g, false) else (elim (D.get g.entities alias_name) [
            | none ↦ (g, false)
            | some gone ↦ (fold_entity now g alias_name into_name gone, true)
          ])
    ]
  ]

  unfoldable pub explicit_aliases : SimpleEntityGraph D G F → List (String × String)
  explicit_aliases g = explicit_in s (D.iter g.entities)

  -- The first loops of `apply_update`.
  unfoldable pub add_typed :
      DateTime → String → SimpleEntityGraph D G F → List TypedEntity → SimpleEntityGraph D G F
  add_typed timestamp description g [] = g
  add_typed timestamp description g (t ∷ rest) =
      add_typed timestamp description
        (add_or_update_entity s g t.name t.entity_type timestamp description) rest

  unfoldable pub add_concepts :
      DateTime → String → SimpleEntityGraph D G F → List String → SimpleEntityGraph D G F
  add_concepts timestamp description g [] = g
  add_concepts timestamp description g (name ∷ rest) =
      add_concepts timestamp description
        (add_or_update_entity s g name EntityType.concept timestamp description) rest

  -- Links to the entities a record names; each id once per entity. `link_mentions` skips a name
  -- that it has linked, which changes nothing, since the id is there then.
  unfoldable pub link_names : Uuid → SimpleEntityGraph D G F → List String → SimpleEntityGraph D G F
  link_names id g [] = g
  link_names id g (name ∷ rest) =
      link_names id
        (elim (resolve s g name) [ none ↦ g | some canonical ↦ mention_ids g canonical (id ∷ []) ])
        rest

  unfoldable pub link_mentions : SimpleEntityGraph D G F → ContextUpdate F → SimpleEntityGraph D G F
  link_mentions g update = link_names update.id g (mentioned_names update)

  unfoldable pub relink_all :
      SimpleEntityGraph D G F → List (ContextUpdate F) → SimpleEntityGraph D G F
  relink_all g [] = g
  relink_all g (update ∷ rest) = relink_all (link_mentions g update) rest

  unfoldable pub relink_mentions :
      SimpleEntityGraph D G F → List (ContextUpdate F) → SimpleEntityGraph D G F
  relink_mentions g updates = relink_all (record g { entity_mentions = D.new }) updates

  unfoldable pub apply_update :
      DateTime → SimpleEntityGraph D G F → ContextUpdate F → SimpleEntityGraph D G F
  apply_update now g update =
      let named = elim update.typed_entities as (λ l. SimpleEntityGraph D G F) [
        | [] ↦
            add_concepts update.timestamp (str_append "From update: " update.content.title) g
              update.creates_entities
        | t ∷ ts ↦
            add_typed update.timestamp (str_append "Provided by caller: " update.content.title) g
              (t ∷ ts)
      ] in
      link_mentions (add_relationships s now named update.creates_relationships) update

  -- The first other entity that one of the names resolves to.
  unfoldable pub first_other : SimpleEntityGraph D G F → String → List String → Option String
  first_other g name [] = none
  first_other g name (n ∷ rest) =
      let later = first_other g name rest in
      elim (resolve s g n) [
        | none ↦ later
        | some other ↦ if other == name then later else some other
      ]

  -- The entity as given, with a node and its names indexed.
  unfoldable pub store_entity : SimpleEntityGraph D G F → EntityData F → SimpleEntityGraph D G F
  store_entity g entity =
      let noded = ensure_node g entity.name in
      index_names s (record noded { entities = D.insert noded.entities entity.name entity })
        entity.name

  -- `self.entities[&other]` would panic on a name that is no entity; here nothing is merged then.
  unfoldable pub insert_entity :
      DateTime → SimpleEntityGraph D G F → EntityData F → SimpleEntityGraph D G F
  insert_entity now g entity =
      let indexed = store_entity g entity in
      elim (first_other g entity.name (all_names entity)) [
        | none ↦ indexed
        | some other ↦ elim (D.get indexed.entities other) [
          | none ↦ indexed
          | some theirs ↦
              if earlier entity.first_mentioned entity.name theirs.first_mentioned other
              then (merge_entities now indexed other entity.name).0
              else (merge_entities now indexed entity.name other).0
        ]
      ]

  unfoldable pub note_aliases :
      SimpleEntityGraph D G F → String → List String → SimpleEntityGraph D G F
  note_aliases g name [] = g
  note_aliases g name (alias ∷ rest) = note_aliases (note_alias s g name alias) name rest

  -- The loops of `merge_from`, over the other graph's entities, mentions and edges.
  unfoldable pub merge_named :
      SimpleEntityGraph D G F → List (String × EntityData F) → SimpleEntityGraph D G F
  merge_named g [] = g
  merge_named g ((name, data_of) ∷ rest) =
      merge_named
        (note_aliases
          (add_or_update_entity s g name data_of.entity_type data_of.last_mentioned
            (or_else data_of.description ""))
          name data_of.aliases)
        rest

  unfoldable pub merge_mentions :
      SimpleEntityGraph D G F → List (String × List Uuid) → SimpleEntityGraph D G F
  merge_mentions g [] = g
  merge_mentions g ((name, ids) ∷ rest) =
      merge_mentions (mention_ids g (or_else (resolve s g name) name) ids) rest

  unfoldable pub edges_of :
      SimpleEntityGraph D G F → List (ℕ × ℕ × EdgeData) → List EntityRelationship
  edges_of g [] = []
  edges_of g ((source, target, w) ∷ rest) = relation_ref g source target w ++ edges_of g rest

  unfoldable pub merge_from :
      DateTime → SimpleEntityGraph D G F → SimpleEntityGraph D G F → SimpleEntityGraph D G F
  merge_from now g other =
      add_relationships s now
        (merge_mentions (merge_named g (D.iter other.entities)) (D.iter other.entity_mentions))
        (edges_of other (G.edge_references other.graph))
