-- ===== src/Session/EntityGraph/Mentions.antt =====
-- What mentions and relations leave in the graph.
use post_cortex.Base.{
  ℕ, ◌+◌, ◌<◌, ◌≡◌, refl, String, none, some, if◌then◌else◌, ltb, eqb, arith, is_some, Option-cases,
  inl, inr,
}
use post_cortex.Base.Words.{u64_mod, wrapping_add}
use post_cortex.Base.Keys.{nat_eq, string_eq, ◌==◌, ==-iff}
use post_cortex.ConcurrentMap.{DashMaps, get-new}
use post_cortex.Core.Update.{EntityType, EntityRelationship}
use post_cortex.Session.EntityGraph.{
  EntityGraph, mentioned, first_node, new, add_or_update_entity, mention_entity, add_relationship,
  get_entity, relationship_count, clear,
}

module _ {D : DashMaps} where
  -- Adding an entity that is known mentions it: its type, description and first mention stay. One
  -- that is not known gets a node of its own. No other entity changes. A mention does the same to
  -- a known entity, and nothing to an unknown one.
  add_or_update-get_entity :
      (g : EntityGraph D) (name : String) (entity_type : EntityType) (now : ℕ)
      (description other : String)
      → (get_entity (add_or_update_entity g name entity_type now description) other ≡ (
          if name == other
          then (elim (get_entity g name) [
            | none ↦ some (first_node entity_type now description)
            | some node ↦ some (mentioned now node)
          ])
          else get_entity g other))
        × (get_entity (mention_entity g name now) other ≡ (
            if name == other
            then (elim (get_entity g name) [ none ↦ none | some node ↦ some (mentioned now node) ])
            else get_entity g other))
  unfolding get_entity add_or_update_entity mention_entity
  add_or_update-get_entity g name entity_type now description other =
      elim (Option-cases (D.get g.entities name)) [
        | inl missing ↦ (
          ground
              (arith, D.get-insert g.entities name (first_node entity_type now description) other),
          ground (arith, missing, ==-iff name other),
        )
        | inr (node, found) ↦ (
          ground (arith, D.get-insert g.entities name (mentioned now node) other),
          ground (arith, D.get-insert g.entities name (mentioned now node) other),
        )
      ]

  -- The relations have the ids below the next one, and there are as many.
  pub record IsNumbered (g : EntityGraph D) : Type 0 where
    pub given : (id : ℕ) → is_some (D.get g.relationships id) ≡ ltb id g.next_rel_id
    pub counted : relationship_count g ≡ g.next_rel_id

  -- A graph starts, and after `clear` is again, numbered from 0.
  pub new-IsNumbered : (g : EntityGraph D) → IsNumbered (clear g)
  unfolding new clear relationship_count
  new-IsNumbered g = record {
    given = λ id. rw (get-new {K = ℕ} {V = EntityRelationship} D id) (ground arith);
    counted = rw (D.iter-new {K = ℕ} {V = EntityRelationship}) refl;
  }

  -- Adding a relation, of fewer than 2 ^ 64, keeps every relation there is, and adds one under a
  -- new id.
  add_relationship-IsNumbered :
      (g : EntityGraph D) (r : EntityRelationship) (id : ℕ)
      → IsNumbered g
      → g.next_rel_id + 1 < u64_mod
      → IsNumbered (add_relationship g r)
        × (relationship_count (add_relationship g r) ≡ relationship_count g + 1)
        × (D.get (add_relationship g r).relationships id
            ≡ (if eqb id g.next_rel_id then some r else D.get g.relationships id))
  unfolding add_relationship relationship_count wrapping_add
  add_relationship-IsNumbered g r id h word = (
    record {
      given = λ j. ground (arith, h.given j, D.get-insert g.relationships g.next_rel_id r j, word);
      counted = ground (
        arith,
        h.counted,
        h.given g.next_rel_id,
        D.len-insert g.relationships g.next_rel_id r,
        word,
      );
    },
    ground (arith, h.counted, h.given g.next_rel_id, D.len-insert g.relationships g.next_rel_id r),
    ground (arith, D.get-insert g.relationships g.next_rel_id r id),
  )
