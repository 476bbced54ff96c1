-- ===== src/Graph/Linked.antt =====
-- The maps between names and nodes agree with the graph, and every spelling leads to an entity.
pub mod Nodes
pub mod Removal
pub mod Edges
pub mod Spellings
pub mod Operations
pub mod Merging
pub mod Imports
pub mod Histories
pub mod Repeats
pub mod Duplicates
use post_cortex.Base.{
  ℕ, ◌+◌, ◌-◌, ◌<◌, ◌≤◌, ◌≡◌, refl, Bool, true, false, Option, none, some, List, [], ◌∷◌, String,
  ◌⊎◌, inl, inr, if◌then◌else◌, is_some, eqb, ltb, arith, Bool-cases, Option-cases,
}
use post_cortex.Base.Keys.{nat_eq, string_eq, ◌==◌, ==-iff}
use post_cortex.ConcurrentMap.{DashMaps, get-new}
use post_cortex.Core.Update.{RelationType, EntityData, Uuid}
use post_cortex.Core.Relations.{same_relation}
use post_cortex.Graph.Petgraph.{DiGraphs, count}
use post_cortex.Graph.{EdgeData, SimpleEntityGraph, new, clear}

-- The node is the one at `i`.
abbrev pub points : Option ℕ → ℕ → Bool
points none i = false
points (some j) i = eqb j i

-- The weight is `name`.
abbrev pub bears : Option String → String → Bool
bears none name = false
bears (some w) name = w == name

abbrev pub of_relation : RelationType → EdgeData → Bool
of_relation r w = same_relation w.relation_type r

module _ {D : DashMaps} {G : DiGraphs EdgeData} {F : Type 0} where
  -- Whether a spelling leads to an entity, if it leads anywhere.
  abbrev pub leads : SimpleEntityGraph D G F → Option String → Bool
  leads g none = true
  leads g (some canonical) = is_some (D.get g.entities canonical)

  -- How many edges of a relation type lead from one node to another.
  abbrev pub edges_between : SimpleEntityGraph D G F → RelationType → ℕ → ℕ → ℕ
  edges_between g r a b = count (of_relation r) (G.edges_connecting g.graph a b)

  -- Each name has the node that bears it, each node its name, the entities are the names with a
  -- node, every spelling of the index leads to an entity, and no two edges from one node to another
  -- are of the same type.
  pub record IsLinked (g : SimpleEntityGraph D G F) : Type 0 where
    pub weighs : (i : ℕ) → D.get g.node_to_entity i ≡ G.node_weight g.graph i
    pub linked :
        (name : String) (i : ℕ)
        → points (D.get g.entity_to_node name) i ≡ bears (G.node_weight g.graph i) name
    pub owned :
        (name : String) → is_some (D.get g.entities name) ≡ is_some (D.get g.entity_to_node name)
    pub resolves : (k : String) → leads g (D.get g.alias_index k) ≡ true
    pub simple :
        (r : RelationType) (a b : ℕ) → count (of_relation r) (G.edges_connecting g.graph a b) ≤ 1

  -- A field that the invariant does not read.
  pub mentions-IsLinked :
      (g : SimpleEntityGraph D G F) (m : D.Map String (List Uuid))
      → IsLinked g
      → IsLinked (record g { entity_mentions = m })
  mentions-IsLinked g m h = record {
    weighs = h.weighs;
    linked = h.linked;
    owned = h.owned;
    resolves = h.resolves;
    simple = h.simple;
  }

  -- New data for an entity that is there.
  pub entity-IsLinked :
      (g : SimpleEntityGraph D G F) (name : String) (entity : EntityData F)
      → IsLinked g
      → is_some (D.get g.entities name) ≡ true
      → IsLinked (record g { entities = D.insert g.entities name entity })
  entity-IsLinked g name entity h there = record {
    weighs = h.weighs;
    linked = h.linked;
    owned =
        λ n. ground (arith, h.owned n, there, D.get-insert g.entities name entity n, ==-iff name n);
    resolves = λ k. elim (Option-cases (D.get g.alias_index k)) [
      | inl nowhere ↦ rw nowhere refl
      | inr (c, found) ↦
          ground (
            arith,
            h.resolves k,
            found,
            there,
            D.get-insert g.entities name entity c,
            ==-iff name c,
          )
    ];
    simple = h.simple;
  }

  -- A spelling that leads to an entity.
  pub alias-IsLinked :
      (g : SimpleEntityGraph D G F) (k c : String)
      → IsLinked g
      → is_some (D.get g.entities c) ≡ true
      → IsLinked (record g { alias_index = D.insert g.alias_index k c })
  alias-IsLinked g k c h there = record {
    weighs = h.weighs;
    linked = h.linked;
    owned = h.owned;
    resolves = λ j. ground (arith, h.resolves j, there, D.get-insert g.alias_index k c j);
    simple = h.simple;
  }

  pub new-IsLinked : IsLinked (new D G F)
  unfolding new
  new-IsLinked = record {
    weighs = λ i.
        ground (arith, get-new {K = ℕ} {V = String} D i, G.weight_range G.empty i, G.count-empty);
    linked = λ name i.
        ground
          (arith, get-new {K = String} {V = ℕ} D name, G.weight_range G.empty i, G.count-empty);
    owned = λ name. ground (
      arith,
      get-new {K = String} {V = ℕ} D name,
      get-new {K = String} {V = EntityData F} D name,
    );
    resolves = λ k. ground (arith, get-new {K = String} {V = String} D k);
    simple = λ r a b. unfold count in rw (G.connecting-empty a b) (omega arith);
  }

  pub clear-IsLinked : (g : SimpleEntityGraph D G F) → IsLinked (clear g)
  unfolding clear new
  clear-IsLinked g = new-IsLinked
