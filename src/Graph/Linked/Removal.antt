-- ===== src/Graph/Linked/Removal.antt =====
-- `remove_entity` keeps the graph linked: the node that moves is found under its new index.
use post_cortex.Base.{ℕ, ◌≤◌, ◌≡◌, not, some, String, inl, inr, is_some, arith, Option-cases}
use post_cortex.Base.Keys.{nat_eq, string_eq, ◌==◌, ==-iff}
use post_cortex.ConcurrentMap.{DashMaps}
use post_cortex.Core.Update.{RelationType}
use post_cortex.Graph.Petgraph.{DiGraphs, count, before_removal}
use post_cortex.Graph.{EdgeData, SimpleEntityGraph, drop_node, remove_entity}
use post_cortex.Graph.Linked.{of_relation, IsLinked}
use post_cortex.Graph.Linked.Nodes.{node_of, swapped_last, drop_node-weighs, drop_node-linked}

module _ {D : DashMaps} {G : DiGraphs EdgeData} {F : Type 0} where
  drop_node-owned :
      (g : SimpleEntityGraph D G F) (name : String) (k : ℕ) (m : String)
      → IsLinked g
      → D.get g.entity_to_node name ≡ some k
      → is_some (D.get (D.remove g.entities name) m)
        ≡ is_some (D.get (drop_node g name k).entity_to_node m)
  unfolding drop_node
  drop_node-owned g name k m h found =
      let names = D.remove g.entity_to_node name in
      elim (Option-cases (G.node_weight (G.remove_node g.graph k) k)) [
        | inl last ↦
            rw (last, drop_node)
              (ground (
                arith,
                h.owned m,
                D.get-remove g.entities name m,
                D.get-remove g.entity_to_node name m,
              ))
        | inr (w, swapped) ↦
            let (back, inner, other) = swapped_last g name k w h found swapped in
            rw (swapped, drop_node)
              (ground (
                arith,
                h.owned m,
                h.owned w,
                back,
                other,
                D.get-remove g.entities name m,
                D.get-insert names w k m,
                D.get-remove g.entity_to_node name m,
                ==-iff w m,
              ))
      ]

  drop_node-simple :
      (g : SimpleEntityGraph D G F) (name : String) (k : ℕ) (r : RelationType) (a b : ℕ)
      → IsLinked g
      → D.get g.entity_to_node name ≡ some k
      → count (of_relation r) (G.edges_connecting (drop_node g name k).graph a b) ≤ 1
  unfolding drop_node
  drop_node-simple g name k r a b h found =
      let (weight, below) = node_of g name k h found in
      let n = G.node_count g.graph in
      let fewer : count (of_relation r) (G.edges_connecting (G.remove_node g.graph k) a b) ≤ 1 =
        ground (
          arith,
          G.connecting-remove_node (of_relation r) g.graph k a b below,
          h.simple r (before_removal n k a) (before_removal n k b),
        ) in
      elim (Option-cases (G.node_weight (G.remove_node g.graph k) k)) [
        | inl last ↦ rw (last, drop_node) fewer
        | inr (w, swapped) ↦ rw (swapped, drop_node) fewer
      ]

  pub remove_entity-IsLinked :
      (g : SimpleEntityGraph D G F) (name : String) → IsLinked g → IsLinked (remove_entity g name).0
  unfolding remove_entity
  remove_entity-IsLinked g name h = elim (Option-cases (D.get g.entity_to_node name)) [
    | inl absent ↦ rw (absent, remove_entity) h
    | inr (k, found) ↦
        rw (found, remove_entity)
          (record {
            weighs = λ i. drop_node-weighs g name k i h found;
            linked = λ m i. drop_node-linked g name k m i h found;
            owned = λ m. drop_node-owned g name k m h found;
            resolves = λ j.
                let kept = D.get-retain g.alias_index (λ canonical. not (canonical == name)) j in
                elim (Option-cases (D.get g.alias_index j)) [
                  | inl nowhere ↦ ground (arith, kept, nowhere)
                  | inr (c, there) ↦ ground (
                    arith,
                    kept,
                    there,
                    h.resolves j,
                    D.get-remove g.entities name c,
                    ==-iff name c,
                    ==-iff c name,
                  )
                ];
            simple = λ r a b. drop_node-simple g name k r a b h found;
          })
  ]
