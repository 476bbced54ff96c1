-- ===== src/Graph/Linked/Nodes.antt =====
-- Nodes that come and go keep the graph linked.
use post_cortex.Base.{
  ℕ, ◌-◌, ◌<◌, ◌≡◌, refl, ap, true, false, Option, none, some, String, inl, inr, arith,
  Option-cases,
}
use post_cortex.Base.Keys.{nat_eq, string_eq, ◌==◌, ==-iff}
use post_cortex.ConcurrentMap.{DashMaps}
use post_cortex.Core.Update.{EntityData}
use post_cortex.Graph.Petgraph.{DiGraphs}
use post_cortex.Graph.{EdgeData, SimpleEntityGraph, add_node, drop_node}
use post_cortex.Graph.Linked.{points, bears, IsLinked}

module _ {D : DashMaps} {G : DiGraphs EdgeData} {F : Type 0} where
  -- A node for a new entity.
  pub add_node-IsLinked :
      (g : SimpleEntityGraph D G F) (name : String) (entity : EntityData F)
      → IsLinked g
      → D.get g.entities name ≡ none
      → IsLinked (add_node (record g { entities = D.insert g.entities name entity }) name)
  unfolding add_node
  add_node-IsLinked g name entity h fresh = record {
    weighs = λ i. ground (
      arith,
      h.weighs i,
      D.get-insert g.node_to_entity (G.node_count g.graph) name i,
      G.weight-add_node g.graph name i,
    );
    linked = λ n i. ground (
      arith,
      h.linked n i,
      h.owned name,
      fresh,
      h.linked name i,
      D.get-insert g.entity_to_node name (G.node_count g.graph) n,
      G.weight-add_node g.graph name i,
      G.weight_range g.graph i,
      ==-iff name n,
    );
    owned = λ n. ground (
      arith,
      h.owned n,
      D.get-insert g.entities name entity n,
      D.get-insert g.entity_to_node name (G.node_count g.graph) n,
    );
    resolves = λ k. elim (Option-cases (D.get g.alias_index k)) [
      | inl nowhere ↦ rw nowhere refl
      | inr (c, found) ↦ ground (arith, h.resolves k, found, D.get-insert g.entities name entity c)
    ];
    simple = λ r a b. rw (G.connecting-add_node g.graph name a b) (h.simple r a b);
  }

  -- The node of a known entity.
  pub node_of :
      (g : SimpleEntityGraph D G F) (name : String) (i : ℕ)
      → IsLinked g
      → D.get g.entity_to_node name ≡ some i
      → (G.node_weight g.graph i ≡ some name) × (i < G.node_count g.graph)
  node_of g name i h found =
      let weight : G.node_weight g.graph i ≡ some name =
        weight_of (G.node_weight g.graph i) name (ground (arith, h.linked name i, found)) in
      (weight, ground (arith, weight, G.weight_range g.graph i))
    where
      weight_of : (o : Option String) (n : String) → bears o n ≡ true → o ≡ some n
      weight_of none n h = cc
      weight_of (some w) n h = ap some ((==-iff w n).0 h)

  -- The node that a node's weight leads back to.
  pub node_named :
      (g : SimpleEntityGraph D G F) (name : String) (i : ℕ)
      → IsLinked g
      → G.node_weight g.graph i ≡ some name
      → D.get g.entity_to_node name ≡ some i
  node_named g name i h weight =
      index_of (D.get g.entity_to_node name) i
        (ground (arith, h.linked name i, weight, ==-iff name name))
    where
      index_of : (o : Option ℕ) (j : ℕ) → points o j ≡ true → o ≡ some j
      index_of none j h = cc
      index_of (some k) j h = ground arith

  -- The node that takes the index of a removed one was the last, and is another one.
  pub swapped_last :
      (g : SimpleEntityGraph D G F) (name : String) (k : ℕ) (w : String)
      → IsLinked g
      → D.get g.entity_to_node name ≡ some k
      → G.node_weight (G.remove_node g.graph k) k ≡ some w
      → (D.get g.entity_to_node w ≡ some (G.node_count g.graph - 1))
        × (k < G.node_count g.graph - 1)
        × ((name == w) ≡ false)
  swapped_last g name k w h found swapped =
      let (weight, below) = node_of g name k h found in
      let last : G.node_weight g.graph (G.node_count g.graph - 1) ≡ some w =
        ground (arith, swapped, below, G.weight-remove_node g.graph k k) in
      let inner : k < G.node_count g.graph - 1 =
        ground (arith, swapped, below, G.weight-remove_node g.graph k k) in
      let back = node_named g w (G.node_count g.graph - 1) h last in
      (back, inner, ground (arith, back, inner, found, ==-iff name w))

  pub drop_node-weighs :
      (g : SimpleEntityGraph D G F) (name : String) (k i : ℕ)
      → IsLinked g
      → D.get g.entity_to_node name ≡ some k
      → D.get (drop_node g name k).node_to_entity i ≡ G.node_weight (drop_node g name k).graph i
  unfolding drop_node
  drop_node-weighs g name k i h found =
      let (weight, below) = node_of g name k h found in
      let n = G.node_count g.graph in
      let names = D.remove g.entity_to_node name in
      let nodes = D.remove g.node_to_entity k in
      elim (Option-cases (G.node_weight (G.remove_node g.graph k) k)) [
        | inl last ↦
            rw (last, drop_node)
              (ground (
                arith,
                last,
                below,
                h.weighs i,
                D.get-remove g.node_to_entity k i,
                G.weight-remove_node g.graph k i,
                G.weight-remove_node g.graph k k,
                G.weight_range g.graph i,
                G.weight_range g.graph (n - 1),
              ))
        | inr (w, swapped) ↦
            let (back, inner, other) = swapped_last g name k w h found swapped in
            let old : D.get names w ≡ some (n - 1) =
              ground (arith, back, other, D.get-remove g.entity_to_node name w) in
            rw (swapped, drop_node, old)
              (ground (
                arith,
                swapped,
                below,
                inner,
                h.weighs i,
                D.get-insert (D.remove nodes (n - 1)) k w i,
                D.get-remove nodes (n - 1) i,
                D.get-remove g.node_to_entity k i,
                G.weight-remove_node g.graph k i,
                G.weight_range g.graph i,
              ))
      ]

  pub drop_node-linked :
      (g : SimpleEntityGraph D G F) (name : String) (k : ℕ) (m : String) (i : ℕ)
      → IsLinked g
      → D.get g.entity_to_node name ≡ some k
      → points (D.get (drop_node g name k).entity_to_node m) i
        ≡ bears (G.node_weight (drop_node g name k).graph i) m
  unfolding drop_node
  drop_node-linked g name k m i h found =
      let (weight, below) = node_of g name k h found in
      let n = G.node_count g.graph in
      let names = D.remove g.entity_to_node name in
      elim (Option-cases (G.node_weight (G.remove_node g.graph k) k)) [
        | inl last ↦
            rw (last, drop_node)
              (ground (
                arith,
                last,
                below,
                weight,
                h.linked m i,
                h.linked m k,
                D.get-remove g.entity_to_node name m,
                G.weight-remove_node g.graph k i,
                G.weight-remove_node g.graph k k,
                G.weight_range g.graph i,
                G.weight_range g.graph (n - 1),
                ==-iff name m,
              ))
        | inr (w, swapped) ↦
            let (back, inner, other) = swapped_last g name k w h found swapped in
            rw (swapped, drop_node)
              (ground (
                arith,
                swapped,
                below,
                inner,
                back,
                weight,
                found,
                h.linked m i,
                h.linked m k,
                h.linked m (n - 1),
                D.get-insert names w k m,
                D.get-remove g.entity_to_node name m,
                G.weight-remove_node g.graph k i,
                G.weight-remove_node g.graph k k,
                G.weight_range g.graph i,
                ==-iff name m,
                ==-iff w m,
              ))
      ]
