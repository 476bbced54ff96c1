-- ===== src/Graph/Petgraph.antt =====
-- The directed graph of the `petgraph` crate, which is not part of the repository: an interface of
-- the operations used with their documented behaviour. Nodes have the indices below `node_count`,
-- and removing one gives its index to the last; the order of edges is not specified.
pub mod Edges
use post_cortex.Base.{
  ℕ, ◌+◌, ◌-◌, ◌<◌, ◌≡◌, String, Bool, true, Option, none, some, List, [], ◌∷◌, map, ◌&&◌,
  if◌then◌else◌, eqb, ltb, is_some,
}

-- How many of the listed edges have data that satisfy a test.
unfoldable pub count : {E : Type 0} → (E → Bool) → List (ℕ × E) → ℕ
count f [] = 0
count f (x ∷ xs) = (if f x.1 then 1 else 0) + count f xs

-- Each listed edge has the data that belongs to its index.
unfoldable pub AreWeighted : {E : Type 0} → (ℕ → Option E) → List (ℕ × E) → Type 0
AreWeighted weight [] = Unit
AreWeighted weight (x ∷ xs) = (weight x.0 ≡ some x.1) × AreWeighted weight xs

-- The index that the node at `i` had before the node `k` of `n` was removed.
abbrev pub before_removal : ℕ → ℕ → ℕ → ℕ
before_removal n k i = if eqb i k then n - 1 else i

pub record DiGraphs (E : Type 0) : Type 1 where
  pub Graph : Type 0
  pub empty : Graph
  pub node_count : Graph → ℕ
  pub node_weight : Graph → ℕ → Option String
  -- The new node's index is the old count.
  pub add_node : Graph → String → Graph
  pub remove_node : Graph → ℕ → Graph
  pub add_edge : Graph → ℕ → ℕ → E → Graph
  -- The edges from a node to a node, each with its index.
  pub edges_connecting : Graph → ℕ → ℕ → List (ℕ × E)
  pub edge_weight : Graph → ℕ → Option E
  -- A write through `edge_weight_mut`.
  pub set_edge : Graph → ℕ → E → Graph
  -- The edges out of a node with their targets, and into it with their sources.
  pub outgoing : Graph → ℕ → List (ℕ × E)
  pub incoming : Graph → ℕ → List (ℕ × E)
  -- Every edge with its two ends.
  pub edge_references : Graph → List (ℕ × ℕ × E)
  pub count-empty : node_count empty ≡ 0
  pub count-add_node : (g : Graph) (w : String) → node_count (add_node g w) ≡ node_count g + 1
  pub count-remove_node :
      (g : Graph) (k : ℕ) → k < node_count g → node_count (remove_node g k) ≡ node_count g - 1
  pub count-add_edge : (g : Graph) (a b : ℕ) (w : E) → node_count (add_edge g a b w) ≡ node_count g
  pub count-set_edge : (g : Graph) (e : ℕ) (w : E) → node_count (set_edge g e w) ≡ node_count g
  pub weight_range : (g : Graph) (i : ℕ) → is_some (node_weight g i) ≡ ltb i (node_count g)
  pub weight-add_node :
      (g : Graph) (w : String) (i : ℕ)
      → node_weight (add_node g w) i ≡ (if eqb i (node_count g) then some w else node_weight g i)
  pub weight-remove_node :
      (g : Graph) (k i : ℕ)
      → k < node_count g
      → node_weight (remove_node g k) i ≡ (
          if ltb i (node_count g - 1)
          then node_weight g (before_removal (node_count g) k i)
          else none)
  pub weight-add_edge :
      (g : Graph) (a b : ℕ) (w : E) (i : ℕ) → node_weight (add_edge g a b w) i ≡ node_weight g i
  pub weight-set_edge :
      (g : Graph) (e : ℕ) (w : E) (i : ℕ) → node_weight (set_edge g e w) i ≡ node_weight g i
  pub connecting-empty : (a b : ℕ) → edges_connecting empty a b ≡ []
  pub connecting-add_node :
      (g : Graph) (w : String) (a b : ℕ)
      → edges_connecting (add_node g w) a b ≡ edges_connecting g a b
  pub connecting-add_edge :
      (f : E → Bool) (g : Graph) (a b : ℕ) (w : E) (c d : ℕ)
      → count f (edges_connecting (add_edge g a b w) c d)
        ≡ count f (edges_connecting g c d) + (if (eqb a c && eqb b d) && f w then 1 else 0)
  pub edge_weight-connecting :
      (g : Graph) (a b : ℕ) → AreWeighted (edge_weight g) (edges_connecting g a b)
  pub connecting-set_edge :
      (g : Graph) (e : ℕ) (w : E) (a b : ℕ)
      → edges_connecting (set_edge g e w) a b
        ≡ map (λ x. if eqb x.0 e then (x.0, w) else x) (edges_connecting g a b)
  pub connecting-remove_node :
      (f : E → Bool) (g : Graph) (k a b : ℕ)
      → k < node_count g
      → count f (edges_connecting (remove_node g k) a b) ≡ (
          if ltb a (node_count g - 1) && ltb b (node_count g - 1)
          then count f (
              edges_connecting g
                (before_removal (node_count g) k a)
                (before_removal (node_count g) k b))
          else 0)
