-- ===== src/Graph/Linked/Edges.antt =====
-- `put_edge` keeps one edge of each type from one node to another, and no node changes.
use post_cortex.Base.{
  ℕ, ◌≤◌, ◌≡◌, refl, Bool, true, ◌&&◌, Option, none, some, List, [], ◌∷◌, map, inl, inr,
  if◌then◌else◌, eqb, arith, Option-cases, Bool-cases, find?,
}
use post_cortex.Core.Update.{RelationType}
use post_cortex.Core.Relations.{same_relation→eq, same_relation_self}
use post_cortex.Graph.Petgraph.{DiGraphs, count, AreWeighted}
use post_cortex.Graph.{EdgeData}
use post_cortex.Graph.Updates.{put_edge}
use post_cortex.Graph.Linked.{of_relation}

module _ {E : Type 0} where
  -- What is found satisfies the test and is listed.
  found_satisfies :
      (f : ℕ × E → Bool) (l : List (ℕ × E)) (x : ℕ × E) → find? f l ≡ some x → f x ≡ true
  found_satisfies f [] x h = cc
  found_satisfies f (y ∷ l) x h = elim (Bool-cases (f y)) [
    | inl holds ↦ let same : y ≡ x = ground (arith, h, holds) in rw (← same) holds
    | inr fails ↦ found_satisfies f l x (rw fails at h)
  ]

  none_counted : (f : E → Bool) (l : List (ℕ × E)) → find? (λ x. f x.1) l ≡ none → count f l ≡ 0
  unfolding count
  none_counted f [] h = refl
  none_counted f (y ∷ l) h = elim (Bool-cases (f y.1)) [
    | inl holds ↦ ground (arith, h, holds)
    | inr fails ↦ ground (arith, fails, none_counted f l (rw fails at h))
  ]

  found_weighs :
      (weight : ℕ → Option E) (f : ℕ × E → Bool) (l : List (ℕ × E)) (x : ℕ × E)
      → find? f l ≡ some x
      → AreWeighted weight l
      → weight x.0 ≡ some x.1
  unfolding AreWeighted
  found_weighs weight f [] x h all = cc
  found_weighs weight f (y ∷ l) x h (first, rest) = elim (Bool-cases (f y)) [
    | inl holds ↦ let same : y ≡ x = ground (arith, h, holds) in rw (← same) first
    | inr fails ↦ found_weighs weight f l x (rw fails at h) rest
  ]

  count-replaced :
      (weight : ℕ → Option E) (f : E → Bool) (e : ℕ) (old w : E) (l : List (ℕ × E))
      → weight e ≡ some old
      → f w ≡ f old
      → AreWeighted weight l
      → count f (map (λ x. if eqb x.0 e then (x.0, w) else x) l) ≡ count f l
  unfolding AreWeighted count
  count-replaced weight f e old w [] at_e same all = refl
  count-replaced weight f e old w (y ∷ l) at_e same (first, rest) =
      let more = count-replaced weight f e old w l at_e same rest in
      elim (Bool-cases (eqb y.0 e)) [
        | inl here ↦
            let moved : y.0 ≡ e = ground (arith, here) in
            let data_same : y.1 ≡ old = ground (arith, rw moved at first, at_e) in
            ground (arith, here, more, data_same, same)
        | inr other ↦ ground (arith, other, more)
      ]

module _ (G : DiGraphs EdgeData) where
  pub put_edge-weight :
      (graph : G.Graph) (a b : ℕ) (w : EdgeData) (i : ℕ)
      → G.node_weight (put_edge G graph a b w) i ≡ G.node_weight graph i
  unfolding put_edge
  put_edge-weight graph a b w i =
      elim (Option-cases
        (find? (λ x. of_relation w.relation_type x.1) (G.edges_connecting graph a b))) [
          | inl absent ↦ rw (absent, put_edge) (G.weight-add_edge graph a b w i)
          | inr ((id, old), found) ↦
              rw (found, put_edge)
                (G.weight-set_edge graph id (record old { context = w.context }) i)
        ]

  pub put_edge_simple :
      (graph : G.Graph) (a b : ℕ) (w : EdgeData) (r : RelationType) (c d : ℕ)
      → ((q : RelationType) (x y : ℕ) → count (of_relation q) (G.edges_connecting graph x y) ≤ 1)
      → count (of_relation r) (G.edges_connecting (put_edge G graph a b w) c d) ≤ 1
  unfolding put_edge
  put_edge_simple graph a b w r c d h =
      elim (Option-cases
        (find? (λ x. of_relation w.relation_type x.1) (G.edges_connecting graph a b))) [
          | inl absent ↦
              let free : count (of_relation w.relation_type) (G.edges_connecting graph a b) ≡ 0 =
                none_counted (of_relation w.relation_type) (G.edges_connecting graph a b) absent in
              let added = G.connecting-add_edge (of_relation r) graph a b w c d in
              rw (absent, put_edge)
                (elim (Bool-cases ((eqb a c && eqb b d) && of_relation r w)) [
                  | inr other ↦ ground (arith, added, other, h r c d)
                  | inl hit ↦
                      let at_a : a ≡ c = ground (arith, hit) in
                      let at_b : b ≡ d = ground (arith, hit) in
                      let kind : w.relation_type ≡ r =
                        same_relation→eq w.relation_type r (ground (arith, hit)) in
                      let zero_there : count (of_relation r) (G.edges_connecting graph c d) ≡ 0 =
                        rw at_a at (rw at_b at (rw kind at free)) in
                      ground (arith, added, hit, zero_there)
                ])
          | inr ((id, old), found) ↦
              let new_data : EdgeData = record old { context = w.context } in
              let weights = G.edge_weight-connecting graph a b in
              let at_id =
                found_weighs (G.edge_weight graph) (λ x. of_relation w.relation_type x.1)
                  (G.edges_connecting graph a b) (id, old) found weights in
              let kept =
                count-replaced (G.edge_weight graph) (of_relation r) id old new_data
                  (G.edges_connecting graph c d) at_id refl (G.edge_weight-connecting graph c d) in
              rw (found, put_edge, G.connecting-set_edge graph id new_data c d, kept) (h r c d)
        ]

-- What an edge of a relation does to the next one.
module _ (G : DiGraphs EdgeData) where
  found_counted :
      (f : EdgeData → Bool) (l : List (ℕ × EdgeData)) (x : ℕ × EdgeData)
      → find? (λ y. f y.1) l ≡ some x
      → 1 ≤ count f l
  unfolding count
  found_counted f [] x h = cc
  found_counted f (y ∷ l) x h = elim (Bool-cases (f y.1)) [
    | inl holds ↦ ground (arith, holds)
    | inr fails ↦ let more = found_counted f l x (rw fails at h) in ground (arith, fails, more)
  ]

  -- The edge that is there is counted as before, whatever its context becomes.
  pub put_edge_replaces :
      (graph : G.Graph) (a b : ℕ) (w : EdgeData) (q : RelationType) (c d : ℕ)
      → 1 ≤ count (of_relation w.relation_type) (G.edges_connecting graph a b)
      → count (of_relation q) (G.edges_connecting (put_edge G graph a b w) c d)
        ≡ count (of_relation q) (G.edges_connecting graph c d)
  unfolding put_edge
  put_edge_replaces graph a b w q c d h =
      elim (Option-cases
        (find? (λ x. of_relation w.relation_type x.1) (G.edges_connecting graph a b))) [
          | inl absent ↦
              let free =
                none_counted (of_relation w.relation_type) (G.edges_connecting graph a b) absent in
              ground (arith, h, free)
          | inr ((id, old), found) ↦
              let new_data : EdgeData = record old { context = w.context } in
              let at_id =
                found_weighs (G.edge_weight graph) (λ x. of_relation w.relation_type x.1)
                  (G.edges_connecting graph a b) (id, old) found
                  (G.edge_weight-connecting graph a b) in
              let kept =
                count-replaced (G.edge_weight graph) (of_relation q) id old new_data
                  (G.edges_connecting graph c d) at_id refl (G.edge_weight-connecting graph c d) in
              rw (found, put_edge, G.connecting-set_edge graph id new_data c d) kept
        ]

  pub put_edge_counted :
      (graph : G.Graph) (a b : ℕ) (w : EdgeData)
      → 1 ≤ count (of_relation w.relation_type) (G.edges_connecting (put_edge G graph a b w) a b)
  unfolding put_edge
  put_edge_counted graph a b w =
      elim (Option-cases
        (find? (λ x. of_relation w.relation_type x.1) (G.edges_connecting graph a b))) [
          | inl absent ↦
              rw (absent, put_edge)
                (ground (
                  arith,
                  G.connecting-add_edge (of_relation w.relation_type) graph a b w a b,
                  same_relation_self w.relation_type,
                ))
          | inr (x, found) ↦
              let there =
                found_counted (of_relation w.relation_type) (G.edges_connecting graph a b) x
                  found in
              rw (put_edge_replaces graph a b w w.relation_type a b there) there
        ]
