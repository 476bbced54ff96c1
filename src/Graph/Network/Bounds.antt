-- ===== src/Graph/Network/Bounds.antt =====
-- The search ends, within the limits, with relations between the entities it found.
use post_cortex.Base.{
  ℕ, zero, suc, ◌+◌, ◌≤◌, ◌<◌, ◌≡◌, refl, Bool, true, false, not, ◌&&◌, ◌||◌, Option, none, some,
  List, [], ◌∷◌, ◌++◌, any, String, is_some, eqb, ltb, leb, length, arith, inl, inr, ◌⊎◌,
  length-append, ap, Bool-cases, Option-cases,
}
use post_cortex.Base.Keys.{string_eq, ◌==◌}
use post_cortex.ConcurrentMap.{DashMaps, get-new}
use post_cortex.Core.Update.{EntityRelationship, EntityData}
use post_cortex.Graph.Petgraph.{DiGraphs}
use post_cortex.Graph.{SimpleEntityGraph, EdgeData, relationships_of, contains}
use post_cortex.Graph.Network.{
  EntityNetwork, Search, same_triple, other_end, entity_total, visit, has_ends, keep_relation,
  visit_all, is_full, search, get_entity_network_bounded,
}

List-cases : {A : Type 0} (l : List A) → (l ≡ []) ⊎ ((x : A) × (rest : List A) × (l ≡ x ∷ rest))
List-cases [] = inl refl
List-cases (x ∷ rest) = inr (x, rest, refl)

len-insert_new :
    {V : Type 0} (D : DashMaps) (name : String) (v : V)
    → length (D.iter (D.insert D.new name v)) ≡ 1
len-insert_new {V} D name v =
    let count = D.len-insert D.new name v in
    let fresh = get-new {V = V} D name in
    let nothing = D.iter-new {K = String} {V = V} in ground (arith, count, fresh, ap length nothing)

module _ {D : DashMaps} {F : Type 0} where
  -- Both ends of every relation are entities of the network.
  abbrev pub all_have_ends : EntityNetwork D F → List EntityRelationship → Bool
  all_have_ends n [] = true
  all_have_ends n (rel ∷ rest) = has_ends n rel && all_have_ends n rest

  -- Both limits hold, and a relation has both ends among the entities.
  pub record IsBounded (max_entities max_relationships : ℕ) (n : EntityNetwork D F) : Type 0 where
    pub entities_few : length (D.iter n.entities) ≤ max_entities
    pub relationships_few : length n.relationships ≤ max_relationships
    pub closed : all_have_ends n n.relationships ≡ true

  -- A network was found, within the limits.
  abbrev pub IsFound : ℕ → ℕ → Option (EntityNetwork D F) → Type 0
  IsFound max_entities max_relationships none = ⊥
  IsFound max_entities max_relationships (some n) = IsBounded max_entities max_relationships n

  -- Besides, an entity of the network was visited, and what the queue can still grow by is what the
  -- limit leaves.
  record IsSearching (max_entities max_relationships turns : ℕ) (s : Search D F) : Type 0 where
    bounded : IsBounded max_entities max_relationships s.network
    visited :
        (k : String) → is_some (D.get s.network.entities k) ≡ true → contains s.visited k ≡ true
    measure : length s.queue + max_entities ≤ turns + entity_total s

  not_visited :
      (s : Search D F) (other : String)
      → ((k : String) → is_some (D.get s.network.entities k) ≡ true → contains s.visited k ≡ true)
      → contains s.visited other ≡ false
      → is_some (D.get s.network.entities other) ≡ false
  not_visited s other visited new_name =
      elim (Bool-cases (is_some (D.get s.network.entities other))) [
        | inl there ↦ ground (arith, visited other there, new_name)
        | inr missing ↦ missing
      ]

  all_have_ends-insert :
      (n : EntityNetwork D F) (name : String) (entity : EntityData F)
      (rels : List EntityRelationship)
      → all_have_ends n rels ≡ true
      → all_have_ends (record n { entities = D.insert n.entities name entity }) rels ≡ true
  all_have_ends-insert n name entity [] h = refl
  all_have_ends-insert n name entity (rel ∷ rest) h =
      let rest_closed = all_have_ends-insert n name entity rest (ground (arith, h)) in
      ground (
        arith,
        h,
        rest_closed,
        D.get-insert n.entities name entity rel.from_entity,
        D.get-insert n.entities name entity rel.to_entity,
      )

  all_have_ends-append :
      (n : EntityNetwork D F) (rels : List EntityRelationship) (rel : EntityRelationship)
      → all_have_ends n rels ≡ true
      → has_ends n rel ≡ true
      → all_have_ends (record n { relationships = n.relationships ++ rel ∷ [] }) (rels ++ rel ∷ [])
        ≡ true
  all_have_ends-append n [] rel h k = ground (arith, k)
  all_have_ends-append n (r ∷ rest) rel h k =
      ground (arith, h, all_have_ends-append n rest rel (ground (arith, h)) k)

  keep_relation-IsSearching :
      (max_entities max_relationships turns : ℕ) (s : Search D F) (rel : EntityRelationship)
      → IsSearching max_entities max_relationships turns s
      → IsSearching max_entities max_relationships turns (keep_relation max_relationships s rel)
  unfolding keep_relation
  keep_relation-IsSearching max_entities max_relationships turns s rel h =
      elim (Bool-cases (
        ltb (length s.network.relationships) max_relationships
        && has_ends s.network rel
        && not (any (λ r. same_triple r rel) s.seen_relationships))) [
          | inr skipped ↦ rw (skipped, keep_relation) h
          | inl kept ↦
              let b = h.bounded in
              rw (kept, keep_relation)
                (record {
                  bounded = record {
                    entities_few = b.entities_few;
                    relationships_few =
                        ground (arith, kept, length-append s.network.relationships (rel ∷ []));
                    closed =
                        all_have_ends-append s.network s.network.relationships rel b.closed
                          (ground (arith, kept));
                  };
                  visited = h.visited;
                  measure = h.measure;
                })
        ]

  -- The center alone.
  abbrev started : String → EntityData F → Search D F
  started center entity = record {
    network = record {
      center = center;
      entities = D.insert D.new center entity;
      relationships = [];
    };
    visited = center ∷ [];
    seen_relationships = [];
    queue = (center, 0) ∷ [];
  }

  started-IsSearching :
      (max_entities max_relationships : ℕ) (center : String) (entity : EntityData F)
      → 0 < max_entities
      → IsSearching max_entities max_relationships max_entities (started center entity)
  started-IsSearching max_entities max_relationships center entity room = record {
    bounded = record {
      entities_few = omega (arith, len-insert_new D center entity, room);
      relationships_few = omega arith;
      closed = refl;
    };
    visited = λ k there. elim (Bool-cases (center == k)) [
      | inl same ↦ rw same refl
      | inr apart ↦
          let absent = rw (D.get-insert D.new center entity k, apart, get-new D k) at there in cc
    ];
    measure = omega (arith, len-insert_new D center entity);
  }

module _ {D : DashMaps} {G : DiGraphs EdgeData} {F : Type 0} where
  visit-IsSearching :
      (g : SimpleEntityGraph D G F) (max_entities max_relationships turns depth : ℕ)
      (s : Search D F) (other : String)
      → IsSearching max_entities max_relationships turns s
      → IsSearching max_entities max_relationships turns (visit g max_entities depth s other)
  unfolding visit
  visit-IsSearching g max_entities max_relationships turns depth s other h =
      elim (Bool-cases (ltb (entity_total s) max_entities && not (contains s.visited other))) [
        | inr skipped ↦ rw (skipped, visit) h
        | inl new_name ↦ elim (Option-cases (D.get g.entities other)) [
          | inl absent ↦ rw (new_name, visit, absent) h
          | inr (entity, found) ↦
              let b = h.bounded in
              let fresh = not_visited s other h.visited (ground (arith, new_name)) in
              rw (new_name, visit, found)
                (record {
                  bounded = record {
                    entities_few =
                        ground (arith, new_name, D.len-insert s.network.entities other entity);
                    relationships_few = b.relationships_few;
                    closed =
                        all_have_ends-insert s.network other entity s.network.relationships
                          b.closed;
                  };
                  visited = λ k there. elim (Bool-cases (other == k)) [
                    | inl same ↦ rw same refl
                    | inr apart ↦ rw apart (
                        h.visited k
                          (rw (D.get-insert s.network.entities other entity k, apart) at there))
                  ];
                  measure = ground (
                    arith,
                    h.measure,
                    fresh,
                    D.len-insert s.network.entities other entity,
                    length-append s.queue ((other, depth + 1) ∷ []),
                  );
                })
        ]
      ]

  visit_all-IsSearching :
      (g : SimpleEntityGraph D G F) (max_entities max_relationships turns : ℕ) (name : String)
      (depth : ℕ) (s : Search D F) (rels : List EntityRelationship)
      → IsSearching max_entities max_relationships turns s
      → IsSearching max_entities max_relationships turns
          (visit_all g max_entities max_relationships name depth s rels)
  unfolding visit_all
  visit_all-IsSearching g max_entities max_relationships turns name depth s [] h = h
  visit_all-IsSearching g max_entities max_relationships turns name depth s (rel ∷ rest) h =
      let visited = visit g max_entities depth s (other_end name rel) in
      visit_all-IsSearching g max_entities max_relationships turns name depth
        (keep_relation max_relationships visited rel) rest
        (keep_relation-IsSearching max_entities max_relationships turns visited rel
          (visit-IsSearching g max_entities max_relationships turns depth s (other_end name rel) h))

  search-IsFound :
      (g : SimpleEntityGraph D G F) (max_depth max_entities max_relationships turns : ℕ)
      (s : Search D F)
      → IsSearching max_entities max_relationships turns s
      → IsFound max_entities max_relationships
          (search g max_depth max_entities max_relationships turns s)
  unfolding search
  search-IsFound g max_depth max_entities max_relationships zero s h = elim (List-cases s.queue) [
    | inl over ↦ rw (over, search) h.bounded
    | inr (next, rest, more) ↦
        let count : length s.queue ≡ suc (length rest) = rw more refl in
        absurd (omega (arith, h.measure, h.bounded.entities_few, count))
  ]
  search-IsFound g max_depth max_entities max_relationships (suc turns) s h =
      elim (List-cases s.queue) [
        | inl over ↦ rw (over, search) h.bounded
        | inr (next, rest, more) ↦
            let popped : Search D F = record s { queue = rest } in
            let count : length s.queue ≡ suc (length rest) = rw more refl in
            let turned : IsSearching max_entities max_relationships turns popped = record {
              bounded = h.bounded;
              visited = h.visited;
              measure = omega (arith, h.measure, count);
            } in
            elim (Bool-cases (is_full max_depth max_entities max_relationships s next.1)) [
              | inl full ↦ rw (more, search, full) h.bounded
              | inr room ↦ elim (Bool-cases (leb max_depth next.1)) [
                | inl deep ↦
                    rw (more, search, room, deep)
                      (search-IsFound g max_depth max_entities max_relationships turns popped
                        turned)
                | inr near ↦
                    rw (more, search, room, near)
                      (search-IsFound g max_depth max_entities max_relationships turns
                        (visit_all g max_entities max_relationships next.0 next.1 popped
                          (relationships_of g next.0))
                        (visit_all-IsSearching g max_entities max_relationships turns next.0 next.1
                          popped (relationships_of g next.0) turned))
              ]
            ]
      ]

  -- The search for a network ends, whatever the graph, the center and the limits. It finds at most
  -- `max_entities` entities and `max_relationships` relations, and both ends of every relation are
  -- among the entities.
  pub get_entity_network_bounded-IsFound :
      (g : SimpleEntityGraph D G F) (center : String) (max_depth max_entities max_relationships : ℕ)
      → IsFound max_entities max_relationships
          (get_entity_network_bounded g center max_depth max_entities max_relationships)
  unfolding get_entity_network_bounded
  get_entity_network_bounded-IsFound g center max_depth max_entities max_relationships =
      let empty : EntityNetwork D F = record {
        center = center;
        entities = D.new;
        relationships = [];
      } in
      let none_found : IsBounded max_entities max_relationships empty = record {
        entities_few = rw (D.iter-new {K = String} {V = EntityData F}) (omega arith);
        relationships_few = omega arith;
        closed = refl;
      } in
      elim (Option-cases (D.get g.entities center)) [
        | inl unknown ↦ rw (unknown, get_entity_network_bounded) none_found
        | inr (center_data, found) ↦
            elim (Bool-cases
              (eqb max_entities 0 || not (is_some (D.get g.entity_to_node center)))) [
                | inl nothing ↦ rw (found, get_entity_network_bounded, nothing) none_found
                | inr some_room ↦
                    rw (found, get_entity_network_bounded, some_room)
                      (search-IsFound g max_depth max_entities max_relationships max_entities
                        (started center center_data)
                        (started-IsSearching max_entities max_relationships center center_data
                          (ground (arith, some_room))))
              ]
      ]
