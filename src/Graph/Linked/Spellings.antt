-- ===== src/Graph/Linked/Spellings.antt =====
-- The index of spellings: what a spelling resolves to is an entity, and the operations that write
-- the index keep the graph linked.
use post_cortex.Base.{
  ◌≡◌, refl, true, some, List, [], ◌∷◌, String, inl, inr, is_some, arith, Option-cases, Bool-cases,
}
use post_cortex.Base.Keys.{nat_eq, string_eq}
use post_cortex.ConcurrentMap.{DashMaps}
use post_cortex.Graph.Names.{entity_key}
use post_cortex.Graph.Petgraph.{DiGraphs}
use post_cortex.Graph.{EdgeData, Scores, SimpleEntityGraph, all_names, or_else, with_alias}
use post_cortex.Graph.Updates.{resolve, index_name, index_all, index_names, note_alias, claim_names}
use post_cortex.Graph.Linked.{IsLinked, entity-IsLinked, alias-IsLinked}

module _ {D : DashMaps} {G : DiGraphs EdgeData} {F : Type 0} (s : Scores F) where
  -- A name that resolves, resolves to an entity.
  pub resolve_known :
      (g : SimpleEntityGraph D G F) (name c : String)
      → IsLinked g
      → resolve s g name ≡ some c
      → is_some (D.get g.entities c) ≡ true
  unfolding resolve
  resolve_known g name c h found = elim (Bool-cases (is_some (D.get g.entities name))) [
    | inl there ↦ ground (arith, found, there)
    | inr other ↦
        let indexed : D.get g.alias_index (entity_key s.unicode name) ≡ some c =
          rw other at found in
        rw indexed at (h.resolves (entity_key s.unicode name))
  ]

  pub resolve_self :
      (g : SimpleEntityGraph D G F) (c : String)
      → is_some (D.get g.entities c) ≡ true
      → resolve s g c ≡ some c
  unfolding resolve
  resolve_self g c there = rw there refl

  -- The name that an operation works on resolves to itself, or is a new one.
  pub or_else-resolve :
      (g : SimpleEntityGraph D G F) (written : String)
      → IsLinked g
      → or_else
          (resolve s g (or_else (resolve s g written) written))
          (or_else (resolve s g written) written)
        ≡ or_else (resolve s g written) written
  or_else-resolve g written h = elim (Option-cases (resolve s g written)) [
    | inl absent ↦ rw (absent, absent) refl
    | inr (c, found) ↦ rw (found, resolve_self g c (resolve_known g written c h found)) refl
  ]

  pub index_name-entities :
      (g : SimpleEntityGraph D G F) (c name : String)
      → (index_name s g c name).entities ≡ g.entities
  unfolding index_name
  index_name-entities g c name =
      elim (Bool-cases (is_some (D.get g.alias_index (entity_key s.unicode name)))) [
        | inl there ↦ rw there refl
        | inr fresh ↦ rw fresh refl
      ]

  pub index_name-IsLinked :
      (g : SimpleEntityGraph D G F) (c name : String)
      → IsLinked g
      → is_some (D.get g.entities c) ≡ true
      → IsLinked (index_name s g c name)
  unfolding index_name
  index_name-IsLinked g c name h known =
      elim (Bool-cases (is_some (D.get g.alias_index (entity_key s.unicode name)))) [
        | inl there ↦ rw there h
        | inr fresh ↦ rw fresh (alias-IsLinked g (entity_key s.unicode name) c h known)
      ]

  pub index_all-IsLinked :
      (g : SimpleEntityGraph D G F) (c : String) (names : List String)
      → IsLinked g
      → is_some (D.get g.entities c) ≡ true
      → IsLinked (index_all s g c names)
  unfolding index_all
  index_all-IsLinked g c [] h known = h
  index_all-IsLinked g c (name ∷ rest) h known =
      index_all-IsLinked (index_name s g c name) c rest (index_name-IsLinked g c name h known)
        (rw (index_name-entities g c name) known)

  pub index_all-entities :
      (g : SimpleEntityGraph D G F) (c : String) (names : List String)
      → (index_all s g c names).entities ≡ g.entities
  unfolding index_all
  index_all-entities g c [] = refl
  index_all-entities g c (name ∷ rest) =
      cc (index_all-entities (index_name s g c name) c rest, index_name-entities g c name)

  pub index_names-IsLinked :
      (g : SimpleEntityGraph D G F) (c : String) → IsLinked g → IsLinked (index_names s g c)
  unfolding index_names
  index_names-IsLinked g c h = elim (Option-cases (D.get g.entities c)) [
    | inl absent ↦ rw (absent, index_names) h
    | inr (entity, there) ↦
        rw (there, index_names) (index_all-IsLinked g c (all_names entity) h (rw there refl))
  ]

  pub index_names-entities :
      (g : SimpleEntityGraph D G F) (c : String) → (index_names s g c).entities ≡ g.entities
  unfolding index_names
  index_names-entities g c = elim (Option-cases (D.get g.entities c)) [
    | inl absent ↦ rw (absent, index_names) refl
    | inr (entity, there) ↦ rw (there, index_names) (index_all-entities g c (all_names entity))
  ]

  pub note_alias-IsLinked :
      (g : SimpleEntityGraph D G F) (name alias : String)
      → IsLinked g
      → IsLinked (note_alias s g name alias)
  unfolding note_alias
  note_alias-IsLinked g name alias h = elim (Option-cases (resolve s g name)) [
    | inl absent ↦ rw (absent, note_alias) h
    | inr (c, found) ↦
        let known = resolve_known g name c h found in
        elim (Option-cases (D.get g.entities c)) [
          | inl lost ↦ rw (found, note_alias, lost) (index_name-IsLinked g c alias h known)
          | inr (entity, there) ↦
              rw (found, note_alias, there)
                (index_name-IsLinked
                  (record g { entities = D.insert g.entities c (with_alias entity alias) }) c alias
                  (entity-IsLinked g c (with_alias entity alias) h known)
                  (ground (arith, D.get-insert g.entities c (with_alias entity alias) c)))
        ]
  ]

  pub claim_names-IsLinked :
      (g : SimpleEntityGraph D G F) (c : String) (names : List String)
      → IsLinked g
      → is_some (D.get g.entities c) ≡ true
      → IsLinked (claim_names s g c names)
  unfolding claim_names
  claim_names-IsLinked g c [] h known = h
  claim_names-IsLinked g c (name ∷ rest) h known =
      claim_names-IsLinked
        (record g { alias_index = D.insert g.alias_index (entity_key s.unicode name) c }) c rest
        (alias-IsLinked g (entity_key s.unicode name) c h known) known
