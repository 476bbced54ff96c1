-- ===== src/Session/Active/Removing.antt =====
-- `ActiveSession`, updates removed with what was derived from them.
use post_cortex.Base.{
  ℕ, ◌-◌, Bool, true, false, not, Option, none, some, [], ◌∷◌, filter, any, String, if◌then◌else◌,
  eqb, ltb, length, find?,
}
use post_cortex.Base.Keys.{nat_eq, string_eq}
use post_cortex.ConcurrentMap.{DashMaps}
use post_cortex.Core.Update.{Uuid, CodeReference, ContextUpdate}
use post_cortex.Session.HotContext
use post_cortex.Session.HotContext.{HotContext}
use post_cortex.Session.Structured.{remove_first, remove_derived_state}
use post_cortex.Graph
use post_cortex.Graph.{EdgeData, Scores, SimpleEntityGraph}
use post_cortex.Graph.Petgraph.{DiGraphs}
use post_cortex.Session.Active.{ActiveSession, same_reference, concerns, mentions_file}

module _ {D : DashMaps} {G : DiGraphs EdgeData} {F : Type 0} where
  unfoldable pub remove_code_reference : ActiveSession D G F → CodeReference → ActiveSession D G F
  remove_code_reference s code_ref = elim (D.get s.code_references code_ref.file_path) [
    | none ↦ s
    | some refs ↦
        if any (λ r. same_reference r code_ref) refs
        then record s {
          code_references = elim (remove_first (λ r. same_reference r code_ref) refs) [
            | [] ↦ D.remove s.code_references code_ref.file_path
            | r ∷ rs ↦ D.insert s.code_references code_ref.file_path (r ∷ rs)
          ];
        }
        else s
  ]

  unfoldable pub remove_related_code :
      ActiveSession D G F → Option CodeReference → ActiveSession D G F
  remove_related_code s none = s
  remove_related_code s (some code_ref) = remove_code_reference s code_ref

  -- The stored update: the list's, else the hot tier's, else the warm tier's.
  unfoldable pub find_update : ActiveSession D G F → Uuid → Option (ContextUpdate F)
  find_update s entry_id = elim (find? (λ u. eqb u.id entry_id) s.incremental_updates) [
    | some u ↦ some u
    | none ↦ elim (HotContext.find s.hot_context (λ u. eqb u.id entry_id)) [
      | some u ↦ some u
      | none ↦ elim (find? (λ c. eqb c.update.id entry_id) s.warm_context) [
        | none ↦ none
        | some c ↦ some c.update
      ]
    ]
  ]

  -- The tiers, the list and the history without the update; each is written to only if it has it.
  unfoldable pub drop_entry : ActiveSession D G F → Uuid → ActiveSession D G F
  drop_entry s entry_id = record s {
    hot_context =
        if HotContext.contains_id s.hot_context entry_id
        then (HotContext.remove_by_id s.hot_context entry_id).0
        else s.hot_context;
    warm_context = filter (λ c. not (eqb c.update.id entry_id)) s.warm_context;
    incremental_updates = filter (λ u. not (eqb u.id entry_id)) s.incremental_updates;
    change_history = filter (λ c. not (concerns entry_id c)) s.change_history;
  }

  -- The graph's mentions without the update, and without the names that have none left.
  unfoldable pub drop_mentions : SimpleEntityGraph D G F → Uuid → SimpleEntityGraph D G F
  drop_mentions g entry_id =
      if any (λ x. Graph.contains_id x.1 entry_id) (D.iter g.entity_mentions)
      then record g {
        entity_mentions =
            D.retain (D.update_all g.entity_mentions (filter (λ id. not (eqb id entry_id))))
              (λ ids. ltb 0 (length ids));
      }
      else g

  unfoldable pub remove_update_by_id : ActiveSession D G F → Uuid → ActiveSession D G F × Bool
  remove_update_by_id s entry_id = elim (find_update s entry_id) [
    | none ↦ (s, false)
    | some removed ↦
        let dropped = drop_entry s entry_id in
        let freed =
          remove_related_code
            (record dropped { current_state = remove_derived_state dropped.current_state removed })
            removed.related_code in
        (record freed { entity_graph = drop_mentions freed.entity_graph entry_id }, true)
  ]

  unfoldable pub remove_updates_for_file : ActiveSession D G F → String → ActiveSession D G F × ℕ
  remove_updates_for_file s file_path =
      let updates = filter (λ u. not (mentions_file file_path u)) s.incremental_updates in
      let removed = length s.incremental_updates - length updates in
      (
        record s {
          incremental_updates = updates;
          code_references =
              if ltb 0 removed then D.remove s.code_references file_path else s.code_references;
        },
        removed,
      )
