-- ===== src/Session/Active/Upkeep.antt =====
-- Retiring an update, and the bound on the cold tier.
use post_cortex.Base.{
  ◌-◌, ◌≤◌, ◌≡◌, refl, ap, true, Option, none, some, List, [], ◌∷◌, ◌++◌, map, inl, inr, is_some,
  eqb, ltb, length, drop, length-drop, arith, Option-cases, Bool-cases, find?, if◌then◌else◌,
}
use post_cortex.ConcurrentMap.{DashMaps}
use post_cortex.Core.Update.{Uuid, DateTime, CodeReference, ContextUpdate}
use post_cortex.Session.Structured
use post_cortex.Session.Structured.{update_current_state}
use post_cortex.Session.Active.{
  StructuredSummary, ActiveSession, max_cold_summaries, Draws, range_of, replace_first,
}
use post_cortex.Session.Active.Adding.{
  add_code_reference, record_change, should_create_summary, create_periodic_summary,
  maintain_context, publish, add_related_code, add_incremental_update_fast,
}
use post_cortex.Session.Active.Revising.{retire_hot, retire_update}
use post_cortex.Session.Active.Truncation.{limited}
use post_cortex.Session.Active.Removal.{found_holds}
use post_cortex.Graph.{EdgeData}
use post_cortex.Graph.Petgraph.{DiGraphs}

module _ {F : Type 0} where
  found-replace_first :
      (id : Uuid) (changed u : ContextUpdate F) (us : List (ContextUpdate F))
      → changed.id ≡ id
      → find? (λ x. eqb x.id id) us ≡ some u
      → find? (λ x. eqb x.id id) (replace_first id changed us) ≡ some changed
  unfolding replace_first
  found-replace_first id changed u [] same h = cc
  found-replace_first id changed u (x ∷ us) same h = elim (Bool-cases (eqb x.id id)) [
    | inl here ↦
        let now_here : eqb changed.id id ≡ true = ground (arith, same) in rw (here, now_here) refl
    | inr later ↦ rw (later, later) (found-replace_first id changed u us same (rw later at h))
  ]

  ids-replace_first :
      (id : Uuid) (changed : ContextUpdate F) (us : List (ContextUpdate F))
      → changed.id ≡ id
      → map (λ u. u.id) (replace_first id changed us) ≡ map (λ u. u.id) us
  unfolding replace_first
  ids-replace_first id changed [] same = refl
  ids-replace_first id changed (x ∷ us) same = elim (Bool-cases (eqb x.id id)) [
    | inl here ↦
        let alike : changed.id ≡ x.id = ground (arith, here, same) in
        rw here (ap (λ i. i ∷ map (λ u. u.id) us) alike)
    | inr later ↦ rw later (ap (λ l. x.id ∷ l) (ids-replace_first id changed us same))
  ]

module _ {D : DashMaps} {G : DiGraphs EdgeData} {F : Type 0} where
  retire_absent :
      (s : ActiveSession D G F) (id : Uuid) (at_time : DateTime)
      → find? (λ u. eqb u.id id) s.incremental_updates ≡ none
      → retire_update s id at_time ≡ (s, none)
  unfolding retire_update
  retire_absent s id at_time absent = rw (absent, retire_update) refl

  retire_retired :
      (s : ActiveSession D G F) (id : Uuid) (at_time : DateTime) (u : ContextUpdate F)
      → find? (λ x. eqb x.id id) s.incremental_updates ≡ some u
      → is_some u.meta.retired_at ≡ true
      → retire_update s id at_time ≡ (s, none)
  unfolding retire_update
  retire_retired s id at_time u found retired = rw (found, retire_update, retired) refl

  -- Retiring keeps the ids of the list in their order, and an update that was retired once is not
  -- retired again.
  retire_update_again :
      (s : ActiveSession D G F) (id : Uuid) (first second : DateTime)
      → (map (λ u. u.id) (retire_update s id first).0.incremental_updates
          ≡ map (λ u. u.id) s.incremental_updates)
        × (retire_update (retire_update s id first).0 id second
            ≡ ((retire_update s id first).0, none))
  unfolding retire_update
  retire_update_again s id first second =
      elim (Option-cases (find? (λ u. eqb u.id id) s.incremental_updates)) [
        | inl absent ↦
            rw (retire_absent s id first absent, retire_absent s id second absent) (refl, refl)
        | inr (u, found) ↦ elim (Bool-cases (is_some u.meta.retired_at)) [
          | inl retired ↦
              rw
                (
                  retire_retired s id first u found retired,
                  retire_retired s id second u found retired,
                )
                (refl, refl)
          | inr active ↦
              let changed : ContextUpdate F = record u {
                meta = record u.meta { retired_at = some first };
              } in
              let same : changed.id ≡ id =
                ground (arith, found_holds (λ x. eqb x.id id) s.incremental_updates u found) in
              let again = found-replace_first id changed u s.incremental_updates same found in
              let retired = record s {
                incremental_updates = replace_first id changed s.incremental_updates;
                hot_context =
                    retire_hot s.metadata.user_preferences.max_hot_context_size s.hot_context id
                      changed;
                warm_context =
                    map (λ c. if eqb c.update.id id then record c { update = changed } else c)
                      s.warm_context;
              } in
              let done : retire_update s id first ≡ (retired, some changed) =
                rw (found, retire_update, active) refl in
              rw (done, retire_retired retired id second changed again refl)
                (ids-replace_first id changed s.incremental_updates same, refl)
        ]
      ]

  create_periodic_summary-length :
      (one : F) (draws : Draws) (s : ActiveSession D G F)
      → length (create_periodic_summary one draws s).cold_context ≤ max_cold_summaries
  unfolding create_periodic_summary
  create_periodic_summary-length one draws s =
      let threshold = s.metadata.user_preferences.auto_summary_threshold in
      let window = drop (length s.incremental_updates - threshold) s.incremental_updates in
      let summary : StructuredSummary F = record {
        summary_id = draws.summary_id;
        created_at = draws.now;
        context_snapshot = Structured.new F;
        referenced_updates = range_of window;
        summary_quality = one;
      } in
      capped (s.cold_context ++ summary ∷ [])
    where
      capped :
          (cold : List (StructuredSummary F))
          → length (
              if ltb max_cold_summaries (length cold)
              then drop (length cold - max_cold_summaries) cold
              else cold)
            ≤ max_cold_summaries
      capped cold = elim (Bool-cases (ltb max_cold_summaries (length cold))) [
        | inl over ↦
            rw over (ground (arith, over, length-drop (length cold - max_cold_summaries) cold))
        | inr within ↦ rw within (ground (arith, within))
      ]

  add_related_code-cold :
      (s : ActiveSession D G F) (code : Option CodeReference)
      → (add_related_code s code).cold_context ≡ s.cold_context
  unfolding add_related_code add_code_reference
  add_related_code-cold s none = refl
  add_related_code-cold s (some code_ref) = refl

  -- An update is added to a session with at most 100 summaries: it keeps at most 100.
  pub add_incremental_update_fast-length :
      (one : F) (draws : Draws) (s : ActiveSession D G F) (update : ContextUpdate F)
      → length s.cold_context ≤ max_cold_summaries
      → length (add_incremental_update_fast one draws s update).cold_context ≤ max_cold_summaries
  unfolding add_incremental_update_fast publish maintain_context record_change
  add_incremental_update_fast-length one draws s update h =
      let short = limited update in
      let stated = record s { current_state = update_current_state one s.current_state short } in
      let coded = add_related_code stated short.related_code in
      let recorded = record_change draws coded short in
      elim (Bool-cases (should_create_summary recorded)) [
        | inl due ↦
            rw (due, add_incremental_update_fast)
              (create_periodic_summary-length one draws recorded)
        | inr idle ↦
            rw (idle, add_incremental_update_fast, add_related_code-cold stated short.related_code)
              h
      ]
