-- ===== src/Session/Active/Removal.antt =====
-- What `remove_update_by_id` leaves of an update.
use post_cortex.Base.{
  ◌≡◌, ◌-◌, refl, Bool, true, false, not, Option, none, some, List, [], ◌∷◌, filter, any, String,
  inl, inr, if◌then◌else◌, eqb, ltb, length, arith, Option-cases, Bool-cases, find?,
}
use post_cortex.Base.Keys.{nat_eq, string_eq, ◌==◌}
use post_cortex.ConcurrentMap.{DashMaps, lookup}
use post_cortex.Core.Update.{Uuid, UpdateType, CodeReference, ContextUpdate}
use post_cortex.Session.HotContext
use post_cortex.Session.HotContext.Removals.{copies, copies_dropped}
use post_cortex.Session.Structured.{
  FlowItem, StructuredContext, relates, drop_flows, remove_item, remove_derived_state,
}
use post_cortex.Session.Active.{ActiveSession, same_reference, has_update, has_compressed, concerns}
use post_cortex.Session.Active.Removing.{
  remove_code_reference, remove_related_code, find_update, drop_entry, drop_mentions,
  remove_update_by_id,
}
use post_cortex.Graph.{EdgeData, SimpleEntityGraph, contains_id, or_else}
use post_cortex.Graph.Petgraph.{DiGraphs}

module _ {A : Type 0} where
  pub found_holds : (p : A → Bool) (l : List A) (x : A) → find? p l ≡ some x → p x ≡ true
  found_holds p [] x h = cc
  found_holds p (y ∷ l) x h = elim (Bool-cases (p y)) [
    | inl holds ↦ let same : y ≡ x = ground (arith, h, holds) in rw (← same) holds
    | inr fails ↦ found_holds p l x (rw fails at h)
  ]

  pub any-filter : (p : A → Bool) (l : List A) → any p (filter (λ x. not (p x)) l) ≡ false
  any-filter p [] = refl
  any-filter p (x ∷ l) = elim (Bool-cases (p x)) [
    | inl goes ↦ rw goes (any-filter p l)
    | inr stays ↦ rw (stays, stays) (any-filter p l)
  ]

-- A flow item is kept with what is left of it, if anything is.
kept_flow :
    (id : Uuid) (flow : FlowItem) (more : List FlowItem) (left : List Uuid)
    → any (λ u. eqb u id) left ≡ false
    → any (relates id) more ≡ false
    → any (relates id) (elim left as (λ l. List FlowItem) [
      | [] ↦ more
      | u ∷ us ↦ (record flow { related_updates = u ∷ us }) ∷ more
    ])
      ≡ false
kept_flow id flow more [] gone rest = rest
kept_flow id flow more (u ∷ us) gone rest = rw gone rest

pub relates-drop_flows :
    (id : Uuid) (flows : List FlowItem) → any (relates id) (drop_flows id flows) ≡ false
unfolding drop_flows
relates-drop_flows id [] = refl
relates-drop_flows id (flow ∷ rest) =
    kept_flow id flow (drop_flows id rest) (filter (λ u. not (eqb u id)) flow.related_updates)
      (any-filter (λ u. eqb u id) flow.related_updates) (relates-drop_flows id rest)

module _ {F : Type 0} where
  -- A typed item that goes leaves the flow.
  pub remove_item-flow :
      (kind : UpdateType) (state : StructuredContext F) (update : ContextUpdate F)
      → (remove_item kind state update).conversation_flow ≡ state.conversation_flow
  unfolding remove_item
  remove_item-flow UpdateType.question_answered state update = refl
  remove_item-flow UpdateType.problem_solved state update = refl
  remove_item-flow UpdateType.code_changed state update = refl
  remove_item-flow UpdateType.decision_made state update = refl
  remove_item-flow UpdateType.concept_defined state update = refl
  remove_item-flow UpdateType.requirement_added state update = refl

  remove_derived_state-flow :
      (state : StructuredContext F) (update : ContextUpdate F)
      → any (relates update.id) (remove_derived_state state update).conversation_flow ≡ false
  unfolding remove_derived_state
  remove_derived_state-flow state update =
      let dropped = record state {
        conversation_flow = drop_flows update.id state.conversation_flow;
      } in
      elim (Bool-cases (any (relates update.id) state.conversation_flow)) [
        | inl there ↦
            rw (there, remove_derived_state, remove_item-flow update.update_type dropped update)
              (relates-drop_flows update.id state.conversation_flow)
        | inr absent ↦
            rw (absent, remove_derived_state, remove_item-flow update.update_type state update)
              absent
      ]

removed_flow :
    {F : Type 0} (state : StructuredContext F) (update : ContextUpdate F) (id : Uuid)
    → update.id ≡ id
    → any (relates id) (remove_derived_state state update).conversation_flow ≡ false
removed_flow state update id same = rw (← same) (remove_derived_state-flow state update)

lookup_lacks :
    (p : List Uuid → Bool) (k : String) (l : List (String × List Uuid)) (v : List Uuid)
    → any (λ x. p x.1) l ≡ false
    → lookup k l ≡ some v
    → p v ≡ false
unfolding lookup
lookup_lacks p k [] v h found = cc
lookup_lacks p k ((j, w) ∷ l) v h found = elim (Bool-cases (p w)) [
  | inl holds ↦ ground (arith, rw holds at h)
  | inr fails ↦
      let more = lookup_lacks p k l v (rw fails at h) in
      elim (Bool-cases (j == k)) [
        | inl here ↦ let same : w ≡ v = ground (arith, rw here at found) in rw (← same) fails
        | inr later ↦ more (rw later at found)
      ]
]

left_lacks :
    (id : Uuid) (ids : List Uuid)
    → contains_id
        (or_else
          (if ltb 0 (length (filter (λ i. not (eqb i id)) ids))
            then some (filter (λ i. not (eqb i id)) ids)
            else none)
          [])
        id
      ≡ false
left_lacks id ids = elim (Bool-cases (ltb 0 (length (filter (λ i. not (eqb i id)) ids)))) [
  | inl more ↦ rw more (any-filter (λ i. eqb i id) ids)
  | inr nothing ↦ rw nothing refl
]

module _ {D : DashMaps} {G : DiGraphs EdgeData} {F : Type 0} where
  pub find_update-id :
      (s : ActiveSession D G F) (id : Uuid) (u : ContextUpdate F)
      → find_update s id ≡ some u
      → u.id ≡ id
  unfolding find_update HotContext.find HotContext.get_all HotContext.values
  find_update-id s id u h = elim (Option-cases (find? (λ x. eqb x.id id) s.incremental_updates)) [
    | inr (x, found) ↦ ground (
      arith,
      rw (found, find_update) at h,
      found_holds (λ y. eqb y.id id) s.incremental_updates x found,
    )
    | inl absent ↦ elim (Option-cases (HotContext.find s.hot_context (λ x. eqb x.id id))) [
      | inr (x, found) ↦ ground (
        arith,
        rw (absent, find_update, found) at h,
        found_holds (λ y. eqb y.id id) (HotContext.get_all s.hot_context) x found,
      )
      | inl gone ↦ elim (Option-cases (find? (λ c. eqb c.update.id id) s.warm_context)) [
        | inr (c, found) ↦ ground (
          arith,
          rw (absent, find_update, gone, found) at h,
          found_holds (λ y. eqb y.update.id id) s.warm_context c found,
        )
        | inl nowhere ↦ cc (rw (absent, find_update, gone, nowhere) at h)
      ]
    ]
  ]

  remove_code_reference-kept :
      (s : ActiveSession D G F) (code_ref : CodeReference)
      → remove_code_reference s code_ref
        ≡ record s { code_references = (remove_code_reference s code_ref).code_references }
  unfolding remove_code_reference
  remove_code_reference-kept s code_ref =
      elim (Option-cases (D.get s.code_references code_ref.file_path)) [
        | inl absent ↦ rw (absent, remove_code_reference) refl
        | inr (refs, there) ↦ elim (Bool-cases (any (λ r. same_reference r code_ref) refs)) [
          | inl held ↦ rw (there, remove_code_reference, held) refl
          | inr other ↦ rw (there, remove_code_reference, other) refl
        ]
      ]

  -- Code references apart, nothing changes with them.
  pub remove_related_code-kept :
      (s : ActiveSession D G F) (code : Option CodeReference)
      → remove_related_code s code
        ≡ record s { code_references = (remove_related_code s code).code_references }
  unfolding remove_related_code
  remove_related_code-kept s none = refl
  remove_related_code-kept s (some code_ref) = remove_code_reference-kept s code_ref

  -- No name keeps the mention.
  drop_mentions-contains_id :
      (g : SimpleEntityGraph D G F) (id : Uuid) (name : String)
      → contains_id (or_else (D.get (drop_mentions g id).entity_mentions name) []) id ≡ false
  unfolding drop_mentions
  drop_mentions-contains_id g id name =
      let left = D.update_all g.entity_mentions (filter (λ i. not (eqb i id))) in
      elim (Bool-cases (any (λ x. contains_id x.1 id) (D.iter g.entity_mentions))) [
        | inl there ↦
            rw
              (
                there,
                drop_mentions,
                D.get-retain left (λ ids. ltb 0 (length ids)) name,
                D.get-update_all g.entity_mentions (filter (λ i. not (eqb i id))) name,
              )
              (elim (Option-cases (D.get g.entity_mentions name)) [
                | inl absent ↦ rw absent refl
                | inr (ids, found) ↦ rw found (left_lacks id ids)
              ])
        | inr lacking ↦
            rw (lacking, drop_mentions)
              (elim (Option-cases (D.get g.entity_mentions name)) [
                | inl absent ↦ rw absent refl
                | inr (ids, found) ↦ rw found (
                    lookup_lacks (λ l. contains_id l id) name (D.iter g.entity_mentions) ids lacking
                      (rw (← D.get-iter g.entity_mentions name) found))
              ])
      ]

  -- When `remove_update_by_id` reports that it removed an update, the hot tier holds one copy of the
  -- id less, if it held any, and none of the id is left in the list of updates, the warm tier, the
  -- history of changes, the flow of the conversation, or the mentions of an entity.
  pub remove_update_by_id_gone :
      (s : ActiveSession D G F) (id : Uuid) (name : String)
      → (remove_update_by_id s id).1 ≡ true
      → (copies id (remove_update_by_id s id).0.hot_context ≡ copies id s.hot_context - 1)
        × (has_update id (remove_update_by_id s id).0.incremental_updates ≡ false)
        × (has_compressed id (remove_update_by_id s id).0.warm_context ≡ false)
        × (any (concerns id) (remove_update_by_id s id).0.change_history ≡ false)
        × (any (relates id) (remove_update_by_id s id).0.current_state.conversation_flow ≡ false)
        × (contains_id
              (or_else (D.get (remove_update_by_id s id).0.entity_graph.entity_mentions name) [])
              id
            ≡ false)
  unfolding remove_update_by_id drop_entry
  remove_update_by_id_gone s id name h = elim (Option-cases (find_update s id)) [
    | inl absent ↦ cc (rw (absent, remove_update_by_id) at h)
    | inr (u, found) ↦
        let dropped = drop_entry s id in
        let cleaned = record dropped {
          current_state = remove_derived_state dropped.current_state u;
        } in
        let flow = removed_flow dropped.current_state u id (find_update-id s id u found) in
        rw (found, remove_update_by_id, remove_related_code-kept cleaned u.related_code)
          (
            copies_dropped s.hot_context id,
            any-filter (λ x. eqb x.id id) s.incremental_updates,
            any-filter (λ c. eqb c.update.id id) s.warm_context,
            any-filter (concerns id) s.change_history,
            flow,
            drop_mentions-contains_id s.entity_graph id name,
          )
  ]
