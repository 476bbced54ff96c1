-- ===== src/Session/Active/Derived.antt =====
-- What entering an update in the structured state adds, and taking it out again removes.
use post_cortex.Base.{
  ◌≡◌, refl, ap, ◌∙◌, Bool, true, false, not, ◌&&◌, some, List, [], ◌∷◌, ◌++◌, filter, any, inl,
  inr, eqb, arith, Bool-cases, find?,
}
use post_cortex.Base.Keys.{string_eq, ◌==◌, ==-iff}
use post_cortex.Core.Update.{Uuid, UpdateType, ContextUpdate}
use post_cortex.Session.Structured.{
  FlowItem, StructuredContext, flow_of, add_item, update_current_state, remove_first, relates,
  drop_flows, remove_item, remove_derived_state,
}

module _ {A : Type 0} (p : A → Bool) where
  pub find?-snoc :
      (l : List A) (x : A) → any p l ≡ false → p x ≡ true → find? p (l ++ x ∷ []) ≡ some x
  find?-snoc [] x lacks holds = rw holds refl
  find?-snoc (y ∷ l) x lacks holds = elim (Bool-cases (p y)) [
    | inl there ↦ ground (arith, there, lacks)
    | inr other ↦ rw other (find?-snoc l x (rw other at lacks) holds)
  ]

  pub filter_lacking : (l : List A) → any p l ≡ false → filter (λ x. not (p x)) l ≡ l
  filter_lacking [] lacks = refl
  filter_lacking (y ∷ l) lacks = elim (Bool-cases (p y)) [
    | inl there ↦ ground (arith, there, lacks)
    | inr other ↦ rw other (ap (λ r. y ∷ r) (filter_lacking l (rw other at lacks)))
  ]

  pub filter-snoc :
      (l : List A) (x : A)
      → any p l ≡ false
      → p x ≡ true
      → filter (λ y. not (p y)) (l ++ x ∷ []) ≡ l
  filter-snoc [] x lacks holds = rw holds refl
  filter-snoc (y ∷ l) x lacks holds = elim (Bool-cases (p y)) [
    | inl there ↦ ground (arith, there, lacks)
    | inr other ↦ rw other (ap (λ r. y ∷ r) (filter-snoc l x (rw other at lacks) holds))
  ]

  remove_first-snoc :
      (l : List A) (x : A) → any p l ≡ false → p x ≡ true → remove_first p (l ++ x ∷ []) ≡ l
  unfolding remove_first
  remove_first-snoc [] x lacks holds = rw holds refl
  remove_first-snoc (y ∷ l) x lacks holds = elim (Bool-cases (p y)) [
    | inl there ↦ ground (arith, there, lacks)
    | inr other ↦ rw other (ap (λ r. y ∷ r) (remove_first-snoc l x (rw other at lacks) holds))
  ]

  any-snoc : (l : List A) (x : A) → p x ≡ true → any p (l ++ x ∷ []) ≡ true
  any-snoc [] x holds = rw holds refl
  any-snoc (y ∷ l) x holds = elim (Bool-cases (p y)) [
    | inl there ↦ rw there refl
    | inr other ↦ rw other (any-snoc l x holds)
  ]

-- An item of the flow that relates to no update.
abbrev pub is_bare : FlowItem → Bool
is_bare flow = elim flow.related_updates [ [] ↦ true | u ∷ us ↦ false ]

-- The state has an item of the update's type with its title and timestamp.
unfoldable pub has_item : {F : Type 0} → UpdateType → StructuredContext F → ContextUpdate F → Bool
has_item UpdateType.question_answered state update =
    any (λ q. (q.question == update.content.title) && eqb q.timestamp update.timestamp)
      state.open_questions
has_item UpdateType.problem_solved state update = false
has_item UpdateType.code_changed state update = false
has_item UpdateType.decision_made state update =
    any (λ d. (d.description == update.content.title) && eqb d.timestamp update.timestamp)
      state.key_decisions
has_item UpdateType.concept_defined state update =
    any (λ c. (c.name == update.content.title) && eqb c.timestamp update.timestamp)
      state.key_concepts
has_item UpdateType.requirement_added state update =
    any (λ r. (r.title == update.content.title) && eqb r.timestamp update.timestamp)
      state.technical_specifications

-- Flow items keep what they relate to.
filter_flow :
    (flow : FlowItem) (more : List FlowItem) (left : List Uuid)
    → flow.related_updates ≡ left
    → is_bare flow ≡ false
    → (elim left as (λ l. List FlowItem) [
      | [] ↦ more
      | u ∷ us ↦ (record flow { related_updates = u ∷ us }) ∷ more
    ])
      ≡ flow ∷ more
filter_flow flow more [] same full = ground (arith, same, full)
filter_flow flow more (u ∷ us) same full = rw (← same) refl

drop_flows-snoc :
    {F : Type 0} (update : ContextUpdate F) (flows : List FlowItem)
    → any (relates update.id) flows ≡ false
    → any is_bare flows ≡ false
    → drop_flows update.id (flows ++ flow_of update ∷ []) ≡ flows
unfolding drop_flows flow_of
drop_flows-snoc update [] lacks full =
    let self : eqb update.id update.id ≡ true = ground arith in rw (self, drop_flows) refl
drop_flows-snoc update (flow ∷ rest) lacks full = elim (Bool-cases (relates update.id flow)) [
  | inl related ↦ ground (arith, related, lacks)
  | inr apart ↦ elim (Bool-cases (is_bare flow)) [
    | inl bare ↦ ground (arith, bare, full)
    | inr fed ↦
        rw (filter_lacking (λ u. eqb u update.id) flow.related_updates apart, drop_flows)
          (filter_flow flow (drop_flows update.id (rest ++ flow_of update ∷ []))
              flow.related_updates refl fed
            ∙ ap (λ l. flow ∷ l) (drop_flows-snoc update rest (rw apart at lacks) (rw fed at full)))
  ]
]

module _ {F : Type 0} where
  remove_item-add_item :
      (one : F) (kind : UpdateType) (state : StructuredContext F) (update : ContextUpdate F)
      (flows : List FlowItem)
      → has_item kind state update ≡ false
      → remove_item kind
          (record (add_item one kind state update) { conversation_flow = flows })
          update
        ≡ record state { conversation_flow = flows }
  unfolding remove_item add_item has_item
  remove_item-add_item one UpdateType.question_answered state update flows lacks =
      ap (λ l. record state { open_questions = l; conversation_flow = flows })
        (remove_first-snoc _ state.open_questions _ lacks
          (ground (arith, ==-iff update.content.title update.content.title)))
  remove_item-add_item one UpdateType.problem_solved state update flows lacks = refl
  remove_item-add_item one UpdateType.code_changed state update flows lacks = refl
  remove_item-add_item one UpdateType.decision_made state update flows lacks =
      ap (λ l. record state { key_decisions = l; conversation_flow = flows })
        (remove_first-snoc _ state.key_decisions _ lacks
          (ground (arith, ==-iff update.content.title update.content.title)))
  remove_item-add_item one UpdateType.concept_defined state update flows lacks =
      ap (λ l. record state { key_concepts = l; conversation_flow = flows })
        (remove_first-snoc _ state.key_concepts _ lacks
          (ground (arith, ==-iff update.content.title update.content.title)))
  remove_item-add_item one UpdateType.requirement_added state update flows lacks =
      ap (λ l. record state { technical_specifications = l; conversation_flow = flows })
        (remove_first-snoc _ state.technical_specifications _ lacks
          (ground (arith, ==-iff update.content.title update.content.title)))

  add_item-flow :
      (one : F) (kind : UpdateType) (state : StructuredContext F) (update : ContextUpdate F)
      → (add_item one kind state update).conversation_flow ≡ state.conversation_flow
  unfolding add_item
  add_item-flow one UpdateType.question_answered state update = refl
  add_item-flow one UpdateType.problem_solved state update = refl
  add_item-flow one UpdateType.code_changed state update = refl
  add_item-flow one UpdateType.decision_made state update = refl
  add_item-flow one UpdateType.concept_defined state update = refl
  add_item-flow one UpdateType.requirement_added state update = refl

  flow_relates : (update : ContextUpdate F) → relates update.id (flow_of update) ≡ true
  unfolding flow_of
  flow_relates update = ground arith

  pub remove_derived_state-update_current_state :
      (one : F) (state : StructuredContext F) (update : ContextUpdate F)
      → any (relates update.id) state.conversation_flow ≡ false
      → any is_bare state.conversation_flow ≡ false
      → has_item update.update_type state update ≡ false
      → remove_derived_state (update_current_state one state update) update ≡ state
  unfolding remove_derived_state update_current_state
  remove_derived_state-update_current_state one state update apart full lacks =
      let added = add_item one update.update_type state update in
      let flows = added.conversation_flow ++ flow_of update ∷ [] in
      let there : any (relates update.id) flows ≡ true =
        any-snoc (relates update.id) added.conversation_flow (flow_of update)
          (flow_relates update) in
      let dropped : drop_flows update.id flows ≡ state.conversation_flow =
        rw (add_item-flow one update.update_type state update)
          (drop_flows-snoc update state.conversation_flow apart full) in
      rw (there, remove_derived_state)
        (remove_item-add_item one update.update_type state update (drop_flows update.id flows) lacks
          ∙ ap (λ l. record state { conversation_flow = l }) dropped)
