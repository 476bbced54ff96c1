-- ===== src/Session/Structured.antt =====
-- crates/post-cortex-core/src/core/structured_context.rs, and the two methods of `ActiveSession` in
-- crates/post-cortex-core/src/session/active_session.rs that enter an update in the structured
-- state and take it out. `F` is `f32`.
use Prim.Native.String.{◌++◌ as str_append}
use post_cortex.Base.{
  Bool, not, ◌&&◌, Option, some, List, [], ◌∷◌, ◌++◌, filter, any, String, if◌then◌else◌, eqb,
}
use post_cortex.Base.Keys.{string_eq, ◌==◌}
use post_cortex.Core.Update.{Uuid, DateTime, UpdateType, ContextUpdate}

pub record DecisionItem (F : Type 0) : Type 0 where
  pub description : String
  pub context : String
  pub alternatives : List String
  pub confidence : F
  pub timestamp : DateTime

pub data QuestionStatus : Type 0 where
  opened in_progress answered deferred : QuestionStatus

pub record QuestionItem : Type 0 where
  pub question : String
  pub context : String
  pub status : QuestionStatus
  pub timestamp : DateTime
  pub last_updated : DateTime

pub record ConceptItem : Type 0 where
  pub name : String
  pub definition : String
  pub examples : List String
  pub related_concepts : List String
  pub timestamp : DateTime

pub record SpecItem : Type 0 where
  pub title : String
  pub description : String
  pub requirements : List String
  pub constraints : List String
  pub timestamp : DateTime

pub record FlowItem : Type 0 where
  pub step_description : String
  pub timestamp : DateTime
  pub related_updates : List Uuid
  pub outcome : Option String

pub record StructuredContext (F : Type 0) : Type 0 where
  pub key_decisions : List (DecisionItem F)
  pub open_questions : List QuestionItem
  pub key_concepts : List ConceptItem
  pub technical_specifications : List SpecItem
  pub conversation_flow : List FlowItem

unfoldable pub new : (F : Type 0) → StructuredContext F
new F = record {
  key_decisions = [];
  open_questions = [];
  key_concepts = [];
  technical_specifications = [];
  conversation_flow = [];
}

-- What the flow calls an update of a type.
unfoldable pub step_prefix : UpdateType → String
step_prefix UpdateType.question_answered = "Q&A: "
step_prefix UpdateType.problem_solved = "Problem Solved: "
step_prefix UpdateType.code_changed = "Code Change: "
step_prefix UpdateType.decision_made = "Decision Made: "
step_prefix UpdateType.concept_defined = "Concept Defined: "
step_prefix UpdateType.requirement_added = "Requirement Added: "

unfoldable pub flow_of : {F : Type 0} → ContextUpdate F → FlowItem
flow_of update = record {
  step_description = str_append (step_prefix update.update_type) update.content.title;
  timestamp = update.timestamp;
  related_updates = update.id ∷ [];
  outcome = some update.content.description;
}

-- The item of an update's type, with confidence `one`.
unfoldable pub add_item :
    {F : Type 0} → F → UpdateType → StructuredContext F → ContextUpdate F → StructuredContext F
add_item one UpdateType.question_answered state update = record state {
  open_questions =
      state.open_questions
      ++ (record {
        question = update.content.title;
        context = update.content.description;
        status = QuestionStatus.answered;
        timestamp = update.timestamp;
        last_updated = update.timestamp;
      })
        ∷ [];
}
add_item one UpdateType.problem_solved state update = state
add_item one UpdateType.code_changed state update = state
add_item one UpdateType.decision_made state update = record state {
  key_decisions =
      state.key_decisions
      ++ (record {
        description = update.content.title;
        context = update.content.description;
        alternatives = update.content.details;
        confidence = one;
        timestamp = update.timestamp;
      })
        ∷ [];
}
add_item one UpdateType.concept_defined state update = record state {
  key_concepts =
      state.key_concepts
      ++ (record {
        name = update.content.title;
        definition = update.content.description;
        examples = update.content.examples;
        related_concepts = update.content.details;
        timestamp = update.timestamp;
      })
        ∷ [];
}
add_item one UpdateType.requirement_added state update = record state {
  technical_specifications =
      state.technical_specifications
      ++ (record {
        title = update.content.title;
        description = update.content.description;
        requirements = update.content.details;
        constraints = update.content.implications;
        timestamp = update.timestamp;
      })
        ∷ [];
}

unfoldable pub update_current_state :
    {F : Type 0} → F → StructuredContext F → ContextUpdate F → StructuredContext F
update_current_state one state update =
    let item_added = add_item one update.update_type state update in
    record item_added { conversation_flow = item_added.conversation_flow ++ flow_of update ∷ [] }

-- `position` and `remove`: the first element that satisfies the test goes.
unfoldable pub remove_first : {A : Type 0} → (A → Bool) → List A → List A
remove_first p [] = []
remove_first p (x ∷ xs) = let rest = remove_first p xs in if p x then xs else x ∷ rest

abbrev pub relates : Uuid → FlowItem → Bool
relates id flow = any (λ u. eqb u id) flow.related_updates

-- The flow without an update, and without the items that have none left.
unfoldable pub drop_flows : Uuid → List FlowItem → List FlowItem
drop_flows id [] = []
drop_flows id (flow ∷ rest) =
    let more = drop_flows id rest in
    elim (filter (λ u. not (eqb u id)) flow.related_updates) [
      | [] ↦ more
      | u ∷ us ↦ (record flow { related_updates = u ∷ us }) ∷ more
    ]

-- The typed item with the update's title and timestamp.
unfoldable pub remove_item :
    {F : Type 0} → UpdateType → StructuredContext F → ContextUpdate F → StructuredContext F
remove_item UpdateType.question_answered state update = record state {
  open_questions =
      remove_first (λ q. (q.question == update.content.title) && eqb q.timestamp update.timestamp)
        state.open_questions;
}
remove_item UpdateType.problem_solved state update = state
remove_item UpdateType.code_changed state update = state
remove_item UpdateType.decision_made state update = record state {
  key_decisions =
      remove_first
        (λ d. (d.description == update.content.title) && eqb d.timestamp update.timestamp)
        state.key_decisions;
}
remove_item UpdateType.concept_defined state update = record state {
  key_concepts =
      remove_first (λ c. (c.name == update.content.title) && eqb c.timestamp update.timestamp)
        state.key_concepts;
}
remove_item UpdateType.requirement_added state update = record state {
  technical_specifications =
      remove_first (λ r. (r.title == update.content.title) && eqb r.timestamp update.timestamp)
        state.technical_specifications;
}

unfoldable pub remove_derived_state :
    {F : Type 0} → StructuredContext F → ContextUpdate F → StructuredContext F
remove_derived_state state update =
    remove_item update.update_type
      (if any (relates update.id) state.conversation_flow
        then record state { conversation_flow = drop_flows update.id state.conversation_flow }
        else state)
      update
