-- ===== src/Session/Active.antt =====
-- `ActiveSession` of crates/post-cortex-core/src/session/active_session.rs: a session's tiers of
-- context, its structured state, code references, history and entity graph. Copy-on-write of the
-- shared parts is the passing of values here; the futures that the timeouts wrap never wait, so no
-- timeout strikes. Clocks and new identifiers are arguments, `one` is `1.0`.
pub mod Truncation
pub mod Adding
pub mod Removing
pub mod Revising
pub mod Removal
pub mod Derived
pub mod Restoring
pub mod Upkeep
use post_cortex.Base.{
  ℕ, ◌+◌, ◌-◌, ◌%◌, ◌<◌, Bool, true, false, not, ◌&&◌, ◌||◌, Option, none, some, List, [], ◌∷◌,
  ◌++◌, map, filter, any, String, if◌then◌else◌, is_some, eqb, ltb, leb, length, drop, find?,
}
use post_cortex.Base.Keys.{nat_eq, string_eq, ◌==◌}
use post_cortex.ConcurrentMap.{DashMaps}
use post_cortex.Core.Update.{Uuid, DateTime, UpdateType, CodeReference, UpdateMeta, ContextUpdate}
use post_cortex.Session.HotContext
use post_cortex.Session.HotContext.{HotContext}
use post_cortex.Session.Structured
use post_cortex.Session.Structured.{
  StructuredContext, update_current_state, remove_first, remove_derived_state,
}
use post_cortex.Session.Active.Truncation.{limited}
use post_cortex.Graph
use post_cortex.Graph.{EdgeData, Scores, SimpleEntityGraph}
use post_cortex.Graph.Merges.{apply_update, relink_mentions, explicit_aliases, merge_entities}
use post_cortex.Graph.Petgraph.{DiGraphs}

pub record CompressedUpdate (F : Type 0) : Type 0 where
  pub update : ContextUpdate F
  pub compression_ratio : F
  pub compressed_at : DateTime

pub record StructuredSummary (F : Type 0) : Type 0 where
  pub summary_id : Uuid
  pub created_at : DateTime
  pub context_snapshot : StructuredContext F
  pub referenced_updates : List Uuid
  pub summary_quality : F

pub record ChangeRecord : Type 0 where
  pub id : Uuid
  pub timestamp : DateTime
  pub change_type : String
  pub description : String
  pub related_update_id : Option Uuid

pub record UserPreferences : Type 0 where
  pub auto_save_enabled : Bool
  pub context_retention_days : ℕ
  pub max_hot_context_size : ℕ
  pub auto_summary_threshold : ℕ
  pub important_keywords : List String

pub record SessionMetadata : Type 0 where
  pub id : Uuid
  pub name : Option String
  pub description : Option String
  pub created_at : DateTime
  pub user_preferences : UserPreferences

pub record ActiveSession (D : DashMaps) (G : DiGraphs EdgeData) (F : Type 0) : Type 0 where
  pub metadata : SessionMetadata
  pub last_updated : DateTime
  pub hot_context : HotContext D F
  pub warm_context : List (CompressedUpdate F)
  pub cold_context : List (StructuredSummary F)
  pub current_state : StructuredContext F
  pub incremental_updates : List (ContextUpdate F)
  pub code_references : D.Map String (List CodeReference)
  pub change_history : List ChangeRecord
  pub entity_graph : SimpleEntityGraph D G F
  pub vectorized_update_ids : D.Map Uuid Bool

abbrev pub max_cold_summaries : ℕ
max_cold_summaries = 100

-- The time, and the identifiers that `Uuid::new_v4` gives.
pub record Draws : Type 0 where
  pub now : DateTime
  pub change_id : Uuid
  pub summary_id : Uuid

-- `format!("{:?}", update_type)`.
unfoldable pub debug_type : UpdateType → String
debug_type UpdateType.question_answered = "QuestionAnswered"
debug_type UpdateType.problem_solved = "ProblemSolved"
debug_type UpdateType.code_changed = "CodeChanged"
debug_type UpdateType.decision_made = "DecisionMade"
debug_type UpdateType.concept_defined = "ConceptDefined"
debug_type UpdateType.requirement_added = "RequirementAdded"

unfoldable pub option_eq : Option String → Option String → Bool
option_eq none none = true
option_eq none (some b) = false
option_eq (some a) none = false
option_eq (some a) (some b) = a == b

-- All fields but the path.
unfoldable pub same_reference : CodeReference → CodeReference → Bool
same_reference r code_ref =
    eqb r.start_line code_ref.start_line
    && (eqb r.end_line code_ref.end_line
        && ((r.code_snippet == code_ref.code_snippet)
            && ((r.change_description == code_ref.change_description)
                && (option_eq r.commit_hash code_ref.commit_hash
                    && option_eq r.branch code_ref.branch))))

-- The ids of the first and the last update, once if they are one.
unfoldable pub range_of : {F : Type 0} → List (ContextUpdate F) → List Uuid
range_of [] = []
range_of (first ∷ rest) =
    if eqb first.id (last_id first.id rest)
    then first.id ∷ []
    else first.id ∷ last_id first.id rest ∷ []
  where
    last_id : {F : Type 0} → Uuid → List (ContextUpdate F) → Uuid
    last_id id [] = id
    last_id id (u ∷ us) = last_id u.id us

abbrev pub has_update : {F : Type 0} → Uuid → List (ContextUpdate F) → Bool
has_update id updates = any (λ u. eqb u.id id) updates

abbrev pub has_compressed : {F : Type 0} → Uuid → List (CompressedUpdate F) → Bool
has_compressed id updates = any (λ c. eqb c.update.id id) updates

-- The record is of the update.
abbrev pub concerns : Uuid → ChangeRecord → Bool
concerns id change = elim change.related_update_id [ none ↦ false | some u ↦ eqb u id ]

-- The first update with the id gives way.
unfoldable pub replace_first :
    {F : Type 0} → Uuid → ContextUpdate F → List (ContextUpdate F) → List (ContextUpdate F)
replace_first id changed [] = []
replace_first id changed (u ∷ us) =
    let rest = replace_first id changed us in if eqb u.id id then changed ∷ us else u ∷ rest

abbrev pub mentions_file : {F : Type 0} → String → ContextUpdate F → Bool
mentions_file file_path update = elim update.related_code [
  | none ↦ false
  | some code_ref ↦ code_ref.file_path == file_path
]
