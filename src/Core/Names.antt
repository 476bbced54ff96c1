-- ===== src/Core/Names.antt =====
-- crates/post-cortex-core/src/core/context_update.rs: the names of the enumerations.
use post_cortex.Base.{◌≡◌, refl, String, Option, none, some, if◌then◌else◌}
use post_cortex.Base.Keys.{string_eq, ◌==◌}
use post_cortex.Core.Update.{UpdateType, EntityType, RelationType}

unfoldable pub update_name : UpdateType → String
update_name UpdateType.question_answered = "qa"
update_name UpdateType.problem_solved = "problem_solved"
update_name UpdateType.code_changed = "code_change"
update_name UpdateType.decision_made = "decision_made"
update_name UpdateType.concept_defined = "concept_defined"
update_name UpdateType.requirement_added = "requirement_added"

unfoldable pub entity_name : EntityType → String
entity_name EntityType.technology = "technology"
entity_name EntityType.concept = "concept"
entity_name EntityType.problem = "problem"
entity_name EntityType.solution = "solution"
entity_name EntityType.decision = "decision"
entity_name EntityType.code_component = "code_component"

unfoldable pub relation_name : RelationType → String
relation_name RelationType.required_by = "required_by"
relation_name RelationType.leads_to = "leads_to"
relation_name RelationType.related_to = "related_to"
relation_name RelationType.conflicts_with = "conflicts_with"
relation_name RelationType.depends_on = "depends_on"
relation_name RelationType.implements = "implements"
relation_name RelationType.caused_by = "caused_by"
relation_name RelationType.solves = "solves"

-- `RelationType::from_str`; an unknown name is an error.
unfoldable pub from_str : String → Option RelationType
from_str s =
    if s == "RequiredBy"
    then some RelationType.required_by
    else if s == "LeadsTo"
    then some RelationType.leads_to
    else if s == "RelatedTo"
    then some RelationType.related_to
    else if s == "ConflictsWith"
    then some RelationType.conflicts_with
    else if s == "DependsOn"
    then some RelationType.depends_on
    else if s == "Implements"
    then some RelationType.implements
    else if s == "CausedBy"
    then some RelationType.caused_by
    else if s == "Solves"
    then some RelationType.solves
    else none

-- The name that `derive(Debug)` gives a relation.
unfoldable pub debug_name : RelationType → String
debug_name RelationType.required_by = "RequiredBy"
debug_name RelationType.leads_to = "LeadsTo"
debug_name RelationType.related_to = "RelatedTo"
debug_name RelationType.conflicts_with = "ConflictsWith"
debug_name RelationType.depends_on = "DependsOn"
debug_name RelationType.implements = "Implements"
debug_name RelationType.caused_by = "CausedBy"
debug_name RelationType.solves = "Solves"

-- A relation is parsed back from its variant's name, and never from its wire name.
pub from_str-names :
    (r : RelationType) → (from_str (debug_name r) ≡ some r) × (from_str (relation_name r) ≡ none)
unfolding from_str debug_name relation_name
from_str-names RelationType.required_by = (refl, refl)
from_str-names RelationType.leads_to = (refl, refl)
from_str-names RelationType.related_to = (refl, refl)
from_str-names RelationType.conflicts_with = (refl, refl)
from_str-names RelationType.depends_on = (refl, refl)
from_str-names RelationType.implements = (refl, refl)
from_str-names RelationType.caused_by = (refl, refl)
from_str-names RelationType.solves = (refl, refl)
