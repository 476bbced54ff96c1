-- ===== src/Core/Update.antt =====
-- crates/post-cortex-core/src/core/context_update.rs: updates, entities and relationships. A UUID
-- and a point in time are numbers, since the code only compares them; `F` is `f32`.
use post_cortex.Base.{ℕ, String, Bool, Option, List}

abbrev pub Uuid : Type 0
Uuid = ℕ

abbrev pub DateTime : Type 0
DateTime = ℕ

pub data UpdateType : Type 0 where
  question_answered problem_solved code_changed decision_made concept_defined requirement_added :
      UpdateType

pub data EntityType : Type 0 where
  technology concept problem solution decision code_component : EntityType

pub data RelationType : Type 0 where
  required_by leads_to related_to conflicts_with depends_on implements caused_by solves :
      RelationType

pub record TypedEntity : Type 0 where
  pub name : String
  pub entity_type : EntityType

pub record UpdateContent : Type 0 where
  pub title : String
  pub description : String
  pub details : List String
  pub examples : List String
  pub implications : List String

pub record CodeReference : Type 0 where
  pub file_path : String
  pub start_line : ℕ
  pub end_line : ℕ
  pub code_snippet : String
  pub commit_hash : Option String
  pub branch : Option String
  pub change_description : String

pub record EntityRelationship : Type 0 where
  pub from_entity : String
  pub to_entity : String
  pub relation_type : RelationType
  pub context : String

pub record UpdateMeta (F : Type 0) : Type 0 where
  pub valid_from : Option DateTime
  pub supersedes : List Uuid
  pub confidence : Option F
  pub retired_at : Option DateTime

pub record ContextUpdate (F : Type 0) : Type 0 where
  pub id : Uuid
  pub timestamp : DateTime
  pub update_type : UpdateType
  pub content : UpdateContent
  pub related_code : Option CodeReference
  pub parent_update : Option Uuid
  pub user_marked_important : Bool
  pub creates_entities : List String
  pub creates_relationships : List EntityRelationship
  pub references_entities : List String
  pub typed_entities : List TypedEntity
  pub author : Option String
  pub derived_from : List String
  pub meta : UpdateMeta F

pub record EntityData (F : Type 0) : Type 0 where
  pub name : String
  pub entity_type : EntityType
  pub first_mentioned : DateTime
  pub last_mentioned : DateTime
  pub mention_count : ℕ
  pub importance_score : F
  pub description : Option String
  pub aliases : List String
