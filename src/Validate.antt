-- ===== src/Validate.antt =====
-- crates/post-cortex-daemon/src/daemon/validate.rs: the checks of words and limits. Case folding
-- (`str::to_lowercase`, by the tables of Unicode) is an argument. Of an error the parameter's
-- path and the value received are kept, not the texts.
use post_cortex.Base.{
  ℕ, ◌≡◌, ◌≤◌, ◌↔◌, ◌⊎◌, inl, inr, refl, arith, String, Option, none, some, List, [], ◌∷◌,
  if◌then◌else◌, any, eqb, ltb,
}
use post_cortex.Base.Keys.{string_eq, ◌==◌}

pub record CoercionError (A : Type 0) : Type 0 where
  pub parameter_path : String
  pub received : A

pub data Checked (A B : Type 0) : Type 0 where
  ok : B → Checked A B
  err : CoercionError A → Checked A B

abbrev pub valid_interaction_types : List String
valid_interaction_types =
    "qa" ∷ "decision_made" ∷ "problem_solved" ∷ "code_change" ∷ "requirement_added"
    ∷ "concept_defined" ∷ []

abbrev pub valid_scopes : List String
valid_scopes = "session" ∷ "workspace" ∷ "global" ∷ []

abbrev pub valid_session_actions : List String
valid_session_actions = "create" ∷ "list" ∷ "load" ∷ "search" ∷ "update_metadata" ∷ "delete" ∷ []

abbrev pub valid_workspace_actions : List String
valid_workspace_actions =
    "create" ∷ "list" ∷ "get" ∷ "delete" ∷ "add_session" ∷ "remove_session" ∷ "get_card"
    ∷ "update_card" ∷ []

abbrev pub valid_roles : List String
valid_roles = "primary" ∷ "related" ∷ "dependency" ∷ "shared" ∷ []

-- `contains` of the folded word, and the error under the parameter's name.
unfoldable pub validate_word :
    String → List String → (String → String) → String → Checked String (Unit {0})
validate_word path words to_lowercase word =
    if any (λ w. w == to_lowercase word) words
    then ok tt
    else err (record { parameter_path = path; received = word })

unfoldable pub validate_interaction_type : (String → String) → String → Checked String (Unit {0})
validate_interaction_type = validate_word "interaction_type" valid_interaction_types

unfoldable pub validate_scope : (String → String) → String → Checked String (Unit {0})
validate_scope = validate_word "scope" valid_scopes

unfoldable pub validate_session_action : (String → String) → String → Checked String (Unit {0})
validate_session_action = validate_word "action" valid_session_actions

unfoldable pub validate_workspace_action : (String → String) → String → Checked String (Unit {0})
validate_workspace_action = validate_word "action" valid_workspace_actions

unfoldable pub validate_session_role : (String → String) → String → Checked String (Unit {0})
validate_session_role = validate_word "role" valid_roles

unfoldable pub validate_limits : Option ℕ → ℕ → ℕ → Checked ℕ ℕ
validate_limits limit default max =
    let value = elim limit as (λ o. ℕ) [ none ↦ default | some given ↦ given ] in
    if ltb max value
    then err (record { parameter_path = "limit"; received = value })
    else if eqb value 0
    then err (record { parameter_path = "limit"; received = value })
    else ok value

-- What a check lets pass.
abbrev pub passed : {A B : Type 0} → Checked A B → Option B
passed (ok b) = some b
passed (err e) = none

-- A limit passes, as it is or as the default, exactly if it is between 1 and the maximum.
pub validate_limits-passed :
    (limit : Option ℕ) (default max value : ℕ)
    → (passed (validate_limits limit default max) ≡ some value)
      ↔ (((limit ≡ some value) ⊎ (limit ≡ none) × (value ≡ default)) × (1 ≤ value) × (value ≤ max))
unfolding validate_limits
validate_limits-passed none default max value = (
  λ h. (inr (refl, ground (arith, h)), ground (arith, h), ground (arith, h)),
  λ h. ground (arith, h),
)
validate_limits-passed (some given) default max value =
    (λ h. (inl (ground (arith, h)), ground (arith, h), ground (arith, h)), λ h. ground (arith, h))
