-- ===== src/Workspace.antt =====
-- crates/post-cortex-core/src/workspace/mod.rs: workspaces, and the manager that indexes them by
-- id and by name, run by one caller at a time. A workspace is shared between its handles in the
-- source; here the manager's map holds its current value. New ids are arguments.
pub mod Histories
pub mod Index
pub mod Members
use post_cortex.Base.{ℕ, String, Option, none, some, List, [], ◌∷◌, map}
use post_cortex.Base.Words.{wrapping_add, wrapping_sub}
use post_cortex.Base.Keys.{nat_eq, string_eq}
use post_cortex.ConcurrentMap.{DashMaps}
use post_cortex.Core.Update.{Uuid}

pub data SessionRole : Type 0 where
  primary related dependency shared : SessionRole

pub record WorkspaceMetadata : Type 0 where
  pub project_type : Option String
  pub tags : List String
  pub root_paths : List String
  pub custom_data : List (String × String)

abbrev pub default_metadata : WorkspaceMetadata
default_metadata = record { project_type = none; tags = []; root_paths = []; custom_data = [] }

pub record Workspace (D : DashMaps) : Type 0 where
  pub id : Uuid
  pub name : String
  pub description : String
  pub created_at : ℕ
  pub session_ids : D.Map Uuid SessionRole
  pub metadata : WorkspaceMetadata

-- Either the operation's result or its error text.
pub data Result (A : Type 0) : Type 0 where
  ok : A → Result A
  workspace_not_found : Uuid → Result A
  session_not_in_workspace : Uuid → Result A

module _ {D : DashMaps} where
  unfoldable pub new_workspace : ℕ → Uuid → String → String → Workspace D
  new_workspace now id name description = record {
    id = id;
    name = name;
    description = description;
    created_at = now;
    session_ids = D.new;
    metadata = default_metadata;
  }

  unfoldable pub add_session : Workspace D → Uuid → SessionRole → Workspace D
  add_session w session_id role = record w { session_ids = D.insert w.session_ids session_id role }

  unfoldable pub remove_session : Workspace D → Uuid → Workspace D × Option SessionRole
  remove_session w session_id =
      (record w { session_ids = D.remove w.session_ids session_id }, D.get w.session_ids session_id)

  unfoldable pub get_session_role : Workspace D → Uuid → Option SessionRole
  get_session_role w session_id = D.get w.session_ids session_id

  unfoldable pub get_all_sessions : Workspace D → List (Uuid × SessionRole)
  get_all_sessions w = D.iter w.session_ids

  unfoldable pub update_metadata :
      Workspace D → (WorkspaceMetadata → WorkspaceMetadata) → Workspace D
  update_metadata w f = record w { metadata = f w.metadata }

  -- The loop of `restore_workspace`.
  unfoldable pub add_sessions : Workspace D → List (Uuid × SessionRole) → Workspace D
  add_sessions w [] = w
  add_sessions w ((session_id, role) ∷ rest) = add_sessions (add_session w session_id role) rest

pub record WorkspaceManager (D : DashMaps) : Type 0 where
  pub workspaces : D.Map Uuid (Workspace D)
  pub name_index : D.Map String Uuid
  pub total_workspaces : ℕ

unfoldable pub new : (D : DashMaps) → WorkspaceManager D
new D = record { workspaces = D.new; name_index = D.new; total_workspaces = 0 }

module _ {D : DashMaps} where
  -- The end that `create_workspace` and `restore_workspace` share.
  unfoldable pub register : WorkspaceManager D → Uuid → String → Workspace D → WorkspaceManager D
  register m id name workspace = record {
    workspaces = D.insert m.workspaces id workspace;
    name_index = D.insert m.name_index name id;
    total_workspaces = wrapping_add m.total_workspaces 1;
  }

  unfoldable pub create_workspace :
      ℕ → Uuid → WorkspaceManager D → String → String → WorkspaceManager D × Uuid
  create_workspace now id m name description =
      (register m id name (new_workspace now id name description), id)

  unfoldable pub restore_workspace :
      ℕ
      → WorkspaceManager D
      → Uuid
      → String
      → String
      → List (Uuid × SessionRole)
      → WorkspaceManager D
  restore_workspace now m id name description sessions =
      register m id name (add_sessions (new_workspace now id name description) sessions)

  unfoldable pub get_workspace : WorkspaceManager D → Uuid → Option (Workspace D)
  get_workspace m id = D.get m.workspaces id

  unfoldable pub get_workspace_by_name : WorkspaceManager D → String → Option (Workspace D)
  unfolding get_workspace
  get_workspace_by_name m name = elim (D.get m.name_index name) [
    | none ↦ none
    | some id ↦ get_workspace m id
  ]

  unfoldable pub list_workspaces : WorkspaceManager D → List (Workspace D)
  list_workspaces m = map (λ e. e.1) (D.iter m.workspaces)

  unfoldable pub delete_workspace :
      WorkspaceManager D → Uuid → WorkspaceManager D × Option (Workspace D)
  delete_workspace m id = elim (D.get m.workspaces id) [
    | none ↦ (m, none)
    | some workspace ↦ (
      record {
        workspaces = D.remove m.workspaces id;
        name_index = D.remove m.name_index workspace.name;
        total_workspaces = wrapping_sub m.total_workspaces 1;
      },
      some workspace,
    )
  ]

  unfoldable pub add_session_to_workspace :
      WorkspaceManager D → Uuid → Uuid → SessionRole → WorkspaceManager D × Result (Unit {0})
  add_session_to_workspace m workspace_id session_id role = elim (D.get m.workspaces workspace_id) [
    | none ↦ (m, workspace_not_found workspace_id)
    | some w ↦ (
      record m { workspaces = D.insert m.workspaces workspace_id (add_session w session_id role) },
      ok tt,
    )
  ]

  unfoldable pub remove_session_from_workspace :
      WorkspaceManager D → Uuid → Uuid → WorkspaceManager D × Result (Option SessionRole)
  remove_session_from_workspace m workspace_id session_id = elim (D.get m.workspaces workspace_id) [
    | none ↦ (m, workspace_not_found workspace_id)
    | some w ↦ (
      record m { workspaces = D.insert m.workspaces workspace_id (remove_session w session_id).0 },
      elim (remove_session w session_id).1 [
        | none ↦ session_not_in_workspace session_id
        | some role ↦ ok (some role)
      ],
    )
  ]
