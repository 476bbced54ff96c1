-- ===== src/Workspace/Members.antt =====
-- The sessions of the workspaces, through the manager.
use post_cortex.Base.{
  ◌≡◌, ◌&&◌, Option, none, some, if◌then◌else◌, is_some, arith, inl, inr, Option-cases,
}
use post_cortex.Base.Keys.{nat_eq, ◌==◌}
use post_cortex.ConcurrentMap.{DashMaps}
use post_cortex.Core.Update.{Uuid}
use post_cortex.Workspace.{
  WorkspaceManager, SessionRole, ok, workspace_not_found, session_not_in_workspace, add_session,
  remove_session, get_session_role, add_session_to_workspace, remove_session_from_workspace,
}

module _ {D : DashMaps} where
  -- The role of a session in a workspace, if both are there.
  unfoldable role_in : WorkspaceManager D → Uuid → Uuid → Option SessionRole
  unfolding get_session_role
  role_in m workspace_id session_id = elim (D.get m.workspaces workspace_id) [
    | none ↦ none
    | some w ↦ get_session_role w session_id
  ]

  -- Adding a session to a workspace that is there gives it its role and changes no other role;
  -- otherwise nothing changes and the workspace is reported missing.
  add_session_to_workspace-role_in :
      (m : WorkspaceManager D) (id session_id : Uuid) (role : SessionRole) (j s : Uuid)
      → (role_in (add_session_to_workspace m id session_id role).0 j s ≡ (
          if is_some (D.get m.workspaces id) && ((id == j) && (session_id == s))
          then some role
          else role_in m j s))
        × ((add_session_to_workspace m id session_id role).1
            ≡ (if is_some (D.get m.workspaces id) then ok tt else workspace_not_found id))
  unfolding add_session_to_workspace role_in add_session
  add_session_to_workspace-role_in m id session_id role j s =
      elim (Option-cases (D.get m.workspaces id)) [
        | inl missing ↦ ground arith
        | inr (w, found) ↦ ground (
          arith,
          D.get-insert m.workspaces id (add_session w session_id role) j,
          D.get-insert w.session_ids session_id role s,
        )
      ]

  -- Removing a session takes its role away and changes no other; it fails, with nothing changed,
  -- if the workspace or the session is not there.
  remove_session_from_workspace-role_in :
      (m : WorkspaceManager D) (id session_id j s : Uuid)
      → (role_in (remove_session_from_workspace m id session_id).0 j s
          ≡ (if (id == j) && (session_id == s) then none else role_in m j s))
        × ((remove_session_from_workspace m id session_id).1 ≡ (
            if is_some (D.get m.workspaces id)
            then (elim (role_in m id session_id) [
              | none ↦ session_not_in_workspace session_id
              | some role ↦ ok (some role)
            ])
            else workspace_not_found id))
  unfolding remove_session_from_workspace role_in remove_session
  remove_session_from_workspace-role_in m id session_id j s =
      elim (Option-cases (D.get m.workspaces id)) [
        | inl missing ↦ ground arith
        | inr (w, found) ↦ ground (
          arith,
          D.get-insert m.workspaces id (remove_session w session_id).0 j,
          D.get-remove w.session_ids session_id s,
        )
      ]
