-- ===== src/Workspace/Histories.antt =====
-- Calls of the manager in any order.
use post_cortex.Base.{
  ℕ, ◌+◌, ◌<◌, ◌≡◌, refl, String, Bool, true, not, ◌&&◌, none, List, [], ◌∷◌, length, is_some, ltb,
  arith, inl, inr, Option-cases,
}
use post_cortex.Base.Words.{u64_mod}
use post_cortex.Base.Keys.{nat_eq, string_eq}
use post_cortex.ConcurrentMap.{DashMaps, get-new}
use post_cortex.Core.Update.{Uuid}
use post_cortex.Workspace.{
  Workspace, WorkspaceManager, SessionRole, new, remove_session, create_workspace,
  restore_workspace, delete_workspace, add_session_to_workspace, remove_session_from_workspace,
}
use post_cortex.Workspace.Index.{
  IsIndexed, NamedBy-insert, create_workspace-IsIndexed, restore_workspace-IsIndexed,
  delete_workspace-IsIndexed, add_session_to_workspace-IsIndexed,
}

pub data Call : Type 0 where
  creates : ℕ → Uuid → String → String → Call
  restores : ℕ → Uuid → String → String → List (Uuid × SessionRole) → Call
  deletes : Uuid → Call
  adds : Uuid → Uuid → SessionRole → Call
  removes : Uuid → Uuid → Call

module _ {D : DashMaps} where
  unfoldable pub step : WorkspaceManager D → Call → WorkspaceManager D
  step m (creates now id name description) = (create_workspace now id m name description).0
  step m (restores now id name description sessions) =
      restore_workspace now m id name description sessions
  step m (deletes id) = (delete_workspace m id).0
  step m (adds id session_id role) = (add_session_to_workspace m id session_id role).0
  step m (removes id session_id) = (remove_session_from_workspace m id session_id).0

  unfoldable pub run : WorkspaceManager D → List Call → WorkspaceManager D
  run m [] = m
  run m (call ∷ rest) = run (step m call) rest

  abbrev unused : WorkspaceManager D → Call → Bool
  unused m (creates now id name description) = not (is_some (D.get m.workspaces id))
  unused m (restores now id name description sessions) = not (is_some (D.get m.workspaces id))
  unused m (deletes id) = true
  unused m (adds id session_id role) = true
  unused m (removes id session_id) = true

  -- A new workspace has an id that is not in use, and the workspaces can be counted in a word.
  unfoldable pub admits : WorkspaceManager D → List Call → Bool
  admits m [] = true
  admits m (call ∷ rest) =
      unused m call && ltb (length (D.iter m.workspaces) + 1) u64_mod && admits (step m call) rest

  vacant :
      (m : WorkspaceManager D) (id : Uuid)
      → not (is_some (D.get m.workspaces id)) ≡ true
      → D.get m.workspaces id ≡ none
  vacant m id h = elim (Option-cases (D.get m.workspaces id)) [
    | inl absent ↦ absent
    | inr (w, found) ↦ ground (arith, h, found)
  ]

  remove_session_from_workspace-IsIndexed :
      (m : WorkspaceManager D) (workspace_id session_id : Uuid)
      → IsIndexed m
      → IsIndexed (remove_session_from_workspace m workspace_id session_id).0
  unfolding remove_session_from_workspace remove_session
  remove_session_from_workspace-IsIndexed m id session_id h =
      elim (Option-cases (D.get m.workspaces id)) [
        | inl missing ↦ rw (missing, remove_session_from_workspace) h
        | inr (w, found) ↦
            rw (found, remove_session_from_workspace)
              (record {
                named = λ n.
                    NamedBy-insert m id (unfold remove_session in (remove_session w session_id).0) n
                      (D.get m.name_index n) (inr (w, found, refl)) (h.named n);
                counted = ground (
                  arith,
                  h.counted,
                  found,
                  D.len-insert m.workspaces id (remove_session w session_id).0,
                );
              })
      ]

  step-IsIndexed :
      (m : WorkspaceManager D) (call : Call)
      → unused m call ≡ true
      → length (D.iter m.workspaces) + 1 < u64_mod
      → IsIndexed m
      → IsIndexed (step m call)
  unfolding step
  step-IsIndexed m (creates now id name description) new_id word h =
      (create_workspace-IsIndexed now id m name description h (vacant m id new_id) word).0
  step-IsIndexed m (restores now id name description sessions) new_id word h =
      restore_workspace-IsIndexed now m id name description sessions h (vacant m id new_id) word
  step-IsIndexed m (deletes id) new_id word h =
      delete_workspace-IsIndexed m id h (omega (arith, word))
  step-IsIndexed m (adds id session_id role) new_id word h =
      add_session_to_workspace-IsIndexed m id session_id role h
  step-IsIndexed m (removes id session_id) new_id word h =
      remove_session_from_workspace-IsIndexed m id session_id h

  IsIndexed-run :
      (m : WorkspaceManager D) (calls : List Call)
      → admits m calls ≡ true
      → IsIndexed m
      → IsIndexed (run m calls)
  unfolding run admits
  IsIndexed-run m [] good h = h
  IsIndexed-run m (call ∷ rest) good h =
      IsIndexed-run (step m call) rest (ground (arith, good))
        (step-IsIndexed m call (ground (arith, good)) (ground (arith, good)) h)

module _ (D : DashMaps) where
  -- After any calls of a new manager, every name of the index leads to a workspace that bears it,
  -- and the counter is the number of workspaces, if each new workspace has an id that is not in
  -- use and there are always fewer than `2 ^ 64 - 1` workspaces.
  pub run-IsIndexed :
      (calls : List Call) → admits (new D) calls ≡ true → IsIndexed (run (new D) calls)
  unfolding new
  run-IsIndexed calls good = IsIndexed-run (new D) calls good (record {
    named = λ n. rw (get-new D n) tt;
    counted = rw (D.iter-new {K = Uuid} {V = Workspace D}) refl;
  })
