-- ===== src/Tests/WorkspaceTests.antt =====
-- Workspaces on concrete maps.
use post_cortex.Base.{◌≡◌, refl, none, some, arith, List, [], ◌∷◌}
use post_cortex.Base.Keys.{nat_eq}
use post_cortex.ConcurrentMap.{lookup}
use post_cortex.ConcurrentMap.Assoc.{assoc_maps, without, entries}
use post_cortex.Workspace.{
  WorkspaceManager, related, new, new_workspace, register, create_workspace, get_workspace,
  get_workspace_by_name, delete_workspace, restore_workspace, add_sessions, add_session,
  remove_session, primary, add_session_to_workspace, remove_session_from_workspace,
}
use post_cortex.Workspace.Histories.{
  Call, creates, restores, deletes, adds, removes, step, run, admits, run-IsIndexed,
}
use post_cortex.Workspace.Index.{IsIndexed, delete_workspace_loses_name}

abbrev nothing : WorkspaceManager assoc_maps
nothing = new assoc_maps

delete_workspace_loses_name_example :
    (get_workspace
        (delete_workspace
          (create_workspace 0 8 (create_workspace 0 7 nothing "api" "old").0 "api" "new").0
          7).0
        8
      ≡ some (new_workspace 0 8 "api" "new"))
    × (get_workspace_by_name
          (delete_workspace
            (create_workspace 0 8 (create_workspace 0 7 nothing "api" "old").0 "api" "new").0
            7).0
          "api"
        ≡ none)
delete_workspace_loses_name_example =
    delete_workspace_loses_name 0 7 8 nothing "api" "old" "new" (omega arith)

-- Two workspaces, one of which loses its session and goes.
abbrev calls : List Call
calls =
    creates 0 7 "api" ""
    ∷ restores 1 8 "web" "" ((3, primary) ∷ [])
    ∷ adds 7 3 related
    ∷ removes 7 3
    ∷ deletes 7
    ∷ []

run-IsIndexed_example : IsIndexed (run (new assoc_maps) calls)
unfolding new admits step lookup entries without create_workspace restore_workspace register
    delete_workspace add_session_to_workspace remove_session_from_workspace new_workspace
    add_sessions add_session remove_session
run-IsIndexed_example = run-IsIndexed assoc_maps calls refl
