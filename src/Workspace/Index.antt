-- ===== src/Workspace/Index.antt =====
-- The name index of the manager: what it points at, and where it loses a workspace.
use post_cortex.Base.{
  ℕ, ◌+◌, ◌<◌, ◌≡◌, ◌≢◌, refl, ◌∙◌, String, Option, none, some, List, [], ◌∷◌, ◌⊎◌, length, arith,
  inl, inr, Bool-cases, Option-cases,
}
use post_cortex.Base.Words.{u64_mod, wrapping_add, wrapping_sub}
use post_cortex.Base.Keys.{nat_eq, string_eq, ◌==◌, ==-iff}
use post_cortex.ConcurrentMap.{DashMaps, get-occupied}
use post_cortex.Core.Update.{Uuid}
use post_cortex.Workspace.{
  Workspace, WorkspaceManager, SessionRole, new_workspace, add_session, add_sessions, register,
  create_workspace, restore_workspace, get_workspace, get_workspace_by_name, delete_workspace,
  add_session_to_workspace,
}

module _ {D : DashMaps} where
  abbrev HasName : String → Option (Workspace D) → Type 0
  HasName name none = ⊥
  HasName name (some w) = w.name ≡ name

  abbrev pub NamedBy : WorkspaceManager D → String → Option Uuid → Type 0
  NamedBy m name none = Unit {0}
  NamedBy m name (some id) = HasName name (D.get m.workspaces id)

  -- Every name of the index leads to a workspace that bears it, and the counter counts.
  pub record IsIndexed (m : WorkspaceManager D) : Type 0 where
    pub named : (name : String) → NamedBy m name (D.get m.name_index name)
    pub counted : m.total_workspaces ≡ length (D.iter m.workspaces)

  HasName-insert :
      (ws : D.Map Uuid (Workspace D)) (id : Uuid) (w : Workspace D) (name : String) (j : Uuid)
      → (id ≡ j → w.name ≡ name)
      → HasName name (D.get ws j)
      → HasName name (D.get (D.insert ws id w) j)
  HasName-insert ws id w name j here h = elim (Bool-cases (id == j)) [
    | inl same ↦ rw (D.get-insert ws id w j, same) (here ((==-iff id j).0 same))
    | inr other ↦ rw (D.get-insert ws id w j, other) h
  ]

  HasName-remove :
      (m : WorkspaceManager D) (id : Uuid) (name : String) (j : Uuid)
      → id ≢ j
      → HasName name (D.get m.workspaces j)
      → HasName name (D.get (D.remove m.workspaces id) j)
  HasName-remove m id name j apart h = elim (Bool-cases (id == j)) [
    | inl same ↦ absurd (apart ((==-iff id j).0 same))
    | inr other ↦ rw (D.get-remove m.workspaces id j, other) h
  ]

  -- A name that leads to `id` is that of the workspace there.
  HasName-unique :
      (ws : D.Map Uuid (Workspace D)) (id j : Uuid) (w : Workspace D) (name : String)
      → D.get ws id ≡ some w
      → id ≡ j
      → HasName name (D.get ws j)
      → w.name ≡ name
  HasName-unique ws id j w name found same h = rw found at (rw (← same) at h)

  not-HasName_fresh :
      (m : WorkspaceManager D) (id j : Uuid) (name : String)
      → D.get m.workspaces id ≡ none
      → id ≡ j
      → HasName name (D.get m.workspaces j)
      → ⊥
  not-HasName_fresh m id j name fresh same h = rw fresh at (rw (← same) at h)

  -- Replacing a workspace by one of the same name, or adding one under a new id.
  pub NamedBy-insert :
      (m : WorkspaceManager D) (id : Uuid) (w : Workspace D) (name : String) (o : Option Uuid)
      → (D.get m.workspaces id ≡ none)
        ⊎ ((old : Workspace D) × (D.get m.workspaces id ≡ some old) × (w.name ≡ old.name))
      → NamedBy m name o
      → NamedBy (record m { workspaces = D.insert m.workspaces id w }) name o
  NamedBy-insert m id w name none change h = tt
  NamedBy-insert m id w name (some j) (inl fresh) h =
      HasName-insert m.workspaces id w name j
        (λ same. absurd (not-HasName_fresh m id j name fresh same h)) h
  NamedBy-insert m id w name (some j) (inr (old, found, kept)) h =
      HasName-insert m.workspaces id w name j
        (λ same. kept ∙ HasName-unique m.workspaces id j old name found same h) h

  register-named :
      (m : WorkspaceManager D) (id : Uuid) (name : String) (w : Workspace D) (n : String)
      → IsIndexed m
      → D.get m.workspaces id ≡ none
      → w.name ≡ name
      → NamedBy (register m id name w) n (D.get (register m id name w).name_index n)
  unfolding register
  register-named m id name w n h fresh same = elim (Bool-cases (name == n)) [
    | inl this ↦
        rw
          (
            D.get-insert m.name_index name id n,
            this,
            D.get-insert m.workspaces id w id,
            (==-iff id id).1 refl,
          )
          (same ∙ (==-iff name n).0 this)
    | inr other ↦
        rw (D.get-insert m.name_index name id n, other)
          (NamedBy-insert m id w n (D.get m.name_index n) (inl fresh) (h.named n))
  ]

  register-IsIndexed :
      (m : WorkspaceManager D) (id : Uuid) (name : String) (w : Workspace D)
      → IsIndexed m
      → D.get m.workspaces id ≡ none
      → w.name ≡ name
      → length (D.iter m.workspaces) + 1 < u64_mod
      → IsIndexed (register m id name w)
  unfolding register wrapping_add
  register-IsIndexed m id name w h fresh same word = record {
    named = λ n. register-named m id name w n h fresh same;
    counted = ground (arith, h.counted, D.len-insert m.workspaces id w);
  }

  add_sessions-name :
      (w : Workspace D) (sessions : List (Uuid × SessionRole))
      → (add_sessions w sessions).name ≡ w.name
  unfolding add_sessions add_session
  add_sessions-name w [] = refl
  add_sessions-name w ((id, role) ∷ rest) = add_sessions-name (add_session w id role) rest

  -- Creating a workspace under a new id keeps the index and the counter right, and the name leads
  -- to the new workspace.
  pub create_workspace-IsIndexed :
      (now : ℕ) (id : Uuid) (m : WorkspaceManager D) (name description : String)
      → IsIndexed m
      → D.get m.workspaces id ≡ none
      → length (D.iter m.workspaces) + 1 < u64_mod
      → IsIndexed (create_workspace now id m name description).0
        × (get_workspace_by_name (create_workspace now id m name description).0 name
            ≡ some (new_workspace now id name description))
  unfolding create_workspace get_workspace_by_name new_workspace
  create_workspace-IsIndexed now id m name description h fresh word = (
    register-IsIndexed m id name (new_workspace now id name description) h fresh refl word,
    unfold register in
        ground (
          arith,
          D.get-insert m.name_index name id name,
          ==-iff name name,
          D.get-insert m.workspaces id (new_workspace now id name description) id,
        ),
  )

  -- Restoring a workspace under a new id keeps the index and the counter right.
  pub restore_workspace-IsIndexed :
      (now : ℕ) (m : WorkspaceManager D) (id : Uuid) (name description : String)
      (sessions : List (Uuid × SessionRole))
      → IsIndexed m
      → D.get m.workspaces id ≡ none
      → length (D.iter m.workspaces) + 1 < u64_mod
      → IsIndexed (restore_workspace now m id name description sessions)
  unfolding restore_workspace new_workspace
  restore_workspace-IsIndexed now m id name description sessions h fresh word =
      register-IsIndexed m id name (add_sessions (new_workspace now id name description) sessions) h
        fresh (add_sessions-name (new_workspace now id name description) sessions) word

  delete_named :
      (m : WorkspaceManager D) (id : Uuid) (w : Workspace D) (n : String) (o : Option Uuid)
      → D.get m.workspaces id ≡ some w
      → w.name ≢ n
      → NamedBy m n o
      → NamedBy (record m { workspaces = D.remove m.workspaces id }) n o
  delete_named m id w n none found apart h = tt
  delete_named m id w n (some j) found apart h =
      HasName-remove m id n j (λ same. apart (HasName-unique m.workspaces id j w n found same h)) h

  -- Deleting a workspace keeps the index and the counter right, whether or not it is there.
  pub delete_workspace-IsIndexed :
      (m : WorkspaceManager D) (id : Uuid)
      → IsIndexed m
      → length (D.iter m.workspaces) < u64_mod
      → IsIndexed (delete_workspace m id).0
  unfolding delete_workspace wrapping_sub
  delete_workspace-IsIndexed m id h word = elim (Option-cases (D.get m.workspaces id)) [
    | inl missing ↦ rw (missing, delete_workspace) h
    | inr (w, found) ↦
        rw (found, delete_workspace)
          (record {
            named = λ n. elim (Bool-cases (w.name == n)) [
              | inl this ↦ rw (D.get-remove m.name_index w.name n, this) tt
              | inr other ↦
                  rw (D.get-remove m.name_index w.name n, other)
                    (delete_named m id w n (D.get m.name_index n) found
                      (λ same. cc (other, (==-iff w.name n).1 same)) (h.named n))
            ];
            counted =
                ground
                  (arith, h.counted, D.len-remove m.workspaces id, get-occupied D m.workspaces id);
          })
  ]

  -- Adding a session to a workspace keeps the index and the counter right.
  pub add_session_to_workspace-IsIndexed :
      (m : WorkspaceManager D) (workspace_id session_id : Uuid) (role : SessionRole)
      → IsIndexed m
      → IsIndexed (add_session_to_workspace m workspace_id session_id role).0
  unfolding add_session_to_workspace add_session
  add_session_to_workspace-IsIndexed m id session_id role h =
      elim (Option-cases (D.get m.workspaces id)) [
        | inl missing ↦ rw (missing, add_session_to_workspace) h
        | inr (w, found) ↦
            rw (found, add_session_to_workspace)
              (record {
                named = λ n.
                    NamedBy-insert m id (unfold add_session in add_session w session_id role) n
                      (D.get m.name_index n) (inr (w, found, refl)) (h.named n);
                counted = ground (
                  arith,
                  h.counted,
                  D.len-insert m.workspaces id (add_session w session_id role),
                );
              })
      ]

  -- The name of a workspace is lost when an older workspace of the same name is deleted: the
  -- second one is still there, and a lookup by its name finds nothing.
  pub delete_workspace_loses_name :
      (now a b : ℕ) (m : WorkspaceManager D) (name d1 d2 : String)
      → a ≢ b
      → (get_workspace
            (delete_workspace
              (create_workspace now b (create_workspace now a m name d1).0 name d2).0
              a).0
            b
          ≡ some (new_workspace now b name d2))
        × (get_workspace_by_name
              (delete_workspace
                (create_workspace now b (create_workspace now a m name d1).0 name d2).0
                a).0
              name
            ≡ none)
  unfolding delete_workspace create_workspace register get_workspace get_workspace_by_name
      new_workspace
  delete_workspace_loses_name now a b m name d1 d2 apart = ground (
    arith,
    D.get-insert with_first b second a,
    D.get-insert with_first b second b,
    D.get-insert m.workspaces a first a,
    D.get-remove (D.insert with_first b second) a b,
    D.get-remove (D.insert (D.insert m.name_index name a) name b) name name,
    ==-iff name name,
  )
    where
      first : Workspace D
      first = new_workspace now a name d1

      second : Workspace D
      second = new_workspace now b name d2

      with_first : D.Map Uuid (Workspace D)
      with_first = D.insert m.workspaces a first
