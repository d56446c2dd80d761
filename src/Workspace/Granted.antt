-- ===== src/Workspace/Granted.antt =====
-- internal/workspace/memory.go: connecting a resource where nothing stands against it.

use runspace.Prelude.{
  ◌≡◌, refl, ap, ◌∙◌, inl, inr, String, true, false, none, some, eq_refl, Option-cases,
}
use runspace.Text.{is_blank}
use runspace.Dict
use runspace.Dict.{Dict, get-put}
use runspace.Errors.{ok}
use runspace.Exec.{Exec, continue}
use runspace.Workspace.Policy.{Action}
use runspace.Workspace.{
  Workspace, Member, Resource, ConnectResourceRequest, MemoryService, member_of, authorize_locked,
  get_workspace, next_seq,
}
use runspace.Workspace.Authority.{May}
use runspace.Workspace.Resources.{
  connect_resource, connect_visible, connect_locked, connect_allowed, valid_repository_request,
  made_resource, repository_id, repository_duplicate_locked, normalized_repository_request,
}

module _ {W : Type 0} (user_id workspace_id : String) (s : MemoryService W) where
  granted :
      (action : Action)
      → May s workspace_id user_id action
      → authorize_locked workspace_id user_id action s ≡ (ok tt, s)
  unfolding authorize_locked
  granted action may = rw (may.joined, may.allowed) refl

  seen :
      (ws : Workspace) (m : Member)
      → is_blank user_id ≡ false
      → Dict.get s.workspaces workspace_id ≡ some ws
      → member_of workspace_id user_id s ≡ some m
      → get_workspace none user_id workspace_id s ≡ (ok ws, s)
  unfolding get_workspace
  seen ws m somebody known joined = rw (somebody, known, joined, get_workspace) refl

  module _ (req : ConnectResourceRequest) where
    connect_allowed-ok :
        s.store ≡ none
        → repository_duplicate_locked workspace_id req s ≡ false
        → let (r, t) = connect_allowed user_id workspace_id req s in
          (made : Resource) × (r ≡ ok made)
          × (Dict.get t.repositories made.id ≡ some made)
          × (made.workspace_id ≡ workspace_id)
          × (made.clone_url ≡ req.clone_url)
    unfolding connect_allowed
    connect_allowed-ok alone free =
        rw (free, connect_allowed) simp alone
          (elim (Option-cases s.graph) [
            | inl absent ↦ simp absent (made, refl, rw (get-put, eq_refl) refl, refl, refl)
            | inr (project, there) ↦ simp there (made, refl, rw (get-put, eq_refl) refl, refl, refl)
          ])
      where
        made : Resource
        made =
            made_resource (repository_id (s.clock s.world).0 (next_seq s.seq)) workspace_id user_id
              req (s.clock s.world).0

    connect_visible-allowed :
        (ws : Workspace)
        → s.store ≡ none
        → Dict.get s.workspaces workspace_id ≡ some ws
        → May s workspace_id user_id Action.connect_resource
        → connect_visible none user_id workspace_id req s
          ≡ connect_allowed user_id workspace_id req s
    unfolding connect_visible connect_locked
    connect_visible-allowed ws alone known may =
        simp alone rw (known, connect_locked)
          (ap (λ p. continue p.0 (λ _. connect_allowed user_id workspace_id req) p.1)
            (granted Action.connect_resource may))

  -- Connecting a valid resource, by a named member who may, to a known workspace that has it not yet,
  -- without a durable store, succeeds: the resource is stored under its id, in that workspace and with
  -- the trimmed clone URL.
  connect_resource_ok :
      (requested : ConnectResourceRequest) (ws : Workspace)
      → s.store ≡ none
      → is_blank user_id ≡ false
      → valid_repository_request (normalized_repository_request requested) ≡ true
      → Dict.get s.workspaces workspace_id ≡ some ws
      → May s workspace_id user_id Action.connect_resource
      → repository_duplicate_locked workspace_id (normalized_repository_request requested) s ≡ false
      → let (r, t) = connect_resource none user_id workspace_id requested s in
        (made : Resource) × (r ≡ ok made)
        × (Dict.get t.repositories made.id ≡ some made)
        × (made.workspace_id ≡ workspace_id)
        × (made.clone_url ≡ (normalized_repository_request requested).clone_url)
  unfolding connect_resource
  connect_resource_ok requested ws alone somebody fine known may free =
      rw reduced (connect_allowed-ok (normalized_repository_request requested) alone free)
    where
      rest : Workspace → Exec (MemoryService W) Resource
      rest _ = connect_visible none user_id workspace_id (normalized_repository_request requested)

      reduced :
          connect_resource none user_id workspace_id requested s
          ≡ connect_allowed user_id workspace_id (normalized_repository_request requested) s
      reduced =
          rw (somebody, fine, connect_resource)
            (ap (λ p. continue p.0 rest p.1) (seen ws may.member somebody known may.joined)
              ∙ connect_visible-allowed (normalized_repository_request requested) ws alone known
                  may)
