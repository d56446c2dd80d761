-- ===== src/Workspace/Outcomes/Connecting.antt =====
-- internal/workspace/memory.go: what ConnectResource leaves behind when there is no durable store.
use runspace.Workspace.Outcomes.{IsSame, unchanged, continue-from}
use runspace.Prelude.{
  ℕ, ◌≡◌, refl, ap, ◌⊎◌, inl, inr, String, false, Option, none, some, Bool-cases, Option-cases,
}
use runspace.Text.{is_blank}
use runspace.Dict
use runspace.Dict.{Dict, get-put}
use runspace.Errors.{Error, Result, ok, err}
use runspace.Exec.{continue, Exec}
use runspace.Workspace.Policy.{Action}
use runspace.Workspace.{
  Workspace, Resource, ConnectResourceRequest, MemoryService, member_of, authorize_locked,
  get_workspace,
}
use runspace.Workspace.Authority.{May, authorize_locked-cases}
use runspace.Workspace.Resources.{
  connect_resource, connect_locked, connect_allowed, connect_visible, valid_repository_request,
  made_resource, repository_duplicate_locked, normalized_repository_request,
}

module _ {W : Type 0} where
  pub record Connected (user_id workspace_id : String) (req : ConnectResourceRequest)
      (s t : MemoryService W) : Type 0 where
    pub id : String
    pub now : ℕ
    pub may : May s workspace_id user_id Action.connect_resource
    pub is_new : repository_duplicate_locked workspace_id req s ≡ false
    pub workspaces : t.workspaces ≡ s.workspaces
    pub members : t.members ≡ s.members
    pub repositories :
        t.repositories ≡ Dict.put s.repositories id (made_resource id workspace_id user_id req now)

  connect_locked-outcome :
      (user_id workspace_id : String) (req : ConnectResourceRequest) (s : MemoryService W)
      → s.store ≡ none
      → let t = (connect_locked user_id workspace_id req s).1 in
        IsSame s t ⊎ Connected user_id workspace_id req s t
  unfolding connect_locked
  connect_locked-outcome user_id workspace_id req s alone =
      elim (Option-cases (Dict.get s.workspaces workspace_id)) [
        | inl unknown ↦ rw (unknown, connect_locked) (inl (unchanged s))
        | inr (ws, known) ↦
            rw (known, connect_locked)
              (elim (authorize_locked-cases s workspace_id user_id Action.connect_resource) [
                | inr (e, denied) ↦
                    continue-from Fine
                      (authorize_locked workspace_id user_id Action.connect_resource) allowed s
                      (err e, s) denied (inl (unchanged s))
                | inl (granted, may) ↦
                    continue-from Fine
                      (authorize_locked workspace_id user_id Action.connect_resource) allowed s
                      (ok tt, s) granted
                      (elim (Bool-cases (repository_duplicate_locked workspace_id req s)) [
                        | inl taken ↦
                            unfold connect_allowed in
                            rw (taken, connect_allowed) (inl (unchanged s))
                        | inr free ↦
                            unfold connect_allowed in
                            rw (free, connect_allowed) simp alone
                              (elim (Option-cases s.graph) [
                                | inl absent ↦ simp absent (
                                    inr (record {
                                      id = _;
                                      now = _;
                                      may = may;
                                      is_new = free;
                                      workspaces = refl;
                                      members = refl;
                                      repositories = refl;
                                    }))
                                | inr (project, there) ↦ simp there (
                                    inr (record {
                                      id = _;
                                      now = _;
                                      may = may;
                                      is_new = free;
                                      workspaces = refl;
                                      members = refl;
                                      repositories = refl;
                                    }))
                              ])
                      ])
              ])
      ]
    where
      Fine : MemoryService W → Type 0
      Fine t = IsSame s t ⊎ Connected user_id workspace_id req s t

      allowed : Unit {0} → Exec (MemoryService W) Resource
      allowed u = connect_allowed user_id workspace_id req

  get_workspace-local :
      (user_id id : String) (s : MemoryService W)
      → s.store ≡ none
      → (get_workspace none user_id id s).1 ≡ s
  unfolding get_workspace
  get_workspace-local user_id id s alone = elim (Bool-cases (is_blank user_id)) [
    | inl nobody ↦ rw (nobody, get_workspace) refl
    | inr somebody ↦ elim (Option-cases (Dict.get s.workspaces id)) [
      | inl unknown ↦ rw (somebody, unknown, get_workspace) simp alone refl
      | inr (ws, known) ↦ elim (Option-cases (member_of id user_id s)) [
        | inl absent ↦ rw (somebody, known, absent, get_workspace) refl
        | inr (m, there) ↦ rw (somebody, known, there, get_workspace) refl
      ]
    ]
  ]

  -- Without a durable store, connecting a resource leaves the workspaces, members and resources as
  -- they were, or the caller may connect resources, the request is no duplicate, and the resource of
  -- the trimmed request is put in, and nothing else changes.
  pub connect_resource-outcome :
      (ctx : Option Error) (user_id workspace_id : String) (requested : ConnectResourceRequest)
      (s : MemoryService W)
      → s.store ≡ none
      → let t = (connect_resource ctx user_id workspace_id requested s).1 in
        IsSame s t ⊎ Connected user_id workspace_id (normalized_repository_request requested) s t
  unfolding connect_resource
  connect_resource-outcome (some e) user_id workspace_id requested s alone = inl (unchanged s)
  connect_resource-outcome none user_id workspace_id requested s alone =
      elim (Bool-cases (is_blank user_id)) [
        | inl nobody ↦ rw (nobody, connect_resource) (inl (unchanged s))
        | inr somebody ↦ elim (Bool-cases (valid_repository_request req)) [
          | inr refused ↦ rw (somebody, refused, connect_resource) (inl (unchanged s))
          | inl fine ↦
              rw (somebody, fine, connect_resource)
                (seen (get_workspace none user_id workspace_id s).0 (
                  ap (λ t. ((get_workspace none user_id workspace_id s).0, t))
                    (get_workspace-local user_id workspace_id s alone)))
        ]
      ]
    where
      req : ConnectResourceRequest
      req = normalized_repository_request requested

      Fine : MemoryService W → Type 0
      Fine t = IsSame s t ⊎ Connected user_id workspace_id req s t

      seen :
          (r : Result Workspace)
          → get_workspace none user_id workspace_id s ≡ (r, s)
          → Fine
              (continue
                (get_workspace none user_id workspace_id s).0
                (λ _. connect_visible none user_id workspace_id req)
                (get_workspace none user_id workspace_id s).1).1
      seen (ok ws) h =
          continue-from Fine (get_workspace none user_id workspace_id) _ s (ok ws, s) h
            (unfold connect_visible in
              simp alone (connect_locked-outcome user_id workspace_id req s alone))
      seen (err e) h =
          continue-from Fine (get_workspace none user_id workspace_id) _ s (err e, s) h
            (inl (unchanged s))
