-- ===== src/Workspace/Resources.antt =====
-- internal/workspace/memory.go, memory_hydration.go and graph_projection.go: the resources, also called
-- repositories, of a workspace.
use Prim.Native.String
use runspace.Prelude.{
  sort_by, ℕ, ◌-◌, String, Bool, true, false, not, ◌&&◌, ◌||◌, ◌==◌, Option, none, some, List, [],
  ◌∷◌, is_empty, is_some, select, some_of, if◌then◌else◌,
}
use runspace.Text.{trim_space}
use runspace.Text.Decimal.{decimal}
use runspace.Dict
use runspace.Dict.{Dict}
use runspace.Errors.{
  Error, Result, ok, workspace_not_found, workspace_forbidden, workspace_invalid_input,
  workspace_already_exists,
}
use runspace.Exec.{Exec, pure, lift, gets, modify, fail_if, check_context, ◌>>=◌, ◌>>◌}
use runspace.Workspace.Policy.{Action}
use runspace.Workspace.{
  Resource, ConnectResourceRequest, Store, MemoryService, user_error, next_seq, raised_seq,
  member_of, call, try_call, read_clock, authorize_locked, get_workspace,
}

abbrev pub normalized_repository_request : ConnectResourceRequest → ConnectResourceRequest
normalized_repository_request req = record {
  provider = trim_space req.provider;
  full_name = trim_space req.full_name;
  clone_url = trim_space req.clone_url;
  default_branch = trim_space req.default_branch;
}

abbrev pub valid_repository_request : ConnectResourceRequest → Bool
valid_repository_request req =
    not (is_empty req.provider)
    && not (is_empty req.full_name)
    && not (is_empty req.clone_url)
    && (not (is_empty req.default_branch) || req.provider == "folder")

-- The test of one item of the loop of repositoryDuplicateLocked.
abbrev pub is_duplicate : String → ConnectResourceRequest → Resource → Bool
is_duplicate workspace_id req item =
    if not (item.workspace_id == workspace_id)
    then false
    else if req.provider == "mirror" || req.provider == "folder"
    then item.clone_url == req.clone_url
    else (item.provider == req.provider && item.full_name == req.full_name)
      || item.clone_url == req.clone_url

-- time.Time.UnixNano, for a clock between 1970 and 2262
abbrev pub unix_nano : ℕ → ℕ
unix_nano now = now - 62135596800000000000

abbrev pub repository_id : ℕ → ℕ → String
repository_id now seq =
    String.◌++◌ "repo_" (String.◌++◌ (decimal (unix_nano now)) (String.◌++◌ "_" (decimal seq)))

abbrev pub made_resource : String → String → String → ConnectResourceRequest → ℕ → Resource
made_resource id workspace_id user_id req now = record {
  id = id;
  workspace_id = workspace_id;
  provider = req.provider;
  full_name = req.full_name;
  clone_url = req.clone_url;
  default_branch = req.default_branch;
  created_by = user_id;
  created_at = now;
}

module _ {W : Type 0} where
  unfoldable pub repository_duplicate_locked :
      String → ConnectResourceRequest → MemoryService W → Bool
  repository_duplicate_locked workspace_id req s =
      some_of (is_duplicate workspace_id req) (Dict.values s.repositories)

  unfoldable pub hydrate_repositories : List Resource → MemoryService W → MemoryService W
  hydrate_repositories [] s = s
  hydrate_repositories (r ∷ rs) s =
      hydrate_repositories rs
        (record s { repositories = Dict.put s.repositories r.id r; seq = raised_seq s.seq r.id })

  local_resources : String → String → Exec (MemoryService W) (List Resource)
  local_resources user_id workspace_id = do
    known ← gets (λ s. is_some (Dict.get s.workspaces workspace_id))
    fail_if (not known) workspace_not_found
    joined ← gets (λ s. is_some (member_of workspace_id user_id s))
    fail_if (not joined) workspace_forbidden
    gets (λ s.
        sort_by (λ r. r.created_at)
          (select (λ r. r.workspace_id == workspace_id) (Dict.values s.repositories)))

  or_local_resources :
      String → String → Result (Option (List Resource)) → Exec (MemoryService W) (List Resource)
  unfolding hydrate_repositories local_resources
  or_local_resources user_id workspace_id (ok (some persisted)) = do
    modify (hydrate_repositories persisted)
    pure persisted
  or_local_resources user_id workspace_id _ = local_resources user_id workspace_id

  stored_resources : String → String → Option (Store W) → Exec (MemoryService W) (List Resource)
  unfolding local_resources or_local_resources
  stored_resources user_id workspace_id none = local_resources user_id workspace_id
  stored_resources user_id workspace_id (some store) = do
    listed ← try_call (store.list_repositories user_id workspace_id)
    or_local_resources user_id workspace_id listed

  unfoldable pub list_resources :
      Option Error → String → String → Exec (MemoryService W) (List Resource)
  unfolding stored_resources
  list_resources ctx user_id workspace_id = do
    check_context ctx
    lift (user_error user_id)
    store ← gets (λ s. s.store)
    stored_resources user_id workspace_id store

  abbrev pub list_repositories :
      Option Error → String → String → Exec (MemoryService W) (List Resource)
  list_repositories = list_resources

  create_stored : Option (Store W) → Resource → Exec (MemoryService W) (Unit {0})
  create_stored none r = pure tt
  create_stored (some store) r = call (store.create_repository r)

  project_resource :
      Option (Resource → Exec W (Unit {0})) → Resource → Exec (MemoryService W) (Unit {0})
  project_resource none r = pure tt
  project_resource (some project) r = do try_call (project r); pure tt

  -- From the test for a duplicate on.
  unfoldable pub connect_allowed :
      String → String → ConnectResourceRequest → Exec (MemoryService W) Resource
  unfolding repository_duplicate_locked create_stored project_resource
  connect_allowed user_id workspace_id req = do
    taken ← gets (repository_duplicate_locked workspace_id req)
    fail_if taken workspace_already_exists
    now ← read_clock
    modify (λ s. record s { seq = next_seq s.seq })
    seq ← gets (λ s. s.seq)
    let r = made_resource (repository_id now seq) workspace_id user_id req now
    modify (λ s. record s { repositories = Dict.put s.repositories r.id r })
    store ← gets (λ s. s.store)
    create_stored store r
    graph ← gets (λ s. s.graph)
    project_resource graph r
    pure r

  unfoldable pub connect_locked :
      String → String → ConnectResourceRequest → Exec (MemoryService W) Resource
  unfolding authorize_locked connect_allowed
  connect_locked user_id workspace_id req = do
    known ← gets (λ s. is_some (Dict.get s.workspaces workspace_id))
    fail_if (not known) workspace_not_found
    authorize_locked workspace_id user_id Action.connect_resource
    connect_allowed user_id workspace_id req

  -- if hasStore { if _, err := s.ListRepositories(…); err != nil { return err } }
  refresh : Option Error → String → String → Bool → Exec (MemoryService W) (Unit {0})
  refresh ctx user_id workspace_id false = pure tt
  refresh ctx user_id workspace_id true = do list_repositories ctx user_id workspace_id; pure tt

  -- From the refresh on, once the user may see the workspace.
  unfoldable pub connect_visible :
      Option Error → String → String → ConnectResourceRequest → Exec (MemoryService W) Resource
  unfolding connect_locked refresh
  connect_visible ctx user_id workspace_id req = do
    has_store ← gets (λ s. is_some s.store)
    refresh ctx user_id workspace_id has_store
    connect_locked user_id workspace_id req

  unfoldable pub connect_resource :
      Option Error → String → String → ConnectResourceRequest → Exec (MemoryService W) Resource
  connect_resource ctx user_id workspace_id requested = do
    check_context ctx
    lift (user_error user_id)
    let req = normalized_repository_request requested
    fail_if (not (valid_repository_request req)) workspace_invalid_input
    get_workspace ctx user_id workspace_id
    connect_visible ctx user_id workspace_id req

  abbrev pub connect_repository :
      Option Error → String → String → ConnectResourceRequest → Exec (MemoryService W) Resource
  connect_repository = connect_resource
