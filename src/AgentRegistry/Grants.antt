-- ===== src/AgentRegistry/Grants.antt =====
-- internal/agentregistry/task_grants.go: what a task's owner lets others do with it.
use runspace.Prelude.{
  ℕ, String, Bool, true, false, not, ◌&&◌, Option, none, some, List, [], ◌∷◌, ◌==◌, select, some_of,
  is_empty, is_some, if◌then◌else◌,
}
use runspace.Text.{trim_space, is_blank}
use runspace.Dict
use runspace.Dict.{Dict}
use runspace.Errors.{Result, ok, err, registry_unauthorized, registry_invalid_input}
use runspace.Exec.{Exec, pure, gets, modify, fail_if, ◌>>=◌, ◌>>◌}
use runspace.AgentRegistry.{
  AgentTask, TaskGrant, TaskGrantStore, Authorizer, Service, dict_at, call, read_clock, check_read,
  owns,
}
use runspace.AgentRegistry.Tasks.{task_access, grant_of}

abbrev pub viewer_permissions : List String
viewer_permissions = "task.view" ∷ "artifact.view" ∷ []

abbrev pub contributor_permissions : List String
contributor_permissions = "task.view" ∷ "task.contribute" ∷ "artifact.view" ∷ "artifact.share" ∷ []

abbrev pub operator_permissions : List String
operator_permissions =
    "task.view" ∷ "task.contribute" ∷ "task.control" ∷ "artifact.view" ∷ "artifact.share" ∷ []

abbrev pub approver_permissions : List String
approver_permissions = "task.view" ∷ "task.approve" ∷ "artifact.view" ∷ []

-- none where Go returns nil and false
abbrev pub task_role_permissions : String → Option (List String)
task_role_permissions role =
    let name = trim_space role in
    if name == "viewer"
    then some viewer_permissions
    else if name == "contributor"
    then some contributor_permissions
    else if name == "operator"
    then some operator_permissions
    else if name == "approver"
    then some approver_permissions
    else none

abbrev trimmed_grant : String → TaskGrant → TaskGrant
trimmed_grant caller_id grant = record grant {
  task_id = trim_space grant.task_id;
  workspace_id = trim_space grant.workspace_id;
  agent_id = trim_space grant.agent_id;
  principal_id = trim_space grant.principal_id;
  owner_id = caller_id;
}

abbrev named_grant : TaskGrant → Bool
named_grant grant =
    not (is_empty grant.task_id)
    && not (is_empty grant.workspace_id)
    && not (is_empty grant.principal_id)
    && is_some (task_role_permissions grant.role)

abbrev or_no_permissions : Option (List String) → List String
or_no_permissions none = []
or_no_permissions (some permissions) = permissions

abbrev made_grant : TaskGrant → ℕ → TaskGrant
made_grant grant now = record grant {
  role = trim_space grant.role;
  permissions = or_no_permissions (task_role_permissions grant.role);
  created_at = now;
  updated_at = now;
}

-- task.OwnerID == callerID and the task's workspace and agent are those of the grant
abbrev pub fits_grant : String → TaskGrant → Result (AgentTask × List String) → Bool
fits_grant caller_id grant (err e) = false
fits_grant caller_id grant (ok (task, permissions)) =
    task.owner_id == caller_id
    && task.workspace_id == grant.workspace_id
    && task.agent_id == grant.agent_id

abbrev created_first : Option TaskGrant → TaskGrant → TaskGrant
created_first none grant = grant
created_first (some existing) grant = record grant { created_at = existing.created_at }

module _ {W : Type 0} where
  unfoldable pub remember_task_grant : TaskGrant → Service W → Service W
  remember_task_grant grant s = record s {
    grants = Dict.put s.grants grant.task_id (
        Dict.put (dict_at s.grants grant.task_id) grant.principal_id
          (created_first (grant_of grant.task_id grant.principal_id s) grant));
  }

  validate_task_principal : String → TaskGrant → Option (Authorizer W) → Exec (Service W) (Unit {0})
  validate_task_principal caller_id grant none = pure tt
  validate_task_principal caller_id grant (some authorizer) = do
    call (authorizer.can_read grant.workspace_id caller_id)
    members ← call (authorizer.list_members caller_id grant.workspace_id)
    fail_if (not (some_of (λ user_id. user_id == grant.principal_id) members))
        registry_invalid_input

  store_grant : Option (TaskGrantStore W) → TaskGrant → Exec (Service W) (Unit {0})
  store_grant none grant = pure tt
  store_grant (some store) grant = call (store.upsert_agent_task_grant grant)

  owned_agent : Bool → String → String → Exec (Service W) Bool
  owned_agent false caller_id agent_id = pure false
  owned_agent true caller_id agent_id = owns caller_id agent_id

  -- task, _, err := s.taskAccess(…), and the test of both
  owned_task : String → TaskGrant → Exec (Service W) Bool
  unfolding task_access
  owned_task caller_id grant s =
      let (r, s') = task_access caller_id grant.task_id s in (ok (fits_grant caller_id grant r), s')

  unfoldable pub grant_task_access : String → TaskGrant → Exec (Service W) TaskGrant
  unfolding owned_agent owned_task validate_task_principal store_grant remember_task_grant
  grant_task_access caller requested = do
    let caller_id = trim_space caller
    let grant = trimmed_grant caller_id requested
    fail_if (is_empty caller_id) registry_unauthorized
    owned ← owned_agent (named_grant grant) caller_id grant.agent_id
    fail_if (not owned) registry_invalid_input
    fits ← owned_task caller_id grant
    fail_if (not fits) registry_invalid_input
    authorizer ← gets (λ s. s.authorizer)
    validate_task_principal caller_id grant authorizer
    now ← read_clock
    let made = made_grant grant now
    store ← gets (λ s. s.grant_store)
    store_grant store made
    modify (remember_task_grant made)
    pure made

  grants_from :
      String → String → String → Option (TaskGrantStore W) → Exec (Service W) (List TaskGrant)
  grants_from caller_id workspace_id task_id (some store) =
      call (store.list_agent_task_grants task_id caller_id)
  grants_from caller_id workspace_id task_id none = gets (λ s.
      select (λ item. item.owner_id == caller_id && item.workspace_id == workspace_id)
        (Dict.values (dict_at s.grants task_id)))

  unfoldable pub list_task_grants :
      String → String → String → String → Exec (Service W) (List TaskGrant)
  unfolding owned_agent grants_from
  list_task_grants caller_id workspace_id task_id agent_id = do
    fail_if (is_blank caller_id) registry_unauthorized
    owned ← owned_agent (not (is_empty task_id) && not (is_empty workspace_id)) caller_id agent_id
    fail_if (not owned) registry_invalid_input
    authorizer ← gets (λ s. s.authorizer)
    check_read authorizer workspace_id caller_id
    store ← gets (λ s. s.grant_store)
    grants_from caller_id workspace_id task_id store
