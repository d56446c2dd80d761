-- ===== src/AgentRegistry/Tasks.antt =====
-- internal/agentregistry/tasks.go: the tasks of agents, and who may see, feed and end them.

use runspace.Prelude.{
  ℕ, String, Bool, true, false, not, ◌&&◌, ◌||◌, Option, none, some, List, [], ◌∷◌, ◌==◌, select,
  some_of, ltb, is_empty, if◌then◌else◌,
}
use runspace.Text.{trim_space, is_blank, has_prefix}
use runspace.Dict
use runspace.Dict.{Dict}
use runspace.Errors.{
  Result, ok, err, registry_unauthorized, registry_invalid_input, task_unavailable,
}
use runspace.Exec.{Exec, pure, fail, gets, modify, fail_if, ◌>>=◌, ◌>>◌}
use runspace.AgentRegistry.{
  AgentTask, TaskGrant, TaskStore, GraphProjector, Service, dict_at, call, try_call, read_clock,
  check_read, owns,
}

abbrev pub contains : List String → String → Bool
contains items target = some_of (λ item. item == target) items

-- The text that is compared is trimmed, the one returned is not.
abbrev pub normalize_task_status : String → String
normalize_task_status status =
    if contains ("running" ∷ "completed" ∷ "failed" ∷ "cancelled" ∷ []) (trim_space status)
    then status
    else "ready"

abbrev trimmed_task : AgentTask → AgentTask
trimmed_task task = record task {
  id = trim_space task.id;
  workspace_id = trim_space task.workspace_id;
  thread_id = trim_space task.thread_id;
  agent_id = trim_space task.agent_id;
  resource_id = trim_space task.resource_id;
  title = trim_space task.title;
}

abbrev pub named_task : AgentTask → Bool
named_task task =
    has_prefix task.id "local_session_"
    && not (is_empty task.workspace_id)
    && not (is_empty task.thread_id)
    && not (is_empty task.resource_id)
    && not (is_empty task.title)

abbrev pub created_or : ℕ → Option AgentTask → ℕ
created_or now none = now
created_or now (some existing) = existing.created_at

-- grant.ExpiresAt != nil && grant.ExpiresAt.Before(now)
abbrev pub is_past : ℕ → Option ℕ → Bool
is_past now none = false
is_past now (some t) = ltb t now

-- grant.ExpiresAt == nil || grant.ExpiresAt.After(now)
abbrev pub is_ahead : ℕ → Option ℕ → Bool
is_ahead now none = true
is_ahead now (some t) = ltb now t

abbrev pub owner_permissions : List String
owner_permissions = "task.view" ∷ "task.contribute" ∷ "task.control" ∷ "artifact.share" ∷ []

abbrev pub expiry_of : Option TaskGrant → Option ℕ
expiry_of none = none
expiry_of (some grant) = grant.expires_at

abbrev pub permissions_of : Option TaskGrant → List String
permissions_of none = []
permissions_of (some grant) = grant.permissions

abbrev pub may_use : String → String → Result (AgentTask × List String) → Result AgentTask
may_use caller_id permission (err e) = err task_unavailable
may_use caller_id permission (ok (task, permissions)) =
    if contains permissions permission || task.owner_id == caller_id
    then ok task
    else err task_unavailable

module _ {W : Type 0} where
  abbrev pub grant_of : String → String → Service W → Option TaskGrant
  grant_of task_id principal_id s = Dict.get (dict_at s.grants task_id) principal_id

  unfoldable pub project_task : Option (GraphProjector W) → AgentTask → Exec (Service W) (Unit {0})
  project_task none task = pure tt
  project_task (some graph) task = do try_call (graph.project_agent_task task); pure tt

  store_task : Option (TaskStore W) → AgentTask → Exec (Service W) (Unit {0})
  store_task none task = pure tt
  store_task (some store) task = call (store.upsert_agent_task task)

  -- From the clock's reading on.
  unfoldable pub put_task : String → AgentTask → Exec (Service W) AgentTask
  unfolding project_task store_task
  put_task caller_id task = do
    now ← read_clock
    existing ← gets (λ s. Dict.get s.tasks task.id)
    let dated : AgentTask = record task {
      owner_id = caller_id;
      status = normalize_task_status task.status;
      updated_at = now;
      created_at = created_or now existing;
    }
    modify (λ s. record s { tasks = Dict.put s.tasks dated.id dated })
    store ← gets (λ s. s.task_store)
    store_task store dated
    graph ← gets (λ s. s.graph)
    project_task graph dated
    pure dated

  -- The agent's ownership is asked for only where the other tests pass.
  owned_agent : Bool → String → String → Exec (Service W) Bool
  owned_agent false caller_id agent_id = pure false
  owned_agent true caller_id agent_id = owns caller_id agent_id

  unfoldable pub upsert_task : String → AgentTask → Exec (Service W) AgentTask
  unfolding owned_agent
  upsert_task caller requested = do
    let caller_id = trim_space caller
    let task = trimmed_task requested
    fail_if (is_empty caller_id) registry_unauthorized
    owned ← owned_agent (named_task task) caller_id task.agent_id
    fail_if (not owned) registry_invalid_input
    authorizer ← gets (λ s. s.authorizer)
    check_read authorizer task.workspace_id caller_id
    put_task caller_id task

  -- The clock is read only for a grant that expires.
  unfoldable pub read_clock_for : Option ℕ → Exec (Service W) ℕ
  read_clock_for none = pure 0
  read_clock_for (some t) = read_clock

  unfoldable pub grant_access :
      AgentTask → Option TaskGrant → Exec (Service W) (AgentTask × List String)
  unfolding read_clock_for
  grant_access task grant = do
    now ← read_clock_for (expiry_of grant)
    fail_if (is_past now (expiry_of grant)) task_unavailable
    pure (task, permissions_of grant)

  unfoldable pub local_access :
      String → String → Option AgentTask → Exec (Service W) (AgentTask × List String)
  unfolding grant_access
  local_access caller_id task_id none = fail task_unavailable
  local_access caller_id task_id (some task) =
      if task.owner_id == caller_id
      then pure (task, owner_permissions)
      else (do grant ← gets (grant_of task_id caller_id); grant_access task grant)

  unfoldable pub access_from :
      String → String → Option (TaskStore W) → Exec (Service W) (AgentTask × List String)
  unfolding local_access
  access_from caller_id task_id (some store) = call (store.get_agent_task_access task_id caller_id)
  access_from caller_id task_id none = do
    found ← gets (λ s. Dict.get s.tasks task_id)
    local_access caller_id task_id found

  unfoldable pub task_access : String → String → Exec (Service W) (AgentTask × List String)
  unfolding access_from
  task_access caller_id task_id = do
    store ← gets (λ s. s.task_store)
    access_from caller_id task_id store

  -- The task, if the caller has the permission or owns it; any error reads as not available.
  unfoldable pub access_for : String → String → String → Exec (Service W) AgentTask
  unfolding task_access
  access_for permission caller_id task_id s =
      let (r, s') = task_access caller_id task_id s in (may_use caller_id permission r, s')

  unfoldable pub has_grant_locked : String → String → String → Exec (Service W) Bool
  unfolding read_clock_for
  has_grant_locked task_id principal_id permission = do
    grant ← gets (grant_of task_id principal_id)
    now ← read_clock_for (expiry_of grant)
    pure (is_ahead now (expiry_of grant) && contains (permissions_of grant) permission)

  -- task.OwnerID == callerID || s.hasGrantLocked(…)
  sees : String → AgentTask → Exec (Service W) Bool
  unfolding has_grant_locked
  sees caller_id task =
      if task.owner_id == caller_id
      then pure true
      else has_grant_locked task.id caller_id "task.view"

  visible_tasks : String → List AgentTask → Exec (Service W) (List AgentTask)
  unfolding sees
  visible_tasks caller_id [] = pure []
  visible_tasks caller_id (task ∷ tasks) = do
    seen ← sees caller_id task
    rest ← visible_tasks caller_id tasks
    pure (if seen then task ∷ rest else rest)

  tasks_from : String → String → String → Option (TaskStore W) → Exec (Service W) (List AgentTask)
  unfolding visible_tasks
  tasks_from caller_id workspace_id thread_id (some store) =
      call (store.list_agent_tasks workspace_id thread_id caller_id)
  tasks_from caller_id workspace_id thread_id none = do
    tasks ← gets (λ s. Dict.values s.tasks)
    visible_tasks caller_id
        (select (λ t. t.workspace_id == workspace_id && t.thread_id == thread_id) tasks)

  unfoldable pub list_tasks : String → String → String → Exec (Service W) (List AgentTask)
  unfolding tasks_from
  list_tasks caller_id workspace_id thread_id = do
    fail_if (is_blank caller_id) registry_unauthorized
    fail_if (is_empty workspace_id || is_empty thread_id) registry_invalid_input
    authorizer ← gets (λ s. s.authorizer)
    check_read authorizer workspace_id caller_id
    store ← gets (λ s. s.task_store)
    tasks_from caller_id workspace_id thread_id store
