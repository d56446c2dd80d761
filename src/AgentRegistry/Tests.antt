-- ===== src/AgentRegistry/Tests.antt =====
-- Concrete runs of the agent registry.
use runspace.Prelude.{ℕ, ◌+◌, ◌≡◌, refl, none, some, [], if◌then◌else◌}
use runspace.Text.{trim_space, is_blank}
use runspace.Dict
use runspace.Dict.{Dict}
use runspace.Errors.{ok, err, task_unavailable}
use runspace.AgentRegistry.{AgentTask, TaskGrant, MessageWriter, TaskExecutor, Service, new}
use runspace.AgentRegistry.Tasks.{contains, put_task, access_for}
use runspace.AgentRegistry.Work.{input_task}
use runspace.AgentRegistry.Grants.{remember_task_grant, contributor_permissions}
use runspace.AgentRegistry.Access.{
  MayUse, input_task-MayUse, remember_task_grant-access, put_task-takes_over,
}

abbrev task : AgentTask
task = record {
  id = "local_session_1";
  workspace_id = "w";
  thread_id = "t";
  owner_id = "u";
  agent_id = "local_agent_1";
  resource_id = "r";
  title = "build";
  status = "ready";
  updated_at = 1;
  created_at = 1;
}

abbrev grant : TaskGrant
grant = record {
  task_id = "local_session_1";
  workspace_id = "w";
  owner_id = "u";
  agent_id = "local_agent_1";
  principal_id = "v";
  role = "contributor";
  permissions = contributor_permissions;
  expires_at = none;
  created_at = 2;
  updated_at = 2;
}

abbrev executor : TaskExecutor ℕ
executor = record { prompt = λ task input w. (ok [], w); cancel = λ task w. (ok tt, w) }

abbrev writer : MessageWriter ℕ
writer = record {
  create_agent_message =
      λ user agent ws thread body w. (ok (record { id = "m"; created_at = w }), w);
  create_agent_activity =
      λ user agent ws thread body w. (ok (record { id = "m"; created_at = w }), w);
}

abbrev service : Service ℕ
service = record (new (λ w. (w + 1, w + 1)) none 4) {
  executor = some executor;
  messages = some writer;
  tasks = Dict.put Dict.empty "local_session_1" task;
}

input_task-MayUse_example :
    (t : AgentTask) × MayUse service "task.contribute" "u" "local_session_1" t
unfolding input_task is_blank trim_space Dict.get Dict.put Dict.empty
input_task-MayUse_example = input_task-MayUse "u" "local_session_1" service "go on" [] refl refl

remember_task_grant-access_example :
    (access_for "task.control" "v" "local_session_1" (remember_task_grant grant service)).0
    ≡ (if contains contributor_permissions "task.control" then ok task else err task_unavailable)
unfolding Dict.get Dict.put Dict.empty
remember_task_grant-access_example =
    remember_task_grant-access grant service "task.control" task refl refl refl refl

put_task-takes_over_example :
    let (r, t) = put_task "v" task service in
    (mine : AgentTask) × (r ≡ ok mine)
    × (Dict.get t.tasks "local_session_1" ≡ some mine)
    × (mine.owner_id ≡ "v")
    × (mine.created_at ≡ 1)
unfolding Dict.get Dict.put Dict.empty
put_task-takes_over_example = put_task-takes_over "v" task service task refl refl
