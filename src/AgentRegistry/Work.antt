-- ===== src/AgentRegistry/Work.antt =====
-- internal/agentregistry/tasks.go: feeding a task, cancelling it and sharing what it made.
use Prim.Native.String
use runspace.Prelude.{ℕ, zero, ◌+◌, String, Option, none, some, List, ltb, if◌then◌else◌, suc}
use runspace.Text.{trim_space, is_blank}
use runspace.Dict
use runspace.Dict.{Dict}
use runspace.Errors.{Result, ok, err, registry_invalid_input, task_unavailable}
use runspace.Exec.{Exec, pure, lift, gets, modify, or_fail, fail_if, ◌>>=◌, ◌>>◌}
use runspace.AgentRegistry.{
  ActivityStatus, AgentTask, TaskOutput, Message, TaskStore, TaskExecutor, GraphProjector, Service,
  call, try_call, read_clock, activity_body, write_activity,
}
use runspace.AgentRegistry.Tasks.{access_for, project_task}

-- The first runes of a text, and how many it has.
take_runes : ℕ → String → String
take_runes zero s = ""
take_runes (suc n) String.[] = ""
take_runes (suc n) (String.◌∷◌ c s) = String.◌∷◌ c (take_runes n s)

count_runes : String → ℕ
count_runes String.[] = 0
count_runes (String.◌∷◌ c s) = count_runes s + 1

pub artifact_title : String → String
unfolding take_runes count_runes
artifact_title body =
    let title = trim_space body in
    if ltb 72 (count_runes title) then String.◌++◌ (take_runes 71 title) "…" else title

abbrev activity_after : Result (List TaskOutput) → ActivityStatus
activity_after (ok outputs) = ActivityStatus.completed
activity_after (err e) = ActivityStatus.failed

abbrev status_after : Result (List TaskOutput) → String
status_after (ok outputs) = "completed"
status_after (err e) = "failed"

module _ {W : Type 0} where
  keep_task : Option (TaskStore W) → AgentTask → Exec (Service W) (Unit {0})
  keep_task none task = pure tt
  keep_task (some store) task = do try_call (store.upsert_agent_task task); pure tt

  unfoldable pub persist_task_status : AgentTask → String → Exec (Service W) (Unit {0})
  unfolding keep_task project_task
  persist_task_status task status = do
    now ← read_clock
    let changed : AgentTask = record task { status = status; updated_at = now }
    modify (λ s. record s { tasks = Dict.put s.tasks changed.id changed })
    store ← gets (λ s. s.task_store)
    keep_task store changed
    graph ← gets (λ s. s.graph)
    project_task graph changed

  -- Its result is dropped by the callers.
  unfoldable pub record_task_activity :
      String → AgentTask → ActivityStatus → Exec (Service W) (Unit {0})
  record_task_activity caller_id task status s =
      let (r, s') =
        write_activity s.messages (activity_body status) caller_id task.agent_id task.workspace_id
          task.thread_id s in
      (ok tt, s')

  -- From the first change on.
  unfoldable pub run_prompt :
      String → AgentTask → String → TaskExecutor W → Exec (Service W) (List TaskOutput)
  unfolding persist_task_status record_task_activity
  run_prompt caller_id task input executor = do
    persist_task_status task "running"
    record_task_activity caller_id task ActivityStatus.started
    outputs ← try_call (executor.prompt task input)
    persist_task_status task (status_after outputs)
    record_task_activity caller_id task (activity_after outputs)
    lift outputs

  unfoldable pub input_task : String → String → String → Exec (Service W) (List TaskOutput)
  unfolding access_for run_prompt
  input_task caller_id task_id input = do
    task ← access_for "task.contribute" caller_id task_id
    fail_if (is_blank input) registry_invalid_input
    found ← gets (λ s. s.executor)
    executor ← or_fail found registry_invalid_input
    run_prompt caller_id task input executor

  unfoldable pub cancel_task : String → String → Exec (Service W) (Unit {0})
  unfolding access_for persist_task_status record_task_activity
  cancel_task caller_id task_id = do
    task ← access_for "task.control" caller_id task_id
    found ← gets (λ s. s.executor)
    executor ← or_fail found registry_invalid_input
    call (executor.cancel task)
    persist_task_status task "cancelled"
    record_task_activity caller_id task ActivityStatus.cancelled

  project_artifact :
      Option (GraphProjector W)
      → String
      → AgentTask
      → Message
      → String
      → Exec (Service W) (Unit {0})
  unfolding artifact_title
  project_artifact none caller_id task message body = pure tt
  project_artifact (some graph) caller_id task message body = do
    try_call (
        graph.project_task_artifact task.id message.id task.workspace_id task.thread_id caller_id
          (artifact_title body) message.created_at)
    pure tt

  unfoldable pub share_task_artifact : String → String → String → Exec (Service W) Message
  unfolding access_for project_artifact
  share_task_artifact caller_id task_id body = do
    task ← access_for "artifact.share" caller_id task_id
    found ← gets (λ s. s.messages)
    messages ← or_fail found task_unavailable
    fail_if (is_blank body) task_unavailable
    message ← call (
        messages.create_agent_message caller_id task.agent_id task.workspace_id task.thread_id body)
    graph ← gets (λ s. s.graph)
    project_artifact graph caller_id task message body
    pure message
