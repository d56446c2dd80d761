-- ===== src/Runs/Ending.antt =====
-- internal/runs/service.go, io.go, history.go and retry.go: stopping a run, following its output to
-- the end, sending it input, and listing.
use runspace.Prelude.{
  ℕ, ◌+◌, String, not, Option, none, some, List, [], ◌∷◌, ◌==◌, select, is_empty, if◌then◌else◌,
  ◌%◌,
}
use Prim.Native.String
use runspace.Text.Decimal.{decimal}
use runspace.Dict
use runspace.Dict.{Dict}
use runspace.Errors.{Result, message}
use runspace.Exec.{Exec, pure, fail, gets, modify, or_fail, fail_if}
use runspace.Contracts.Run.{RunState, SpawnRequest, AgentOutput, same_state}
use runspace.Contracts.Event.{EventEnvelope, new_event}
use runspace.Runs.{
  Run, Output, Agent, Store, Codec, Service, call, try_call, read_clock, notify, ◌>>=◌, ◌>>◌, moved,
  publish, send_event, save_run, get, agent_for, create,
}

-- The next value of a uint64 counter.
abbrev pub next_sequence : Option ℕ → ℕ
next_sequence none = 1
next_sequence (some n) = (n + 1) % 18446744073709551616

-- The value of a missing key of the map of runs.
abbrev pub zero_run : Run
zero_run = record {
  id = "";
  workspace_id = "";
  thread_id = "";
  channel_id = "";
  repository_id = "";
  prompt = "";
  agent_command = "";
  working_directory = "";
  status = RunState.queued;
  created_at = 0;
  updated_at = 0;
}

abbrev pub or_zero_run : Option Run → Run
or_zero_run none = zero_run
or_zero_run (some r) = r

abbrev pub retry_spawn_request : Run → String → SpawnRequest
retry_spawn_request old new_id = record {
  run_id = new_id;
  workspace_id = old.workspace_id;
  thread_id = old.thread_id;
  channel_id = old.channel_id;
  repository = old.repository_id;
  prompt = old.prompt;
  agent_command = old.agent_command;
  working_directory = old.working_directory;
}

abbrev output_id : Run → AgentOutput → ℕ → String
output_id run output sequence =
    String.◌++◌ run.id
      (String.◌++◌ "-output-" (String.◌++◌ output.kind (String.◌++◌ "-" (decimal sequence))))

-- The event of an output.
abbrev output_event : Codec → Run → AgentOutput → String → Result EventEnvelope
output_event codec run output event_id =
    new_event codec.json_valid event_id "agent.output" run.workspace_id
      (String.◌++◌ "agent-" run.id) "agent"
      (codec.output_json
        (record { output = output; thread_id = run.thread_id; channel_id = run.channel_id }))
      run.updated_at

module _ {W : Type 0} (codec : Codec) where
  -- if r.Status == from { r.Status = to; r.UpdatedAt = now; s.runs[id] = r }
  unfoldable pub move_from : RunState → RunState → String → Run → Exec (Service W) Run
  unfolding ◌>>=◌ read_clock
  move_from from to id r =
      if same_state r.status from
      then (do
        now ← read_clock
        modify (λ s. record s { runs = Dict.put s.runs id (moved to now r) })
        pure (moved to now r))
      else pure r

  -- The part of `Stop` up to the first unlock, and the one under the second lock.
  unfoldable pub stop_begin_locked : String → Exec (Service W) Run
  unfolding ◌>>=◌
  stop_begin_locked id = do
    found ← gets (λ s. Dict.get s.runs id)
    r ← or_fail found (message "run not found")
    move_from RunState.running RunState.stopping id r

  unfoldable pub stop_end_locked : String → Exec (Service W) Run
  unfolding ◌>>=◌
  stop_end_locked id = do
    found ← gets (λ s. Dict.get s.runs id)
    move_from RunState.stopping RunState.cancelled id (or_zero_run found)

  -- cancel := s.cancelRun(id); if cancel != nil { cancel() }
  cancel_run : Option ℕ → Exec (Service W) (Unit {0})
  cancel_run none = pure tt
  cancel_run (some context) = modify (λ s. record s { cancelled = context ∷ s.cancelled })

  unfoldable pub stop_agent : Option (Agent W) → String → Exec (Service W) (Unit {0})
  unfolding cancel_run ◌>>=◌ try_call
  stop_agent none id = pure tt
  stop_agent (some agent) id = do
    context ← gets (λ s. Dict.get s.run_cancels id)
    cancel_run context
    try_call (agent.stop id)
    pure tt

  unfoldable pub stop : String → Exec (Service W) Run
  stop id = do
    r ← stop_begin_locked id
    save_run codec r
    publish codec "run.stop_requested" r
    agent ← gets (agent_for codec id)
    stop_agent agent id
    ended ← stop_end_locked id
    save_run codec ended
    publish codec "run.stopped" ended
    pure ended

  unfoldable pub publish_output : Run → AgentOutput → Exec (Service W) (Unit {0})
  unfolding send_event ◌>>=◌ notify read_clock
  publish_output run output = do
    sequence ← gets (λ s. next_sequence (Dict.get s.output_seq run.id))
    modify (λ s. record s { output_seq = Dict.put s.output_seq run.id sequence })
    now ← read_clock
    store ← gets (λ s. s.store)
    notify store (λ st. st.save_output (record {
      id = output_id run output sequence;
      run_id = run.id;
      kind = output.kind;
      text = output.text;
      sequence = sequence;
      created_at = now;
    }))
    publisher ← gets (λ s. s.publisher)
    send_event codec publisher (output_event codec run output (output_id run output sequence))

  -- for item := range output { … }: the items that the stream delivers until it is closed
  unfoldable pub consume_items : String → List AgentOutput → Exec (Service W) (Unit {0})
  consume_items id [] = pure tt
  consume_items id (item ∷ items) = do
    run ← get codec id
    publish_output run item
    consume_items id items

  unfoldable pub finish_found : String → Option Run → Exec (Service W) (Option Run)
  unfolding ◌>>=◌
  finish_found id none = pure none
  finish_found id (some r) = do
    run ← move_from RunState.running RunState.succeeded id r
    save_run codec run
    pure (some run)

  unfoldable pub finish_locked : String → Exec (Service W) (Option Run)
  unfolding ◌>>=◌
  finish_locked id = do found ← gets (λ s. Dict.get s.runs id); finish_found id found

  unfoldable pub publish_finished : Option Run → Exec (Service W) (Unit {0})
  publish_finished none = pure tt
  publish_finished (some run) = publish codec "run.finished" run

  unfoldable pub clear_run_context : String → Exec (Service W) (Unit {0})
  unfolding cancel_run ◌>>=◌
  clear_run_context id = do
    context ← gets (λ s. Dict.get s.run_cancels id)
    cancel_run context
    modify (λ s. record s {
      run_cancels = Dict.remove s.run_cancels id;
      run_contexts = Dict.remove s.run_contexts id;
    })

  unfoldable pub consume : String → List AgentOutput → Exec (Service W) (Unit {0})
  consume id items = do
    consume_items id items
    finished ← finish_locked id
    publish_finished finished
    clear_run_context id

  send_input : Option (Agent W) → String → String → Exec (Service W) (Unit {0})
  send_input none id text = fail (message "agent does not accept input")
  send_input (some agent) id text = elim agent.send [
    | none ↦ fail (message "agent does not accept input")
    | some send ↦ call (send id text)
  ]

  pub input : String → String → Exec (Service W) (Unit {0})
  input id text = do
    fail_if (is_empty text) (message "input is required")
    run ← get codec id
    fail_if (not (same_state run.status RunState.running)) (message "run is not running")
    agent ← gets (agent_for codec id)
    send_input agent id text
    publish codec "run.input" run

  outputs_of : String → Option (Store W) → Exec (Service W) (List Output)
  outputs_of id none = pure []
  outputs_of id (some store) = call (store.list_outputs id)

  pub list_outputs : String → Exec (Service W) (List Output)
  unfolding outputs_of ◌>>=◌ call
  list_outputs id = do store ← gets (λ s. s.store); outputs_of id store

  runs_of : String → Option (Store W) → List Run → Exec (Service W) (List Run)
  runs_of thread_id none local = pure local
  runs_of thread_id (some store) local = call (store.list_runs thread_id)

  pub list_runs : String → Exec (Service W) (List Run)
  unfolding runs_of ◌>>=◌ call
  list_runs thread_id = do
    local ← gets (λ s. select (λ r. r.thread_id == thread_id) (Dict.values s.runs))
    store ← gets (λ s. s.store)
    runs_of thread_id store local

  pub retry : String → String → Exec (Service W) Run
  retry id new_id = do
    old ← get codec id
    fail_if (is_empty new_id) (message "new run ID required")
    create codec (retry_spawn_request old new_id)
