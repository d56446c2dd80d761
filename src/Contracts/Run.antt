-- ===== src/Contracts/Run.antt =====
-- internal/contracts/run.go and agent.go: the states of a run and the transitions between them.
pub mod Lifecycle
use runspace.Prelude.{◌≡◌, String, Bool, true, false, ◌==◌, if◌then◌else◌}
use runspace.Errors.{Result, ok, err, message}

-- A text in the source: the six constants, and any other text, as a store may hold it.
pub data RunState : Type 0 where
  queued running stopping succeeded failed cancelled : RunState
  other : String → RunState

-- The test `from == to`.
unfoldable pub same_state : RunState → RunState → Bool
same_state RunState.queued RunState.queued = true
same_state RunState.running RunState.running = true
same_state RunState.stopping RunState.stopping = true
same_state RunState.succeeded RunState.succeeded = true
same_state RunState.failed RunState.failed = true
same_state RunState.cancelled RunState.cancelled = true
same_state (RunState.other s) (RunState.other t) = s == t
same_state _ _ = false

-- The map `allowed[from][to]`; a missing key reads as false.
pub allowed : RunState → RunState → Bool
allowed RunState.queued RunState.running = true
allowed RunState.queued RunState.cancelled = true
allowed RunState.running RunState.stopping = true
allowed RunState.running RunState.succeeded = true
allowed RunState.running RunState.failed = true
allowed RunState.running RunState.cancelled = true
allowed RunState.stopping RunState.cancelled = true
allowed RunState.stopping RunState.failed = true
allowed _ _ = false

unfoldable pub transition_run : RunState → RunState → Result (Unit {0})
unfolding same_state allowed
transition_run from to =
    if same_state from to
    then ok tt
    else if allowed from to
    then ok tt
    else err (message "invalid run transition")

pub record SpawnRequest : Type 0 where
  pub run_id : String
  pub workspace_id : String
  pub thread_id : String
  pub channel_id : String
  pub repository : String
  pub prompt : String
  pub agent_command : String
  pub working_directory : String

pub record AgentRun : Type 0 where
  pub id : String
  pub status : RunState

pub record AgentOutput : Type 0 where
  pub run_id : String
  pub kind : String
  pub text : String
