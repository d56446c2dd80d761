-- ===== src/Runs/Model.antt =====
-- internal/runs/service.go: the runs, their service, and what it calls: the agents, the durable
-- store, the publisher, the clock and the contexts. `W` is the state of all that lies outside.
use runspace.Prelude.{ℕ, String, Bool, Option, none, some, List}
use runspace.Dict.{Dict}
use runspace.Errors.{Result, ok}
use runspace.Exec.{Exec, continue}
use runspace.Contracts.Run.{RunState, SpawnRequest, AgentRun, AgentOutput}
use runspace.Contracts.Event.{EventEnvelope}

pub record Run : Type 0 where
  pub id : String
  pub workspace_id : String
  pub thread_id : String
  pub channel_id : String
  pub repository_id : String
  pub prompt : String
  pub agent_command : String
  pub working_directory : String
  pub status : RunState
  pub created_at : ℕ
  pub updated_at : ℕ

pub record Output : Type 0 where
  pub id : String
  pub run_id : String
  pub kind : String
  pub text : String
  pub sequence : ℕ
  pub created_at : ℕ

-- The payload of an `agent.output` event.
pub record OutputPayload : Type 0 where
  pub output : AgentOutput
  pub thread_id : String
  pub channel_id : String

-- contracts.Agent, and contracts.InputAgent where the agent has it. A context and a stream go by
-- their identities.
pub record Agent (W : Type 0) : Type 0 where
  pub spawn : SpawnRequest → Exec W AgentRun
  pub run : ℕ → String → Exec W AgentRun
  pub stop : String → Exec W (Unit {0})
  pub stream : ℕ → String → Exec W ℕ
  pub send : Option (String → String → Exec W (Unit {0}))

pub record Store (W : Type 0) : Type 0 where
  pub save_run : Run → Exec W (Unit {0})
  pub get_run : String → Exec W Run
  pub save_output : Output → Exec W (Unit {0})
  pub list_outputs : String → Exec W (List Output)
  pub list_runs : String → Exec W (List Run)

-- encoding/json, as far as the service uses them.
pub record Codec : Type 0 where
  pub json_valid : String → Bool
  pub run_json : Run → Result String
  pub output_json : OutputPayload → Result String

-- A goroutine `consume`: its context, run and stream.
pub record Consumer : Type 0 where
  pub context : ℕ
  pub run_id : String
  pub stream : ℕ

-- A cancel function of the map `runCancels` is known by its context. `next_context`, `cancelled` and
-- `consumers` stand for the contexts made, the ones cancelled and the goroutines started.
pub record Service (W : Type 0) : Type 0 where
  pub runs : Dict Run
  pub agent : Option (Agent W)
  pub agent_factory : Option (String → Option (Agent W))
  pub run_agents : Dict (Option (Agent W))
  pub output_seq : Dict ℕ
  pub run_cancels : Dict ℕ
  pub run_contexts : Dict ℕ
  pub publisher : Option (EventEnvelope → Exec W (Unit {0}))
  pub now : W → ℕ × W
  pub store : Option (Store W)
  pub next_context : ℕ
  pub cancelled : List ℕ
  pub consumers : List Consumer
  pub world : W

module _ {W A B : Type 0} where
  -- The sequence of two actions on the service; shut, so that rules can speak of it.
  infixl 10 ◌>>=◌ ◌>>◌
  unfoldable pub ◌>>=◌ : Exec (Service W) A → (A → Exec (Service W) B) → Exec (Service W) B
  ◌>>=◌ m f s = let (r, s') = m s in continue r f s'

  abbrev pub ◌>>◌ : Exec (Service W) A → Exec (Service W) B → Exec (Service W) B
  m >> n = m >>= λ _. n

module _ {W A : Type 0} where
  -- A call of something outside.
  unfoldable pub call : Exec W A → Exec (Service W) A
  call m s = let (r, w) = m s.world in (r, record s { world = w })

  -- The same, for code that inspects the error.
  unfoldable pub try_call : Exec W A → Exec (Service W) (Result A)
  try_call m s = let (r, w) = m s.world in (ok r, record s { world = w })

  -- A call of something that may be nil, its error dropped: `if x != nil { _ = x.f() }`.
  unfoldable pub notify : Option A → (A → Exec W (Unit {0})) → Exec (Service W) (Unit {0})
  notify none f s = (ok tt, s)
  notify (some x) f s = let (r, w) = f x s.world in (ok tt, record s { world = w })

module _ {W : Type 0} where
  unfoldable pub read_clock : Exec (Service W) ℕ
  read_clock s = let (t, w) = s.now s.world in (ok t, record s { world = w })
