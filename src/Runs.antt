-- ===== src/Runs.antt =====
-- internal/runs/service.go, retry.go, history.go and io.go: the service of the runs. Each method is
-- an action on the service; what a method does between taking and leaving the mutex is an action of
-- its own, named `…_locked`, so that other threads can be put in between.
mod Model
pub mod Ending
pub mod Quiet
pub mod Leads
pub mod Steps
pub mod Outcomes
mod Tests
unfoldable pub use Model.*
use runspace.Prelude.{
  ℕ, zero, suc, ◌+◌, ◌-◌, ◌≤◌, ◌<◌, ◌≡◌, refl, sym, ap, ◌∙◌, subst, ◌≢◌, ◌↔◌, ◌⊎◌, inl, inr, String,
  Bool, true, false, not, ◌&&◌, ◌||◌, Option, none, some, List, [], ◌∷◌, ◌++◌, map, append_assoc,
  append-nil, arith, ◌==◌, eq_iff, eq_refl, length, length-append, take, get_elem?, set,
  get_elem?-set, length-set, get_elem?-lt, get_elem?-length, get_elem?-append_left, select, some_of,
  some_of-append, All, All-append, In, Bool-cases, Option-cases, String-cases, ltb, leb, eqb,
  is_empty, is_some, if◌then◌else◌,
}
use Prim.Native.String
use runspace.Dict
use runspace.Dict.{Dict}
use runspace.Errors.{Error, Result, ok, err, message}
use runspace.Exec.{Exec, pure, fail, lift, gets, modify, or_fail, fail_if}
use runspace.Contracts.Run.{RunState, SpawnRequest, AgentOutput, same_state, transition_run}
use runspace.Contracts.Event.{EventEnvelope, new_event}

abbrev pub queued_run : SpawnRequest → ℕ → Run
queued_run r now = record {
  id = r.run_id;
  workspace_id = r.workspace_id;
  thread_id = r.thread_id;
  channel_id = r.channel_id;
  repository_id = r.repository;
  prompt = r.prompt;
  agent_command = r.agent_command;
  working_directory = r.working_directory;
  status = RunState.queued;
  created_at = now;
  updated_at = now;
}

abbrev pub moved : RunState → ℕ → Run → Run
moved status now r = record r { status = status; updated_at = now }

module _ {W : Type 0} where
  -- The service that `New` makes, in the world of its caller, whose clock is time.Now.
  abbrev pub new :
      Option (Agent W) → Option (EventEnvelope → Exec W (Unit {0})) → (W → ℕ × W) → W → Service W
  new agent publisher clock world = record {
    runs = Dict.empty;
    agent = agent;
    agent_factory = none;
    run_agents = Dict.empty;
    output_seq = Dict.empty;
    run_cancels = Dict.empty;
    run_contexts = Dict.empty;
    publisher = publisher;
    now = clock;
    store = none;
    next_context = 0;
    cancelled = [];
    consumers = [];
    world = world;
  }

  abbrev pub set_store : Option (Store W) → Service W → Service W
  set_store store s = record s { store = store }

  abbrev pub set_agent_factory : Option (String → Option (Agent W)) → Service W → Service W
  set_agent_factory factory s = record s { agent_factory = factory }

module _ {W : Type 0} (codec : Codec) where
  send_event :
      Option (EventEnvelope → Exec W (Unit {0}))
      → Result EventEnvelope
      → Exec (Service W) (Unit {0})
  unfolding notify
  send_event publisher (ok e) = notify publisher (λ p. p e)
  send_event publisher (err x) = pure tt

  -- func (s *Service) publish
  pub publish : String → Run → Exec (Service W) (Unit {0})
  unfolding send_event notify ◌>>=◌
  publish type run = do
    publisher ← gets (λ s. s.publisher)
    send_event publisher (
        new_event codec.json_valid (String.◌++◌ run.id (String.◌++◌ "-" type)) type run.workspace_id
          "system" "system" (codec.run_json run) run.updated_at)

  unfoldable pub save_run : Run → Exec (Service W) (Unit {0})
  unfolding notify ◌>>=◌
  save_run run = do store ← gets (λ s. s.store); notify store (λ st. st.save_run run)

  abbrev chosen_agent : String → Service W → Option (Agent W)
  chosen_agent command s = elim s.agent_factory [ none ↦ s.agent | some make ↦ make command ]

  pub create_locked : SpawnRequest → Exec (Service W) (Run × Option (Agent W))
  unfolding ◌>>=◌ read_clock
  create_locked r = do
    known ← gets (λ s. is_some (Dict.get s.runs r.run_id))
    fail_if known (message "run already exists")
    now ← read_clock
    agent ← gets (chosen_agent r.agent_command)
    modify (λ s. record s {
      runs = Dict.put s.runs r.run_id (queued_run r now);
      run_cancels = Dict.put s.run_cancels r.run_id s.next_context;
      run_contexts = Dict.put s.run_contexts r.run_id s.next_context;
      next_context = s.next_context + 1;
      run_agents = Dict.put s.run_agents r.run_id agent;
    })
    pure (queued_run r now, agent)

  pub spawn_with : Option (Agent W) → SpawnRequest → Exec (Service W) (Unit {0})
  unfolding ◌>>=◌ call
  spawn_with none r = pure tt
  spawn_with (some agent) r = do call (agent.spawn r); pure tt

  pub create : SpawnRequest → Exec (Service W) Run
  create r = do
    fail_if (is_empty r.run_id || is_empty r.workspace_id)
        (message "run ID and workspace ID required")
    (run, agent) ← create_locked r
    save_run run
    publish "run.requested" run
    spawn_with agent r
    pure run

  pub load_locked : String → Run → Exec (Service W) (Unit {0})
  load_locked id run = modify (λ s. record s { runs = Dict.put s.runs id run })

  load_run : String → Option (Store W) → Exec (Service W) Run
  load_run id none = fail (message "run not found")
  load_run id (some store) = do run ← call (store.get_run id); load_locked id run; pure run

  or_load : String → Option Run → Exec (Service W) Run
  or_load id none = do store ← gets (λ s. s.store); load_run id store
  or_load id (some run) = pure run

  -- Three steps: the look in the map, under the lock; the call of the store, without it; and
  -- `load_locked`, under it again. Other threads' steps may fall in between (Runs/Steps); as one action
  -- it is what happens when none do.
  pub get : String → Exec (Service W) Run
  get id = do found ← gets (λ s. Dict.get s.runs id); or_load id found

  pub start_locked : String → Exec (Service W) Run
  unfolding ◌>>=◌ read_clock
  start_locked id = do
    found ← gets (λ s. Dict.get s.runs id)
    r ← or_fail found (message "run not found")
    lift (transition_run r.status RunState.running)
    now ← read_clock
    modify (λ s. record s { runs = Dict.put s.runs id (moved RunState.running now r) })
    pure (moved RunState.running now r)

  -- A run that came from the store has no context: context.WithoutCancel makes one.
  or_new_context : Option ℕ → Exec (Service W) ℕ
  unfolding ◌>>=◌
  or_new_context (some context) = pure context
  or_new_context none = do
    context ← gets (λ s. s.next_context)
    modify (λ s. record s { next_context = s.next_context + 1 })
    pure context

  pub run_context : String → Exec (Service W) ℕ
  unfolding or_new_context ◌>>=◌
  run_context id = do known ← gets (λ s. Dict.get s.run_contexts id); or_new_context known

  abbrev pub agent_for : String → Service W → Option (Agent W)
  agent_for id s = elim (Dict.get s.run_agents id) [ none ↦ s.agent | some agent ↦ agent ]

  -- go s.consume(runCtx, id, output)
  follow : ℕ → String → Result ℕ → Exec (Service W) (Unit {0})
  follow context id (err e) = pure tt
  follow context id (ok stream) = modify (λ s. record s {
    consumers = record { context = context; run_id = id; stream = stream } ∷ s.consumers;
  })

  pub run_agent : Option (Agent W) → ℕ → String → Exec (Service W) (Unit {0})
  unfolding follow ◌>>=◌ call try_call
  run_agent none context id = pure tt
  run_agent (some agent) context id = do
    call (agent.run context id)
    stream ← try_call (agent.stream context id)
    follow context id stream

  pub start : String → Exec (Service W) Run
  start id = do
    r ← start_locked id
    save_run r
    context ← run_context id
    publish "run.started" r
    agent ← gets (agent_for id)
    run_agent agent context id
    pure r
