-- ===== src/AgentRegistry/Model.antt =====
-- internal/agentregistry: the data of service.go, tasks.go and task_grants.go, the state of the
-- service, and what it calls. `W` is the state of all that lies outside.
use runspace.Prelude.{ℕ, String, Option, none, some, List}
use runspace.Dict
use runspace.Dict.{Dict}
use runspace.Errors.{Result, ok}
use runspace.Exec.{Exec, pure}

-- A status is a text; `other_activity` is any but the five.
pub data ActivityStatus : Type 0 where
  started completed failed cancelled waiting_approval : ActivityStatus
  other_activity : String → ActivityStatus

pub record Installation : Type 0 where
  pub owner_id : String
  pub id : String
  pub registry_id : String
  pub name : String
  pub description : String
  pub protocol : String
  pub placement : String
  pub status : String
  pub capabilities : List String
  pub updated_at : ℕ

pub record AgentTask : Type 0 where
  pub id : String
  pub workspace_id : String
  pub thread_id : String
  pub owner_id : String
  pub agent_id : String
  pub resource_id : String
  pub title : String
  pub status : String
  pub updated_at : ℕ
  pub created_at : ℕ

pub record TaskOutput : Type 0 where
  pub kind : String
  pub text : String

pub record TaskGrant : Type 0 where
  pub task_id : String
  pub workspace_id : String
  pub owner_id : String
  pub agent_id : String
  pub principal_id : String
  pub role : String
  pub permissions : List String
  pub expires_at : Option ℕ
  pub created_at : ℕ
  pub updated_at : ℕ

-- Of collaboration.Message, what the service reads.
pub record Message : Type 0 where
  pub id : String
  pub created_at : ℕ

pub record Store (W : Type 0) : Type 0 where
  pub upsert_agent_metadata : String → Installation → Exec W (Unit {0})
  pub list_agent_metadata : String → Exec W (List Installation)
  pub list_workspace_agent_metadata : String → String → Exec W (List Installation)

-- A member is known by its user id.
pub record Authorizer (W : Type 0) : Type 0 where
  pub can_read : String → String → Exec W (Unit {0})
  pub list_members : String → String → Exec W (List String)

pub record MessageWriter (W : Type 0) : Type 0 where
  pub create_agent_message : String → String → String → String → String → Exec W Message
  pub create_agent_activity : String → String → String → String → String → Exec W Message

pub record TaskStore (W : Type 0) : Type 0 where
  pub upsert_agent_task : AgentTask → Exec W (Unit {0})
  pub list_agent_tasks : String → String → String → Exec W (List AgentTask)
  pub get_agent_task_access : String → String → Exec W (AgentTask × List String)

pub record TaskGrantStore (W : Type 0) : Type 0 where
  pub upsert_agent_task_grant : TaskGrant → Exec W (Unit {0})
  pub list_agent_task_grants : String → String → Exec W (List TaskGrant)

-- Outputs that come beside the error of a prompt are left out.
pub record TaskExecutor (W : Type 0) : Type 0 where
  pub prompt : AgentTask → String → Exec W (List TaskOutput)
  pub cancel : AgentTask → Exec W (Unit {0})

pub record GraphProjector (W : Type 0) : Type 0 where
  pub project_agent_task : AgentTask → Exec W (Unit {0})
  pub project_task_artifact :
      String → String → String → String → String → String → ℕ → Exec W (Unit {0})

pub record Service (W : Type 0) : Type 0 where
  pub items : Dict (Dict Installation)
  pub store : Option (Store W)
  pub grant_store : Option (TaskGrantStore W)
  pub task_store : Option (TaskStore W)
  pub authorizer : Option (Authorizer W)
  pub messages : Option (MessageWriter W)
  pub grants : Dict (Dict TaskGrant)
  pub tasks : Dict AgentTask
  pub executor : Option (TaskExecutor W)
  pub graph : Option (GraphProjector W)
  pub now : W → ℕ × W
  pub world : W

-- A missing key reads as the nil map.
abbrev pub or_no_entries {ℓ} : {V : Type ℓ} → Option (Dict V) → Dict V
or_no_entries none = Dict.empty
or_no_entries (some d) = d

abbrev pub dict_at {ℓ} : {V : Type ℓ} → Dict (Dict V) → String → Dict V
dict_at d k = or_no_entries (Dict.get d k)

module _ {W : Type 0} where
  abbrev pub new : (W → ℕ × W) → Option (Authorizer W) → W → Service W
  new now authorizer world = record {
    items = Dict.empty;
    store = none;
    grant_store = none;
    task_store = none;
    authorizer = authorizer;
    messages = none;
    grants = Dict.empty;
    tasks = Dict.empty;
    executor = none;
    graph = none;
    now = now;
    world = world;
  }

  abbrev pub set_store : Option (Store W) → Service W → Service W
  set_store store s = record s { store = store }

  abbrev pub set_message_writer : Option (MessageWriter W) → Service W → Service W
  set_message_writer writer s = record s { messages = writer }

  abbrev pub set_graph_projector : Option (GraphProjector W) → Service W → Service W
  set_graph_projector graph s = record s { graph = graph }

  abbrev pub set_task_store : Option (TaskStore W) → Service W → Service W
  set_task_store store s = record s { task_store = store }

  abbrev pub set_task_executor : Option (TaskExecutor W) → Service W → Service W
  set_task_executor executor s = record s { executor = executor }

  abbrev pub set_task_grant_store : Option (TaskGrantStore W) → Service W → Service W
  set_task_grant_store store s = record s { grant_store = store }

  -- A call of something outside, and one whose error is a value.
  abbrev pub call : {A : Type 0} → Exec W A → Exec (Service W) A
  call m s = let (r, w) = m s.world in (r, record s { world = w })

  abbrev pub try_call : {A : Type 0} → Exec W A → Exec (Service W) (Result A)
  try_call m s = let (r, w) = m s.world in (ok r, record s { world = w })

  abbrev pub read_clock : Exec (Service W) ℕ
  read_clock s = let (t, w) = s.now s.world in (ok t, record s { world = w })

  -- if s.authorizer != nil { if err := s.authorizer.CanRead(…); err != nil { return err } }
  abbrev pub check_read : Option (Authorizer W) → String → String → Exec (Service W) (Unit {0})
  check_read none workspace_id user_id = pure tt
  check_read (some authorizer) workspace_id user_id =
      call (authorizer.can_read workspace_id user_id)
