-- ===== src/Collaboration/Model.antt =====
-- internal/collaboration/service.go: the data, the state of the service, and the parts that the
-- operations share. `W` is the state of all that lies outside.
use Prim.Native.Char.{Char}
use Prim.Native.String
use runspace.Prelude.{ℕ, zero, suc, ◌+◌, ◌%◌, String, Bool, Option, none, some, List}
use runspace.Text.Stamp.{time_stamp}
use runspace.Dict
use runspace.Dict.{Dict}
use runspace.Errors.{Result, ok, collaboration_unauthorized}
use runspace.Exec.{Exec, continue, pure, fail, lift, gets}
use runspace.Contracts.Event.{EventEnvelope, new_event}

pub record Thread : Type 0 where
  pub id : String
  pub workspace_id : String
  pub channel_id : String
  pub title : String
  pub created_by : String
  pub created_at : ℕ

-- A value of a configuration is passed on unread, and known by a text. A nil map and an empty one
-- read alike.
pub record Channel : Type 0 where
  pub id : String
  pub workspace_id : String
  pub name : String
  pub parent_id : String
  pub repository_id : String
  pub repository_ids : List String
  pub config : Dict String
  pub created_by : String
  pub created_at : ℕ

pub record Message : Type 0 where
  pub id : String
  pub thread_id : String
  pub actor_id : String
  pub actor_type : String
  pub body : String
  pub created_at : ℕ

pub record ChannelPatch : Type 0 where
  pub name : Option String
  pub resource_id : Option String
  pub resource_ids : Option (List String)
  pub repository_id : Option String
  pub repository_ids : Option (List String)
  pub config : Option (Dict String)

pub record Authorizer (W : Type 0) : Type 0 where
  pub can_read : String → String → Exec W (Unit {0})
  pub can_write : String → String → Exec W (Unit {0})

-- The interface ChannelStore, which a Store may implement besides. A listing may be nil.
pub record ChannelStore (W : Type 0) : Type 0 where
  pub create_channel : Channel → Exec W (Unit {0})
  pub update_channel : Channel → Exec W (Unit {0})
  pub list_channels : String → String → Exec W (Option (List Channel))

pub record Store (W : Type 0) : Type 0 where
  pub create_thread : Thread → Exec W (Unit {0})
  pub list_threads : String → String → Exec W (Option (List Thread))
  pub create_message : Message → Exec W (Unit {0})
  pub list_messages : String → String → String → Exec W (Option (List Message))
  pub channels : Option (ChannelStore W)

-- encoding/json, as far as the service uses it.
pub record Codec : Type 0 where
  pub json_valid : String → Bool
  pub thread_json : Thread → Result String
  pub channel_json : Channel → Result String
  pub message_json : Message → Result String

-- `wall` is time.Now, which the ids are made of whatever `clock` is.
pub record MemoryService (W : Type 0) : Type 0 where
  pub clock : W → ℕ × W
  pub wall : W → ℕ × W
  pub seq : ℕ
  pub authorizer : Option (Authorizer W)
  pub publisher : Option (EventEnvelope → Exec W (Unit {0}))
  pub store : Option (Store W)
  pub threads : Dict Thread
  pub messages : Dict (List Message)
  pub channels : Dict Channel
  pub graph : Option (Thread → Exec W (Unit {0}))
  pub world : W

-- 'a' + n, of the small letters.
letter_from : String → ℕ → Char
letter_from String.[] n = "a"
letter_from (String.◌∷◌ c s) zero = c
letter_from (String.◌∷◌ c s) (suc n) = letter_from s n

unfoldable pub letter : ℕ → Char
unfolding letter_from
letter n = letter_from "abcdefghijklmnopqrstuvwxyz" n

abbrev pub next_seq : ℕ → ℕ
next_seq n = (n + 1) % 18446744073709551616

-- prefix_stamp_letter
abbrev pub id_text : String → ℕ → ℕ → String
id_text prefix instant seq = String.◌++◌ prefix (
    String.◌++◌ "_"
      (String.◌++◌ (time_stamp instant) (String.◌++◌ "_" (String.◌∷◌ (letter (seq % 26)) ""))))

module _ {W A B : Type 0} where
  -- The sequence of two actions on the service; shut, so that rules can speak of it.
  infixl 10 ◌>>=◌ ◌>>◌
  unfoldable pub ◌>>=◌ :
      Exec (MemoryService W) A → (A → Exec (MemoryService W) B) → Exec (MemoryService W) B
  ◌>>=◌ m f s = let (r, s') = m s in continue r f s'

  abbrev pub ◌>>◌ : Exec (MemoryService W) A → Exec (MemoryService W) B → Exec (MemoryService W) B
  m >> n = m >>= λ _. n

module _ {W : Type 0} where
  abbrev pub new_memory_service :
      (W → ℕ × W) → (W → ℕ × W) → Option (Authorizer W) → W → MemoryService W
  new_memory_service clock wall authorizer world = record {
    clock = clock;
    wall = wall;
    seq = 0;
    authorizer = authorizer;
    publisher = none;
    store = none;
    threads = Dict.empty;
    messages = Dict.empty;
    channels = Dict.empty;
    graph = none;
    world = world;
  }

  abbrev pub set_store : Option (Store W) → MemoryService W → MemoryService W
  set_store store s = record s { store = store }

  abbrev pub set_graph_projector :
      Option (Thread → Exec W (Unit {0})) → MemoryService W → MemoryService W
  set_graph_projector graph s = record s { graph = graph }

  abbrev pub set_publisher :
      Option (EventEnvelope → Exec W (Unit {0})) → MemoryService W → MemoryService W
  set_publisher publisher s = record s { publisher = publisher }

  -- A call of something outside, and one whose error is a value.
  unfoldable pub call : {A : Type 0} → Exec W A → Exec (MemoryService W) A
  call m s = let (r, w) = m s.world in (r, record s { world = w })

  unfoldable pub try_call : {A : Type 0} → Exec W A → Exec (MemoryService W) (Result A)
  try_call m s = let (r, w) = m s.world in (ok r, record s { world = w })

  unfoldable pub read_clock : Exec (MemoryService W) ℕ
  read_clock s = let (t, w) = s.clock s.world in (ok t, record s { world = w })

  unfoldable pub next_id : String → Exec (MemoryService W) String
  next_id prefix s =
      let (t, w) = s.wall s.world in
      (ok (id_text prefix t (next_seq s.seq)), record s { seq = next_seq s.seq; world = w })

  -- if s.authorizer == nil { return ErrUnauthorized }; return s.authorizer.CanWrite(…)
  unfoldable pub can_write :
      Option (Authorizer W) → String → String → Exec (MemoryService W) (Unit {0})
  unfolding call
  can_write none workspace_id user_id = fail collaboration_unauthorized
  can_write (some authorizer) workspace_id user_id =
      call (authorizer.can_write workspace_id user_id)

  unfoldable pub can_read :
      Option (Authorizer W) → String → String → Exec (MemoryService W) (Unit {0})
  unfolding call
  can_read none workspace_id user_id = fail collaboration_unauthorized
  can_read (some authorizer) workspace_id user_id = call (authorizer.can_read workspace_id user_id)

  unfoldable pub send :
      Option (EventEnvelope → Exec W (Unit {0}))
      → Result EventEnvelope
      → Exec (MemoryService W) (Unit {0})
  unfolding ◌>>=◌ call
  send none event = pure tt
  send (some publisher) event = do sent ← lift event; call (publisher sent)

  -- The last argument is the result of json.Marshal of the payload.
  unfoldable pub publish :
      Codec → String → String → String → String → Result String → Exec (MemoryService W) (Unit {0})
  unfolding ◌>>=◌ next_id read_clock send
  publish codec type workspace_id actor_id actor_type payload = do
    publisher ← gets (λ s. s.publisher)
    event_id ← next_id "event"
    now ← read_clock
    send publisher
        (new_event codec.json_valid event_id type workspace_id actor_id actor_type payload now)
