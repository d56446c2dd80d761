-- ===== src/Contracts/Event.antt =====
-- internal/contracts/events.go: the envelope of an event. encoding/json is a parameter: the text
-- that json.Marshal makes, and the test json.Valid.
use runspace.Prelude.{ℕ, String, Bool, not, ◌&&◌, ◌||◌, leb, eqb, is_empty, ◌==◌, if◌then◌else◌}
use runspace.Text.{trim_space}
use runspace.Errors.{Result, ok, err, contracts_invalid_event, ◌>>=◌, ◌>>◌}

-- An instant is counted in nanoseconds from the zero time, which is 0.
pub record EventEnvelope : Type 0 where
  pub id : String
  pub type : String
  pub version : ℕ
  pub workspace_id : String
  pub repository_id : String
  pub channel_id : String
  pub actor_id : String
  pub actor_type : String
  pub occurred_at : ℕ
  pub payload : String

unfoldable pub has_required_fields : EventEnvelope → Bool
has_required_fields e =
    not (is_empty e.id)
    && not (is_empty e.type)
    && leb 1 e.version
    && not (is_empty e.workspace_id)
    && not (is_empty e.actor_id)
    && not (is_empty e.actor_type)
    && not (eqb e.occurred_at 0)

-- bytes.TrimSpace is read as strings.TrimSpace on the same text.
unfoldable pub validate : (String → Bool) → EventEnvelope → Result (Unit {0})
unfolding has_required_fields
validate json_valid e =
    let payload = trim_space e.payload in
    if not (has_required_fields e)
    then err contracts_invalid_event
    else if is_empty payload || payload == "null" || not (json_valid payload)
    then err contracts_invalid_event
    else ok tt

-- NewEvent, from the result of json.Marshal; the clock's reading is already in UTC.
unfoldable pub new_event :
    (String → Bool)
    → String
    → String
    → String
    → String
    → String
    → Result String
    → ℕ
    → Result EventEnvelope
unfolding validate
new_event json_valid id type workspace_id actor_id actor_type marshalled now = do
  payload ← marshalled
  let event : EventEnvelope = record {
    id = id;
    type = type;
    version = 1;
    workspace_id = workspace_id;
    repository_id = "";
    channel_id = "";
    actor_id = actor_id;
    actor_type = actor_type;
    occurred_at = now;
    payload = payload;
  }
  validate json_valid event
  ok event
