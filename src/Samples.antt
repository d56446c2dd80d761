-- ===== src/Samples.antt =====
-- internal/contracts/events.go: events for the concrete runs of the components.
use runspace.Prelude.{String, Bool, true}
use runspace.Contracts.Event.{EventEnvelope}

-- json.Valid, taken to accept every text.
abbrev pub any_json : String → Bool
any_json payload = true

abbrev pub event : String → String → EventEnvelope
event id workspace_id = record {
  id = id;
  type = "run.started";
  version = 1;
  workspace_id = workspace_id;
  repository_id = "";
  channel_id = "";
  actor_id = "system";
  actor_type = "system";
  occurred_at = 7;
  payload = "{}";
}
