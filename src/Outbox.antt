-- ===== src/Outbox.antt =====
-- internal/events/store.go: the append-only outbox `MemoryStore`. A negative limit is read as 0.
pub mod Queue
pub mod Changes
mod Tests
use runspace.Prelude.{
  ℕ, String, Bool, true, false, Option, none, some, List, [], ◌∷◌, ◌++◌, length, eqb, if◌then◌else◌,
  is_some,
}
use runspace.Dict
use runspace.Dict.{Dict}
use runspace.Errors.{Error, Result, ok, err, join, events_invalid_event, events_duplicate, message}
use runspace.Exec.{Exec, pure, fail, lift, gets, modify, fail_if, check_context, ◌>>=◌, ◌>>◌}
use runspace.Contracts.Event.{EventEnvelope, validate}

pub record MemoryRecord : Type 0 where
  pub event : EventEnvelope
  pub published : Bool

pub record MemoryStore : Type 0 where
  pub order : List String
  pub records : Dict MemoryRecord

abbrev pub new_memory_store : MemoryStore
new_memory_store = record { order = []; records = Dict.empty }

-- The value of a missing key of the map of records.
abbrev pub zero_record : MemoryRecord
zero_record = record {
  event = record {
    id = "";
    type = "";
    version = 0;
    workspace_id = "";
    repository_id = "";
    channel_id = "";
    actor_id = "";
    actor_type = "";
    occurred_at = 0;
    payload = "";
  };
  published = false;
}

abbrev pub record_or_zero : Option MemoryRecord → MemoryRecord
record_or_zero none = zero_record
record_or_zero (some r) = r

abbrev pub record_at : Dict MemoryRecord → String → MemoryRecord
record_at records id = record_or_zero (Dict.get records id)

abbrev joined : Result (Unit {0}) → Result (Unit {0})
joined (ok u) = ok u
joined (err e) = err (join events_invalid_event e)

abbrev insert_record : EventEnvelope → MemoryStore → MemoryStore
insert_record event s = record {
  order = s.order ++ event.id ∷ [];
  records = Dict.put s.records event.id (record { event = event; published = false });
}

module _ (json_valid : String → Bool) where
  pub append : Option Error → EventEnvelope → Exec MemoryStore (Unit {0})
  append ctx event = do
    check_context ctx
    lift (joined (validate json_valid event))
    exists ← gets (λ s. is_some (Dict.get s.records event.id))
    fail_if exists events_duplicate
    modify (insert_record event)

-- The loop of `Pending`, with the result so far.
pub pending_from : Dict MemoryRecord → ℕ → List String → List EventEnvelope → List EventEnvelope
pending_from records limit [] result = result
pending_from records limit (id ∷ ids) result =
    let skipped = pending_from records limit ids result in
    let longer = result ++ (record_at records id).event ∷ [] in
    let more = pending_from records limit ids longer in
    if (record_at records id).published
    then skipped
    else if eqb (length longer) limit
    then longer
    else more

pub pending : Option Error → ℕ → Exec MemoryStore (List EventEnvelope)
unfolding pending_from
pending ctx limit = do
  check_context ctx
  s ← gets (λ s. s)
  pure (if eqb limit 0 then [] else pending_from s.records limit s.order [])

mark_record : String → Option MemoryRecord → Exec MemoryStore (Unit {0})
mark_record id none = fail (message "event not found")
mark_record id (some r) =
    modify (λ s. record s { records = Dict.put s.records id (record r { published = true }) })

pub mark_published : Option Error → String → Exec MemoryStore (Unit {0})
unfolding mark_record
mark_published ctx id = do
  check_context ctx
  found ← gets (λ s. Dict.get s.records id)
  mark_record id found
