-- ===== src/Collaboration/Messages.antt =====
-- internal/collaboration/messages.go: writing and listing messages.
use runspace.Prelude.{
  String, ℕ, not, ◌||◌, Option, none, some, List, [], ◌∷◌, ◌++◌, ◌==◌, if◌then◌else◌,
}
use runspace.Text.{trim_space, is_blank}
use runspace.Dict
use runspace.Dict.{Dict}
use runspace.Errors.{Error, Result, ok, collaboration_invalid, collaboration_not_found}
use runspace.Exec.{Exec, pure, fail, gets, modify, or_fail, fail_if, check_context}
use runspace.Collaboration.Model.{
  Thread, Message, Store, Codec, MemoryService, ◌>>=◌, ◌>>◌, call, try_call, read_clock, next_id,
  can_read, can_write, publish,
}

abbrev pub made_message : String → String → String → String → String → ℕ → Message
made_message id thread_id actor_id actor_type body now = record {
  id = id;
  thread_id = thread_id;
  actor_id = actor_id;
  actor_type = trim_space actor_type;
  body = trim_space body;
  created_at = now;
}

-- A nil list reads as the empty one.
abbrev pub or_no_items {ℓ} : {A : Type ℓ} → Option (List A) → List A
or_no_items none = []
or_no_items (some xs) = xs

-- for _, candidate := range threads { if candidate.ID == threadID { return candidate } }
unfoldable pub find_thread : String → List Thread → Option Thread
find_thread id [] = none
find_thread id (t ∷ ts) = let rest = find_thread id ts in if t.id == id then some t else rest

module _ {W : Type 0} where
  abbrev pub messages_in : String → MemoryService W → List Message
  messages_in thread_id s = or_no_items (Dict.get s.messages thread_id)

  -- s.messages[threadID] = append(s.messages[threadID], message)
  unfoldable pub append_message : Message → Exec (MemoryService W) (Unit {0})
  append_message m = modify (λ s. record s {
    messages = Dict.put s.messages m.thread_id (messages_in m.thread_id s ++ m ∷ []);
  })

  unfoldable pub save_message : Message → Option (Store W) → Exec (MemoryService W) (Unit {0})
  save_message m none = pure tt
  save_message m (some store) = call (store.create_message m)

  unfoldable pub stored_thread :
      String → String → String → Option (Store W) → Exec (MemoryService W) Thread
  stored_thread user_id workspace_id thread_id none = fail collaboration_not_found
  stored_thread user_id workspace_id thread_id (some store) = do
    threads ← call (store.list_threads user_id workspace_id)
    or_fail (find_thread thread_id (or_no_items threads)) collaboration_not_found

  -- if ok && thread.WorkspaceID == workspaceID { return thread, nil }
  unfoldable pub known_thread :
      String → Option Thread → Exec (MemoryService W) Thread → Exec (MemoryService W) Thread
  known_thread workspace_id none stored = stored
  known_thread workspace_id (some t) stored =
      if t.workspace_id == workspace_id then pure t else stored

  unfoldable pub resolve_thread : String → String → String → Exec (MemoryService W) Thread
  resolve_thread user_id workspace_id thread_id = do
    found ← gets (λ s. Dict.get s.threads thread_id)
    store ← gets (λ s. s.store)
    known_thread workspace_id found (stored_thread user_id workspace_id thread_id store)

  module _ (codec : Codec) (ctx : Option Error) where
    -- The checks in front, up to the resolved thread.
    unfoldable pub validate_message :
        String → String → String → String → String → Exec (MemoryService W) Thread
    validate_message caller_id actor_id workspace_id thread_id body = do
      check_context ctx
      fail_if
          (is_blank caller_id
            || is_blank workspace_id
            || is_blank thread_id
            || is_blank body
            || is_blank actor_id)
          collaboration_invalid
      authorizer ← gets (λ s. s.authorizer)
      can_write authorizer workspace_id caller_id
      resolve_thread caller_id workspace_id thread_id

    unfoldable pub create_message_as :
        String → String → String → String → String → String → Exec (MemoryService W) Message
    create_message_as caller_id actor_id workspace_id thread_id actor_type body = do
      thread ← validate_message caller_id actor_id workspace_id thread_id body
      store ← gets (λ s. s.store)
      now ← read_clock
      id ← next_id "message"
      let message = made_message id thread_id actor_id actor_type body now
      append_message message
      save_message message store
      publish codec "message.created" workspace_id actor_id message.actor_type
          (codec.message_json message)
      pure message

    unfoldable pub create_message :
        String → String → String → String → String → Exec (MemoryService W) Message
    create_message user_id workspace_id thread_id actor_type body =
        create_message_as user_id user_id workspace_id thread_id actor_type body

    unfoldable pub create_agent_message :
        String → String → String → String → String → Exec (MemoryService W) Message
    create_agent_message caller_id agent_id workspace_id thread_id body =
        create_message_as caller_id agent_id workspace_id thread_id "agent" body

    unfoldable pub create_agent_activity :
        String → String → String → String → String → Exec (MemoryService W) Message
    create_agent_activity caller_id agent_id workspace_id thread_id body =
        create_message_as caller_id agent_id workspace_id thread_id "activity" body

  module _ (ctx : Option Error) (user_id workspace_id thread_id : String) where
    unfoldable pub local_messages : Exec (MemoryService W) (List Message)
    local_messages = do
      found ← gets (λ s. Dict.get s.threads thread_id)
      thread ← or_fail found collaboration_not_found
      fail_if (not (thread.workspace_id == workspace_id)) collaboration_not_found
      gets (messages_in thread_id)

    unfoldable pub or_local_messages :
        Result (Option (List Message)) → Exec (MemoryService W) (List Message)
    or_local_messages (ok (some persisted)) = pure persisted
    or_local_messages _ = local_messages

    unfoldable pub messages_from : Option (Store W) → Exec (MemoryService W) (List Message)
    messages_from none = local_messages
    messages_from (some store) = do
      persisted ← try_call (store.list_messages user_id workspace_id thread_id)
      or_local_messages persisted

    unfoldable pub list_messages : Exec (MemoryService W) (List Message)
    list_messages = do
      check_context ctx
      authorizer ← gets (λ s. s.authorizer)
      can_read authorizer workspace_id user_id
      store ← gets (λ s. s.store)
      messages_from store
