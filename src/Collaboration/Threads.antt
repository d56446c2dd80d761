-- ===== src/Collaboration/Threads.antt =====
-- internal/collaboration/service.go: making and listing threads.
use runspace.Prelude.{
  String, ℕ, not, ◌||◌, Option, none, some, List, [], ◌∷◌, ◌==◌, select, sort_by, if◌then◌else◌,
}
use runspace.Text.{trim_space, is_blank}
use runspace.Dict
use runspace.Dict.{Dict}
use runspace.Errors.{Error, Result, ok, collaboration_invalid}
use runspace.Exec.{Exec, pure, gets, modify, fail_if, check_context}
use runspace.Collaboration.Model.{
  Thread, Store, Codec, MemoryService, ◌>>=◌, ◌>>◌, call, try_call, read_clock, next_id, can_read,
  can_write, publish,
}
use runspace.Collaboration.Channels.{get_channel}

abbrev pub made_thread : String → String → String → String → String → ℕ → Thread
made_thread id workspace_id channel_id title user_id now = record {
  id = id;
  workspace_id = workspace_id;
  channel_id = channel_id;
  title = trim_space title;
  created_by = user_id;
  created_at = now;
}

module _ {W : Type 0} where
  -- store.CreateThread, where there is a store.
  unfoldable pub save_thread : Thread → Option (Store W) → Exec (MemoryService W) (Unit {0})
  save_thread thread none = pure tt
  save_thread thread (some store) = call (store.create_thread thread)

  unfoldable pub persist_thread : Codec → Thread → Exec (MemoryService W) (Unit {0})
  persist_thread codec thread = do
    store ← gets (λ s. s.store)
    save_thread thread store
    publish codec "thread.created" thread.workspace_id thread.created_by "user"
        (codec.thread_json thread)

  -- if graph != nil { _ = graph.ProjectDiscussion(…) }
  unfoldable pub project_thread :
      Thread → Option (Thread → Exec W (Unit {0})) → Exec (MemoryService W) (Unit {0})
  project_thread thread none = pure tt
  project_thread thread (some graph) = do dropped ← try_call (graph thread); pure tt

  unfoldable pub store_thread : Thread → Exec (MemoryService W) (Unit {0})
  store_thread thread = modify (λ s. record s { threads = Dict.put s.threads thread.id thread })

  module _ (ctx : Option Error) (user_id workspace_id : String) where
    unfoldable pub validate_thread_create : String → Exec (MemoryService W) (Unit {0})
    validate_thread_create title = do
      check_context ctx
      fail_if (is_blank user_id || is_blank workspace_id || is_blank title) collaboration_invalid
      authorizer ← gets (λ s. s.authorizer)
      can_write authorizer workspace_id user_id

    unfoldable pub named_channel : String → Exec (MemoryService W) String
    named_channel channel_id = do
      channel ← get_channel ctx user_id channel_id
      fail_if (not (channel.workspace_id == workspace_id)) collaboration_invalid
      pure channel_id

    -- The variadic argument: of several channels the first counts.
    unfoldable pub resolve_thread_channel : List String → Exec (MemoryService W) String
    resolve_thread_channel [] = pure ""
    resolve_thread_channel (id ∷ ids) =
        if is_blank id then pure "" else named_channel (trim_space id)

    unfoldable pub create_thread : Codec → String → List String → Exec (MemoryService W) Thread
    create_thread codec title channel_ids = do
      validate_thread_create title
      channel_id ← resolve_thread_channel channel_ids
      now ← read_clock
      id ← next_id "thread"
      let thread = made_thread id workspace_id channel_id title user_id now
      store_thread thread
      persist_thread codec thread
      graph ← gets (λ s. s.graph)
      project_thread thread graph
      pure thread

    unfoldable pub local_threads : Exec (MemoryService W) (List Thread)
    local_threads = gets (λ s.
        sort_by (λ t. t.created_at)
          (select (λ t. t.workspace_id == workspace_id) (Dict.values s.threads)))

    unfoldable pub or_local_threads :
        Result (Option (List Thread)) → Exec (MemoryService W) (List Thread)
    or_local_threads (ok (some persisted)) = pure persisted
    or_local_threads _ = local_threads

    unfoldable pub threads_from : Option (Store W) → Exec (MemoryService W) (List Thread)
    threads_from none = local_threads
    threads_from (some store) = do
      persisted ← try_call (store.list_threads user_id workspace_id)
      or_local_threads persisted

    unfoldable pub list_threads : Exec (MemoryService W) (List Thread)
    list_threads = do
      check_context ctx
      authorizer ← gets (λ s. s.authorizer)
      can_read authorizer workspace_id user_id
      store ← gets (λ s. s.store)
      threads_from store
