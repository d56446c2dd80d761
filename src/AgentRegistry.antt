-- ===== src/AgentRegistry.antt =====
-- internal/agentregistry/service.go: the agents that users install on their hosts, and what is written
-- into a thread for them. AgentRegistry/Tasks has tasks.go, AgentRegistry/Grants task_grants.go.
mod Model
pub mod Tasks
pub mod Work
pub mod Grants
pub mod Access
mod Tests
unfoldable pub use Model.*
use runspace.Prelude.{
  ℕ, ◌+◌, ◌-◌, String, Bool, true, false, not, ◌&&◌, ◌||◌, Option, none, some, List, [], ◌∷◌, ◌++◌,
  map, ◌==◌, select, some_of, ltb, is_empty, is_some, if◌then◌else◌,
}
use runspace.Text.{trim_space, is_blank, has_prefix}
use runspace.Dict
use runspace.Dict.{Dict}
use runspace.Errors.{Error, Result, ok, err, registry_unauthorized, registry_invalid_input}
use runspace.Exec.{Exec, pure, fail, lift, gets, modify, or_fail, fail_if, ◌>>=◌, ◌>>◌}

abbrev trimmed_installation : String → Installation → Installation
trimmed_installation user_id item = record item {
  owner_id = user_id;
  id = trim_space item.id;
  registry_id = trim_space item.registry_id;
  name = trim_space item.name;
}

abbrev pub valid_installation : Installation → Bool
valid_installation item =
    has_prefix item.id "local_agent_"
    && not (is_empty item.registry_id)
    && not (is_empty item.name)
    && item.protocol == "acp"
    && item.placement == "host"

abbrev seen_offline : ℕ → Installation → Installation
seen_offline cutoff item =
    if ltb item.updated_at cutoff then record item { status = "offline" } else item

abbrev pub activity_body : ActivityStatus → Option String
activity_body ActivityStatus.started = some "Started work in a private agent chat."
activity_body ActivityStatus.completed =
    some "Agent chat work completed. Results remain private until shared."
activity_body ActivityStatus.failed =
    some "The private agent chat failed. Details remain on the owner’s device."
activity_body ActivityStatus.cancelled = some "The private agent chat was cancelled."
activity_body ActivityStatus.waiting_approval =
    some "Waiting for the owner to approve a capability."
activity_body (ActivityStatus.other_activity text) = none

-- The test for an agent of that id and owner among those listed; false where the listing fails.
abbrev pub has_agent : String → String → Result (List Installation) → Bool
has_agent user_id agent_id (ok items) =
    some_of (λ item. item.id == agent_id && item.owner_id == user_id) items
has_agent user_id agent_id (err e) = false

-- for _, member := range members { for _, item := range s.items[member.UserID] … }
abbrev items_of : Dict (Dict Installation) → List String → List Installation
items_of items [] = []
items_of items (u ∷ users) = Dict.values (dict_at items u) ++ items_of items users

abbrev all_items : List (Dict Installation) → List Installation
all_items [] = []
all_items (d ∷ ds) = Dict.values d ++ all_items ds

module _ {W : Type 0} where
  store_metadata : Option (Store W) → String → Installation → Exec (Service W) (Unit {0})
  store_metadata none user_id item = pure tt
  store_metadata (some store) user_id item = call (store.upsert_agent_metadata user_id item)

  unfoldable pub upsert : String → Installation → Exec (Service W) Installation
  unfolding store_metadata
  upsert caller requested = do
    let user_id = trim_space caller
    let item = trimmed_installation user_id requested
    fail_if (is_empty user_id) registry_unauthorized
    fail_if (not (valid_installation item)) registry_invalid_input
    now ← read_clock
    let dated : Installation = record item { updated_at = now }
    store ← gets (λ s. s.store)
    store_metadata store user_id dated
    modify (λ s. record s {
      items = Dict.put s.items user_id (Dict.put (dict_at s.items user_id) dated.id dated);
    })
    pure dated

  -- Agents that were last heard of more than 45 seconds ago are offline.
  with_presence : List Installation → Exec (Service W) (List Installation)
  with_presence items = do now ← read_clock; pure (map (seen_offline (now - 45000000000)) items)

  -- return s.withPresence(items), err
  with_presence_of : Result (List Installation) → Exec (Service W) (List Installation)
  unfolding with_presence
  with_presence_of (ok items) = with_presence items
  with_presence_of (err e) = do read_clock; fail e

  list_from : String → Option (Store W) → Exec (Service W) (List Installation)
  unfolding with_presence with_presence_of
  list_from user_id (some store) = do
    listed ← try_call (store.list_agent_metadata user_id)
    with_presence_of listed
  list_from user_id none = do
    items ← gets (λ s. Dict.values (dict_at s.items user_id))
    with_presence items

  unfoldable pub list : String → Exec (Service W) (List Installation)
  unfolding list_from
  list caller = do
    let user_id = trim_space caller
    fail_if (is_empty user_id) registry_unauthorized
    store ← gets (λ s. s.store)
    list_from user_id store

  unfoldable pub owns : String → String → Exec (Service W) Bool
  unfolding list
  owns user_id agent_id s = let (r, s') = list user_id s in (ok (has_agent user_id agent_id r), s')

  write_message :
      Option (MessageWriter W)
      → String
      → String
      → String
      → String
      → String
      → Exec (Service W) Message
  write_message none user_id agent_id workspace_id thread_id body = fail registry_invalid_input
  write_message (some messages) user_id agent_id workspace_id thread_id body =
      call (messages.create_agent_message user_id agent_id workspace_id thread_id body)

  unfoldable pub record_output :
      String → String → String → String → String → Exec (Service W) Message
  unfolding list write_message
  record_output user_id workspace_id thread_id agent_id body = do
    items ← list user_id
    fail_if (not (has_agent user_id agent_id (ok items))) registry_invalid_input
    fail_if (is_blank body) registry_invalid_input
    messages ← gets (λ s. s.messages)
    write_message messages user_id agent_id workspace_id thread_id body

  abbrev pub write_activity :
      Option (MessageWriter W)
      → Option String
      → String
      → String
      → String
      → String
      → Exec (Service W) Message
  write_activity (some messages) (some body) user_id agent_id workspace_id thread_id =
      call (messages.create_agent_activity user_id agent_id workspace_id thread_id body)
  write_activity _ _ user_id agent_id workspace_id thread_id = fail registry_invalid_input

  unfoldable pub record_activity :
      String → String → String → String → ActivityStatus → Exec (Service W) Message
  unfolding owns
  record_activity user_id workspace_id thread_id agent_id status = do
    owned ← owns user_id agent_id
    fail_if (not owned) registry_invalid_input
    messages ← gets (λ s. s.messages)
    write_activity messages (activity_body status) user_id agent_id workspace_id thread_id

  local_directory : String → String → Option (Authorizer W) → Exec (Service W) (List Installation)
  unfolding with_presence
  local_directory user_id workspace_id none = do
    out ← gets (λ s. all_items (Dict.values s.items))
    with_presence out
  local_directory user_id workspace_id (some authorizer) = do
    members ← call (authorizer.list_members user_id workspace_id)
    out ← gets (λ s. items_of s.items members)
    with_presence out

  directory_from :
      String
      → String
      → Option (Store W)
      → Option (Authorizer W)
      → Exec (Service W) (List Installation)
  unfolding with_presence_of local_directory
  directory_from user_id workspace_id (some store) authorizer = do
    listed ← try_call (store.list_workspace_agent_metadata user_id workspace_id)
    with_presence_of listed
  directory_from user_id workspace_id none authorizer =
      local_directory user_id workspace_id authorizer

  unfoldable pub directory : String → String → Exec (Service W) (List Installation)
  unfolding directory_from
  directory user_id workspace_id = do
    fail_if (is_blank user_id) registry_unauthorized
    authorizer ← gets (λ s. s.authorizer)
    check_read authorizer workspace_id user_id
    store ← gets (λ s. s.store)
    directory_from user_id workspace_id store authorizer
