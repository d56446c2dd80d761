-- ===== src/Collaboration/Channels.antt =====
-- internal/collaboration/channels.go: making, changing, listing and getting channels.
use runspace.Prelude.{
  map, String, ℕ, Bool, true, false, not, ◌&&◌, ◌||◌, Option, none, some, List, [], ◌∷◌, is_empty,
  ◌==◌, select, sort_by, if◌then◌else◌,
}
use runspace.Text.{trim_space, is_blank}
use runspace.Dict
use runspace.Dict.{Dict}
use runspace.Errors.{Error, Result, ok, err, collaboration_not_found, collaboration_invalid}
use runspace.Exec.{Exec, pure, lift, gets, modify, or_fail, fail_if, check_context}
use runspace.Collaboration.Model.{
  Channel, ChannelPatch, ChannelStore, Store, Codec, MemoryService, ◌>>=◌, ◌>>◌, call, try_call,
  read_clock, next_id, can_read, can_write, publish,
}
use runspace.Collaboration.Config.{created_channel_config, updated_channel_config, clone_config}
use runspace.Collaboration.RepositoryIds.{
  inherited_repository_ids, apply_repository_patch, first_id, is_none_of,
}

-- store.(ChannelStore), which fails on a nil store.
abbrev pub channel_store_of : {W : Type 0} → Option (Store W) → Option (ChannelStore W)
channel_store_of none = none
channel_store_of (some store) = store.channels

-- for _, candidate := range channels { if candidate.ID == id { return candidate, true } }
unfoldable pub find_channel : String → List Channel → Option Channel
find_channel id [] = none
find_channel id (c ∷ cs) = let rest = find_channel id cs in if c.id == id then some c else rest

-- What a failed listing, or a nil one, holds.
abbrev pub listed {ℓ} : {A : Type ℓ} → Result (Option (List A)) → List A
listed (ok (some xs)) = xs
listed _ = []

unfoldable pub invalid_parent : String → String → Option Channel → Bool
invalid_parent parent_id workspace_id none = not (is_empty parent_id)
invalid_parent parent_id workspace_id (some parent) =
    not (is_empty parent_id) && not (parent.workspace_id == workspace_id)

abbrev pub made_channel :
    String → String → String → String → String → List String → Dict String → ℕ → Channel
made_channel id workspace_id user_id name parent_id ids config now = record {
  id = id;
  workspace_id = workspace_id;
  name = trim_space name;
  parent_id = parent_id;
  repository_id = first_id ids;
  repository_ids = ids;
  config = config;
  created_by = user_id;
  created_at = now;
}

-- CreateChannel's list of at most one id.
abbrev pub single_repository : String → List String
single_repository id = if is_blank id then [] else trim_space id ∷ []

unfoldable pub rename_channel : Option String → Channel → Result Channel
rename_channel none c = ok c
rename_channel (some name) c =
    if is_empty (trim_space name)
    then err collaboration_invalid
    else ok (record c { name = trim_space name })

-- A channel left without a repository takes its parent's.
unfoldable pub inherit_repositories : Option Channel → Channel → Channel
inherit_repositories none c = c
inherit_repositories (some parent) c =
    let ids = inherited_repository_ids [] (some parent) in
    if is_none_of c.repository_ids && is_empty c.repository_id
    then record c { repository_ids = ids; repository_id = first_id ids }
    else c

unfoldable pub reconfigure : Option Channel → Option (Dict String) → Channel → Channel
reconfigure parent none c = c
reconfigure parent (some patch) c = record c { config = updated_channel_config parent patch }

-- channel.Config = cloneConfig(channel.Config)
abbrev pub with_own_config : Channel → Channel
with_own_config c = record c { config = clone_config c.config }

module _ {W : Type 0} where
  unfoldable pub stored_channel :
      String → String → String → Option (ChannelStore W) → Exec (MemoryService W) (Option Channel)
  stored_channel user_id workspace_id id none = pure none
  stored_channel user_id workspace_id id (some store) = do
    channels ← try_call (store.list_channels user_id workspace_id)
    pure (find_channel id (listed channels))

  -- findPersistedParent and loadChannel, which asks for no workspace.
  unfoldable pub find_persisted_parent :
      Option (Store W) → String → String → String → Exec (MemoryService W) (Option Channel)
  find_persisted_parent store user_id workspace_id parent_id =
      stored_channel user_id workspace_id parent_id (channel_store_of store)

  unfoldable pub load_channel :
      Option (Store W) → String → String → Exec (MemoryService W) (Option Channel)
  load_channel store user_id channel_id =
      stored_channel user_id "" channel_id (channel_store_of store)

  unfoldable pub or_persisted :
      Option Channel
      → Bool
      → Exec (MemoryService W) (Option Channel)
      → Exec (MemoryService W) (Option Channel)
  or_persisted (some c) ask persisted = pure (some c)
  or_persisted none false persisted = pure none
  or_persisted none true persisted = persisted

  unfoldable pub resolve_parent : String → String → String → Exec (MemoryService W) (Option Channel)
  resolve_parent user_id workspace_id parent_id = do
    found ← gets (λ s. Dict.get s.channels parent_id)
    store ← gets (λ s. s.store)
    or_persisted found (not (is_empty parent_id))
        (find_persisted_parent store user_id workspace_id parent_id)

  unfoldable pub get_channel : Option Error → String → String → Exec (MemoryService W) Channel
  get_channel ctx user_id channel_id = do
    check_context ctx
    known ← gets (λ s. Dict.get s.channels channel_id)
    store ← gets (λ s. s.store)
    found ← or_persisted known true (load_channel store user_id channel_id)
    channel ← or_fail found collaboration_not_found
    authorizer ← gets (λ s. s.authorizer)
    can_read authorizer channel.workspace_id user_id
    pure (with_own_config channel)

  unfoldable pub validate_channel_access :
      Option Error → String → String → Exec (MemoryService W) (Unit {0})
  validate_channel_access ctx user_id workspace_id = do
    check_context ctx
    fail_if (is_blank user_id || is_blank workspace_id) collaboration_invalid
    authorizer ← gets (λ s. s.authorizer)
    can_write authorizer workspace_id user_id

  unfoldable pub validate_channel_create :
      Option Error → String → String → String → Exec (MemoryService W) (Unit {0})
  validate_channel_create ctx user_id workspace_id name = do
    check_context ctx
    fail_if (is_blank user_id || is_blank workspace_id || is_blank name) collaboration_invalid
    authorizer ← gets (λ s. s.authorizer)
    can_write authorizer workspace_id user_id

  unfoldable pub persist_channel :
      (ChannelStore W → Exec W (Unit {0}))
      → Option (ChannelStore W)
      → Exec (MemoryService W) (Unit {0})
  persist_channel f none = pure tt
  persist_channel f (some store) = call (f store)

  -- s.channels[channel.ID] = channel, under the lock.
  unfoldable pub store_channel : Channel → Exec (MemoryService W) (Unit {0})
  store_channel c = modify (λ s. record s { channels = Dict.put s.channels c.id c })

  module _ (ctx : Option Error) (user_id workspace_id : String) where
    unfoldable pub load_writable_channel : String → Exec (MemoryService W) Channel
    load_writable_channel channel_id = do
      channel ← get_channel ctx user_id channel_id
      fail_if (not (channel.workspace_id == workspace_id)) collaboration_not_found
      pure channel

    unfoldable pub apply_channel_patch : ChannelPatch → Channel → Exec (MemoryService W) Channel
    apply_channel_patch patch channel = do
      renamed ← lift (rename_channel patch.name channel)
      parent ← resolve_parent user_id workspace_id channel.parent_id
      pure (
          reconfigure parent patch.config
            (inherit_repositories parent (apply_repository_patch patch renamed)))

    unfoldable pub local_channels : Exec (MemoryService W) (List Channel)
    local_channels = gets (λ s.
        sort_by (λ c. c.created_at)
          (map with_own_config
            (select (λ c. c.workspace_id == workspace_id) (Dict.values s.channels))))

    unfoldable pub or_local_channels :
        Result (Option (List Channel)) → Exec (MemoryService W) (List Channel)
    or_local_channels (ok (some persisted)) = pure persisted
    or_local_channels _ = local_channels

    unfoldable pub channels_from : Option (ChannelStore W) → Exec (MemoryService W) (List Channel)
    channels_from none = local_channels
    channels_from (some store) = do
      persisted ← try_call (store.list_channels user_id workspace_id)
      or_local_channels persisted

    unfoldable pub list_channels : Exec (MemoryService W) (List Channel)
    list_channels = do
      check_context ctx
      authorizer ← gets (λ s. s.authorizer)
      can_read authorizer workspace_id user_id
      store ← gets (λ s. s.store)
      channels_from (channel_store_of store)

  module _ (codec : Codec) (ctx : Option Error) (user_id workspace_id : String) where
    -- Behind `store_channel`: the durable store, and the event.
    unfoldable pub announce_channel :
        (ChannelStore W → Exec W (Unit {0})) → String → Channel → Exec (MemoryService W) Channel
    announce_channel f type c = do
      store ← gets (λ s. s.store)
      persist_channel f (channel_store_of store)
      publish codec type workspace_id user_id "user" (codec.channel_json c)
      pure c

    unfoldable pub create_with_parent :
        String
        → String
        → List String
        → Dict String
        → Option Channel
        → Exec (MemoryService W) Channel
    create_with_parent name parent_id ids config parent = do
      fail_if (invalid_parent parent_id workspace_id parent) collaboration_not_found
      now ← read_clock
      id ← next_id "channel"
      let channel =
          made_channel id workspace_id user_id name parent_id (inherited_repository_ids ids parent)
            (created_channel_config parent config) now
      store_channel channel
      announce_channel (λ store. store.create_channel channel) "channel.created" channel

    unfoldable pub create_channel_with_repositories :
        String → String → List String → Dict String → Exec (MemoryService W) Channel
    create_channel_with_repositories name parent_id ids config = do
      validate_channel_create ctx user_id workspace_id name
      parent ← resolve_parent user_id workspace_id (trim_space parent_id)
      create_with_parent name (trim_space parent_id) ids config parent

    unfoldable pub create_channel :
        String → String → String → Dict String → Exec (MemoryService W) Channel
    create_channel name parent_id repository_id config =
        create_channel_with_repositories name parent_id (single_repository repository_id) config

    unfoldable pub update_channel : String → ChannelPatch → Exec (MemoryService W) Channel
    update_channel channel_id patch = do
      validate_channel_access ctx user_id workspace_id
      channel ← load_writable_channel ctx user_id workspace_id channel_id
      changed ← apply_channel_patch ctx user_id workspace_id patch channel
      store_channel changed
      announce_channel (λ store. store.update_channel changed) "channel.updated" changed
