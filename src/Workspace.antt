-- ===== src/Workspace.antt =====
-- internal/workspace/memory.go: the workspace service, making, listing and getting workspaces.
-- Workspace/Model has the state, Workspace/Members the operations of memory_access.go,
-- Workspace/Resources those on resources.
pub mod Model
pub mod Policy
pub mod Slug
pub mod Members
pub mod Resources
pub mod Authority
pub mod Outcomes
pub mod Owners
pub mod Invariant
pub mod Effects
pub mod Granted
mod Tests
unfoldable pub use Model.*
use Policy.{Role, Action, is_valid, allows}
use Slug.{slugify}
use Prim.Native.String
use runspace.Prelude.{
  sort_by, ℕ, ◌+◌, ◌%◌, String, Bool, true, false, not, ◌&&◌, ◌||◌, Option, none, some, List, [],
  ◌∷◌, map, ◌==◌, select, some_of, ltb, leb, is_empty, is_some, if◌then◌else◌,
}
use runspace.Text.{trim_space, is_blank}
use runspace.Text.Decimal.{decimal, parse_uint64, after_underscore}
use runspace.Dict
use runspace.Dict.{Dict}
use runspace.Errors.{
  Error, Result, ok, err, workspace_not_found, workspace_unauthorized, workspace_forbidden,
  workspace_invalid_input, workspace_already_exists,
}
use runspace.Exec.{
  Exec, pure, fail, lift, gets, modify, or_fail, fail_if, check_context, ◌>>=◌, ◌>>◌,
}

module _ {W : Type 0} where
  store_workspace : Option (Store W) → Workspace → Member → Exec (MemoryService W) (Unit {0})
  store_workspace none ws m = pure tt
  store_workspace (some store) ws m = call (store.create_workspace_with_member ws m)

  unfoldable pub create_workspace :
      Option Error → String → String → Exec (MemoryService W) Workspace
  unfolding next_id store_workspace
  create_workspace ctx user_id requested = do
    check_context ctx
    lift (user_error user_id)
    let name = trim_space requested
    fail_if (is_empty name) workspace_invalid_input
    now ← read_clock
    taken ← gets (λ s. some_of (λ ws. ws.slug == slugify name) (Dict.values s.workspaces))
    fail_if taken workspace_already_exists
    id ← next_id "ws"
    let ws = made_workspace id name user_id now
    let m = made_member id user_id Role.owner now
    modify (λ s. record s {
      workspaces = Dict.put s.workspaces id ws;
      members = Dict.put s.members id (Dict.put Dict.empty user_id m);
    })
    store ← gets (λ s. s.store)
    store_workspace store ws m
    pure ws

  unfoldable pub hydrate : String → Workspace → MemoryService W → MemoryService W
  hydrate user_id item s =
      let role = if item.created_by == user_id then Role.owner else Role.member in
      record s {
        seq = raised_seq s.seq item.id;
        workspaces = Dict.put s.workspaces item.id item;
        members = Dict.put s.members item.id (
            Dict.put (members_of item.id s) user_id
              (made_member item.id user_id role item.created_at));
      }

  hydrate_all : String → List Workspace → MemoryService W → MemoryService W
  unfolding hydrate
  hydrate_all user_id [] s = s
  hydrate_all user_id (item ∷ items) s = hydrate_all user_id items (hydrate user_id item s)

  -- for id, members := range s.members { if _, ok := members[userID]; ok { … s.workspaces[id] } }
  abbrev joined_workspaces : String → MemoryService W → List Workspace
  joined_workspaces user_id s =
      map (λ e. or_zero_workspace (Dict.get s.workspaces e.key))
        (select (λ e. is_some (Dict.get e.value user_id)) s.members.entries)

  local_workspaces : String → Exec (MemoryService W) (List Workspace)
  local_workspaces user_id = gets (λ s. sort_by (λ ws. ws.created_at) (joined_workspaces user_id s))

  or_local_workspaces :
      String → Result (Option (List Workspace)) → Exec (MemoryService W) (List Workspace)
  unfolding hydrate_all local_workspaces
  or_local_workspaces user_id (ok (some persisted)) = do
    modify (hydrate_all user_id persisted)
    pure persisted
  or_local_workspaces user_id _ = local_workspaces user_id

  stored_workspaces : String → Option (Store W) → Exec (MemoryService W) (List Workspace)
  unfolding local_workspaces or_local_workspaces
  stored_workspaces user_id none = local_workspaces user_id
  stored_workspaces user_id (some store) = do
    listed ← try_call (store.list_workspaces user_id)
    or_local_workspaces user_id listed

  unfoldable pub list_workspaces : Option Error → String → Exec (MemoryService W) (List Workspace)
  unfolding stored_workspaces
  list_workspaces ctx user_id = do
    check_context ctx
    lift (user_error user_id)
    store ← gets (λ s. s.store)
    stored_workspaces user_id store

  -- for _, item := range items { if item.ID == id { s.hydrate(userID, item); return item, nil } }
  pick_workspace : String → String → List Workspace → Exec (MemoryService W) Workspace
  unfolding hydrate
  pick_workspace user_id id [] = fail workspace_not_found
  pick_workspace user_id id (item ∷ items) =
      let rest = pick_workspace user_id id items in
      if item.id == id then (do modify (hydrate user_id item); pure item) else rest

  fetch_workspace : String → String → Option (Store W) → Exec (MemoryService W) Workspace
  unfolding pick_workspace
  fetch_workspace user_id id none = fail workspace_not_found
  fetch_workspace user_id id (some store) = do
    items ← call (store.list_workspaces user_id)
    pick_workspace user_id id (or_nil items)

  known_workspace : String → String → Option Workspace → Exec (MemoryService W) Workspace
  unfolding fetch_workspace
  known_workspace user_id id none = do store ← gets (λ s. s.store); fetch_workspace user_id id store
  known_workspace user_id id (some ws) = do
    m ← gets (member_of id user_id)
    fail_if (not (is_some m)) workspace_forbidden
    pure ws

  unfoldable pub get_workspace : Option Error → String → String → Exec (MemoryService W) Workspace
  unfolding known_workspace
  get_workspace ctx user_id id = do
    check_context ctx
    lift (user_error user_id)
    found ← gets (λ s. Dict.get s.workspaces id)
    known_workspace user_id id found
