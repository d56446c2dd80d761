-- ===== src/Workspace/Members.antt =====
-- internal/workspace/memory_access.go: members and who may read and write.
use runspace.Prelude.{
  sort_by, String, Bool, true, false, not, ◌||◌, Option, none, some, List, [], ◌∷◌, is_empty,
  is_some, if◌then◌else◌,
}
use runspace.Text.{trim_space}
use runspace.Dict
use runspace.Dict.{Dict}
use runspace.Errors.{
  Error, Result, ok, err, workspace_not_found, workspace_forbidden, workspace_invalid_input,
  workspace_already_exists,
}
use runspace.Exec.{Exec, pure, fail, lift, gets, modify, fail_if, check_context, ◌>>=◌, ◌>>◌}
use runspace.Workspace.Policy.{Role, Action, is_valid, is_owner, is_viewer}
use runspace.Workspace.{
  Workspace, Member, Store, MembershipStore, MemoryService, user_error, or_nil, made_member,
  members_of, member_of, call, try_call, read_clock, authorize_locked,
}

abbrev put_members : Dict Member → List Member → Dict Member
put_members members [] = members
put_members members (m ∷ ms) = put_members (Dict.put members m.user_id m) ms

abbrev sorted : List Member → List Member
sorted members = sort_by (λ m. m.created_at) members

abbrev write_error : Role → Result (Unit {0})
write_error role = if is_viewer role then err workspace_forbidden else ok tt

module _ {W : Type 0} where
  load_membership :
      String
      → String
      → Option (String → String → Exec W Workspace)
      → Option (String → String → Exec W (Option (List Member)))
      → Exec (MemoryService W) (Unit {0})
  load_membership user_id workspace_id (some get_workspace) (some list_members) = do
    item ← call (get_workspace user_id workspace_id)
    members ← call (list_members user_id workspace_id)
    modify (λ s. if is_some (Dict.get s.workspaces workspace_id) then s else record s {
      workspaces = Dict.put s.workspaces workspace_id item;
      members = Dict.put s.members workspace_id (put_members Dict.empty (or_nil members));
    })
  load_membership user_id workspace_id _ _ = fail workspace_not_found

  or_load_membership : String → String → Bool → Option (Store W) → Exec (MemoryService W) (Unit {0})
  unfolding load_membership
  or_load_membership user_id workspace_id true store = pure tt
  or_load_membership user_id workspace_id false none = fail workspace_not_found
  or_load_membership user_id workspace_id false (some store) =
      load_membership user_id workspace_id store.get_workspace store.list_members

  unfoldable pub hydrate_workspace_membership : String → String → Exec (MemoryService W) (Unit {0})
  unfolding or_load_membership
  hydrate_workspace_membership user_id workspace_id = do
    exists ← gets (λ s. is_some (Dict.get s.workspaces workspace_id))
    store ← gets (λ s. s.store)
    or_load_membership user_id workspace_id exists store

  abbrev create_by :
      Option (Member → Exec W (Unit {0})) → Member → Exec (MemoryService W) (Unit {0})
  create_by none m = pure tt
  create_by (some create_member) m = call (create_member m)

  persist_member : Option (Store W) → Member → Exec (MemoryService W) (Unit {0})
  persist_member none m = pure tt
  persist_member (some store) m = create_by store.create_member m

  -- From the test for a known member on.
  unfoldable pub add_allowed : String → String → Role → Exec (MemoryService W) Member
  unfolding persist_member
  add_allowed workspace_id target role = do
    taken ← gets (λ s. is_some (member_of workspace_id target s))
    fail_if taken workspace_already_exists
    now ← read_clock
    let m = made_member workspace_id target role now
    modify (λ s. record s {
      members = Dict.put s.members workspace_id (Dict.put (members_of workspace_id s) target m);
    })
    store ← gets (λ s. s.store)
    persist_member store m
    pure m

  -- What runs under the mutex.
  unfoldable pub add_locked : String → String → String → Role → Exec (MemoryService W) Member
  unfolding authorize_locked add_allowed
  add_locked user_id workspace_id target role = do
    known ← gets (λ s. is_some (Dict.get s.workspaces workspace_id))
    fail_if (not known) workspace_not_found
    authorize_locked workspace_id user_id Action.manage_members
    add_allowed workspace_id target role

  unfoldable pub add_member :
      Option Error → String → String → String → Role → Exec (MemoryService W) Member
  unfolding hydrate_workspace_membership add_locked is_valid is_owner
  add_member ctx user_id workspace_id requested role = do
    check_context ctx
    lift (user_error user_id)
    let target = trim_space requested
    fail_if (is_empty target || not (is_valid role) || is_owner role) workspace_invalid_input
    hydrate_workspace_membership user_id workspace_id
    add_locked user_id workspace_id target role

  -- What the store says of a user whom the service does not know as a member.
  abbrev ask_membership :
      Option (Store W) → (MembershipStore W → Exec W (Unit {0})) → Exec (MemoryService W) (Unit {0})
  ask_membership none ask = fail workspace_forbidden
  ask_membership (some store) ask = elim store.membership [
    | none ↦ fail workspace_forbidden
    | some membership ↦ call (ask membership)
  ]

  read_by :
      Option Member → (MembershipStore W → Exec W (Unit {0})) → Exec (MemoryService W) (Unit {0})
  read_by (some m) ask = pure tt
  read_by none ask = do store ← gets (λ s. s.store); ask_membership store ask

  write_by :
      Option Member → (MembershipStore W → Exec W (Unit {0})) → Exec (MemoryService W) (Unit {0})
  write_by (some m) ask = lift (write_error m.role)
  write_by none ask = do store ← gets (λ s. s.store); ask_membership store ask

  unfoldable pub can_read : Option Error → String → String → Exec (MemoryService W) (Unit {0})
  unfolding read_by
  can_read ctx workspace_id user_id = do
    check_context ctx
    lift (user_error user_id)
    m ← gets (member_of workspace_id user_id)
    read_by m (λ membership. membership.can_read workspace_id user_id)

  unfoldable pub can_write : Option Error → String → String → Exec (MemoryService W) (Unit {0})
  unfolding write_by
  can_write ctx workspace_id user_id = do
    check_context ctx
    lift (user_error user_id)
    m ← gets (member_of workspace_id user_id)
    write_by m (λ membership. membership.can_write workspace_id user_id)

  or_sorted : List Member → Result (Option (List Member)) → Exec (MemoryService W) (List Member)
  or_sorted members (ok (some persisted)) = pure persisted
  or_sorted members _ = pure (sorted members)

  stored_members :
      String
      → String
      → List Member
      → Option (String → String → Exec W (Option (List Member)))
      → Exec (MemoryService W) (List Member)
  unfolding or_sorted
  stored_members user_id workspace_id members none = pure (sorted members)
  stored_members user_id workspace_id members (some list) = do
    listed ← try_call (list user_id workspace_id)
    or_sorted members listed

  abbrev members_from :
      String → String → List Member → Option (Store W) → Exec (MemoryService W) (List Member)
  members_from user_id workspace_id members none = stored_members user_id workspace_id members none
  members_from user_id workspace_id members (some store) =
      stored_members user_id workspace_id members store.list_members

  unfoldable pub list_members :
      Option Error → String → String → Exec (MemoryService W) (List Member)
  unfolding can_read stored_members
  list_members ctx user_id workspace_id = do
    check_context ctx
    lift (user_error user_id)
    can_read ctx workspace_id user_id
    store ← gets (λ s. s.store)
    members ← gets (λ s. Dict.values (members_of workspace_id s))
    members_from user_id workspace_id members store
