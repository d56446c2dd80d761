-- ===== src/Workspace/Effects.antt =====
-- internal/workspace/memory.go and memory_access.go: what an operation that is allowed does, and what
-- listing the workspaces does to the roles of who lists them.
use runspace.Prelude.{
  ℕ, ◌≡◌, refl, inl, inr, String, false, none, some, [], ◌∷◌, ◌==◌, eq_refl, is_empty, some_of,
  Bool-cases,
}
use runspace.Text.{trim_space, is_blank}
use runspace.Dict
use runspace.Dict.{Dict, get-put}
use runspace.Errors.{ok}
use runspace.Workspace.Policy.{Role, is_viewer}
use runspace.Workspace.Slug.{slugify}
use Prim.Native.String
use runspace.Text.Decimal.{decimal}
use runspace.Workspace.{
  made_workspace, made_member, next_seq, Workspace, Member, Store, MemoryService, member_of,
  create_workspace, list_workspaces, hydrate,
}
use runspace.Workspace.Members.{can_write}

module _ {W : Type 0} (user_id : String) (s : MemoryService W) where
  -- Creating a workspace with a name whose slug is free, by a named user and without a durable store,
  -- succeeds: the workspace is stored under its id, with that slug, and its maker is its owner.
  create_workspace_ok :
      (requested : String)
      → s.store ≡ none
      → is_blank user_id ≡ false
      → is_empty (trim_space requested) ≡ false
      → some_of (λ ws. ws.slug == slugify (trim_space requested)) (Dict.values s.workspaces) ≡ false
      → let (r, t) = create_workspace none user_id requested s in
        (ws : Workspace) × (m : Member) × (r ≡ ok ws)
        × (Dict.get t.workspaces ws.id ≡ some ws)
        × (ws.slug ≡ slugify (trim_space requested))
        × (member_of ws.id user_id t ≡ some m)
        × (m.role ≡ Role.owner)
  unfolding create_workspace
  create_workspace_ok requested alone somebody named free =
      rw (somebody, named, free, create_workspace) simp alone
        (
          made_workspace id (trim_space requested) user_id now,
          made_member id user_id Role.owner now,
          refl,
          rw (get-put, eq_refl) refl,
          refl,
          rw (get-put, eq_refl) rw (get-put, eq_refl) refl,
          refl,
        )
    where
      now : ℕ
      now = (s.clock s.world).0

      id : String
      id = String.◌++◌ "ws" (String.◌++◌ "_" (decimal (next_seq s.seq)))

  hydrate-can_write :
      (ws : Workspace)
      → is_blank user_id ≡ false
      → (can_write none ws.id user_id (hydrate user_id ws s)).0 ≡ ok tt
  unfolding can_write hydrate is_viewer
  hydrate-can_write ws somebody = elim (Bool-cases (ws.created_by == user_id)) [
    | inl own ↦
        rw (somebody, can_write, hydrate, get-put, eq_refl) rw (get-put, eq_refl) rw own refl
    | inr other ↦
        rw (somebody, can_write, hydrate, get-put, eq_refl) rw (get-put, eq_refl) rw other refl
  ]

module _ {W : Type 0} (user_id : String) (s : MemoryService W) where
  list_workspaces-hydrate :
      (store : Store W) (ws : Workspace) (w : W)
      → s.store ≡ some store
      → is_blank user_id ≡ false
      → store.list_workspaces user_id s.world ≡ (ok (some (ws ∷ [])), w)
      → list_workspaces none user_id s ≡ (ok (ws ∷ []), hydrate user_id ws (record s { world = w }))
  unfolding list_workspaces
  list_workspaces-hydrate store ws w there somebody listed =
      rw (somebody, list_workspaces) simp there rw listed refl

  -- A user whom the durable store lists exactly one workspace may write to it after listing, also where
  -- the service knew that user as a viewer.
  pub list_workspaces-can_write :
      (store : Store W) (ws : Workspace) (w : W)
      → s.store ≡ some store
      → is_blank user_id ≡ false
      → store.list_workspaces user_id s.world ≡ (ok (some (ws ∷ [])), w)
      → (can_write none ws.id user_id (list_workspaces none user_id s).1).0 ≡ ok tt
  list_workspaces-can_write store ws w there somebody listed =
      rw (list_workspaces-hydrate store ws w there somebody listed)
        (hydrate-can_write user_id (record s { world = w }) ws somebody)
