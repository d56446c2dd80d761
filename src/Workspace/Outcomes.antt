-- ===== src/Workspace/Outcomes.antt =====
-- internal/workspace/memory.go: what an operation leaves behind when the service has no durable store,
-- first of all CreateWorkspace.
pub mod Joining
pub mod Connecting
use runspace.Prelude.{
  ℕ, ◌≡◌, subst, refl, sym, ap, ◌⊎◌, inl, inr, String, true, false, not, ◌||◌, ◌==◌, Option, none,
  some, arith, is_empty, some_of, Bool-cases, Option-cases,
}
use runspace.Text.{trim_space, is_blank}
use runspace.Dict
use runspace.Dict.{Dict, get-put}
use runspace.Errors.{Error, Result, ok, err}
use runspace.Exec.{continue, Exec}
use runspace.Workspace.Policy.{Role, Action, is_valid, is_owner}
use runspace.Workspace.Slug.{slugify}
use runspace.Workspace.{
  Workspace, Member, Resource, ConnectResourceRequest, MemoryService, made_workspace, made_member,
  members_of, member_of, authorize_locked, create_workspace, get_workspace,
}
use runspace.Workspace.Members.{
  hydrate_workspace_membership, add_member, add_locked, add_allowed, hydrate_workspace_membership,
}
use runspace.Workspace.Authority.{May, authorize_locked-cases}
use runspace.Workspace.Resources.{
  connect_resource, connect_locked, connect_allowed, connect_visible, valid_repository_request,
  made_resource, repository_duplicate_locked, normalized_repository_request,
}

module _ {S A B : Type 0} where
  -- What holds after a first action of known result and the rest holds after both.
  pub continue-from :
      (P : S → Type 0) (m : Exec S A) (f : A → Exec S B) (s : S) (p : Result A × S)
      → m s ≡ p
      → P (continue p.0 f p.1).1
      → P (continue (m s).0 f (m s).1).1
  continue-from P m f s p e h = subst (λ q. P (continue q.0 f q.1).1) (sym e) h

module _ {W : Type 0} where
  -- The clock has ticked at most.
  pub record IsSame (s t : MemoryService W) : Type 0 where
    pub workspaces : t.workspaces ≡ s.workspaces
    pub members : t.members ≡ s.members
    pub repositories : t.repositories ≡ s.repositories

  pub unchanged : (s : MemoryService W) → IsSame s s
  unchanged s = record { workspaces = refl; members = refl; repositories = refl }

  pub record Created (user_id name : String) (s t : MemoryService W) : Type 0 where
    pub id : String
    pub now : ℕ
    pub new_slug : some_of (λ ws. ws.slug == slugify name) (Dict.values s.workspaces) ≡ false
    pub workspaces : t.workspaces ≡ Dict.put s.workspaces id (made_workspace id name user_id now)
    pub members :
        t.members
        ≡ Dict.put s.members id
            (Dict.put Dict.empty user_id (made_member id user_id Role.owner now))
    pub repositories : t.repositories ≡ s.repositories

  -- Without a durable store, creating a workspace leaves the workspaces, members and resources as they
  -- were, or its slug was free, and it puts in the workspace, with its maker as the only member, an
  -- owner.
  pub create_workspace-outcome :
      (ctx : Option Error) (user_id requested : String) (s : MemoryService W)
      → s.store ≡ none
      → let t = (create_workspace ctx user_id requested s).1 in
        IsSame s t ⊎ Created user_id (trim_space requested) s t
  unfolding create_workspace
  create_workspace-outcome (some e) user_id requested s alone = inl (unchanged s)
  create_workspace-outcome none user_id requested s alone = elim (Bool-cases (is_blank user_id)) [
    | inl nobody ↦ rw (nobody, create_workspace) (inl (unchanged s))
    | inr somebody ↦ elim (Bool-cases (is_empty (trim_space requested))) [
      | inl unnamed ↦ rw (somebody, unnamed, create_workspace) (inl (unchanged s))
      | inr named ↦
          elim (Bool-cases (
            some_of (λ ws. ws.slug == slugify (trim_space requested)) (Dict.values s.workspaces))) [
              | inl taken ↦
                  rw (somebody, named, taken, create_workspace)
                    (inl (record { workspaces = refl; members = refl; repositories = refl }))
              | inr free ↦
                  rw (somebody, named, free, alone, create_workspace)
                    (inr (record {
                      id = _;
                      now = _;
                      new_slug = free;
                      workspaces = refl;
                      members = refl;
                      repositories = refl;
                    }))
            ]
    ]
  ]
