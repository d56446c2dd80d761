-- ===== src/Workspace/Outcomes/Joining.antt =====
-- internal/workspace/memory_access.go: what AddMember leaves behind when there is no durable store.
use runspace.Workspace.Outcomes.{IsSame, unchanged, continue-from}
use runspace.Prelude.{
  ℕ, ◌≡◌, refl, ◌⊎◌, inl, inr, String, true, false, not, ◌||◌, Option, none, some, arith, is_empty,
  Bool-cases, Option-cases,
}
use runspace.Text.{trim_space, is_blank}
use runspace.Dict
use runspace.Dict.{Dict, get-put}
use runspace.Errors.{Error, ok, err}
use runspace.Exec.{Exec}
use runspace.Workspace.Policy.{Role, Action, is_valid, is_owner}
use runspace.Workspace.{Member, MemoryService, made_member, members_of, member_of, authorize_locked}
use runspace.Workspace.Members.{
  hydrate_workspace_membership, add_member, add_locked, add_allowed, hydrate_workspace_membership,
}
use runspace.Workspace.Authority.{May, authorize_locked-cases}

module _ {W : Type 0} where
  pub record Joined (user_id workspace_id target : String) (role : Role) (s t : MemoryService W)
      : Type 0 where
    pub now : ℕ
    pub may : May s workspace_id user_id Action.manage_members
    pub is_new : member_of workspace_id target s ≡ none
    pub workspaces : t.workspaces ≡ s.workspaces
    pub members :
        t.members
        ≡ Dict.put s.members workspace_id
            (Dict.put (members_of workspace_id s) target (made_member workspace_id target role now))
    pub repositories : t.repositories ≡ s.repositories

  add_locked-outcome :
      (user_id workspace_id target : String) (role : Role) (s : MemoryService W)
      → s.store ≡ none
      → let t = (add_locked user_id workspace_id target role s).1 in
        IsSame s t ⊎ Joined user_id workspace_id target role s t
  unfolding add_locked
  add_locked-outcome user_id workspace_id target role s alone =
      elim (Option-cases (Dict.get s.workspaces workspace_id)) [
        | inl unknown ↦ rw (unknown, add_locked) (inl (unchanged s))
        | inr (ws, known) ↦
            rw (known, add_locked)
              (elim (authorize_locked-cases s workspace_id user_id Action.manage_members) [
                | inr (e, denied) ↦
                    continue-from Fine (authorize_locked workspace_id user_id Action.manage_members)
                      allowed s (err e, s) denied (inl (unchanged s))
                | inl (granted, may) ↦
                    continue-from Fine (authorize_locked workspace_id user_id Action.manage_members)
                      allowed s (ok tt, s) granted
                      (elim (Option-cases (member_of workspace_id target s)) [
                        | inr (m, there) ↦
                            unfold add_allowed in rw (there, add_allowed) (inl (unchanged s))
                        | inl fresh ↦
                            unfold add_allowed in
                            rw (fresh, add_allowed) simp alone
                              (inr (record {
                                now = _;
                                may = may;
                                is_new = fresh;
                                workspaces = refl;
                                members = refl;
                                repositories = refl;
                              }))
                      ])
              ])
      ]
    where
      Fine : MemoryService W → Type 0
      Fine t = IsSame s t ⊎ Joined user_id workspace_id target role s t

      allowed : Unit {0} → Exec (MemoryService W) Member
      allowed u = add_allowed workspace_id target role

  -- Without a durable store, adding a member leaves the workspaces, members and resources as they
  -- were, or the caller may manage the members, the role is valid and not owner, the target was no
  -- member, and the target is put in with that role, and nothing else changes.
  pub add_member-outcome :
      (ctx : Option Error) (user_id workspace_id requested : String) (role : Role)
      (s : MemoryService W)
      → s.store ≡ none
      → let t = (add_member ctx user_id workspace_id requested role s).1 in
        IsSame s t
        ⊎ ((is_valid role ≡ true)
            × (is_owner role ≡ false)
            × Joined user_id workspace_id (trim_space requested) role s t)
  unfolding add_member
  add_member-outcome (some e) user_id workspace_id requested role s alone = inl (unchanged s)
  add_member-outcome none user_id workspace_id requested role s alone =
      elim (Bool-cases (is_blank user_id)) [
        | inl nobody ↦ rw (nobody, add_member) (inl (unchanged s))
        | inr somebody ↦
            elim (Bool-cases
              (is_empty (trim_space requested) || not (is_valid role) || is_owner role)) [
                | inl refused ↦ rw (somebody, refused, add_member) (inl (unchanged s))
                | inr fine ↦ elim (Option-cases (Dict.get s.workspaces workspace_id)) [
                  | inl unknown ↦
                      rw (somebody, fine, add_member)
                        (unfold hydrate_workspace_membership in
                          rw (unknown, hydrate_workspace_membership) simp alone (inl (unchanged s)))
                  | inr (ws, known) ↦
                      rw (somebody, fine, add_member)
                        (unfold hydrate_workspace_membership in
                          rw (known, hydrate_workspace_membership)
                            (elim (add_locked-outcome user_id workspace_id (trim_space requested)
                              role s alone) [
                                | inl same ↦ inl same
                                | inr joined ↦
                                    inr (ground (arith, fine), ground (arith, fine), joined)
                              ]))
                ]
              ]
      ]
