-- ===== src/Workspace/Authority.antt =====
-- internal/workspace/memory.go and memory_access.go: who may change what.
use runspace.Prelude.{◌≡◌, ap, ◌⊎◌, inl, inr, String, true, some, arith, Option-cases}
use runspace.Errors.{Error, ok, err, Result-cases}
use runspace.Workspace.Policy.{Action, allows}
use runspace.Workspace.{Member, MemoryService, member_of, authorize_locked}

-- The user is a member of the workspace, in a role that allows the action.
pub record May {W : Type 0} (s : MemoryService W) (workspace_id user_id : String) (action : Action)
    : Type 0 where
  pub member : Member
  pub joined : member_of workspace_id user_id s ≡ some member
  pub allowed : allows member.role action ≡ true

module _ {W : Type 0} (s : MemoryService W) (workspace_id user_id : String) where
  pub authorize_locked-May :
      (action : Action)
      → (authorize_locked workspace_id user_id action s).0 ≡ ok tt
      → May s workspace_id user_id action
  unfolding authorize_locked
  authorize_locked-May action h = elim (Option-cases (member_of workspace_id user_id s)) [
    | inl none' ↦ absurd (ground (arith, none'))
    | inr (m, joined) ↦ record { member = m; joined = joined; allowed = ground (arith, joined) }
  ]

  pub authorize_locked-cases :
      (action : Action)
      → ((authorize_locked workspace_id user_id action s ≡ (ok tt, s))
          × May s workspace_id user_id action)
        ⊎ ((e : Error) × (authorize_locked workspace_id user_id action s ≡ (err e, s)))
  unfolding authorize_locked
  authorize_locked-cases action =
      elim (Result-cases (authorize_locked workspace_id user_id action s).0) [
        | inl (u, h) ↦ inl (ap (λ r. (r, s)) h, authorize_locked-May action h)
        | inr (e, h) ↦ inr (e, ap (λ r. (r, s)) h)
      ]
