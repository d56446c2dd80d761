-- ===== src/AgentRegistry/Access.antt =====
-- internal/agentregistry/tasks.go and task_grants.go: who reaches a task when the service has no
-- durable store of tasks.
use runspace.Prelude.{
  ◌≡◌, refl, sym, ap, ◌∙◌, ◌⊎◌, inl, inr, String, true, false, Option, none, some, List, arith,
  ◌==◌, eq_iff, eq_refl, Bool-cases, Option-cases, if◌then◌else◌,
}
use runspace.Text.{trim_space}
use runspace.Dict
use runspace.Dict.{Dict, get-put}
use runspace.Errors.{Result, ok, err, task_unavailable}
use runspace.Exec.{Exec, continue}
use runspace.AgentRegistry.{AgentTask, TaskOutput, TaskGrant, Message, Service}
use runspace.AgentRegistry.Tasks.{
  put_task, normalize_task_status, created_or, contains, is_past, grant_of, grant_access,
  local_access, task_access, access_for, may_use,
}
use runspace.AgentRegistry.Work.{input_task, cancel_task, share_task_artifact}
use runspace.AgentRegistry.Grants.{
  remember_task_grant, viewer_permissions, contributor_permissions, operator_permissions,
  approver_permissions, task_role_permissions,
}

-- The task is known, and the user owns it or holds a grant that carries the permission and has not
-- expired.
pub record MayUse {W : Type 0} (s : Service W) (permission user_id task_id : String)
    (task : AgentTask) : Type 0 where
  pub known : Dict.get s.tasks task_id ≡ some task
  pub right :
      (task.owner_id ≡ user_id)
      ⊎ ((grant : TaskGrant) × (grant_of task_id user_id s ≡ some grant)
          × (contains grant.permissions permission ≡ true)
          × (is_past (s.now s.world).0 grant.expires_at ≡ false))

module _ {S A B : Type 0} where
  -- An action that succeeds began with one that did.
  first_ok :
      (r : Result A) (f : A → Exec S B) (s : S) (b : B)
      → (continue r f s).0 ≡ ok b
      → (a : A) × (r ≡ ok a)
  first_ok (ok a) f s b h = (a, refl)
  first_ok (err e) f s b h = absurd (cc)

module _ {W : Type 0} (permission user_id task_id : String) (s : Service W) where
  granted-MayUse :
      (task found : AgentTask) (grant : Option TaskGrant)
      → Dict.get s.tasks task_id ≡ some found
      → (found.owner_id == user_id) ≡ false
      → grant_of task_id user_id s ≡ grant
      → may_use user_id permission (grant_access found grant s).0 ≡ ok task
      → MayUse s permission user_id task_id task
  unfolding grant_access
  granted-MayUse task found none known other held h = absurd (ground (arith, h, other))
  granted-MayUse task found (some grant) known other held h = elim (Option-cases grant.expires_at) [
    | inl forever ↦ record {
      known = known ∙ ap some (ground (arith, h, other, forever));
      right = inr (grant, held, ground (arith, h, other, forever), ground (arith, forever));
    }
    | inr (t, until) ↦ record {
      known = known ∙ ap some (ground (arith, h, other, until));
      right = inr (grant, held, ground (arith, h, other, until), ground (arith, h, other, until));
    }
  ]

  access_for-MayUse :
      (task : AgentTask)
      → s.task_store ≡ none
      → (access_for permission user_id task_id s).0 ≡ ok task
      → MayUse s permission user_id task_id task
  unfolding access_for task_access local_access
  access_for-MayUse task alone h = elim (Option-cases (Dict.get s.tasks task_id)) [
    | inl unknown ↦ absurd (ground (arith, h, alone, unknown))
    | inr (found, known) ↦ elim (Bool-cases (found.owner_id == user_id)) [
      | inl own ↦ record {
        known = known ∙ ap some (ground (arith, h, alone, known, own));
        right = inl (ground (arith, h, alone, known, own, eq_iff found.owner_id user_id));
      }
      | inr other ↦
          granted-MayUse task found (grant_of task_id user_id s) known other refl
            (sym (ap (may_use user_id permission) (reduced found known other)) ∙ h)
    ]
  ]
    where
      reduced :
          (found : AgentTask)
          → Dict.get s.tasks task_id ≡ some found
          → (found.owner_id == user_id) ≡ false
          → (task_access user_id task_id s).0
            ≡ (grant_access found (grant_of task_id user_id s) s).0
      reduced found known other = simp alone rw (known, local_access) rw other refl

module _ {W : Type 0} (user_id task_id : String) (s : Service W) where
  -- Without a durable store of tasks, who feeds a task owns it or holds a grant to contribute that has
  -- not expired.
  pub input_task-MayUse :
      (input : String) (outputs : List TaskOutput)
      → s.task_store ≡ none
      → (input_task user_id task_id input s).0 ≡ ok outputs
      → (task : AgentTask) × MayUse s "task.contribute" user_id task_id task
  unfolding input_task
  input_task-MayUse input outputs alone h =
      let (task, e) = first_ok (access_for "task.contribute" user_id task_id s).0 _ _ outputs h in
      (task, access_for-MayUse "task.contribute" user_id task_id s task alone e)

  -- Without a durable store of tasks, who cancels a task owns it or holds a grant to control that has
  -- not expired.
  cancel_task-MayUse :
      s.task_store ≡ none
      → (cancel_task user_id task_id s).0 ≡ ok tt
      → (task : AgentTask) × MayUse s "task.control" user_id task_id task
  unfolding cancel_task
  cancel_task-MayUse alone h =
      let (task, e) = first_ok (access_for "task.control" user_id task_id s).0 _ _ tt h in
      (task, access_for-MayUse "task.control" user_id task_id s task alone e)

  -- Without a durable store of tasks, who shares a text of a task owns the task or holds a grant to
  -- share that has not expired.
  share_task_artifact-MayUse :
      (body : String) (message : Message)
      → s.task_store ≡ none
      → (share_task_artifact user_id task_id body s).0 ≡ ok message
      → (task : AgentTask) × MayUse s "artifact.share" user_id task_id task
  unfolding share_task_artifact
  share_task_artifact-MayUse body message alone h =
      let (task, e) = first_ok (access_for "artifact.share" user_id task_id s).0 _ _ message h in
      (task, access_for-MayUse "artifact.share" user_id task_id s task alone e)

-- Every role that a grant can have lets the principal see the task, and only an operator controls it.
task_role_permissions-control :
    (role : String) (permissions : List String)
    → task_role_permissions role ≡ some permissions
    → (contains permissions "task.view" ≡ true)
      × (contains permissions "task.control" ≡ (trim_space role == "operator"))
task_role_permissions-control role permissions h = elim (Bool-cases (name == "viewer")) [
  | inl v ↦ is_fit "viewer" viewer_permissions v refl refl (ground (arith, h, v))
  | inr nv ↦ elim (Bool-cases (name == "contributor")) [
    | inl c ↦ is_fit "contributor" contributor_permissions c refl refl (ground (arith, h, nv, c))
    | inr nc ↦ elim (Bool-cases (name == "operator")) [
      | inl o ↦ is_fit "operator" operator_permissions o refl refl (ground (arith, h, nv, nc, o))
      | inr no' ↦ elim (Bool-cases (name == "approver")) [
        | inl a ↦
            is_fit "approver" approver_permissions a refl refl (ground (arith, h, nv, nc, no', a))
        | inr na ↦ absurd (ground (arith, h, nv, nc, no', na))
      ]
    ]
  ]
]
  where
    name : String
    name = trim_space role

    is_fit :
        (n : String) (ps : List String)
        → (name == n) ≡ true
        → contains ps "task.view" ≡ true
        → contains ps "task.control" ≡ (n == "operator")
        → ps ≡ permissions
        → (contains permissions "task.view" ≡ true)
          × (contains permissions "task.control" ≡ (name == "operator"))
    is_fit n ps here view control same = (
      ap (λ qs. contains qs "task.view") (sym same) ∙ view,
      ap (λ qs. contains qs "task.control") (sym same)
          ∙ control
          ∙ ap (λ m. m == "operator") (sym ((eq_iff name n).0 here)),
    )

module _ {W : Type 0} (grant : TaskGrant) (s : Service W) where
  -- Without a durable store of tasks, a remembered grant that does not expire lets its principal,
  -- who is not the owner, reach the known task with each of its permissions and with no other.
  pub remember_task_grant-access :
      (permission : String) (task : AgentTask)
      → s.task_store ≡ none
      → Dict.get s.tasks grant.task_id ≡ some task
      → (task.owner_id == grant.principal_id) ≡ false
      → grant.expires_at ≡ none
      → (access_for permission grant.principal_id grant.task_id (remember_task_grant grant s)).0
        ≡ (if contains grant.permissions permission then ok task else err task_unavailable)
  unfolding access_for task_access local_access grant_access remember_task_grant
  remember_task_grant-access permission task alone known other forever =
      elim (Option-cases (grant_of grant.task_id grant.principal_id s)) [
        | inl new ↦
            simp alone rw (known, local_access) rw other rw (get-put, eq_refl) rw (get-put, eq_refl)
              rw (new, forever)
              (elim (Bool-cases (contains grant.permissions permission)) [
                | inl y ↦ rw y refl
                | inr n ↦ rw (n, other) refl
              ])
        | inr (old, there) ↦
            simp alone rw (known, local_access) rw other rw (get-put, eq_refl) rw (get-put, eq_refl)
              rw (there, forever)
              (elim (Bool-cases (contains grant.permissions permission)) [
                | inl y ↦ rw y refl
                | inr n ↦ rw (n, other) refl
              ])
      ]

module _ {W : Type 0} (caller_id : String) (task : AgentTask) (s : Service W) where
  -- Putting a task of a known id, without a durable store of tasks, makes the caller its owner,
  -- whoever owned it before, and keeps its time of creation.
  pub put_task-takes_over :
      (existing : AgentTask)
      → s.task_store ≡ none
      → Dict.get s.tasks task.id ≡ some existing
      → let (r, t) = put_task caller_id task s in
        (mine : AgentTask) × (r ≡ ok mine)
        × (Dict.get t.tasks task.id ≡ some mine)
        × (mine.owner_id ≡ caller_id)
        × (mine.created_at ≡ existing.created_at)
  unfolding put_task
  put_task-takes_over existing alone known = simp alone (elim (Option-cases s.graph) [
    | inl absent ↦ simp absent (mine, refl, rw (get-put, eq_refl) refl, refl, rw known refl)
    | inr (graph, there) ↦ simp there (mine, refl, rw (get-put, eq_refl) refl, refl, rw known refl)
  ])
    where
      mine : AgentTask
      mine = record task {
        owner_id = caller_id;
        status = normalize_task_status task.status;
        updated_at = (s.now s.world).0;
        created_at = created_or (s.now s.world).0 (Dict.get s.tasks task.id);
      }
