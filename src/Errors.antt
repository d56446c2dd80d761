-- ===== src/Errors.antt =====
-- The error values of the packages' `errors.New` variables, and results.
use runspace.Prelude.{String, ◌≡◌, refl, ◌⊎◌, inl, inr}

pub data Error : Type 0 where
  -- internal/workspace/policy.go
  workspace_not_found workspace_unauthorized workspace_forbidden : Error
  workspace_invalid_input workspace_already_exists : Error
  -- internal/collaboration/service.go
  collaboration_unauthorized collaboration_not_found collaboration_invalid : Error
  -- internal/agentregistry/service.go and tasks.go
  registry_unauthorized registry_invalid_input task_unavailable : Error
  -- internal/contracts/events.go and internal/events/store.go
  contracts_invalid_event events_invalid_event events_duplicate : Error
  -- internal/sandbox/service.go
  sandbox_invalid_path sandbox_not_found sandbox_too_large sandbox_binary sandbox_symlink : Error
  -- internal/secrets/service.go
  secrets_invalid secrets_not_found : Error
  -- internal/resourcegraph/service.go
  graph_unauthorized graph_forbidden graph_invalid graph_not_found : Error
  -- internal/filesync/service.go
  filesync_invalid_input filesync_not_found : Error
  -- a run-time panic, which ends the call
  panic : String → Error
  -- an error that is made where it is returned, by its text
  message : String → Error
  -- errors.Join
  join : Error → Error → Error

-- A Go result (A, error): the value counts only where the error is nil.
pub data Result {ℓ} (A : Type ℓ) : Type ℓ where
  ok : A → Result A
  err : Error → Result A

module _ {ℓ κ} {A : Type ℓ} {B : Type κ} where
  infixl 10 ◌>>=◌ ◌>>◌
  abbrev pub ◌>>=◌ : Result A → (A → Result B) → Result B
  ok a >>= f = f a
  err e >>= f = err e

  abbrev pub ◌>>◌ : Result A → Result B → Result B
  m >> k = m >>= λ _. k

pub Result-cases {ℓ} :
    {A : Type ℓ} (r : Result A) → ((a : A) × (r ≡ ok a)) ⊎ ((e : Error) × (r ≡ err e))
Result-cases (ok a) = inl (a, refl)
Result-cases (err e) = inr (e, refl)
