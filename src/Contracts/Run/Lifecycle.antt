-- ===== src/Contracts/Run/Lifecycle.antt =====
-- internal/contracts/run.go: the life of a run that `TransitionRun` accepts.
use runspace.Prelude.{
  eq_iff, eq_refl, ap, Bool-cases, ◌==◌, ℕ, ◌≤◌, ◌<◌, ◌≡◌, refl, ◌⊎◌, inl, inr, ◌↔◌, List, [], ◌∷◌,
  arith,
}
use runspace.Errors.{ok}
use runspace.Contracts.Run.{RunState, transition_run, same_state, true}

-- How far a run has come: queued, at work, asked to stop, over. From a text that is none of the six
-- there is no way on either.
abbrev pub stage : RunState → ℕ
stage RunState.queued = 0
stage RunState.running = 1
stage RunState.stopping = 2
stage RunState.succeeded = 3
stage RunState.failed = 3
stage RunState.cancelled = 3
stage (RunState.other s) = 3

pub stage-le : (a : RunState) → stage a ≤ 3
stage-le RunState.queued = omega arith
stage-le _ = omega arith

-- The moves of a run's life, one constructor for each arrow.
pub data Move : RunState → RunState → Type 0 where
  start : Move RunState.queued RunState.running
  drop : Move RunState.queued RunState.cancelled
  ask_stop : Move RunState.running RunState.stopping
  succeed : Move RunState.running RunState.succeeded
  fail : Move RunState.running RunState.failed
  cancel : Move RunState.running RunState.cancelled
  stop : Move RunState.stopping RunState.cancelled
  stop_failed : Move RunState.stopping RunState.failed

abbrev pub IsMove : RunState → RunState → Type 0
IsMove a b = (a ≡ b) ⊎ Move a b

Move-accepted : {a b : RunState} → Move a b → transition_run a b ≡ ok tt
unfolding transition_run
Move-accepted start = refl
Move-accepted drop = refl
Move-accepted ask_stop = refl
Move-accepted succeed = refl
Move-accepted fail = refl
Move-accepted cancel = refl
Move-accepted stop = refl
Move-accepted stop_failed = refl

same-accepted : (a : RunState) → transition_run a a ≡ ok tt
unfolding transition_run
same-accepted (RunState.other s) = rw eq_refl refl
same-accepted _ = refl

accepted-IsMove : (a b : RunState) → transition_run a b ≡ ok tt → IsMove a b
unfolding transition_run
accepted-IsMove RunState.queued RunState.queued h = inl refl
accepted-IsMove RunState.queued RunState.running h = inr start
accepted-IsMove RunState.queued RunState.cancelled h = inr drop
accepted-IsMove RunState.running RunState.running h = inl refl
accepted-IsMove RunState.running RunState.stopping h = inr ask_stop
accepted-IsMove RunState.running RunState.succeeded h = inr succeed
accepted-IsMove RunState.running RunState.failed h = inr fail
accepted-IsMove RunState.running RunState.cancelled h = inr cancel
accepted-IsMove RunState.stopping RunState.stopping h = inl refl
accepted-IsMove RunState.stopping RunState.cancelled h = inr stop
accepted-IsMove RunState.stopping RunState.failed h = inr stop_failed
accepted-IsMove RunState.succeeded RunState.succeeded h = inl refl
accepted-IsMove RunState.failed RunState.failed h = inl refl
accepted-IsMove RunState.cancelled RunState.cancelled h = inl refl
accepted-IsMove (RunState.other s) (RunState.other t) h = elim (Bool-cases (s == t)) [
  | inl same ↦ inl (ap RunState.other ((eq_iff s t).0 same))
  | inr new ↦ absurd (cc (rw new at h))
]
accepted-IsMove _ _ h = cc

-- `TransitionRun` accepts exactly the moves of the relation, and staying where one is.
pub transition_run_iff : (a b : RunState) → (transition_run a b ≡ ok tt) ↔ IsMove a b
transition_run_iff a b = (accepted-IsMove a b, back)
  where
    back : IsMove a b → transition_run a b ≡ ok tt
    back (inl e) = rw e (same-accepted b)
    back (inr m) = Move-accepted m

pub Move-stage : {a b : RunState} → Move a b → stage a < stage b
Move-stage start = omega arith
Move-stage drop = omega arith
Move-stage ask_stop = omega arith
Move-stage succeed = omega arith
Move-stage fail = omega arith
Move-stage cancel = omega arith
Move-stage stop = omega arith
Move-stage stop_failed = omega arith

-- A history of statuses in which each step is one that `TransitionRun` accepts.
abbrev pub Accepted : RunState → List RunState → Type 0
Accepted a [] = Unit {0}
Accepted a (b ∷ bs) = (transition_run a b ≡ ok tt) × Accepted b bs

abbrev pub final : RunState → List RunState → RunState
final a [] = a
final a (b ∷ bs) = final b bs

IsMove-stage : {a b : RunState} → IsMove a b → (a ≡ b) ⊎ (stage a < stage b)
IsMove-stage (inl e) = inl e
IsMove-stage (inr m) = inr (Move-stage m)

-- Along any accepted history the stage never falls; if it is the same at the end, the status is.
Accepted-final :
    (a : RunState) (bs : List RunState)
    → Accepted a bs
    → (final a bs ≡ a) ⊎ (stage a < stage (final a bs))
Accepted-final a [] h = inl refl
Accepted-final a (b ∷ bs) h =
    grind (arith, IsMove-stage (accepted-IsMove a b h.0), Accepted-final b bs h.1)

pub same_state_refl : (a : RunState) → same_state a a ≡ true
unfolding same_state
same_state_refl RunState.queued = refl
same_state_refl RunState.running = refl
same_state_refl RunState.stopping = refl
same_state_refl RunState.succeeded = refl
same_state_refl RunState.failed = refl
same_state_refl RunState.cancelled = refl
same_state_refl (RunState.other s) = eq_refl s

pub same_state_eq : (a b : RunState) → same_state a b ≡ true → a ≡ b
unfolding same_state
same_state_eq RunState.queued RunState.queued h = refl
same_state_eq RunState.running RunState.running h = refl
same_state_eq RunState.stopping RunState.stopping h = refl
same_state_eq RunState.succeeded RunState.succeeded h = refl
same_state_eq RunState.failed RunState.failed h = refl
same_state_eq RunState.cancelled RunState.cancelled h = refl
same_state_eq (RunState.other s) (RunState.other t) h = ap RunState.other ((eq_iff s t).0 h)
same_state_eq _ _ h = cc
