-- ===== src/Runs/Outcomes.antt =====
-- internal/runs/service.go: what Create, Start and Stop leave in the map of runs when one thread is
-- at work.
pub mod Stopping
use runspace.Prelude.{
  ℕ, zero, suc, ◌+◌, ◌-◌, ◌≤◌, ◌<◌, ◌≡◌, refl, sym, ap, ◌∙◌, subst, ◌≢◌, ◌↔◌, ◌⊎◌, inl, inr, String,
  Bool, true, false, not, ◌&&◌, ◌||◌, Option, none, some, List, [], ◌∷◌, ◌++◌, map, append_assoc,
  append-nil, arith, ◌==◌, eq_iff, eq_refl, length, length-append, take, get_elem?, set,
  get_elem?-set, length-set, get_elem?-lt, get_elem?-length, get_elem?-append_left, select, some_of,
  some_of-append, All, All-append, In, Bool-cases, Option-cases, String-cases, ltb, leb, eqb,
  is_empty, is_some, if◌then◌else◌,
}
use runspace.Dict
use runspace.Dict.{Dict, get-put}
use runspace.Errors.{Error, Result, Result-cases, ok, err, message}
use runspace.Exec.{Exec, continue, fail_if}
use runspace.Contracts.Run.{RunState, SpawnRequest, AgentOutput, transition_run, same_state}
use runspace.Runs.{
  Run, Agent, Store, Codec, Service, ◌>>=◌, queued_run, moved, publish, save_run, create_locked,
  create, start_locked, start, run_context, run_agent, agent_for,
}
use runspace.Runs.Quiet.{IsQuiet, runs-bind, quiet_rules}

abbrev pub IsNamed : SpawnRequest → Type 0
IsNamed r = (is_empty r.run_id || is_empty r.workspace_id) ≡ false

module _ {W A : Type 0} where
  fail_if-bind :
      (b : Bool) (e : Error) (f : Unit {0} → Exec (Service W) A) (s : Service W)
      → b ≡ false
      → (fail_if b e >>= f) s ≡ f tt s
  unfolding ◌>>=◌
  fail_if-bind true e f s h = absurd (cc)
  fail_if-bind false e f s h = refl

module _ {W A B : Type 0} where
  err-bind :
      (m : Exec (Service W) A) (f : A → Exec (Service W) B) (s : Service W) (e : Error)
      (t : Service W)
      → m s ≡ (err e, t)
      → (m >>= f) s ≡ (err e, t)
  unfolding ◌>>=◌
  err-bind m f s e t h = ap (λ p. continue p.0 f p.1) h

module _ {W : Type 0} (codec : Codec) where
  runs-create :
      (r : SpawnRequest) (s : Service W)
      → IsNamed r
      → (create codec r s).1.runs ≡ (create_locked codec r s).1.runs
  unfolding create
  runs-create r s h =
      ap (λ p. p.1.runs) (fail_if-bind _ _ _ s h)
      ∙ runs-bind (create_locked codec r) _ (λ a. search quiet_rules depth 14) s

  runs-start :
      (id : String) (s : Service W) → (start codec id s).1.runs ≡ (start_locked codec id s).1.runs
  unfolding start
  runs-start id s = runs-bind (start_locked codec id) _ (λ a. search quiet_rules depth 14) s

  create_locked-new :
      (r : SpawnRequest) (s : Service W)
      → Dict.get s.runs r.run_id ≡ none
      → (create_locked codec r s).1.runs ≡ Dict.put s.runs r.run_id (queued_run r (s.now s.world).0)
  unfolding create_locked
  create_locked-new r s new = ground arith

  create_taken :
      (r : SpawnRequest) (x : Run) (s : Service W)
      → IsNamed r
      → Dict.get s.runs r.run_id ≡ some x
      → create codec r s ≡ (err (message "run already exists"), s)
  unfolding create
  create_taken r x s h taken =
      fail_if-bind _ _ _ s h ∙ err-bind (create_locked codec r) _ s _ s refused
    where
      refused : create_locked codec r s ≡ (err (message "run already exists"), s)
      refused = unfold create_locked in ground arith

  -- Creating a run whose id is new stores it queued, with the data of the request, whatever the agent
  -- answers, and from then on the id is taken: a second creation fails and changes no run.
  pub create_once :
      (r : SpawnRequest) (s : Service W)
      → IsNamed r
      → Dict.get s.runs r.run_id ≡ none
      → let s' = (create codec r s).1 in
        (Dict.get s'.runs r.run_id ≡ some (queued_run r (s.now s.world).0))
        × ((create codec r s').0 ≡ err (message "run already exists"))
        × ((create codec r s').1.runs ≡ s'.runs)
  create_once r s h new =
      let stored =
        ap (λ d. Dict.get d r.run_id) (runs-create r s h ∙ create_locked-new r s new)
        ∙ rw (get-put, eq_refl) refl in
      let again = create_taken r _ (create codec r s).1 h stored in
      (stored, ap (λ p. p.0) again, ap (λ p. p.1.runs) again)

  -- Start of a queued run leaves the run running in the map, whatever the agent answers: also where
  -- Start returns the agent's error, nothing takes the run back to queued or on to failed.
  start_queued :
      (id : String) (r : Run) (s : Service W)
      → Dict.get s.runs id ≡ some r
      → r.status ≡ RunState.queued
      → Dict.get (start codec id s).1.runs id ≡ some (moved RunState.running (s.now s.world).0 r)
  start_queued id r s known waiting =
      ap (λ d. Dict.get d id) (runs-start id s ∙ begun) ∙ rw (get-put, eq_refl) refl
    where
      legal : transition_run r.status RunState.running ≡ ok tt
      legal = rw waiting (unfold transition_run in refl)

      begun :
          (start_locked codec id s).1.runs
          ≡ Dict.put s.runs id (moved RunState.running (s.now s.world).0 r)
      begun = unfold start_locked in ground (arith, known, legal)
