-- ===== src/Runs/Steps.antt =====
-- internal/runs/service.go: the threads that share the service, as steps. A step is what one thread
-- does under the mutex, or anything that leaves the map of runs alone; steps of any threads may
-- follow one another in any order. `Get` looks a run up, asks the store without the lock, and puts
-- the answer in under the lock again without a second look: its last step is `loads`.
pub mod Reach
pub mod Methods
pub mod Calls
use runspace.Prelude.{
  ℕ, zero, suc, ◌+◌, ◌-◌, ◌≤◌, ◌<◌, ◌≡◌, refl, sym, ap, ◌∙◌, subst, ◌≢◌, ◌↔◌, ◌⊎◌, inl, inr, String,
  Bool, true, false, not, ◌&&◌, ◌||◌, Option, none, some, List, [], ◌∷◌, ◌++◌, map, append_assoc,
  append-nil, arith, ◌==◌, eq_iff, eq_refl, length, length-append, take, get_elem?, set,
  get_elem?-set, length-set, get_elem?-lt, get_elem?-length, get_elem?-append_left, select, some_of,
  some_of-append, All, All-append, In, Bool-cases, Option-cases, String-cases, ltb, leb, eqb,
  is_empty, is_some, if◌then◌else◌,
}
use runspace.Dict
use runspace.Dict.{Dict, get-put}
use runspace.Errors.{Result, Result-cases, ok, err}
use runspace.Contracts.Run.{RunState, SpawnRequest, transition_run, same_state}
use runspace.Contracts.Run.Lifecycle.{
  Move, IsMove, ask_stop, succeed, stop, stage, transition_run_iff, same_state_eq, Move-stage,
  stage-le,
}
use runspace.Runs.{
  Run, Codec, Service, queued_run, moved, create_locked, load_locked, start_locked, Exec, notify,
  save_run,
}
use runspace.Runs.Ending.{
  stop_begin_locked, stop_end_locked, finish_locked, move_from, finish_found,
}

-- What a run keeps for good.
pub record IsSameRun (r r' : Run) : Type 0 where
  pub id : r'.id ≡ r.id
  pub workspace_id : r'.workspace_id ≡ r.workspace_id
  pub prompt : r'.prompt ≡ r.prompt
  pub created_at : r'.created_at ≡ r.created_at

-- A run that is there stays there, and its status stays or makes one move.
abbrev pub Later : Option Run → Option Run → Type 0
Later none o = Unit {0}
Later (some r) none = ⊥
Later (some r) (some r') = IsMove r.status r'.status × IsSameRun r r'

abbrev pub Advances : Dict Run → Dict Run → Type 0
Advances runs runs' = (id : String) → Later (Dict.get runs id) (Dict.get runs' id)

Later-refl : (o : Option Run) → Later o o
Later-refl none = tt
Later-refl (some r) =
    (inl refl, record { id = refl; workspace_id = refl; prompt = refl; created_at = refl })

put_new-Advances :
    (runs : Dict Run) (id : String) (r : Run)
    → Dict.get runs id ≡ none
    → Advances runs (Dict.put runs id r)
put_new-Advances runs id r new j = elim (Bool-cases (id == j)) [
  | inl here ↦
      rw (get-put, here)
        (subst (λ o. Later o (some r)) (sym new ∙ ap (Dict.get runs) ((eq_iff id j).0 here)) tt)
  | inr elsewhere ↦ rw (get-put, elsewhere) (Later-refl (Dict.get runs j))
]

put-Advances :
    (runs : Dict Run) (id : String) (r r' : Run)
    → Dict.get runs id ≡ some r
    → IsMove r.status r'.status
    → IsSameRun r r'
    → Advances runs (Dict.put runs id r')
put-Advances runs id r r' old m same j = elim (Bool-cases (id == j)) [
  | inl here ↦
      rw (get-put, here)
        (subst (λ o. Later o (some r')) (sym old ∙ ap (Dict.get runs) ((eq_iff id j).0 here))
          (m, same))
  | inr elsewhere ↦ rw (get-put, elsewhere) (Later-refl (Dict.get runs j))
]

moved-IsSameRun : (to : RunState) (now : ℕ) (r : Run) → IsSameRun r (moved to now r)
moved-IsSameRun to now r = record {
  id = refl;
  workspace_id = refl;
  prompt = refl;
  created_at = refl;
}

module _ {W : Type 0} where
  -- When the last step of a `Get` may be taken: at any time among the threads of the program, and
  -- where the run is not known if nothing comes between the look and that step.
  abbrev pub Anytime : Service W → String → Type 0
  Anytime s id = Unit {0}

  abbrev pub WhenAbsent : Service W → String → Type 0
  WhenAbsent s id = Dict.get s.runs id ≡ none

module _ {W : Type 0} (codec : Codec) (May : Service W → String → Type 0) where
  pub data Step (s : Service W) : Service W → Type 0 where
    creates : (r : SpawnRequest) → Step s (create_locked codec r s).1
    starts : (id : String) → Step s (start_locked codec id s).1
    asks_stop : (id : String) → Step s (stop_begin_locked codec id s).1
    stops : (id : String) → Step s (stop_end_locked codec id s).1
    finishes : (id : String) → Step s (finish_locked codec id s).1
    loads : (id : String) (r : Run) → May s id → Step s (load_locked codec id r s).1
    elsewhere : (t : Service W) → t.runs ≡ s.runs → Step s t

  -- The step puts in a run that a store gave.
  abbrev pub IsLoad : {s t : Service W} → Step s t → String → Run → Type 0
  IsLoad (creates r) id o = ⊥
  IsLoad (starts j) id o = ⊥
  IsLoad (asks_stop j) id o = ⊥
  IsLoad (stops j) id o = ⊥
  IsLoad (finishes j) id o = ⊥
  IsLoad (loads j r may) id o = (j ≡ id) × (r ≡ o)
  IsLoad (elsewhere t same) id o = ⊥

module _ {W : Type 0} (codec : Codec) where
  create_locked-Advances :
      (r : SpawnRequest) (s : Service W) → Advances s.runs (create_locked codec r s).1.runs
  unfolding create_locked
  create_locked-Advances r s = elim (Option-cases (Dict.get s.runs r.run_id)) [
    | inl new ↦ rw (new, create_locked) (put_new-Advances s.runs r.run_id _ new)
    | inr (old, known) ↦ rw (known, create_locked) (λ j. Later-refl (Dict.get s.runs j))
  ]

  start_locked-Advances :
      (id : String) (s : Service W) → Advances s.runs (start_locked codec id s).1.runs
  unfolding start_locked
  start_locked-Advances id s = elim (Option-cases (Dict.get s.runs id)) [
    | inl absent ↦ rw (absent, start_locked) (λ j. Later-refl (Dict.get s.runs j))
    | inr (r, known) ↦ elim (Result-cases (transition_run r.status RunState.running)) [
      | inl (u, legal) ↦
          rw (known, start_locked, legal)
            (put-Advances s.runs id r _ known
              ((transition_run_iff r.status RunState.running).0 legal) (moved-IsSameRun _ _ r))
      | inr (e, illegal) ↦ rw (known, start_locked, illegal) (λ j. Later-refl (Dict.get s.runs j))
    ]
  ]

  move_from-Advances :
      (from to : RunState) (id : String) (r : Run) (s : Service W)
      → Move from to
      → Dict.get s.runs id ≡ some r
      → Advances s.runs (move_from codec from to id r s).1.runs
  unfolding move_from
  move_from-Advances from to id r s m known = elim (Bool-cases (same_state r.status from)) [
    | inl there ↦
        rw (there, move_from)
          (put-Advances s.runs id r _ known (inr (rw (same_state_eq r.status from there) m))
            (moved-IsSameRun _ _ r))
    | inr other ↦ rw (other, move_from) (λ j. Later-refl (Dict.get s.runs j))
  ]

  stop_begin_locked-Advances :
      (id : String) (s : Service W) → Advances s.runs (stop_begin_locked codec id s).1.runs
  unfolding stop_begin_locked
  stop_begin_locked-Advances id s = elim (Option-cases (Dict.get s.runs id)) [
    | inl absent ↦ rw (absent, stop_begin_locked) (λ j. Later-refl (Dict.get s.runs j))
    | inr (r, known) ↦
        rw (known, stop_begin_locked)
          (move_from-Advances RunState.running RunState.stopping id r s ask_stop known)
  ]

  stop_end_locked-Advances :
      (id : String) (s : Service W) → Advances s.runs (stop_end_locked codec id s).1.runs
  unfolding stop_end_locked move_from same_state
  stop_end_locked-Advances id s = elim (Option-cases (Dict.get s.runs id)) [
    | inl absent ↦ rw (absent, stop_end_locked) (λ j. Later-refl (Dict.get s.runs j))
    | inr (r, known) ↦
        rw (known, stop_end_locked)
          (move_from-Advances RunState.stopping RunState.cancelled id r s stop known)
  ]

  runs-finish_found :
      (id : String) (r : Run) (s : Service W)
      → (finish_found codec id (some r) s).1.runs
        ≡ (move_from codec RunState.running RunState.succeeded id r s).1.runs
  unfolding finish_found save_run move_from
  runs-finish_found id r s = elim (Bool-cases (same_state r.status RunState.running)) [
    | inl there ↦ rw (there, finish_found, move_from) (ground arith)
    | inr other ↦ rw (other, finish_found, move_from) (ground arith)
  ]

  finish_locked-Advances :
      (id : String) (s : Service W) → Advances s.runs (finish_locked codec id s).1.runs
  unfolding finish_locked finish_found
  finish_locked-Advances id s = elim (Option-cases (Dict.get s.runs id)) [
    | inl absent ↦ rw (absent, finish_locked) (λ j. Later-refl (Dict.get s.runs j))
    | inr (r, known) ↦
        rw (known, finish_locked)
          (subst (Advances s.runs) (sym (runs-finish_found id r s))
            (move_from-Advances RunState.running RunState.succeeded id r s succeed known))
  ]

  -- One step of any thread, whatever it calls outside: each run that is there stays there, and its
  -- status makes one move or none, or the step puts in what a store gave for its id.
  pub Step-Later :
      {May : Service W → String → Type 0} {s t : Service W} (st : Step codec May s t) (id : String)
      → Later (Dict.get s.runs id) (Dict.get t.runs id)
        ⊎ ((o : Run) × IsLoad codec May st id o × (Dict.get t.runs id ≡ some o))
  unfolding load_locked
  Step-Later {s = s} (creates r) id = inl (create_locked-Advances r s id)
  Step-Later {s = s} (starts j) id = inl (start_locked-Advances j s id)
  Step-Later {s = s} (asks_stop j) id = inl (stop_begin_locked-Advances j s id)
  Step-Later {s = s} (stops j) id = inl (stop_end_locked-Advances j s id)
  Step-Later {s = s} (finishes j) id = inl (finish_locked-Advances j s id)
  Step-Later {s = s} (loads j r may) id = elim (Bool-cases (j == id)) [
    | inl here ↦ inr (r, ((eq_iff j id).0 here, refl), rw (get-put, here) refl)
    | inr other ↦ inl (rw (get-put, other) (Later-refl (Dict.get s.runs id)))
  ]
  Step-Later {s = s} (elsewhere t same) id = inl (rw same (Later-refl (Dict.get s.runs id)))

  -- A load of what is not known changes no known run.
  pub Step-Advances : {s t : Service W} → Step codec WhenAbsent s t → Advances s.runs t.runs
  unfolding load_locked
  Step-Advances {s} (creates r) = create_locked-Advances r s
  Step-Advances {s} (starts id) = start_locked-Advances id s
  Step-Advances {s} (asks_stop id) = stop_begin_locked-Advances id s
  Step-Advances {s} (stops id) = stop_end_locked-Advances id s
  Step-Advances {s} (finishes id) = finish_locked-Advances id s
  Step-Advances {s} (loads id r new) = put_new-Advances s.runs id r new
  Step-Advances {s} (elsewhere t same) = rw same (λ j. Later-refl (Dict.get s.runs j))
