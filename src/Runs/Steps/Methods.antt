-- ===== src/Runs/Steps/Methods.antt =====
-- internal/runs/service.go and io.go: each method of the service is a sequence of steps, here without
-- other threads' steps between them.
use runspace.Prelude.{◌≡◌, refl, inl, inr, String, Option, none, some, List, [], ◌∷◌, Option-cases}
use runspace.Dict
use runspace.Errors.{Result, ok, err, Result-cases}
use runspace.Exec.{Exec, continue}
use runspace.Contracts.Run.{SpawnRequest, AgentOutput}
use runspace.Runs.{
  Store, Codec, Service, call, ◌>>=◌, create_locked, create, start_locked, start, get, load_run,
  or_load, load_locked,
}
use runspace.Runs.Ending.{
  stop_begin_locked, stop_end_locked, finish_locked, stop, publish_output, consume_items, consume,
}
use runspace.Runs.Quiet.{IsQuiet, quiet_rules, publish_output-IsQuiet}
use runspace.Runs.Steps.{creates, starts, asks_stop, stops, finishes, loads, elsewhere, WhenAbsent}
use runspace.Runs.Steps.Reach.{Reach, here, next, Reach-trans}

pub record IsThreaded {W A : Type 0} (codec : Codec) (m : Exec (Service W) A) : Type 0 where
  pub at : (s : Service W) → Reach codec WhenAbsent s (m s).1

module _ {W A : Type 0} (codec : Codec) where
  IsQuiet-IsThreaded : (m : Exec (Service W) A) → IsQuiet m → IsThreaded codec m
  IsQuiet-IsThreaded m q = record { at = λ s. next here (elsewhere (m s).1 (q.at s)) }

module _ {W A B : Type 0} (codec : Codec) where
  IsThreaded-bind :
      (m : Exec (Service W) A) (f : A → Exec (Service W) B)
      → IsThreaded codec m
      → ((a : A) → IsThreaded codec (f a))
      → IsThreaded codec (m >>= f)
  unfolding ◌>>=◌
  IsThreaded-bind m f tm tf = record { at = λ s. onward s (m s).0 (m s).1 (tm.at s) }
    where
      onward :
          (s : Service W) (r : Result A) (t : Service W)
          → Reach codec WhenAbsent s t
          → Reach codec WhenAbsent s (continue r f t).1
      onward s (ok a) t q = Reach-trans codec WhenAbsent q ((tf a).at t)
      onward s (err e) t q = q

module _ {W : Type 0} (codec : Codec) where
  create_locked-IsThreaded : (r : SpawnRequest) → IsThreaded {W = W} codec (create_locked codec r)
  create_locked-IsThreaded r = record { at = λ s. next here (creates r) }

  start_locked-IsThreaded : (id : String) → IsThreaded {W = W} codec (start_locked codec id)
  start_locked-IsThreaded id = record { at = λ s. next here (starts id) }

  stop_begin_locked-IsThreaded :
      (id : String) → IsThreaded {W = W} codec (stop_begin_locked codec id)
  stop_begin_locked-IsThreaded id = record { at = λ s. next here (asks_stop id) }

  stop_end_locked-IsThreaded : (id : String) → IsThreaded {W = W} codec (stop_end_locked codec id)
  stop_end_locked-IsThreaded id = record { at = λ s. next here (stops id) }

  finish_locked-IsThreaded : (id : String) → IsThreaded {W = W} codec (finish_locked codec id)
  finish_locked-IsThreaded id = record { at = λ s. next here (finishes id) }

  -- The rules that walk a method; what is quiet is one step.
  ruleset method_rules = (
    IsThreaded-bind, IsQuiet-IsThreaded, quiet_rules, create_locked-IsThreaded,
    start_locked-IsThreaded, stop_begin_locked-IsThreaded, stop_end_locked-IsThreaded,
    finish_locked-IsThreaded,
  )

  pub create-IsThreaded : (r : SpawnRequest) → IsThreaded {W = W} codec (create codec r)
  unfolding create
  create-IsThreaded r = search method_rules depth 14

  pub start-IsThreaded : (id : String) → IsThreaded {W = W} codec (start codec id)
  unfolding start
  start-IsThreaded id = search method_rules depth 14

  pub stop-IsThreaded : (id : String) → IsThreaded {W = W} codec (stop codec id)
  unfolding stop
  stop-IsThreaded id = search method_rules depth 18

  load_run-Reach :
      (id : String) (store : Option (Store W)) (s : Service W)
      → Dict.get s.runs id ≡ none
      → Reach codec WhenAbsent s (load_run codec id store s).1
  unfolding load_run ◌>>=◌ call load_locked
  load_run-Reach id none s new = here
  load_run-Reach id (some store) s new = elim (Result-cases (store.get_run id s.world).0) [
    | inl (run, e) ↦
        rw (e, load_run) (next (next here (elsewhere (after store id s) refl)) (loads id run new))
    | inr (x, e) ↦ rw (e, load_run) (next here (elsewhere (after store id s) refl))
  ]
    where
      after : Store W → String → Service W → Service W
      after st k t = record t { world = (st.get_run k t.world).1 }

  pub get-IsThreaded : (id : String) → IsThreaded {W = W} codec (get codec id)
  unfolding get or_load ◌>>=◌
  get-IsThreaded id = record {
    at = λ s. elim (Option-cases (Dict.get s.runs id)) [
      | inl absent ↦ rw (absent, get, or_load) (load_run-Reach id s.store s absent)
      | inr (r, known) ↦ rw (known, get, or_load) here
    ];
  }

  consume_items-IsThreaded :
      (id : String) (items : List AgentOutput)
      → IsThreaded {W = W} codec (consume_items codec id items)
  unfolding consume_items
  consume_items-IsThreaded id [] = IsQuiet-IsThreaded codec _ (record { at = λ s. refl })
  consume_items-IsThreaded id (item ∷ items) =
      IsThreaded-bind codec (get codec id) _ (get-IsThreaded id) λ run.
        IsThreaded-bind codec (publish_output codec run item) _
          (IsQuiet-IsThreaded codec _ (publish_output-IsQuiet codec run item))
          λ _. consume_items-IsThreaded id items

  pub consume-IsThreaded :
      (id : String) (items : List AgentOutput) → IsThreaded {W = W} codec (consume codec id items)
  unfolding consume
  consume-IsThreaded id items = search (method_rules, consume_items-IsThreaded) depth 14
