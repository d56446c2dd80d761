-- ===== src/Runs/Tests.antt =====
-- Concrete runs of the service: a clock that ticks, no agent, store or publisher.
use runspace.Prelude.{ℕ, ◌+◌, ◌≡◌, refl, none, some, [], ◌∷◌, ◌⊎◌}
use runspace.Dict
use runspace.Dict.{Dict}
use runspace.Errors.{ok, err, message}
use runspace.Contracts.Run.{RunState, SpawnRequest}
use runspace.Samples.{any_json}
use runspace.Runs.{load_locked, Run, Codec, Service, new, queued_run, moved, create}
use runspace.Runs.Ending.{stop}
use runspace.Runs.Steps.{loads, IsSameRun, Anytime}
use runspace.Runs.Steps.Reach.{Reach, Route, Loaded, here, next, Reach-Route, Reach-over}
use runspace.Runs.Steps.Calls.{start_run, get_run, stop_run, serve_all, serve_all-Route}
use runspace.Runs.Outcomes.{create_once}
use runspace.Runs.Outcomes.Stopping.{stop_running}

abbrev codec : Codec
codec = record {
  json_valid = any_json;
  run_json = λ run. ok "{}";
  output_json = λ payload. ok "{}";
}

abbrev request : SpawnRequest
request = record {
  run_id = "r";
  workspace_id = "w";
  thread_id = "";
  channel_id = "";
  repository = "";
  prompt = "build";
  agent_command = "";
  working_directory = "";
}

abbrev waiting_run : Run
waiting_run = queued_run request 1

abbrev busy_run : Run
busy_run = moved RunState.running 2 waiting_run

abbrev ended_run : Run
ended_run = moved RunState.succeeded 3 waiting_run

abbrev service : Dict Run → Service ℕ
service runs = record (new none none (λ w. (w + 1, w + 1)) 4) { runs = runs }

abbrev holding : Run → Service ℕ
holding run = service (Dict.put Dict.empty "r" run)

holding-get : (run : Run) → Dict.get (holding run).runs "r" ≡ some run
unfolding Dict.get Dict.put Dict.empty
holding-get run = refl

-- A `Get` that asked the store before the run was known, and whose answer comes late.
late_get : Reach codec Anytime (holding ended_run) (holding waiting_run)
unfolding Dict.put Dict.empty load_locked
late_get = next here (loads "r" waiting_run tt)

Reach-Route_example :
    (o : Run) × (r' : Run) × ((o ≡ ended_run) ⊎ Loaded codec Anytime late_get "r" o)
    × (Dict.get (holding waiting_run).runs "r" ≡ some r')
    × Route o.status r'.status
    × IsSameRun o r'
Reach-Route_example = Reach-Route codec "r" ended_run (holding-get ended_run) late_get

Reach-over_example :
    ((r' : Run) × (Dict.get (holding waiting_run).runs "r" ≡ some r')
      × (r'.status ≡ RunState.succeeded))
    ⊎ ((o : Run) × Loaded codec Anytime late_get "r" o)
Reach-over_example = Reach-over codec "r" ended_run (holding-get ended_run) refl late_get

serve_all-Route_example :
    (r' : Run) × (Dict.get
        (serve_all codec
          (start_run "r" ∷ get_run "r" ∷ stop_run "r" ∷ [])
          (holding waiting_run)).runs
        "r"
      ≡ some r')
    × Route RunState.queued r'.status
    × IsSameRun waiting_run r'
serve_all-Route_example =
    serve_all-Route codec (start_run "r" ∷ get_run "r" ∷ stop_run "r" ∷ []) "r" waiting_run
      (holding waiting_run) (holding-get waiting_run)

create_once_example :
    let s' = (create codec request (service Dict.empty)).1 in
    (Dict.get s'.runs "r" ≡ some (queued_run request 5))
    × ((create codec request s').0 ≡ err (message "run already exists"))
    × ((create codec request s').1.runs ≡ s'.runs)
unfolding Dict.get Dict.empty
create_once_example = create_once codec request (service Dict.empty) refl refl

stop_running_example :
    (t : ℕ) × ((w : ℕ) × (t ≡ ((holding busy_run).now w).0))
    × ((s' : Service ℕ) × (stop codec "r" (holding busy_run)
          ≡ (ok (record busy_run { status = RunState.cancelled; updated_at = t }), s'))
        × (Dict.get s'.runs "r"
            ≡ some (record busy_run { status = RunState.cancelled; updated_at = t })))
stop_running_example =
    stop_running codec "r" busy_run (holding busy_run) (holding-get busy_run) refl
