-- ===== src/Runs/Steps/Calls.antt =====
-- internal/runs/service.go, io.go and retry.go: any calls of the service, one after the other.
use runspace.Prelude.{◌≡◌, String, Option, none, some, List, [], ◌∷◌, refl}
use runspace.Dict
use runspace.Contracts.Run.{SpawnRequest, AgentOutput}
use runspace.Runs.{Run, Codec, Service, create, start, get}
use runspace.Runs.Ending.{stop, consume}
use runspace.Runs.Steps.{IsSameRun, WhenAbsent}
use runspace.Runs.Steps.Reach.{Reach, here, Reach-trans, Route, Followed, Reach-Followed}
use runspace.Runs.Steps.Methods.{
  create-IsThreaded, start-IsThreaded, stop-IsThreaded, get-IsThreaded, consume-IsThreaded,
}

-- The calls with their arguments; an agent's stream goes by what it delivers.
pub data Call : Type 0 where
  create_run : SpawnRequest → Call
  start_run : String → Call
  stop_run : String → Call
  get_run : String → Call
  consume_output : String → List AgentOutput → Call

module _ {W : Type 0} (codec : Codec) where
  unfoldable pub serve : Call → Service W → Service W
  serve (create_run request) s = (create codec request s).1
  serve (start_run id) s = (start codec id s).1
  serve (stop_run id) s = (stop codec id s).1
  serve (get_run id) s = (get codec id s).1
  serve (consume_output id items) s = (consume codec id items s).1

  unfoldable pub serve_all : List Call → Service W → Service W
  unfolding serve
  serve_all [] s = s
  serve_all (c ∷ cs) s = serve_all cs (serve c s)

  serve-Reach : (c : Call) (s : Service W) → Reach codec WhenAbsent s (serve c s)
  unfolding serve
  serve-Reach (create_run request) s = (create-IsThreaded codec request).at s
  serve-Reach (start_run id) s = (start-IsThreaded codec id).at s
  serve-Reach (stop_run id) s = (stop-IsThreaded codec id).at s
  serve-Reach (get_run id) s = (get-IsThreaded codec id).at s
  serve-Reach (consume_output id items) s = (consume-IsThreaded codec id items).at s

  serve_all-Reach : (cs : List Call) (s : Service W) → Reach codec WhenAbsent s (serve_all cs s)
  unfolding serve_all
  serve_all-Reach [] s = here
  serve_all-Reach (c ∷ cs) s =
      Reach-trans codec WhenAbsent (serve-Reach c s) (serve_all-Reach cs (serve c s))

  -- With whole calls one after the other, of Create, Start, Stop, Get and the following of an output,
  -- whatever they return and whatever the agent, the store and the publisher answer, a run is never
  -- lost, keeps its id, workspace, prompt and time of creation, and its status has gone along arrows of
  -- the life of a run.
  pub serve_all-Route :
      (cs : List Call) (id : String) (r : Run) (s : Service W)
      → Dict.get s.runs id ≡ some r
      → (r' : Run) × (Dict.get (serve_all cs s).runs id ≡ some r')
        × Route r.status r'.status
        × IsSameRun r r'
  serve_all-Route cs id r s known =
      found (Dict.get (serve_all cs s).runs id) refl
        (Reach-Followed codec id r known (serve_all-Reach cs s))
    where
      found :
          (o : Option Run)
          → Dict.get (serve_all cs s).runs id ≡ o
          → Followed r o
          → (r' : Run) × (Dict.get (serve_all cs s).runs id ≡ some r')
            × Route r.status r'.status
            × IsSameRun r r'
      found none e f = absurd f
      found (some r') e (route, same) = (r', e, route, same)
