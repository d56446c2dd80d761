-- ===== src/Runs/Quiet.antt =====
-- internal/runs/service.go: the actions that leave the map of runs alone.
use runspace.Prelude.{ℕ, ◌≡◌, refl, ◌∙◌, String, Bool, true, false, Option, none, some, arith}
use runspace.Errors.{Error, Result, ok, err}
use runspace.Exec.{Exec, continue, pure, fail, lift, gets, or_fail, fail_if}
use runspace.Contracts.Run.{SpawnRequest, AgentOutput}
use runspace.Contracts.Event.{EventEnvelope}
use runspace.Runs.{
  Run, Agent, Codec, Service, call, try_call, notify, ◌>>=◌, publish, send_event, save_run,
  spawn_with, run_context, run_agent,
}
use runspace.Runs.Ending.{stop_agent, publish_output, publish_finished, clear_run_context}

pub record IsQuiet {W A : Type 0} (m : Exec (Service W) A) : Type 0 where
  pub at : (s : Service W) → (m s).1.runs ≡ s.runs

module _ {W A B : Type 0} where
  -- The runs after a sequence whose second part is quiet.
  pub runs-bind :
      (m : Exec (Service W) A) (f : A → Exec (Service W) B)
      → ((a : A) → IsQuiet (f a))
      → (s : Service W) → ((m >>= f) s).1.runs ≡ (m s).1.runs
  unfolding ◌>>=◌
  runs-bind m f quiet s = after (m s).0 (m s).1
    where
      after : (r : Result A) (t : Service W) → (continue r f t).1.runs ≡ t.runs
      after (ok a) t = (quiet a).at t
      after (err e) t = refl

  pub IsQuiet-bind :
      (m : Exec (Service W) A) (f : A → Exec (Service W) B)
      → IsQuiet m
      → ((a : A) → IsQuiet (f a))
      → IsQuiet (m >>= f)
  IsQuiet-bind m f qm qf = record { at = λ s. runs-bind m f qf s ∙ qm.at s }

module _ {W A : Type 0} where
  pub IsQuiet-pure : (a : A) → IsQuiet {W = W} (pure a)
  IsQuiet-pure a = record { at = λ s. refl }

  pub IsQuiet-fail : (e : Error) → IsQuiet {W = W} {A = A} (fail e)
  IsQuiet-fail e = record { at = λ s. refl }

  pub IsQuiet-lift : (r : Result A) → IsQuiet {W = W} (lift r)
  IsQuiet-lift r = record { at = λ s. refl }

  pub IsQuiet-gets : (f : Service W → A) → IsQuiet (gets f)
  IsQuiet-gets f = record { at = λ s. refl }

  pub IsQuiet-call : (m : Exec W A) → IsQuiet (call m)
  unfolding call
  IsQuiet-call m = record { at = λ s. refl }

  pub IsQuiet-try_call : (m : Exec W A) → IsQuiet (try_call m)
  unfolding try_call
  IsQuiet-try_call m = record { at = λ s. refl }

  pub IsQuiet-notify : (x : Option A) (f : A → Exec W (Unit {0})) → IsQuiet (notify x f)
  unfolding notify
  IsQuiet-notify none f = record { at = λ s. refl }
  IsQuiet-notify (some x) f = record { at = λ s. refl }

  pub IsQuiet-or_fail : (o : Option A) (e : Error) → IsQuiet {W = W} (or_fail o e)
  IsQuiet-or_fail none e = record { at = λ s. refl }
  IsQuiet-or_fail (some a) e = record { at = λ s. refl }

module _ {W : Type 0} (codec : Codec) where
  pub IsQuiet-fail_if : (b : Bool) (e : Error) → IsQuiet {W = W} (fail_if b e)
  IsQuiet-fail_if true e = record { at = λ s. refl }
  IsQuiet-fail_if false e = record { at = λ s. refl }

  runs-send_event :
      (p : Option (EventEnvelope → Exec W (Unit {0}))) (r : Result EventEnvelope) (s : Service W)
      → (send_event codec p r s).1.runs ≡ s.runs
  unfolding send_event
  runs-send_event p (ok e) s = (IsQuiet-notify p (λ q. q e)).at s
  runs-send_event p (err e) s = refl

  pub publish-IsQuiet : (type : String) (run : Run) → IsQuiet {W = W} (publish codec type run)
  unfolding publish
  publish-IsQuiet type run = record { at = λ s. runs-send_event s.publisher _ s }

  pub save_run-IsQuiet : (run : Run) → IsQuiet {W = W} (save_run codec run)
  unfolding save_run
  save_run-IsQuiet run = record { at = λ s. (IsQuiet-notify s.store (λ st. st.save_run run)).at s }

  pub spawn_with-IsQuiet :
      (a : Option (Agent W)) (r : SpawnRequest) → IsQuiet (spawn_with codec a r)
  unfolding spawn_with
  spawn_with-IsQuiet none r = record { at = λ s. refl }
  spawn_with-IsQuiet (some a) r = record { at = λ s. ground arith }

  pub run_context-IsQuiet : (id : String) → IsQuiet {W = W} (run_context codec id)
  unfolding run_context
  run_context-IsQuiet id = record { at = λ s. ground arith }

  pub run_agent-IsQuiet :
      (a : Option (Agent W)) (c : ℕ) (id : String) → IsQuiet (run_agent codec a c id)
  unfolding run_agent
  run_agent-IsQuiet none c id = record { at = λ s. refl }
  run_agent-IsQuiet (some a) c id = record { at = λ s. ground arith }

  pub stop_agent-IsQuiet : (a : Option (Agent W)) (id : String) → IsQuiet (stop_agent codec a id)
  unfolding stop_agent
  stop_agent-IsQuiet none id = record { at = λ s. refl }
  stop_agent-IsQuiet (some a) id = record { at = λ s. ground arith }

  pub publish_finished-IsQuiet : (r : Option Run) → IsQuiet {W = W} (publish_finished codec r)
  unfolding publish_finished
  publish_finished-IsQuiet none = record { at = λ s. refl }
  publish_finished-IsQuiet (some r) = publish-IsQuiet "run.finished" r

  pub clear_run_context-IsQuiet : (id : String) → IsQuiet {W = W} (clear_run_context codec id)
  unfolding clear_run_context
  clear_run_context-IsQuiet id = record { at = λ s. ground arith }

  pub publish_output-IsQuiet :
      (r : Run) (o : AgentOutput) → IsQuiet {W = W} (publish_output codec r o)
  unfolding publish_output
  publish_output-IsQuiet r o = record { at = λ s. ground arith }

pub ruleset quiet_rules = (
  IsQuiet-bind, IsQuiet-pure, IsQuiet-fail, IsQuiet-lift, IsQuiet-gets, IsQuiet-call,
  IsQuiet-try_call, IsQuiet-notify, IsQuiet-or_fail, IsQuiet-fail_if, publish-IsQuiet,
  save_run-IsQuiet, spawn_with-IsQuiet, run_context-IsQuiet, run_agent-IsQuiet, stop_agent-IsQuiet,
  publish_finished-IsQuiet, clear_run_context-IsQuiet, publish_output-IsQuiet,
)
