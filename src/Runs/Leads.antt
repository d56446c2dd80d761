-- ===== src/Runs/Leads.antt =====
-- internal/runs/service.go: steps of a method that cannot fail, and what they leave, when one thread is
-- at work.
use runspace.Runs.Quiet.{IsQuiet}
use runspace.Prelude.{
  ℕ, ◌≡◌, refl, sym, ap, ◌∙◌, subst, String, true, Option, none, some, arith, eq_refl,
}
use runspace.Dict
use runspace.Dict.{Dict, get-put}
use runspace.Errors.{Result, ok, err}
use runspace.Exec.{Exec, continue}
use runspace.Contracts.Event.{EventEnvelope}
use runspace.Contracts.Run.{RunState, same_state}
use runspace.Runs.{
  Run, Agent, Codec, Service, notify, ◌>>=◌, moved, publish, send_event, save_run, read_clock,
}
use runspace.Runs.Ending.{move_from, stop_agent}

-- From a service where `P` holds, `m` returns a value, and `Q` holds of it and of the service.
pub record Leads {W A : Type 0} (P : Service W → Type 0) (m : Exec (Service W) A)
    (Q : A → Service W → Type 0) : Type 0 where
  pub at : (s : Service W) → P s → (a : A) × (t : Service W) × (m s ≡ (ok a, t)) × Q a t

module _ {W A B : Type 0} {P : Service W → Type 0} where
  pub Leads-bind :
      (Q : A → Service W → Type 0) (R : B → Service W → Type 0) (m : Exec (Service W) A)
      (f : A → Exec (Service W) B)
      → Leads P m Q
      → ((a : A) → Leads (Q a) (f a) R)
      → Leads P (m >>= f) R
  unfolding ◌>>=◌
  Leads-bind Q R m f lm lf = record {
    at = λ s p.
        let (a, t, e, q) = lm.at s p in
        let (b, u, e', r) = (lf a).at t q in (b, u, ap (λ x. continue x.0 f x.1) e ∙ e', r);
  }

pub silent-Leads :
    {W : Type 0} (φ : Dict Run → (W → ℕ × W) → Type 0) (m : Exec (Service W) (Unit {0}))
    → IsQuiet m
    → ((s : Service W) → (m s).1.now ≡ s.now)
    → ((s : Service W) → (m s).0 ≡ ok tt)
    → Leads (λ s. φ s.runs s.now) m (λ _ s. φ s.runs s.now)
silent-Leads φ m quiet clock done = record {
  at = λ s p. (
    tt,
    (m s).1,
    ap (λ x. (x, (m s).1)) (done s),
    subst (λ d. φ d (m s).1.now) (sym (quiet.at s)) (subst (φ s.runs) (sym (clock s)) p),
  );
}

-- The run `r` with another status, and as its time of change an answer of the clock.
abbrev pub IsMoved : {W : Type 0} → (W → ℕ × W) → RunState → Run → Run → Type 0
IsMoved {W} now state r q = (t : ℕ) × ((w : W) × (t ≡ (now w).0)) × (q ≡ moved state t r)

module _ {W : Type 0} (codec : Codec) where
  notify-ok :
      {X : Type 0} (x : Option X) (f : X → Exec W (Unit {0})) (s : Service W)
      → (notify x f s).0 ≡ ok tt
  unfolding notify
  notify-ok none f s = refl
  notify-ok (some x) f s = refl

  send_event-ok :
      (p : Option (EventEnvelope → Exec W (Unit {0}))) (r : Result EventEnvelope) (s : Service W)
      → (send_event codec p r s).0 ≡ ok tt
  unfolding send_event
  send_event-ok p (ok e) s = notify-ok p (λ q. q e) s
  send_event-ok p (err e) s = refl

  pub publish-ok :
      (type : String) (run : Run) (s : Service W) → (publish codec type run s).0 ≡ ok tt
  unfolding publish
  publish-ok type run s = send_event-ok s.publisher _ s

  pub save_run-ok : (run : Run) (s : Service W) → (save_run codec run s).0 ≡ ok tt
  unfolding save_run
  save_run-ok run s = notify-ok s.store (λ st. st.save_run run) s

  pub stop_agent-ok :
      (a : Option (Agent W)) (id : String) (s : Service W) → (stop_agent codec a id s).0 ≡ ok tt
  unfolding stop_agent
  stop_agent-ok none id s = refl
  stop_agent-ok (some a) id s = ground arith

  -- These leave the clock as it is.
  notify-now :
      {X : Type 0} (x : Option X) (f : X → Exec W (Unit {0})) (s : Service W)
      → (notify x f s).1.now ≡ s.now
  unfolding notify
  notify-now none f s = refl
  notify-now (some x) f s = refl

  send_event-now :
      (p : Option (EventEnvelope → Exec W (Unit {0}))) (r : Result EventEnvelope) (s : Service W)
      → (send_event codec p r s).1.now ≡ s.now
  unfolding send_event
  send_event-now p (ok e) s = notify-now p (λ q. q e) s
  send_event-now p (err e) s = refl

  pub publish-now :
      (type : String) (run : Run) (s : Service W) → (publish codec type run s).1.now ≡ s.now
  unfolding publish
  publish-now type run s = send_event-now s.publisher _ s

  pub save_run-now : (run : Run) (s : Service W) → (save_run codec run s).1.now ≡ s.now
  unfolding save_run
  save_run-now run s = notify-now s.store (λ st. st.save_run run) s

  pub stop_agent-now :
      (a : Option (Agent W)) (id : String) (s : Service W) → (stop_agent codec a id s).1.now ≡ s.now
  unfolding stop_agent
  stop_agent-now none id s = refl
  stop_agent-now (some a) id s = ground arith

  module _ (now : W → ℕ × W) (id : String) (from to : RunState) (r : Run) where
    pub move_from-same :
        same_state r.status from ≡ true
        → Leads {W = W}
            (λ s. s.now ≡ now)
            (move_from codec from to id r)
            (λ a s. (Dict.get s.runs id ≡ some a) × IsMoved now to r a × (s.now ≡ now))
    unfolding ◌>>=◌ read_clock move_from
    move_from-same same = rw same (record {
      at = λ s clock.
          let (t, w) = s.now s.world in
          (
            moved to t r,
            record s { world = w; runs = Dict.put s.runs id (moved to t r) },
            refl,
            (
              rw (get-put, eq_refl id) refl,
              (t, (s.world, ap (λ f. (f s.world).0) clock), refl),
              clock,
            ),
          );
    })
