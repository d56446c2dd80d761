-- ===== src/Runs/Outcomes/Stopping.antt =====
-- internal/runs/service.go: Stop, from its first lock to its last, when one thread is at work.
use runspace.Runs.Leads.{
  Leads, Leads-bind, silent-Leads, publish-ok, save_run-ok, stop_agent-ok, publish-now,
  save_run-now, stop_agent-now, IsMoved, move_from-same,
}
use runspace.Runs.Quiet.{IsQuiet, publish-IsQuiet, save_run-IsQuiet, stop_agent-IsQuiet}
use runspace.Prelude.{ℕ, ◌≡◌, refl, ap, ◌∙◌, String, false, Option, some}
use runspace.Dict
use runspace.Dict.{Dict, get-put}
use runspace.Errors.{ok, message}
use runspace.Contracts.Run.Lifecycle.{same_state_refl}
use runspace.Exec.{or_fail, Exec, pure}
use runspace.Contracts.Run.{RunState, same_state}
use runspace.Runs.{Run, Agent, Codec, Service, ◌>>=◌, moved, publish, save_run, agent_for}
use runspace.Runs.Ending.{
  move_from, stop_begin_locked, stop_end_locked, stop_agent, stop, or_zero_run,
}

module _ {W : Type 0} (codec : Codec) where
  module _ (now : W → ℕ × W) (id : String) (r : Run) where
    -- The service knows `a` under `id`, and `a` is `r` with the status `state`.
    abbrev Stored : RunState → Run → Service W → Type 0
    Stored state a s = (Dict.get s.runs id ≡ some a) × IsMoved now state r a × (s.now ≡ now)

    begin-Leads :
        r.status ≡ RunState.running
        → Leads {W = W}
            (λ s. (Dict.get s.runs id ≡ some r) × (s.now ≡ now))
            (stop_begin_locked codec id)
            (Stored RunState.stopping)
    unfolding ◌>>=◌ stop_begin_locked
    begin-Leads busy = record {
      at = λ s (known, clock).
          let (a, t, e, q) =
            (move_from-same codec now id RunState.running RunState.stopping r (
                ap (λ x. same_state x RunState.running) busy ∙ same_state_refl RunState.running)).at
              s clock in
          (
            a,
            t,
            ap
                  (λ o.
                    (or_fail o (message "run not found")
                        >>= move_from codec RunState.running RunState.stopping id)
                      s)
                  known
                ∙ e,
            q,
          );
    }

    end-Leads :
        (a : Run)
        → Leads (Stored RunState.stopping a) (stop_end_locked codec id) (Stored RunState.cancelled)
    unfolding ◌>>=◌ stop_end_locked
    end-Leads q = record {
      at = λ s p.
          let (known, how, clock) = p in
          let (a, u, e, q') =
            (move_from-same codec now id RunState.stopping RunState.cancelled q (
                ap (λ x. same_state x.status RunState.stopping) how.2
                ∙ same_state_refl RunState.stopping)).at
              s clock in
          (
            a,
            u,
            ap (λ o. move_from codec RunState.stopping RunState.cancelled id (or_zero_run o) s)
                  known
                ∙ e,
            (q'.0, (q'.1.0, q'.1.1, q'.1.2 ∙ ap (moved RunState.cancelled q'.1.0) how.2), q'.2),
          );
    }

    saved :
        (state : RunState) (a b : Run)
        → Leads (Stored state a) (save_run codec b) (λ _. Stored state a)
    saved state a b =
        silent-Leads (λ d n. (Dict.get d id ≡ some a) × IsMoved now state r a × (n ≡ now)) _
          (save_run-IsQuiet codec b) (save_run-now codec b) (save_run-ok codec b)

    published :
        (state : RunState) (a b : Run) (type : String)
        → Leads (Stored state a) (publish codec type b) (λ _. Stored state a)
    published state a b type =
        silent-Leads (λ d n. (Dict.get d id ≡ some a) × IsMoved now state r a × (n ≡ now)) _
          (publish-IsQuiet codec type b) (publish-now codec type b) (publish-ok codec type b)

    asked :
        (a : Run) (x : Option (Agent W))
        → Leads
            (Stored RunState.stopping a)
            (stop_agent codec x id)
            (λ _. Stored RunState.stopping a)
    asked a x =
        silent-Leads
          (λ d n. (Dict.get d id ≡ some a) × IsMoved now RunState.stopping r a × (n ≡ now)) _
          (stop_agent-IsQuiet codec x id) (stop_agent-now codec x id) (stop_agent-ok codec x id)

    told :
        (a : Run)
        → Leads
            (Stored RunState.cancelled a)
            (save_run codec a >>= λ _. publish codec "run.stopped" a >>= λ _. pure a)
            (Stored RunState.cancelled)
    told a =
        Leads-bind (λ _. Stored RunState.cancelled a) (Stored RunState.cancelled) _ _
          (saved RunState.cancelled a a)
          λ _.
            Leads-bind (λ _. Stored RunState.cancelled a) (Stored RunState.cancelled) _ _
              (published RunState.cancelled a a "run.stopped")
              λ _. record { at = λ s p. (a, s, refl, p) }

    stop-Leads :
        r.status ≡ RunState.running
        → Leads {W = W}
            (λ s. (Dict.get s.runs id ≡ some r) × (s.now ≡ now))
            (stop codec id)
            (Stored RunState.cancelled)
    unfolding stop
    stop-Leads busy =
        Leads-bind (Stored RunState.stopping) (Stored RunState.cancelled) _ _ (begin-Leads busy)
          λ a.
            Leads-bind (λ _. Stored RunState.stopping a) (Stored RunState.cancelled) _ _
              (saved RunState.stopping a a)
              λ _.
                Leads-bind (λ _. Stored RunState.stopping a) (Stored RunState.cancelled) _ _
                  (published RunState.stopping a a "run.stop_requested")
                  λ _.
                    Leads-bind (λ _. Stored RunState.stopping a) (Stored RunState.cancelled) _ _
                      (record { at = λ s p. (agent_for codec id s, s, refl, p) })
                      λ x.
                        Leads-bind (λ _. Stored RunState.stopping a) (Stored RunState.cancelled) _ _
                          (asked a x)
                          λ _.
                            Leads-bind (Stored RunState.cancelled) (Stored RunState.cancelled) _ _
                              (end-Leads a) told

  -- The same for a run that `Stop` leaves as it is.
  module _ (id : String) (r : Run) where
    begin-kept :
        same_state r.status RunState.running ≡ false
        → Leads {W = W}
            (λ s. Dict.get s.runs id ≡ some r)
            (stop_begin_locked codec id)
            (λ a s. (a ≡ r) × (Dict.get s.runs id ≡ some r))
    unfolding ◌>>=◌ stop_begin_locked move_from
    begin-kept idle = record { at = λ s known. (r, s, rw (known, idle) refl, (refl, known)) }

    end-kept :
        same_state r.status RunState.stopping ≡ false
        → Leads {W = W}
            (λ s. Dict.get s.runs id ≡ some r)
            (stop_end_locked codec id)
            (λ a s. (a ≡ r) × (Dict.get s.runs id ≡ some r))
    unfolding ◌>>=◌ stop_end_locked move_from
    end-kept idle = record { at = λ s known. (r, s, rw (known, idle) refl, (refl, known)) }

    stop-kept :
        same_state r.status RunState.running ≡ false
        → same_state r.status RunState.stopping ≡ false
        → Leads {W = W}
            (λ s. Dict.get s.runs id ≡ some r)
            (stop codec id)
            (λ a s. (a ≡ r) × (Dict.get s.runs id ≡ some r))
    unfolding stop
    stop-kept idle calm = Leads-bind Kept Kept _ _ (begin-kept idle) λ a.
        Leads-bind (λ _. Kept a) Kept _ _
          (quiet a (save_run codec a) (save_run-IsQuiet codec a) (save_run-now codec a)
            (save_run-ok codec a))
          λ _.
            Leads-bind (λ _. Kept a) Kept _ _
              (quiet a (publish codec "run.stop_requested" a) (publish-IsQuiet codec _ a)
                (publish-now codec _ a) (publish-ok codec _ a))
              λ _.
                Leads-bind (λ _. Kept a) Kept _ _
                  (record { at = λ s p. (agent_for codec id s, s, refl, p) })
                  λ x.
                    Leads-bind (λ _. Kept a) Kept _ _
                      (quiet a _ (stop_agent-IsQuiet codec x id) (stop_agent-now codec x id)
                        (stop_agent-ok codec x id))
                      λ _.
                        Leads-bind Kept Kept _ _ (record { at = λ s p. (end-kept calm).at s p.1 })
                          λ b.
                            Leads-bind (λ _. Kept b) Kept _ _
                              (quiet b (save_run codec b) (save_run-IsQuiet codec b)
                                (save_run-now codec b) (save_run-ok codec b))
                              λ _.
                                Leads-bind (λ _. Kept b) Kept _ _
                                  (quiet b (publish codec "run.stopped" b)
                                    (publish-IsQuiet codec _ b) (publish-now codec _ b)
                                    (publish-ok codec _ b))
                                  λ _. record { at = λ s p. (b, s, refl, p) }
      where
        Kept : Run → Service W → Type 0
        Kept a s = (a ≡ r) × (Dict.get s.runs id ≡ some r)

        quiet :
            (a : Run) (m : Exec (Service W) (Unit {0}))
            → IsQuiet m
            → ((s : Service W) → (m s).1.now ≡ s.now)
            → ((s : Service W) → (m s).0 ≡ ok tt)
            → Leads (Kept a) m (λ _. Kept a)
        quiet a m q clock d = silent-Leads (λ d _. (a ≡ r) × (Dict.get d id ≡ some r)) m q clock d

-- `Stop` of a run that is at work, while no other thread takes the lock in between: the call succeeds
-- and returns the run with the status cancelled and an answer of the service's clock as its time of
-- change, all else as before, and that is the stored run, whatever the agent, the store and the
-- publisher answer.
pub stop_running :
    {W : Type 0} (codec : Codec) (id : String) (r : Run) (s : Service W)
    → Dict.get s.runs id ≡ some r
    → r.status ≡ RunState.running
    → (t : ℕ) × ((w : W) × (t ≡ (s.now w).0))
      × ((s' : Service W) × (stop codec id s
            ≡ (ok (record r { status = RunState.cancelled; updated_at = t }), s'))
          × (Dict.get s'.runs id ≡ some (record r { status = RunState.cancelled; updated_at = t })))
stop_running codec id r s known busy =
    let (a, s', e, q) = (stop-Leads codec s.now id r busy).at s (known, refl) in
    (q.1.0, q.1.1, (s', e ∙ ap (λ x. (ok x, s')) q.1.2, q.0 ∙ ap some q.1.2))

-- `Stop` of a known run that is neither at work nor being stopped, a queued one for instance, while no
-- other thread takes the lock in between: the call succeeds, and the run that it returns and the
-- stored one are as before.
stop_idle :
    {W : Type 0} (codec : Codec) (id : String) (r : Run) (s : Service W)
    → Dict.get s.runs id ≡ some r
    → same_state r.status RunState.running ≡ false
    → same_state r.status RunState.stopping ≡ false
    → (s' : Service W) × (stop codec id s ≡ (ok r, s')) × (Dict.get s'.runs id ≡ some r)
stop_idle codec id r s known idle calm =
    let (a, s', e, q) = (stop-kept codec id r idle calm).at s known in
    (s', e ∙ ap (λ x. (ok x, s')) q.0, q.1)
