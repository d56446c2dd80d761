-- ===== src/Runs/Steps/Reach.antt =====
-- internal/runs/service.go: any steps of any threads, one after the other.
use runspace.Prelude.{
  ◌<◌, ◌≡◌, refl, ◌∙◌, subst, ◌⊎◌, inl, inr, String, Option, none, some, arith, ap,
}
use runspace.Dict
use runspace.Contracts.Run.{RunState}
use runspace.Contracts.Run.Lifecycle.{Move, IsMove, stage, Move-stage, stage-le}
use runspace.Runs.{Run, Codec, Service}
use runspace.Runs.Steps.{
  IsSameRun, Later, Step, IsLoad, Anytime, WhenAbsent, Step-Later, Step-Advances,
}

-- The statuses that a run can take after a status.
pub data Route (a : RunState) : RunState → Type 0 where
  stay : Route a a
  move : {b c : RunState} → Route a b → Move b c → Route a c

pub Route-stage : {a b : RunState} → Route a b → (a ≡ b) ⊎ (stage a < stage b)
Route-stage stay = inl refl
Route-stage (move {b = b} {c = c} r m) = grind (arith, Route-stage r, Move-stage m)

abbrev pub Followed : Run → Option Run → Type 0
Followed r none = ⊥
Followed r (some r') = Route r.status r'.status × IsSameRun r r'

unchanged_run : (r : Run) → IsSameRun r r
unchanged_run r = record { id = refl; workspace_id = refl; prompt = refl; created_at = refl }

pub Later-Followed : (r : Run) (o o' : Option Run) → Followed r o → Later o o' → Followed r o'
Later-Followed r none o' f l = absurd f
Later-Followed r (some q) none f l = absurd l
Later-Followed r (some q) (some q') (route, same) (m, same') = (
  onward m,
  record {
    id = same'.id ∙ same.id;
    workspace_id = same'.workspace_id ∙ same.workspace_id;
    prompt = same'.prompt ∙ same.prompt;
    created_at = same'.created_at ∙ same.created_at;
  },
)
  where
    onward : IsMove q.status q'.status → Route r.status q'.status
    onward (inl e) = subst (Route r.status) e route
    onward (inr m) = move route m

module _ {W : Type 0} (codec : Codec) (May : Service W → String → Type 0) where
  -- Any number of steps of any threads.
  pub data Reach (s : Service W) : Service W → Type 0 where
    here : Reach s s
    next : {t u : Service W} → Reach s t → Step codec May t u → Reach s u

  -- On the way a `Get` of the id put in this run.
  abbrev pub Loaded : {s t : Service W} → Reach s t → String → Run → Type 0
  Loaded here id o = ⊥
  Loaded (next q st) id o = Loaded q id o ⊎ IsLoad codec May st id o

  pub Reach-trans : {s t u : Service W} → Reach s t → Reach t u → Reach s u
  Reach-trans r here = r
  Reach-trans r (next q st) = next (Reach-trans r q) st

module _ {W : Type 0} (codec : Codec) where
  pub Reach-Followed :
      {s t : Service W} (id : String) (r : Run)
      → Dict.get s.runs id ≡ some r
      → Reach codec WhenAbsent s t
      → Followed r (Dict.get t.runs id)
  Reach-Followed id r known here = rw known (stay, unchanged_run r)
  Reach-Followed id r known (next {t = t} {u = u} q st) =
      Later-Followed r (Dict.get t.runs id) (Dict.get u.runs id) (Reach-Followed id r known q)
        (Step-Advances codec st id)

  -- Where a run has come from: from what it was, or from what a `Get` has put in.
  abbrev pub Comes : {s t : Service W} → String → Run → Reach codec Anytime s t → Type 0
  Comes {s} {t} id r q =
      (o : Run) × ((o ≡ r) ⊎ Loaded codec Anytime q id o) × Followed o (Dict.get t.runs id)

  -- Whatever the threads do and however their steps fall, a run is never lost: it has the identity of
  -- the run that was there, or of one that a `Get` of its id has put in from the store since, and
  -- from the status of that one its status has gone along arrows of the life of a run.
  pub Reach-Route :
      {s t : Service W} (id : String) (r : Run)
      → Dict.get s.runs id ≡ some r
      → (q : Reach codec Anytime s t)
      → (o : Run) × (r' : Run) × ((o ≡ r) ⊎ Loaded codec Anytime q id o)
        × (Dict.get t.runs id ≡ some r')
        × Route o.status r'.status
        × IsSameRun o r'
  Reach-Route {s = s} {t = t} id r known q =
      let (o, origin, follows) = comes q in found (Dict.get t.runs id) o refl origin follows
    where
      comes : {u : Service W} (p : Reach codec Anytime s u) → Comes id r p
      comes here = (r, inl refl, rw known (stay, unchanged_run r))
      comes (next {t = t} {u = u} p st) =
          let (o, origin, follows) = comes p in
          elim (Step-Later codec st id) [
            | inl later ↦ (
              o,
              elim origin [ inl old ↦ inl old | inr loaded ↦ inr (inl loaded) ],
              Later-Followed o (Dict.get t.runs id) (Dict.get u.runs id) follows later,
            )
            | inr (put, load, now) ↦ (put, inr (inr load), rw now (stay, unchanged_run put))
          ]

      found :
          (x : Option Run) (o : Run)
          → Dict.get t.runs id ≡ x
          → (o ≡ r) ⊎ Loaded codec Anytime q id o
          → Followed o x
          → (o : Run) × (r' : Run) × ((o ≡ r) ⊎ Loaded codec Anytime q id o)
            × (Dict.get t.runs id ≡ some r')
            × Route o.status r'.status
            × IsSameRun o r'
      found none o e origin f = absurd f
      found (some r') o e origin (route, same) = (o, r', origin, e, route, same)

  -- A run that has ended, or whose status is none of the six constants, keeps its status, whatever the
  -- threads do, unless a `Get` of its id puts in what the store has.
  pub Reach-over :
      {s t : Service W} (id : String) (r : Run)
      → Dict.get s.runs id ≡ some r
      → stage r.status ≡ 3
      → (q : Reach codec Anytime s t)
      → ((r' : Run) × (Dict.get t.runs id ≡ some r') × (r'.status ≡ r.status))
        ⊎ ((o : Run) × Loaded codec Anytime q id o)
  Reach-over id r known over q =
      let (o, r', origin, e, route, same) = Reach-Route id r known q in
      elim origin [
        | inl old ↦
            inl
              (r', e, grind (arith, Route-stage route, stage-le r'.status, ap (λ x. x.status) old))
        | inr loaded ↦ inr (o, loaded)
      ]
