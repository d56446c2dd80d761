-- ===== src/Realtime/Replay.antt =====
-- internal/realtime/hub.go: the history of a workspace and its replay to a client that comes back.
use runspace.Prelude.{
  ◌≡◌, refl, subst, ◌⊎◌, inl, inr, String, true, false, none, some, List, [], ◌∷◌, ◌++◌, arith,
  ◌==◌, eq_iff, eq_refl, some_of-append, All, All-append, Bool-cases, is_empty,
}
use runspace.Dict.{Dict, get-put}
use runspace.Contracts.Event.{EventEnvelope}
use runspace.Realtime.{
  MemoryHub, remember, remember_all, add_history, replay_from, replay_after, slice_at,
  contains_event,
}

-- No id twice.
abbrev pub Unrepeated : List EventEnvelope → Type 0
Unrepeated [] = Unit {0}
Unrepeated (e ∷ es) = (contains_event es e.id ≡ false) × Unrepeated es

Unrepeated-append :
    (es : List EventEnvelope) (e : EventEnvelope)
    → contains_event es e.id ≡ false
    → Unrepeated es
    → Unrepeated (es ++ e ∷ [])
Unrepeated-append [] e h u = (refl, tt)
Unrepeated-append (x ∷ es) e h u = (
  ground (
    arith,
    some_of-append (λ (y : EventEnvelope). y.id == x.id) es (e ∷ []),
    eq_iff x.id e.id,
    eq_iff e.id x.id,
  ),
  Unrepeated-append es e (ground arith) u.1,
)

abbrev pub IsHistory : Dict (List EventEnvelope) → Type 0
IsHistory history =
    (k : String)
    → Unrepeated (slice_at history k) × All (λ e. e.workspace_id ≡ k) (slice_at history k)

remember-IsHistory :
    (history : Dict (List EventEnvelope)) (e : EventEnvelope)
    → IsHistory history
    → IsHistory (remember history e)
unfolding remember
remember-IsHistory history e h k = elim (Bool-cases (contains_event old e.id)) [
  | inl known ↦ rw (known, remember) (h k)
  | inr new ↦
      rw (new, remember, get-put)
        (elim (Bool-cases (e.workspace_id == k)) [
          | inl here ↦ rw here (grown new ((eq_iff e.workspace_id k).0 here))
          | inr elsewhere ↦ rw elsewhere (h k)
        ])
]
  where
    old : List EventEnvelope
    old = slice_at history e.workspace_id

    grown :
        contains_event old e.id ≡ false
        → e.workspace_id ≡ k
        → Unrepeated (old ++ e ∷ []) × All (λ x. x.workspace_id ≡ k) (old ++ e ∷ [])
    grown new same = (
      Unrepeated-append old e new (h e.workspace_id).0,
      All-append (λ x. x.workspace_id ≡ k) old e
          (subst (λ j. All (λ x. x.workspace_id ≡ j) old) same (h e.workspace_id).1) same,
    )

remember_all-IsHistory :
    (history : Dict (List EventEnvelope)) (es : List EventEnvelope)
    → IsHistory history
    → IsHistory (remember_all history es)
unfolding remember_all
remember_all-IsHistory history [] h = h
remember_all-IsHistory history (e ∷ es) h =
    remember_all-IsHistory (remember history e) es (remember-IsHistory history e h)

replay_from-append :
    (older later : List EventEnvelope) (e : EventEnvelope)
    → contains_event older e.id ≡ false
    → replay_from (older ++ e ∷ later) e.id ≡ some later
unfolding replay_from
replay_from-append [] later e h = rw eq_refl
replay_from-append (x ∷ older) later e h = ground (arith, replay_from-append older later e)

replay_from_unknown :
    (history : List EventEnvelope) (id : String)
    → contains_event history id ≡ false
    → replay_from history id ≡ none
unfolding replay_from
replay_from_unknown [] id h = refl
replay_from_unknown (x ∷ history) id h = ground (arith, replay_from_unknown history id)

Unrepeated-split :
    (older later : List EventEnvelope) (e : EventEnvelope)
    → Unrepeated (older ++ e ∷ later)
    → contains_event older e.id ≡ false
Unrepeated-split [] later e u = refl
Unrepeated-split (x ∷ older) later e u = ground (
  arith,
  some_of-append (λ (y : EventEnvelope). y.id == x.id) older (e ∷ later),
  eq_iff x.id e.id,
  eq_iff e.id x.id,
  Unrepeated-split older later e u.1,
)

-- A client that names the last event it saw gets what came after that event, in order.
pub replay_after-append :
    (older later : List EventEnvelope) (e : EventEnvelope)
    → is_empty e.id ≡ false
    → Unrepeated (older ++ e ∷ later)
    → replay_after (older ++ e ∷ later) e.id ≡ later
unfolding replay_after
replay_after-append older later e named u =
    rw (named, replay_from-append older later e (Unrepeated-split older later e u))

-- A client that names no event, or one that the hub does not know, gets the whole history.
pub replay_after_unknown :
    (history : List EventEnvelope) (id : String)
    → (is_empty id ≡ true) ⊎ (contains_event history id ≡ false)
    → replay_after history id ≡ history
unfolding replay_after
replay_after_unknown history id (inl h) = rw h
replay_after_unknown history id (inr h) = ground (arith, replay_from_unknown history id h)

-- Loading events keeps every history free of repeated ids and of other workspaces' events.
add_history-IsHistory :
    (events : List EventEnvelope) (hub : MemoryHub)
    → IsHistory hub.history
    → IsHistory (add_history events hub).history
unfolding add_history
add_history-IsHistory events hub h = remember_all-IsHistory hub.history events h
