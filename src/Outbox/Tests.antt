-- ===== src/Outbox/Tests.antt =====
-- Concrete runs of the outbox.
use runspace.Prelude.{◌≡◌, refl, not, [], ◌∷◌, ◌++◌, ◌==◌, none, select, take}
use runspace.Errors.{ok, err, events_duplicate}
use runspace.Contracts.Event.{validate}
use runspace.Dict
use runspace.Text.{trim_space}
use runspace.Outbox.{MemoryStore, append, pending, mark_published, false}
use runspace.Outbox.Queue.{queue, IsConsistent, pending-queue}
use runspace.Outbox.Changes.{append-queue, mark_published-queue}
use runspace.Samples.{any_json, event}

-- One event stored, none published.
abbrev one : MemoryStore
one = record {
  order = "a" ∷ [];
  records = Dict.put Dict.empty "a" (record { event = event "a" "w"; published = false });
}

one-IsConsistent : IsConsistent one
unfolding Dict.get Dict.put Dict.empty
one-IsConsistent = record {
  stored = ((record { event = event "a" "w"; published = false }, refl, refl), tt);
  distinct = (refl, tt);
}

pending-queue_example : pending none 5 one ≡ (ok (take 5 (queue one)), one)
pending-queue_example = pending-queue one 5

append-queue_example :
    let s' = (append any_json none (event "b" "w") one).1 in
    ((append any_json none (event "b" "w") one).0 ≡ ok tt)
    × (queue s' ≡ queue one ++ event "b" "w" ∷ [])
    × IsConsistent s'
    × (append any_json none (event "b" "w") s' ≡ (err events_duplicate, s'))
unfolding validate trim_space Dict.get Dict.put Dict.empty
append-queue_example = append-queue any_json (event "b" "w") one one-IsConsistent refl refl

mark_published-queue_example :
    let s' = (mark_published none "a" one).1 in
    ((mark_published none "a" one).0 ≡ ok tt)
    × (queue s' ≡ select (λ e. not (e.id == "a")) (queue one))
    × IsConsistent s'
unfolding Dict.get Dict.put Dict.empty
mark_published-queue_example =
    mark_published-queue "a" one (record { event = event "a" "w"; published = false })
      one-IsConsistent refl refl
