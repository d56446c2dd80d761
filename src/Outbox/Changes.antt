-- ===== src/Outbox/Changes.antt =====
-- internal/events/store.go: what `Append` and `MarkPublished` do to the queue of the outbox.
use runspace.Prelude.{
  ◌≡◌, refl, ◌∙◌, inl, inr, String, Bool, true, false, not, Option, none, some, List, [], ◌∷◌, ◌++◌,
  arith, ◌==◌, eq_iff, eq_refl, select, some_of, some_of-append, All, All-append, Bool-cases,
}
use runspace.Dict
use runspace.Dict.{Dict, get-put}
use runspace.Errors.{Error, ok, err, events_duplicate}
use runspace.Contracts.Event.{EventEnvelope, validate}
use runspace.Outbox.{MemoryRecord, MemoryStore, append, mark_published}
use runspace.Outbox.Queue.{waiting, queue, Stored, Distinct, IsConsistent}

module _ (records : Dict MemoryRecord) (id : String) (r : MemoryRecord) where
  waiting-put_fresh :
      (ids : List String)
      → Dict.get records id ≡ none
      → All (Stored records) ids
      → waiting (Dict.put records id r) ids ≡ waiting records ids
  waiting-put_fresh [] h st = refl
  waiting-put_fresh (i ∷ ids) h ((x, here, named), st) =
      ground (arith, get-put records id i r, eq_iff id i, waiting-put_fresh ids h st)

  Stored-put :
      (ids : List String)
      → r.event.id ≡ id
      → All (Stored records) ids
      → All (Stored (Dict.put records id r)) ids
  Stored-put [] h st = tt
  Stored-put (i ∷ ids) h ((x, here, named), st) = (
    elim (Bool-cases (id == i)) [
      | inl same ↦ (r, rw (get-put, same) refl, h ∙ (eq_iff id i).0 same)
      | inr other ↦ (x, rw (get-put, other) here, named)
    ],
    Stored-put ids h st,
  )

  waiting-mark :
      (ids : List String)
      → Dict.get records id ≡ some r
      → All (Stored records) ids
      → waiting (Dict.put records id (record r { published = true })) ids
        ≡ select (λ e. not (e.id == id)) (waiting records ids)
  waiting-mark [] h st = refl
  waiting-mark (i ∷ ids) h ((x, here, named), st) = ground (
    arith,
    get-put records id i (record r { published = true }),
    eq_iff id i,
    eq_iff x.event.id id,
    waiting-mark ids h st,
  )

waiting-append :
    (records : Dict MemoryRecord) (xs ys : List String)
    → waiting records (xs ++ ys) ≡ waiting records xs ++ waiting records ys
waiting-append records [] ys = refl
waiting-append records (x ∷ xs) ys = ground (arith, waiting-append records xs ys)

Distinct-append :
    (xs : List String) (y : String)
    → some_of (λ x. x == y) xs ≡ false
    → Distinct xs
    → Distinct (xs ++ y ∷ [])
Distinct-append [] y h d = (refl, tt)
Distinct-append (x ∷ xs) y h d = (
  ground (arith, some_of-append (λ z. z == x) xs (y ∷ []), eq_iff x y, eq_iff y x),
  Distinct-append xs y (ground arith) d.1,
)

Stored-not_among :
    (records : Dict MemoryRecord) (id : String) (ids : List String)
    → Dict.get records id ≡ none
    → All (Stored records) ids
    → some_of (λ x. x == id) ids ≡ false
Stored-not_among records id [] h st = refl
Stored-not_among records id (i ∷ ids) h ((x, here, named), st) =
    ground (arith, eq_iff i id, Stored-not_among records id ids h st)

abbrev fresh : EventEnvelope → MemoryRecord
fresh e = record { event = e; published = false }

module _ (json_valid : String → Bool) (e : EventEnvelope) where
  append_duplicate :
      (s : MemoryStore) (r : MemoryRecord)
      → validate json_valid e ≡ ok tt
      → Dict.get s.records e.id ≡ some r
      → append json_valid none e s ≡ (err events_duplicate, s)
  unfolding append
  append_duplicate s r v old = ground arith

module _ (json_valid : String → Bool) (e : EventEnvelope) (s : MemoryStore) where
  append-order :
      validate json_valid e ≡ ok tt
      → Dict.get s.records e.id ≡ none
      → append json_valid none e s ≡ (
        ok tt,
        record { order = s.order ++ e.id ∷ []; records = Dict.put s.records e.id (fresh e) },
      )
  unfolding append
  append-order v new = ground arith

  -- Appending a valid event under a new id puts it behind the events that wait, and a second
  -- attempt with its id is refused as a duplicate and changes nothing.
  pub append-queue :
      IsConsistent s
      → validate json_valid e ≡ ok tt
      → Dict.get s.records e.id ≡ none
      → let s' = (append json_valid none e s).1 in
        ((append json_valid none e s).0 ≡ ok tt)
        × (queue s' ≡ queue s ++ e ∷ [])
        × IsConsistent s'
        × (append json_valid none e s' ≡ (err events_duplicate, s'))
  append-queue c v new = rw (append-order v new) (
    refl,
    rw (waiting-append (Dict.put s.records e.id (fresh e)) s.order (e.id ∷ [])) (
        ground
          (arith, waiting-put_fresh s.records e.id (fresh e) s.order new c.stored, stored_now)),
    record {
      stored =
          All-append (Stored (Dict.put s.records e.id (fresh e))) s.order e.id
            (Stored-put s.records e.id (fresh e) s.order refl c.stored) (fresh e, stored_now, refl);
      distinct =
          Distinct-append s.order e.id (Stored-not_among s.records e.id s.order new c.stored)
            c.distinct;
    },
    append_duplicate json_valid e _ (fresh e) v stored_now,
  )
    where
      stored_now : Dict.get (Dict.put s.records e.id (fresh e)) e.id ≡ some (fresh e)
      stored_now = rw (get-put, eq_refl)

module _ (id : String) (s : MemoryStore) (r : MemoryRecord) where
  mark_order :
      Dict.get s.records id ≡ some r
      → mark_published none id s
        ≡ (ok tt, record s { records = Dict.put s.records id (record r { published = true }) })
  unfolding mark_published
  mark_order h = ground arith

  -- Publishing a stored event takes exactly the events of its id out of the queue, and the ids stay
  -- stored and distinct.
  pub mark_published-queue :
      IsConsistent s
      → Dict.get s.records id ≡ some r
      → r.event.id ≡ id
      → let s' = (mark_published none id s).1 in
        ((mark_published none id s).0 ≡ ok tt)
        × (queue s' ≡ select (λ e. not (e.id == id)) (queue s))
        × IsConsistent s'
  mark_published-queue c h named = rw (mark_order h) (
    refl,
    waiting-mark s.records id r s.order h c.stored,
    record {
      stored = Stored-put s.records id (record r { published = true }) s.order named c.stored;
      distinct = c.distinct;
    },
  )

module _ (json_valid : String → Bool) (ctx : Option Error) (e : EventEnvelope)
    (s : MemoryStore) where
  -- An append that fails, for a dead context, an invalid event or a known id, changes nothing.
  append_refused :
      (x : Error) → (append json_valid ctx e s).0 ≡ err x → (append json_valid ctx e s).1 ≡ s
  unfolding append
  append_refused x h = ground arith
