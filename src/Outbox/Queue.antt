-- ===== src/Outbox/Queue.antt =====
-- internal/events/store.go: the outbox as the queue of the events that are not yet published, oldest
-- first. Each operation is an operation of the queue.
use runspace.Prelude.{
  ℕ, zero, suc, ◌≤◌, ◌<◌, ◌≡◌, refl, sym, ap, String, false, none, some, List, [], ◌∷◌, ◌++◌,
  append_assoc, append-nil, arith, ◌==◌, length, length-append, take, some_of, All, Bool-cases, inl,
  inr, eqb, if◌then◌else◌,
}
use runspace.Dict
use runspace.Dict.{Dict, get-put}
use runspace.Errors.{ok}
use runspace.Contracts.Event.{EventEnvelope}
use runspace.Outbox.{MemoryRecord, MemoryStore, record_at, pending, pending_from}

-- The unpublished events under a list of ids.
abbrev pub waiting : Dict MemoryRecord → List String → List EventEnvelope
waiting records [] = []
waiting records (id ∷ ids) =
    let rest = waiting records ids in
    if (record_at records id).published then rest else (record_at records id).event ∷ rest

abbrev pub queue : MemoryStore → List EventEnvelope
queue s = waiting s.records s.order

-- The ids are those of stored events, and none is listed twice.
abbrev pub Stored : Dict MemoryRecord → String → Type 0
Stored records id = (r : MemoryRecord) × (Dict.get records id ≡ some r) × (r.event.id ≡ id)

abbrev pub Distinct : List String → Type 0
Distinct [] = Unit {0}
Distinct (x ∷ xs) = (some_of (λ y. y == x) xs ≡ false) × Distinct xs

pub record IsConsistent (s : MemoryStore) : Type 0 where
  pub stored : All (Stored s.records) s.order
  pub distinct : Distinct s.order

take_all {ℓ} : {A : Type ℓ} (n : ℕ) (xs : List A) → length xs ≤ n → take n xs ≡ xs
take_all zero [] h = refl
take_all zero (x ∷ xs) h = absurd (omega arith)
take_all (suc n) [] h = refl
take_all (suc n) (x ∷ xs) h = ap (λ ys. x ∷ ys) (take_all n xs (omega arith))

take-length-append {ℓ} :
    {A : Type ℓ} (n : ℕ) (xs ys : List A) → length xs ≡ n → take n (xs ++ ys) ≡ xs
take-length-append zero [] ys h = refl
take-length-append zero (x ∷ xs) ys h = absurd (omega arith)
take-length-append (suc n) [] ys h = absurd (omega arith)
take-length-append (suc n) (x ∷ xs) ys h =
    ap (λ zs. x ∷ zs) (take-length-append n xs ys (omega arith))

pending_from-take :
    (records : Dict MemoryRecord) (limit : ℕ) (ids : List String) (result : List EventEnvelope)
    → length result < limit
    → pending_from records limit ids result ≡ take limit (result ++ waiting records ids)
unfolding pending_from
pending_from-take records limit [] result h =
    rw append-nil (sym (take_all limit result (omega arith)))
pending_from-take records limit (id ∷ ids) result h =
    let e = (record_at records id).event in
    let longer = result ++ e ∷ [] in
    let size = length-append result (e ∷ []) in
    elim (Bool-cases (record_at records id).published) [
      | inl done ↦ rw done (pending_from-take records limit ids result h)
      | inr new ↦
          rw (new, ← append_assoc result (e ∷ []) (waiting records ids))
            (elim (Bool-cases (eqb (length longer) limit)) [
              | inl full ↦ rw full (sym (take-length-append limit longer _ (ground (arith, size))))
              | inr room ↦
                  rw room (pending_from-take records limit ids longer (ground (arith, size)))
            ])
    ]

-- `Pending` returns the oldest unpublished events, as many as the limit allows, and changes nothing.
pub pending-queue :
    (s : MemoryStore) (limit : ℕ) → pending none limit s ≡ (ok (take limit (queue s)), s)
unfolding pending
pending-queue s zero = refl
pending-queue s (suc n) = ground (arith, pending_from-take s.records (suc n) s.order [])
