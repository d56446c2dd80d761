-- ===== src/Realtime/Channels/Dropping.antt =====
-- internal/realtime/hub.go: the list of subscribers when one is taken out.
use runspace.Prelude.{
  ℕ, ◌≡◌, refl, sym, ap, ◌∙◌, subst, ◌≢◌, ◌⊎◌, inl, inr, String, true, false, none, some, List, [],
  ◌∷◌, arith, get_elem?, some_of, All, Bool-cases, Option-cases, eqb,
}
use runspace.Realtime.{Feed, Subscriber, drop_subscriber}
use runspace.Realtime.Channels.{on_channel, IsLive, Apart}

-- What a subscriber list keeps when the subscriber of a channel is taken out.
pub dropped_none :
    (c : ℕ) (items : List Subscriber)
    → drop_subscriber c items ≡ none
    → some_of (on_channel c) items ≡ false
unfolding drop_subscriber
dropped_none c [] h = refl
dropped_none c (s ∷ items) h = ground (arith, dropped_none c items)

pub dropped_some :
    (c : ℕ) (items rest : List Subscriber)
    → drop_subscriber c items ≡ some rest
    → some_of (on_channel c) items ≡ true
unfolding drop_subscriber
dropped_some c [] rest h = ground arith
dropped_some c (s ∷ items) rest h = elim (Option-cases (drop_subscriber c items)) [
  | inl absent ↦ ground arith
  | inr (more, found) ↦ ground (arith, dropped_some c items more found)
]

dropped_others :
    (c d : ℕ) (items rest : List Subscriber)
    → drop_subscriber c items ≡ some rest
    → some_of (on_channel d) items ≡ false
    → some_of (on_channel d) rest ≡ false
unfolding drop_subscriber
dropped_others c d [] rest h a = ground arith
dropped_others c d (s ∷ items) rest h a = elim (Option-cases (drop_subscriber c items)) [
  | inl absent ↦ ground arith
  | inr (more, found) ↦ ground (arith, dropped_others c d items more found)
]

pub dropped_gone :
    (c : ℕ) (items rest : List Subscriber)
    → drop_subscriber c items ≡ some rest
    → Apart items
    → some_of (on_channel c) rest ≡ false
unfolding drop_subscriber
dropped_gone c [] rest h a = ground arith
dropped_gone c (s ∷ items) rest h (a, as') = elim (Option-cases (drop_subscriber c items)) [
  | inl absent ↦ ground arith
  | inr (more, found) ↦ ground (arith, dropped_gone c items more found as')
]

pub dropped-Apart :
    (c : ℕ) (items rest : List Subscriber)
    → drop_subscriber c items ≡ some rest
    → Apart items
    → Apart rest
unfolding drop_subscriber
dropped-Apart c [] rest h a = ground arith
dropped-Apart c (s ∷ items) rest h (a, as') = elim (Option-cases (drop_subscriber c items)) [
  | inl absent ↦ ground arith
  | inr (more, found) ↦
      ground
        (arith, dropped-Apart c items more found as', dropped_others c s.channel items more found a)
]

dropped_cases :
    (c : ℕ) (s : Subscriber) (items rest : List Subscriber)
    → drop_subscriber c (s ∷ items) ≡ some rest
    → (items ≡ rest)
      ⊎ ((more : List Subscriber) × (drop_subscriber c items ≡ some more) × (s ∷ more ≡ rest))
unfolding drop_subscriber
dropped_cases c s items rest h = elim (Option-cases (drop_subscriber c items)) [
  | inl absent ↦ inl (ground arith)
  | inr (more, found) ↦ elim (Bool-cases (eqb s.channel c)) [
    | inl here ↦ inl (ground arith)
    | inr elsewhere ↦ inr (more, found, ground arith)
  ]
]

pub dropped-IsLive :
    (feeds : List Feed) (k : String) (c : ℕ) (items rest : List Subscriber)
    → drop_subscriber c items ≡ some rest
    → All (IsLive feeds k) items
    → All (IsLive feeds k) rest
unfolding drop_subscriber
dropped-IsLive feeds k c [] rest h a = absurd (ground arith)
dropped-IsLive feeds k c (s ∷ items) rest h (l, ls) = elim (dropped_cases c s items rest h) [
  | inl same ↦ subst (All (IsLive feeds k)) same ls
  | inr (more, found, same) ↦
      subst (All (IsLive feeds k)) same (l, dropped-IsLive feeds k c items more found ls)
]

-- The feed that a live subscriber of the channel has, seen from the heap.
pub live_feed :
    (feeds : List Feed) (k : String) (c : ℕ) (f : Feed) (items : List Subscriber)
    → get_elem? feeds c ≡ some f
    → some_of (on_channel c) items ≡ true
    → All (IsLive feeds k) items
    → (f.closed ≡ false) × (f.workspace_id ≡ k)
live_feed feeds k c f [] at hit h = absurd (ground arith)
live_feed feeds k c f (s ∷ items) at hit (l, ls) = elim (Bool-cases (eqb s.channel c)) [
  | inl here ↦
      let same : l.feed ≡ f = ground (arith, l.at) in
      (
        ap (λ (g : Feed). g.closed) (sym same) ∙ l.is_open,
        ap (λ (g : Feed). g.workspace_id) (sym same) ∙ l.made_for,
      )
  | inr other ↦ live_feed feeds k c f items at (ground arith) ls
]

-- No list but that of the feed's own workspace names its channel.
pub not_on_other :
    (feeds : List Feed) (k : String) (c : ℕ) (f : Feed) (items : List Subscriber)
    → get_elem? feeds c ≡ some f
    → f.workspace_id ≢ k
    → All (IsLive feeds k) items
    → some_of (on_channel c) items ≡ false
not_on_other feeds k c f items at other h = elim (Bool-cases (some_of (on_channel c) items)) [
  | inl hit ↦ absurd (other (live_feed feeds k c f items at hit h).1)
  | inr miss ↦ miss
]
