-- ===== src/Realtime/Channels/Catchup.antt =====
-- internal/realtime/hub.go: a client that comes back, and the events published after it did.
use runspace.Prelude.{
  ℕ, ◌+◌, ◌≤◌, ◌≡◌, ◌⊎◌, inl, inr, ◌==◌, eq_iff, is_empty, false, Bool-cases, sym, subst, refl, ap,
  ◌∙◌, String, Bool, true, none, some, List, [], ◌∷◌, ◌++◌, append_assoc, append-nil, arith, length,
  length-append, get_elem?, some_of, All,
}
use runspace.Errors.{ok}
use runspace.Contracts.Event.{EventEnvelope, validate}
use runspace.Realtime.{
  Feed, MemoryHub, slice_at, publish, subscribe_since, replay_after, open_feed, contains_event,
}
use runspace.Realtime.Replay.{Unrepeated, replay_after-append, replay_after_unknown}
use runspace.Realtime.Channels.{on_channel, IsWired}
use runspace.Realtime.Channels.Delivery.{publish-delivers, publish_subscribers}
use runspace.Realtime.Channels.Lifetime.{subscribe_since-IsWired}

not_empty : (s : String) → ¬ (s ≡ "") → is_empty s ≡ false
not_empty String.[] h = absurd (h refl)
not_empty (String.◌∷◌ c s) h = refl

module _ (json_valid : String → Bool) where
  -- One publisher's events, one after the other.
  pub publish_all : List EventEnvelope → MemoryHub → MemoryHub
  publish_all [] hub = hub
  publish_all (e ∷ es) hub = publish_all es (publish json_valid none e hub).1

  abbrev pub IsFor : String → EventEnvelope → Type 0
  IsFor k e = (validate json_valid e ≡ ok tt) × (e.workspace_id ≡ k)

  burst :
      (k : String) (c : ℕ) (es : List EventEnvelope) (hub : MemoryHub) (f : Feed)
      → IsWired hub
      → get_elem? hub.feeds c ≡ some f
      → some_of (on_channel c) (slice_at hub.subscribers k) ≡ true
      → All (IsFor k) es
      → length f.buffer + length es ≤ f.capacity
      → get_elem? (publish_all es hub).feeds c ≡ some (record f { buffer = f.buffer ++ es })
  unfolding publish_all
  burst k c [] hub f w at hit v room = at ∙ rw append-nil refl
  burst k c (e ∷ es) hub f w at hit ((v, here), vs) room =
      burst k c es hub' longer (publish-delivers json_valid e hub w v).1 moved
        (rw (publish_subscribers json_valid e hub w v) hit) vs
        (omega (arith, length-append f.buffer (e ∷ [])))
      ∙ ap (λ b. some (record f { buffer = b })) (append_assoc f.buffer (e ∷ []) es)
    where
      hub' : MemoryHub
      hub' = (publish json_valid none e hub).1

      longer : Feed
      longer = record f { buffer = f.buffer ++ e ∷ [] }

      moved : get_elem? hub'.feeds c ≡ some longer
      moved = (publish-delivers json_valid e hub w v).2 c ∙ rw (here, hit, at) (ground arith)

  -- What comes after the event that `last` names in a history, or all of it if `last` is blank or
  -- names none.
  abbrev pub IsMissed : List EventEnvelope → String → List EventEnvelope → Type 0
  IsMissed history last missed =
      ((older : List EventEnvelope) × (e : EventEnvelope) × (history ≡ older ++ e ∷ missed)
        × (e.id ≡ last)
        × ¬ (last ≡ ""))
      ⊎ (((last ≡ "") ⊎ All (λ e. ¬ (e.id ≡ last)) history) × (missed ≡ history))

  no_event :
      (history : List EventEnvelope) (last : String)
      → All (λ e. ¬ (e.id ≡ last)) history
      → contains_event history last ≡ false
  no_event [] last h = refl
  no_event (e ∷ history) last (h, hs) = elim (Bool-cases (e.id == last)) [
    | inl same ↦ absurd (h ((eq_iff e.id last).0 same))
    | inr other ↦ ground (arith, other, no_event history last hs)
  ]

  replay_after-IsMissed :
      (history missed : List EventEnvelope) (last : String)
      → Unrepeated history
      → IsMissed history last missed
      → replay_after history last ≡ missed
  replay_after-IsMissed history missed last u (inl (older, e, split, this, named)) =
      ap (λ h. replay_after h last) split
      ∙ ap (replay_after (older ++ e ∷ missed)) (sym this)
      ∙ replay_after-append older missed e (not_empty e.id (λ h. named (sym this ∙ h)))
          (subst Unrepeated split u)
  replay_after-IsMissed history missed last u (inr (inl blank, all)) =
      replay_after_unknown history last (inl (ap is_empty blank)) ∙ sym all
  replay_after-IsMissed history missed last u (inr (inr new, all)) =
      replay_after_unknown history last (inr (no_event history last new)) ∙ sym all

  -- On a wired hub whose history of the workspace repeats no id, a client that subscribes with the id of
  -- the last event it saw, and reads after at most 32 further valid events for its workspace, finds in
  -- its channel the events of the history after that one, or the whole history if it names no event of
  -- it, and then every event published since, in order and none lost.
  pub subscribe_since-catches_up :
      (k last : String) (missed es : List EventEnvelope) (hub : MemoryHub)
      → IsWired hub
      → Unrepeated (slice_at hub.history k)
      → IsMissed (slice_at hub.history k) last missed
      → All (IsFor k) es
      → length es ≤ 32
      → get_elem? (publish_all es (subscribe_since none k last hub).1).feeds (length hub.feeds)
        ≡ some (record (open_feed k missed) { buffer = missed ++ es })
  subscribe_since-catches_up k last missed es hub w u before v few =
      subst
        (λ m.
          get_elem? (publish_all es (subscribe_since none k last hub).1).feeds (length hub.feeds)
          ≡ some (record (open_feed k m) { buffer = m ++ es }))
        (replay_after-IsMissed (slice_at hub.history k) missed last u before)
        (burst k (length hub.feeds) es (subscribe_since none k last hub).1 _
          (subscribe_since-IsWired k last hub w).3 (subscribe_since-IsWired k last hub w).1
          (subscribe_since-IsWired k last hub w).2 v (omega arith))
