-- ===== src/Realtime/Channels/Lifetime.antt =====
-- internal/realtime/hub.go: making a channel, closing it, and what reaches it in between.
use runspace.Errors.{ok}
use runspace.Dict.{get-put}
use runspace.Realtime.{
  Feed, Subscriber, MemoryHub, slice_at, subscribe_since, replay_after, open_feed,
}
use runspace.Realtime.Channels.{on_channel, IsLive, Apart, IsWired}
use runspace.Prelude.{
  ◌≡◌, refl, ◌∙◌, subst, inl, inr, String, true, false, none, some, List, [], ◌∷◌, ◌++◌, arith,
  ◌==◌, eq_iff, eq_refl, length, get_elem?, get_elem?-lt, get_elem?-length, get_elem?-append_left,
  some_of, some_of-append, All, All-append, Bool-cases,
}

lives_grow :
    (feeds : List Feed) (f : Feed) (k : String) (items : List Subscriber)
    → All (IsLive feeds k) items
    → All (IsLive (feeds ++ f ∷ []) k) items
lives_grow feeds f k [] h = tt
lives_grow feeds f k (s ∷ items) (l, ls) = (
  record {
    feed = l.feed;
    at =
        get_elem?-append_left feeds (f ∷ []) s.channel (get_elem?-lt feeds s.channel l.feed l.at)
        ∙ l.at;
    is_open = l.is_open;
    not_done = l.not_done;
    made_for = l.made_for;
  },
  lives_grow feeds f k items ls,
)

-- A channel beyond the heap is no subscriber's.
not_on_new :
    (feeds : List Feed) (k : String) (items : List Subscriber)
    → All (IsLive feeds k) items
    → some_of (on_channel (length feeds)) items ≡ false
not_on_new feeds k [] h = refl
not_on_new feeds k (s ∷ items) (l, ls) =
    ground (arith, get_elem?-lt feeds s.channel l.feed l.at, not_on_new feeds k items ls)

Apart-append :
    (items : List Subscriber) (s : Subscriber)
    → some_of (on_channel s.channel) items ≡ false
    → Apart items
    → Apart (items ++ s ∷ [])
Apart-append [] s h a = (refl, tt)
Apart-append (x ∷ items) s h a = (
  ground (arith, some_of-append (on_channel x.channel) items (s ∷ [])),
  Apart-append items s (ground arith) a.1,
)

module _ (workspace_id last : String) (hub : MemoryHub) where
  abbrev newcomer : Subscriber
  newcomer = record { workspace_id = workspace_id; channel = length hub.feeds }

  abbrev opened : Feed
  opened = open_feed workspace_id (replay_after (slice_at hub.history workspace_id) last)

  subscribed-IsLive :
      (k : String)
      → IsWired hub
      → All
          (IsLive (hub.feeds ++ opened ∷ []) k)
          (slice_at (subscribe_since none workspace_id last hub).1.subscribers k)
  unfolding subscribe_since
  subscribed-IsLive k w = elim (Bool-cases (workspace_id == k)) [
    | inl here ↦
        rw (get-put, here)
          (All-append (IsLive (hub.feeds ++ opened ∷ []) k) others newcomer
            (lives_grow hub.feeds opened k others (moved ((eq_iff workspace_id k).0 here)))
            (record {
              feed = opened;
              at = get_elem?-length hub.feeds opened;
              is_open = refl;
              not_done = refl;
              made_for = (eq_iff workspace_id k).0 here;
            }))
    | inr elsewhere ↦
        rw (get-put, elsewhere)
          (lives_grow hub.feeds opened k (slice_at hub.subscribers k) (w.live k))
  ]
    where
      others : List Subscriber
      others = slice_at hub.subscribers workspace_id

      moved : workspace_id ≡ k → All (IsLive hub.feeds k) others
      moved e = subst (λ j. All (IsLive hub.feeds j) others) e (w.live workspace_id)

  subscribed-Apart :
      (k : String)
      → IsWired hub
      → Apart (slice_at (subscribe_since none workspace_id last hub).1.subscribers k)
  unfolding subscribe_since
  subscribed-Apart k w = elim (Bool-cases (workspace_id == k)) [
    | inl here ↦
        rw (get-put, here)
          (Apart-append (slice_at hub.subscribers workspace_id) newcomer
            (not_on_new hub.feeds workspace_id (slice_at hub.subscribers workspace_id)
              (w.live workspace_id))
            (w.apart workspace_id))
    | inr elsewhere ↦ rw (get-put, elsewhere) (w.apart k)
  ]

  -- A new subscription gets a channel of its own that holds the replay and has room for 32 events
  -- more; it is among the workspace's subscribers, and the hub stays wired.
  pub subscribe_since-IsWired :
      IsWired hub
      → let (r, hub') = subscribe_since none workspace_id last hub in
        (r ≡ ok (length hub.feeds))
        × (get_elem? hub'.feeds (length hub.feeds) ≡ some opened)
        × (some_of (on_channel (length hub.feeds)) (slice_at hub'.subscribers workspace_id) ≡ true)
        × IsWired hub'
  unfolding subscribe_since
  subscribe_since-IsWired w = (
    refl,
    get_elem?-length hub.feeds opened,
    rw (get-put, eq_refl)
        (ground (
          arith,
          some_of-append (on_channel (length hub.feeds)) (slice_at hub.subscribers workspace_id)
              (newcomer ∷ []),
        )),
    record { live = λ k. subscribed-IsLive k w; apart = λ k. subscribed-Apart k w },
  )
