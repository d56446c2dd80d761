-- ===== src/Realtime/Channels/Delivery.antt =====
-- internal/realtime/hub.go: what `Publish` puts into the channels.
use runspace.Errors.{ok}
use runspace.Prelude.{
  ℕ, ◌≡◌, refl, Option, none, some, List, [], ◌∷◌, arith, get_elem?, set, get_elem?-set,
  get_elem?-lt, some_of, eqb, if◌then◌else◌, Option-cases, Bool-cases, inl, inr, String, Bool, All,
}
use runspace.Contracts.Event.{EventEnvelope, validate}
use runspace.Realtime.{Feed, Subscriber, offer, send_all, publish, slice_at, remember, MemoryHub}
use runspace.Realtime.Channels.{on_channel, Apart, IsWired, IsLive}

abbrev pub offer_to : EventEnvelope → Option Feed → Option Feed
offer_to e none = none
offer_to e (some f) = some (offer e f)

abbrev offer_at : EventEnvelope → ℕ → Option Feed → List Feed → List Feed
offer_at e c none feeds = feeds
offer_at e c (some f) feeds = set feeds c (offer e f)

spread : EventEnvelope → List Subscriber → List Feed → List Feed
spread e [] feeds = feeds
spread e (s ∷ items) feeds = spread e items (offer_at e s.channel (get_elem? feeds s.channel) feeds)

get_elem?-offer_at :
    (e : EventEnvelope) (c j : ℕ) (feeds : List Feed)
    → get_elem? (offer_at e c (get_elem? feeds c) feeds) j
      ≡ (if eqb c j then offer_to e (get_elem? feeds j) else get_elem? feeds j)
get_elem?-offer_at e c j feeds = elim (Option-cases (get_elem? feeds c)) [
  | inl missing ↦ ground arith
  | inr (f, here) ↦
      ground (arith, get_elem?-set feeds c j (offer e f) (get_elem?-lt feeds c f here))
]

get_elem?-spread :
    (e : EventEnvelope) (j : ℕ) (items : List Subscriber) (feeds : List Feed)
    → Apart items
    → get_elem? (spread e items feeds) j
      ≡ (if some_of (on_channel j) items then offer_to e (get_elem? feeds j) else get_elem? feeds j)
unfolding spread
get_elem?-spread e j [] feeds a = refl
get_elem?-spread e j (s ∷ items) feeds (a, as') = ground (
  arith,
  get_elem?-offer_at e s.channel j feeds,
  get_elem?-spread e j items (offer_at e s.channel (get_elem? feeds s.channel) feeds) as',
)

IsLive-offer_at :
    (e : EventEnvelope) (c : ℕ) (feeds : List Feed) (k : String) (s : Subscriber)
    → IsLive feeds k s
    → IsLive (offer_at e c (get_elem? feeds c) feeds) k s
IsLive-offer_at e c feeds k s l = elim (Bool-cases (eqb c s.channel)) [
  | inl same ↦ record {
    feed = offer e l.feed;
    at = ground (arith, get_elem?-offer_at e c s.channel feeds, l.at);
    is_open = ground (arith, l.is_open);
    not_done = ground (arith, l.not_done);
    made_for = ground (arith, l.made_for);
  }
  | inr other ↦ record {
    feed = l.feed;
    at = ground (arith, get_elem?-offer_at e c s.channel feeds, l.at);
    is_open = l.is_open;
    not_done = l.not_done;
    made_for = l.made_for;
  }
]

lives-offer_at :
    (e : EventEnvelope) (c : ℕ) (feeds : List Feed) (k : String) (items : List Subscriber)
    → All (IsLive feeds k) items
    → All (IsLive (offer_at e c (get_elem? feeds c) feeds) k) items
lives-offer_at e c feeds k [] h = tt
lives-offer_at e c feeds k (s ∷ items) h =
    (IsLive-offer_at e c feeds k s h.0, lives-offer_at e c feeds k items h.1)

lives-spread :
    (e : EventEnvelope) (k : String) (items to : List Subscriber) (feeds : List Feed)
    → All (IsLive feeds k) items
    → All (IsLive (spread e to feeds) k) items
unfolding spread
lives-spread e k items [] feeds h = h
lives-spread e k items (s ∷ to) feeds h =
    lives-spread e k items to _ (lives-offer_at e s.channel feeds k items h)

-- With every channel open the sends do not panic.
send_all-spread :
    (e : EventEnvelope) (k : String) (items : List Subscriber) (hub : MemoryHub)
    → All (IsLive hub.feeds k) items
    → send_all e items hub ≡ (ok tt, record hub { feeds = spread e items hub.feeds })
unfolding send_all spread
send_all-spread e k [] hub h = refl
send_all-spread e k (s ∷ items) hub (l, ls) = ground (
  arith,
  l.at,
  l.is_open,
  send_all-spread e k items
      (record hub { feeds = offer_at e s.channel (get_elem? hub.feeds s.channel) hub.feeds })
      (lives-offer_at e s.channel hub.feeds k items ls),
)

module _ (json_valid : String → Bool) (e : EventEnvelope) (hub : MemoryHub) where
  publish-spread :
      IsWired hub
      → validate json_valid e ≡ ok tt
      → publish json_valid none e hub ≡ (
        ok tt,
        record hub {
          history = remember hub.history e;
          feeds = spread e (slice_at hub.subscribers e.workspace_id) hub.feeds;
        },
      )
  unfolding publish
  publish-spread w v = ground (
    arith,
    v,
    send_all-spread e e.workspace_id (slice_at hub.subscribers e.workspace_id)
        (record hub { history = remember hub.history e }) (w.live e.workspace_id),
  )

  pub publish_subscribers :
      IsWired hub
      → validate json_valid e ≡ ok tt
      → (publish json_valid none e hub).1.subscribers ≡ hub.subscribers
  publish_subscribers w v = rw (publish-spread w v)

  -- Publishing a valid event succeeds and panics on no channel: each channel that subscribes to the
  -- event's workspace is offered it once, which puts it last where there is room, every other
  -- channel is as before, and the hub stays wired.
  pub publish-delivers :
      IsWired hub
      → validate json_valid e ≡ ok tt
      → let hub' = (publish json_valid none e hub).1 in
        ((publish json_valid none e hub).0 ≡ ok tt)
        × IsWired hub'
        × ((c : ℕ)
            → get_elem? hub'.feeds c ≡ (
                if some_of (on_channel c) (slice_at hub.subscribers e.workspace_id)
                then offer_to e (get_elem? hub.feeds c)
                else get_elem? hub.feeds c))
  publish-delivers w v = rw (publish-spread w v) (
    refl,
    record {
      live = λ k. lives-spread e k (slice_at hub.subscribers k) to hub.feeds (w.live k);
      apart = w.apart;
    },
    λ c. get_elem?-spread e c to hub.feeds (w.apart e.workspace_id),
  )
    where
      to : List Subscriber
      to = slice_at hub.subscribers e.workspace_id
